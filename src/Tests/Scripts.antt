-- ===== src/Tests/Scripts.antt =====
-- Runs of the figure scripts, and an example of each result on them.
use simtix.Base.{true, false, Option, none, some, [], ◌∷◌, ◌≡◌, refl, inl}
use simtix.Base.Int.{◌+ℤ◌, ◌-ℤ◌, ◌*ℤ◌, min_of, max_of}
use simtix.Draw.Text.{text_wh, split_lines, plain}
use simtix.Draw.Figure.{Fig, bounds, wire_segments}
use simtix.Draw.Wires.{wire, label, stub}
use simtix.Draw.Shapes.{box, reg_block, mux_block, bar, group}
use simtix.Draw.Curves.{alu, circ, gate_block}
use simtix.Draw.Compact.{shift}
use simtix.Draw.Crossings.{Crossing, crossings}
use simtix.Draw.Call.{empty_fig}
use simtix.Draw.Emit.{emit_figure}
use simtix.Draw.Drawn.{IsDrawn, emit_figure-IsDrawn}
use simtix.Draw.Script.{Drawing, blank, mm, t, run_script}
use simtix.Draw.Figures.Main.{chip_figure, datapath_figure}

abbrev or_blank : Option Drawing → Drawing
or_blank none = blank
or_blank (some d) = d

-- No call of the scripts fails, and no text overflows its box.
abbrev chip_drawing : Drawing
chip_drawing = or_blank (run_script chip_figure blank)

abbrev datapath_drawing : Drawing
datapath_drawing = or_blank (run_script datapath_figure blank)

chip_runs : run_script chip_figure blank ≡ some chip_drawing
unfolding run_script box group wire bounds min_of max_of stub reg_block mux_block ◌+ℤ◌ ◌-ℤ◌ ◌*ℤ◌
chip_runs = refl

datapath_runs : run_script datapath_figure blank ≡ some datapath_drawing
unfolding run_script box group wire bounds min_of max_of stub reg_block mux_block ◌+ℤ◌ ◌-ℤ◌ ◌*ℤ◌
    circ bar label alu gate_block shift
datapath_runs = refl

chip_fits : chip_drawing.fig.warn ≡ []
unfolding run_script box group wire bounds min_of max_of stub reg_block mux_block ◌+ℤ◌ ◌-ℤ◌ ◌*ℤ◌
    text_wh split_lines plain t
chip_fits = refl

datapath_fits : datapath_drawing.fig.warn ≡ []
unfolding run_script box group wire bounds min_of max_of stub reg_block mux_block ◌+ℤ◌ ◌-ℤ◌ ◌*ℤ◌
    circ bar label alu gate_block shift text_wh split_lines plain t
datapath_fits = refl

-- Two nets that cross at (5, 4).
abbrev crossed : Fig
crossed = record empty_fig {
  nets =
      (
        "a",
        record {
          lines = record { pts = (mm 9, mm 4) ∷ (mm 1, mm 4) ∷ []; arrow = true } ∷ [];
          style = "sig";
        },
      )
      ∷ (
        "b",
        record {
          lines = record { pts = (mm 5, mm 1) ∷ (mm 5, mm 8) ∷ []; arrow = false } ∷ [];
          style = "bus";
        },
      )
      ∷ [];
}

abbrev the_crossing : Crossing
the_crossing = record { x = mm 5; y = mm 4; horizontal = "a"; vertical = "b" }

emit_figure-IsDrawn_example : IsDrawn (emit_figure crossed).0 the_crossing
unfolding emit_figure crossings wire_segments ◌-ℤ◌ ◌+ℤ◌ min_of max_of
emit_figure-IsDrawn_example = emit_figure-IsDrawn crossed the_crossing (inl refl)
