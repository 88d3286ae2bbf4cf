-- ===== src/Apps/Output/Covered.antt =====
-- The files of a well-formed case can be checked: they are written, and every expected word is a
-- word of the memory image.
use mathlib.Core.Path.{subst₂}
use mathlib.Core.Option.{some-injective}
use simtix.Base.{
  ℕ, ◌-◌, ◌*◌, ◌≤◌, ◌<◌, ◌≡◌, refl, sym, ap, ◌∙◌, ◌⊎◌, inl, inr, List, [], ◌∷◌, none, some, le→leb,
  lt→leb, Dict, lookup, keys, mem-keys, keys-lookup, ◌∈◌,
}
use simtix.Base.Sort.{sorted, mem-sorted, sorted-mem}
use simtix.Ddr.{ddr_base, word_index}
use simtix.Ddr.Readmemh.{readmemh}
use simtix.Ddr.Readmemh.RoundTrip.{IsCopy, readmemh-write}
use simtix.Ddr.Case.{Case}
use simtix.Apps.Logic.{IsValid}
use simtix.Apps.Output.{GoldLine, gold_lines, Files, case_lines, case_files}

-- A line is in a file.
abbrev IsLine : GoldLine → List GoldLine → Type 0
IsLine l [] = ⊥
IsLine l (x ∷ ls) = (l ≡ x) ⊎ IsLine l ls

-- The lines are the words of `gold` at the addresses, by their indices.
record Lists (size : ℕ) (addrs : List ℕ) (gold : Dict ℕ) (ls : List GoldLine) : Type 0 where
  each :
      (l : GoldLine)
      → IsLine l ls
      → (a : ℕ) × (a ∈ addrs) × (lookup a gold ≡ some l.value) × (l.index ≡ word_index size a)
  all :
      (a v : ℕ)
      → a ∈ addrs
      → lookup a gold ≡ some v
      → IsLine (record { index = word_index size a; value = v }) ls

gold_lines-Lists :
    (size : ℕ) (addrs : List ℕ) (gold : Dict ℕ)
    → ((a : ℕ) → a ∈ addrs → (v : ℕ) × (lookup a gold ≡ some v))
    → (ls : List GoldLine) × (gold_lines size addrs gold ≡ some ls) × Lists size addrs gold ls
unfolding gold_lines
gold_lines-Lists size [] gold h =
    ([], refl, record { each = λ l m. elim m [ ]; all = λ a v m e. elim m [ ] })
gold_lines-Lists size (a ∷ addrs) gold h =
    let (v, e) = h a (inl refl) in
    let (ls, f, p) = gold_lines-Lists size addrs gold (λ b m. h b (inr m)) in
    (
      record { index = word_index size a; value = v } ∷ ls,
      rw (e, f, gold_lines) refl,
      record {
        each = λ l m. elim m [
          | inl same ↦ (
            a,
            inl refl,
            e ∙ ap (λ (x : GoldLine). some x.value) (sym same),
            ap (λ (x : GoldLine). x.index) same,
          )
          | inr later ↦ let (b, mb, eb, ib) = p.each l later in (b, inr mb, eb, ib)
        ];
        all = λ b u m eb. elim m [
          | inl same ↦ inl (
              subst₂
                (λ t x.
                  ◌≡◌ {A = GoldLine} (record { index = word_index size b; value = u })
                    (record { index = word_index size t; value = x }))
                same (some-injective _ _ (sym eb ∙ ap (λ (t : ℕ). lookup t gold) same ∙ e)) refl)
          | inr later ↦ inr (p.all b u later eb)
        ];
      },
    )

-- What the files of a case hold.
pub record IsFiles (size : ℕ) (c : Case) (f : Files) : Type 0 where
  pub image : IsCopy size c.img (readmemh 0 f.mem [])
  pub covered :
      (l : GoldLine) → IsLine l f.gold → (u : ℕ) × (lookup l.index (readmemh 0 f.mem []) ≡ some u)
  pub complete :
      (a v : ℕ)
      → lookup a c.gold ≡ some v
      → IsLine (record { index = word_index size a; value = v }) f.gold

-- For a well-formed case whose buffers fit the memory of `size` words, the files are written: the
-- memory file holds the image, every line of the expected file has the index of a word that the
-- memory file loads, and every expected word of the case has its line.
pub case_files-IsFiles :
    (size : ℕ) (c : Case)
    → IsValid c
    → c.img.top - ddr_base ≤ 4 * size
    → (f : Files) × (case_files size c ≡ some f) × IsFiles size c f
unfolding case_files
case_files-IsFiles size c v fits =
    let (mem, wrote, copy) = readmemh-write size c.img v.image fits in
    let (ls, listed, p) =
      gold_lines-Lists size (sorted (keys c.gold)) c.gold
        (λ a m. keys-lookup a c.gold (mem-sorted a (keys c.gold) m)) in
    (
      record { mem = mem; gold = ls; manifest = case_lines c },
      rw (le→leb (c.img.top - ddr_base) (4 * size) fits, wrote, listed) refl,
      record {
        image = copy;
        covered = λ l m.
            let (a, ma, e, i) = p.each l m in
            let (u, held) = v.golden a l.value e in
            (u, ap (λ (t : ℕ). lookup t (readmemh 0 mem [])) i ∙ copy.stored a u held);
        complete = λ a w e. p.all a w (sorted-mem a (keys c.gold) (mem-keys a w c.gold e)) e;
      },
    )

-- A case whose buffers do not fit is refused.
case_files_refuses :
    (size : ℕ) (c : Case) → 4 * size < c.img.top - ddr_base → case_files size c ≡ none
unfolding case_files
case_files_refuses size c h = rw (lt→leb (c.img.top - ddr_base) (4 * size) h) refl
