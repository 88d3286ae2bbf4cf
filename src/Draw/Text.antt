-- ===== src/Draw/Text.antt =====
-- The size of a label in docs/figs/datapath_tikz/dp_engine.py (plain, text_wh). A text is the list of
-- its characters' code points.
use simtix.Base.Text.{codes}
use simtix.Base.{
  ℕ, zero, suc, ◌*◌, List, [], ◌∷◌, ◌++◌, map, Option, none, some, Bool, true, false, ◌&&◌, ◌||◌,
  ltb, leb, ◌==◌, if◌then◌else◌, length,
}

-- What stands in the patterns of `re.sub`: a fixed text, characters of a class, none or more of them
-- or one or more, and one of some words up to a word's end (`\b`).
pub data Piece : Type 0 where
  literal : List ℕ → Piece
  one_of star plus : (ℕ → Bool) → Piece
  any_word : List (List ℕ) → Piece

abbrev is_letter : ℕ → Bool
is_letter c = (leb b'a' c && leb c b'z') || (leb b'A' c && leb c b'Z')

abbrev is_digit : ℕ → Bool
is_digit c = leb b'0' c && leb c b'9'

abbrev in_text : List ℕ → ℕ → Bool
in_text [] c = false
in_text (d ∷ ds) c = (c == d) || in_text ds c

-- `\b` after a letter
abbrev ends_word : List ℕ → Bool
ends_word [] = true
ends_word (c ∷ s) = if is_letter c || is_digit c || (c == b'_') then false else true

unfoldable after_literal : List ℕ → List ℕ → Option (List ℕ)
after_literal [] s = some s
after_literal (d ∷ ds) [] = none
after_literal (d ∷ ds) (c ∷ s) = let rest = after_literal ds s in if c == d then rest else none

unfoldable skip_class : (ℕ → Bool) → List ℕ → List ℕ
skip_class p [] = []
skip_class p (c ∷ s) = let rest = skip_class p s in if p c then rest else c ∷ s

unfoldable after_word : List (List ℕ) → List ℕ → Option (List ℕ)
unfolding after_literal
after_word [] s = none
after_word (w ∷ ws) s =
    let others = after_word ws s in
    elim (after_literal w s) [
      | none ↦ others
      | some rest ↦ if ends_word rest then some rest else others
    ]

-- What is left of the text after the piece, if it stands at the front. No class here holds the
-- character that the pattern goes on with, so the longest match is the one.
unfoldable after_piece : Piece → List ℕ → Option (List ℕ)
unfolding after_literal skip_class after_word
after_piece (literal d) s = after_literal d s
after_piece (one_of p) [] = none
after_piece (one_of p) (c ∷ s) = if p c then some s else none
after_piece (star p) s = some (skip_class p s)
after_piece (plus p) [] = none
after_piece (plus p) (c ∷ s) = if p c then some (skip_class p s) else none
after_piece (any_word ws) s = after_word ws s

unfoldable after_match : List Piece → List ℕ → Option (List ℕ)
unfolding after_piece
after_match [] s = some s
after_match (p ∷ ps) s = elim (after_piece p s) [ none ↦ none | some rest ↦ after_match ps rest ]

-- `re.sub(pattern, repl, s)`, on fuel for each character.
unfoldable sub_from : ℕ → List Piece → List ℕ → List ℕ → List ℕ
unfolding after_match
sub_from zero ps repl s = s
sub_from (suc fuel) ps repl [] = []
sub_from (suc fuel) ps repl (c ∷ s) = elim (after_match ps (c ∷ s)) [
  | none ↦ c ∷ sub_from fuel ps repl s
  | some rest ↦ repl ++ sub_from fuel ps repl rest
]

unfoldable re_sub : List Piece → List ℕ → List ℕ → List ℕ
unfolding sub_from
re_sub ps repl s = sub_from (length s) ps repl s

-- `[^}]`
abbrev not_brace : ℕ → Bool
not_brace c = if c == b'}' then false else true

abbrev style_words : List (List ℕ)
style_words = map codes (
    "tiny" ∷ "scriptsize" ∷ "footnotesize" ∷ "small" ∷ "bfseries" ∷ "itshape" ∷ "mathrm" ∷ "textit"
    ∷ "textbf" ∷ "texttt" ∷ "mathit" ∷ "overline" ∷ [])

abbrev sign_words : List (List ℕ)
sign_words = map codes (
    "times" ∷ "ne" ∷ "neq" ∷ "ge" ∷ "le" ∷ "gets" ∷ "to" ∷ "sim" ∷ "cdot" ∷ "ll" ∷ "gg" ∷ "lnot"
    ∷ "land" ∷ "lor" ∷ "oplus" ∷ "pm" ∷ "ell" ∷ "rightarrow" ∷ "leftarrow" ∷ [])

-- `\`
abbrev backslash : List ℕ
backslash = 92 ∷ []

unfoldable pub plain : List ℕ → List ℕ
unfolding re_sub
plain s =
    let s1 =
      re_sub
        (literal (backslash ++ codes "fontsize{")
          ∷ star not_brace
          ∷ literal (codes "}{")
          ∷ star not_brace
          ∷ literal (codes "}" ++ backslash ++ codes "selectfont")
          ∷ [])
        [] s in
    let s2 = re_sub (literal backslash ∷ any_word style_words ∷ []) [] s1 in
    let s3 = re_sub (literal backslash ∷ any_word sign_words ∷ []) (codes "x") s2 in
    let s4 = re_sub (literal backslash ∷ plus is_letter ∷ []) [] s3 in
    let s5 =
      re_sub
        (literal (codes "[")
          ∷ plus (λ c. is_digit c || in_text (codes "-.") c)
          ∷ literal (codes "pt]")
          ∷ [])
        [] s4 in
    re_sub (one_of (in_text (codes "{}$^_" ++ backslash)) ∷ []) [] s5

-- `text.split(r'\\')`: `line` is the part read so far, `held` tells of one backslash behind it.
unfoldable split_breaks : List ℕ → Bool → List ℕ → List (List ℕ)
split_breaks line held [] = (if held then line ++ backslash else line) ∷ []
split_breaks line held (c ∷ s) =
    let cut = line ∷ split_breaks [] false s in
    let hold = split_breaks line true s in
    let go = split_breaks ((if held then line ++ backslash else line) ++ c ∷ []) false s in
    if c == 92 then (if held then cut else hold) else go

unfoldable pub split_lines : List ℕ → List (List ℕ)
unfolding split_breaks
split_lines s = split_breaks [] false s

abbrev max_length : List (List ℕ) → ℕ
max_length [] = 0
max_length (s ∷ ss) = let n = length (plain s) in let m = max_length ss in if ltb m n then n else m

-- Width and height in units of 10⁻⁹ mm, `pt` in tenths of a point.
unfoldable pub text_wh : List ℕ → ℕ → ℕ × ℕ
unfolding split_lines
text_wh text pt =
    let lines = split_lines text in
    (max_length lines * (20_000_000 * pt), length lines * (42_000_000 * pt))
