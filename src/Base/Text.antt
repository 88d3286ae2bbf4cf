-- ===== src/Base/Text.antt =====
-- Python strings as the lists of their characters' code points.
use Prim.Native.Char.{code}
use Prim.Native.String.{String}
use Prim.Native.Nat.{ℕ, zero, suc, ◌+◌, ◌-◌, ◌*◌, ◌/◌, ◌%◌, ◌<◌, ◌≤◌}
use mathlib.Core.Path.{◌≡◌, refl, ap, sym, ◌∙◌}
use mathlib.Core.Logic.{inl, inr}
use mathlib.Core.Bool.{Bool, true, false, ◌&&◌, ◌||◌}
use mathlib.Core.Option.{Option, none, some}
use mathlib.Core.List.{List, [], ◌∷◌, ◌++◌}
use native.Mathlib.Omega.{arith}
use simtix.Base.Tests.{leb, ltb, ◌==◌, if◌then◌else◌, ==→eq, ==_self, Bool-cases}

abbrev pub codes : String → List ℕ
codes String.[] = []
codes (String.◌∷◌ c s) = code c ∷ codes s

-- A string, and a sequence of strings.
abbrev pub Text : Type 0
Text = List ℕ

abbrev pub text_eq : Text → Text → Bool
text_eq [] [] = true
text_eq [] (d ∷ t) = false
text_eq (c ∷ s) [] = false
text_eq (c ∷ s) (d ∷ t) = (c == d) && text_eq s t

abbrev pub texts_eq : List Text → List Text → Bool
texts_eq [] [] = true
texts_eq [] (d ∷ t) = false
texts_eq (c ∷ s) [] = false
texts_eq (c ∷ s) (d ∷ t) = text_eq c d && texts_eq s t

and_left : (a b : Bool) → (a && b) ≡ true → a ≡ true
and_left true b e = refl
and_left false b e = e

and_right : (a b : Bool) → (a && b) ≡ true → b ≡ true
and_right true b e = e
and_right false true e = refl
and_right false false e = e

pub text_eq-eq : (s t : Text) → text_eq s t ≡ true → s ≡ t
text_eq-eq [] [] e = refl
text_eq-eq [] (d ∷ t) e = cc
text_eq-eq (c ∷ s) [] e = cc
text_eq-eq (c ∷ s) (d ∷ t) e =
    cc (==→eq c d (and_left (c == d) _ e), text_eq-eq s t (and_right (c == d) _ e))

pub text_eq_self : (s : Text) → text_eq s s ≡ true
text_eq_self [] = refl
text_eq_self (c ∷ s) = rw (==_self c) (text_eq_self s)

pub texts_eq-eq : (s t : List Text) → texts_eq s t ≡ true → s ≡ t
texts_eq-eq [] [] e = refl
texts_eq-eq [] (d ∷ t) e = cc
texts_eq-eq (c ∷ s) [] e = cc
texts_eq-eq (c ∷ s) (d ∷ t) e =
    cc (text_eq-eq c d (and_left (text_eq c d) _ e), texts_eq-eq s t (and_right (text_eq c d) _ e))

pub texts_eq_self : (s : List Text) → texts_eq s s ≡ true
texts_eq_self [] = refl
texts_eq_self (c ∷ s) = rw (text_eq_self c) (texts_eq_self s)

-- `s.startswith(p)`
abbrev pub starts_with : Text → Text → Bool
starts_with [] s = true
starts_with (d ∷ p) [] = false
starts_with (d ∷ p) (c ∷ s) = (d == c) && starts_with p s

-- `s.endswith(p)`
abbrev pub ends_with : Text → Text → Bool
ends_with p [] = text_eq p []
ends_with p (c ∷ s) = text_eq p (c ∷ s) || ends_with p s

-- `p in s`
abbrev pub contains : Text → Text → Bool
contains p [] = starts_with p []
contains p (c ∷ s) = starts_with p (c ∷ s) || contains p s

-- `s.split(sep)` for a separator of one character; `field` is the part read so far.
abbrev pub split_from : ℕ → Text → Text → List Text
split_from sep field [] = field ∷ []
split_from sep field (c ∷ s) =
    let cut = field ∷ split_from sep [] s in
    let go = split_from sep (field ++ c ∷ []) s in if c == sep then cut else go

abbrev pub split : ℕ → Text → List Text
split sep s = split_from sep [] s

-- The white space of ASCII.
abbrev is_blank : ℕ → Bool
is_blank c = (c == 32) || (leb 9 c && leb c 13)

abbrev strip_left : Text → Text
strip_left [] = []
strip_left (c ∷ s) = let rest = strip_left s in if is_blank c then rest else c ∷ s

abbrev strip_right : Text → Text
strip_right [] = []
strip_right (c ∷ s) = strip_end c (strip_right s)
  where
    strip_end : ℕ → Text → Text
    strip_end c [] = if is_blank c then [] else c ∷ []
    strip_end c (d ∷ s) = c ∷ d ∷ s

-- `s.strip()`
abbrev pub strip : Text → Text
strip s = strip_right (strip_left s)

-- `int(s)` of decimal digits; `none` is the ValueError of other texts (signs, blanks and underscores,
-- which `int` also takes, do not stand in the files that are read).
abbrev digits_from : ℕ → Text → Option ℕ
digits_from n [] = some n
digits_from n (c ∷ s) =
    let rest = digits_from (n * 10 + (c - b'0')) s in
    if leb b'0' c && leb c b'9' then rest else none

abbrev pub parse_int : Text → Option ℕ
parse_int [] = none
parse_int (c ∷ s) = digits_from 0 (c ∷ s)

-- Two sequences that the test tells apart.
pub texts_apart : (k l : List Text) → texts_eq k l ≡ false → k ≡ l → ⊥
texts_apart k l h e = cc (texts_eq_self k, h, e)

pub texts_eq_flip : (k l : List Text) → texts_eq k l ≡ false → texts_eq l k ≡ false
texts_eq_flip k l h = elim (Bool-cases (texts_eq l k)) [
  | inl same ↦ absurd (texts_apart k l h (sym (texts_eq-eq l k same)))
  | inr other ↦ other
]

-- `str(n)`, on fuel for the digits.
unfoldable pub str_from : ℕ → ℕ → Text → Text
str_from zero n acc = acc
str_from (suc fuel) n acc =
    let more = str_from fuel (n / 10) ((b'0' + n % 10) ∷ acc) in
    if ltb n 10 then (b'0' + n) ∷ acc else more

unfoldable pub str : ℕ → Text
unfolding str_from
str n = str_from (suc n) n []

digit-digits_from :
    (m d : ℕ) (acc : Text)
    → d < 10
    → digits_from m ((b'0' + d) ∷ acc) ≡ digits_from (m * 10 + d) acc
digit-digits_from m d acc h =
    let value : b'0' + d - b'0' ≡ d = omega arith in
    let low : leb b'0' (b'0' + d) ≡ true = ground arith in
    let high : leb (b'0' + d) b'9' ≡ true = ground arith in rw (low, high, value) refl

digits_from-str_from :
    (fuel n : ℕ) (acc : Text) → n < fuel → digits_from 0 (str_from fuel n acc) ≡ digits_from n acc
unfolding str_from
digits_from-str_from zero n acc h = absurd (omega (arith, h))
digits_from-str_from (suc fuel) n acc h = elim (Bool-cases (ltb n 10)) [
  | inl small ↦
      let h' : n < 10 = ground arith in
      rw small (digit-digits_from 0 n acc h' ∙ ap (λ m. digits_from m acc) (omega arith))
  | inr large ↦
      let whole : n / 10 * 10 + n % 10 ≡ n = omega arith in
      let ten : 10 ≤ n = ground arith in
      let more : n / 10 < fuel = omega (arith, h, ten) in
      rw large (
        digits_from-str_from fuel (n / 10) ((b'0' + n % 10) ∷ acc) more
        ∙ digit-digits_from (n / 10) (n % 10) acc (omega arith)
        ∙ ap (λ m. digits_from m acc) whole)
]

str_from_cons :
    (fuel n : ℕ) (acc : Text) → (c : ℕ) × (s : Text) × (str_from (suc fuel) n acc ≡ c ∷ s)
unfolding str_from
str_from_cons zero n acc = elim (Bool-cases (ltb n 10)) [
  | inl small ↦ (b'0' + n, acc, rw small refl)
  | inr large ↦ (b'0' + n % 10, acc, rw large refl)
]
str_from_cons (suc fuel) n acc = elim (Bool-cases (ltb n 10)) [
  | inl small ↦ (b'0' + n, acc, rw small refl)
  | inr large ↦
      let (c, s, e) = str_from_cons fuel (n / 10) ((b'0' + n % 10) ∷ acc) in
      (c, s, rw (large, e) refl)
]

-- Reading what was printed.
pub parse_int-str : (n : ℕ) → parse_int (str n) ≡ some n
unfolding str
parse_int-str n =
    let (c, s, e) = str_from_cons n n [] in
    let read : digits_from 0 (str_from (suc n) n []) ≡ some n =
      digits_from-str_from (suc n) n [] (omega arith) in
    rw e (sym (ap (digits_from 0) e) ∙ read)
