-- ===== src/Apps/Logic/Held.antt =====
-- What a case of sim/gen_apps.py holds and expects, and how it grows.
use simtix.Base.{ℕ, ◌+◌, ◌*◌, ◌≤◌, ◌≡◌, ap, ◌∙◌, List, some, lookup, get_elem?, arith}
use simtix.Base.Int.{ℤ, to_word}
use simtix.Ddr.{Image}
use simtix.Ddr.Layout.{IsImage}
use simtix.Ddr.Case.{Case, new_case}
use Prim.Native.String.{String}

-- The image holds the words of `vals` from `addr` on.
abbrev pub Holds : Case → ℕ → List ℤ → Type 0
Holds c addr vals =
    (i : ℕ) (v : ℤ)
    → get_elem? vals i ≡ some v
    → lookup (addr + 4 * i) c.img.words ≡ some (to_word v)

-- The words of `vals` are expected from `addr` on.
abbrev pub Expects : Case → ℕ → List ℤ → Type 0
Expects c addr vals =
    (i : ℕ) (v : ℤ) → get_elem? vals i ≡ some v → lookup (addr + 4 * i) c.gold ≡ some (to_word v)

-- Every expected word has a place in the image.
abbrev GoldInImage : Case → Type 0
GoldInImage c = (a w : ℕ) → lookup a c.gold ≡ some w → (v : ℕ) × (lookup a c.img.words ≡ some v)

pub record IsValid (c : Case) : Type 0 where
  pub image : IsImage c.img
  pub golden : GoldInImage c

-- `c` grows to `c'`: no word of the image changes, and the area grows.
pub record Grows (c c' : Case) : Type 0 where
  pub keeps : (a w : ℕ) → lookup a c.img.words ≡ some w → lookup a c'.img.words ≡ some w
  pub top_le : c.img.top ≤ c'.img.top

pub Grows-refl : (c : Case) → Grows c c
Grows-refl c = record { keeps = λ a w h. h; top_le = omega arith }

pub Grows-trans : {c d e : Case} → Grows c d → Grows d e → Grows c e
Grows-trans p q = record {
  keeps = λ a w h. q.keeps a w (p.keeps a w h);
  top_le = omega (arith, p.top_le, q.top_le);
}

pub Holds-Grows :
    {c d : Case} (addr : ℕ) (vals : List ℤ) → Holds c addr vals → Grows c d → Holds d addr vals
Holds-Grows addr vals h g i v e = g.keeps (addr + 4 * i) (to_word v) (h i v e)

pub Grows-of_same : {c d : Case} → d.img ≡ c.img → Grows c d
Grows-of_same e = record {
  keeps = λ a w h. ap (λ (img : Image). lookup a img.words) e ∙ h;
  top_le = omega (arith, ap (λ (img : Image). img.top) e);
}

pub new_case-IsValid : (app : String) (sizes : List ℕ) → IsValid (new_case app sizes)
new_case-IsValid app sizes = record {
  image = record { base_le = omega arith; aligned = omega arith; inside = λ a w h. cc };
  golden = λ a w h. cc;
}

-- A parameter block in the image.
pub record IsBlock (c : Case) (p : ℕ) (params : List ℤ) : Type 0 where
  pub holds : Holds c p params

pub IsBlock-Grows :
    {c d : Case} {p : ℕ} {params : List ℤ} → IsBlock c p params → Grows c d → IsBlock d p params
IsBlock-Grows {p} {params} h g = record { holds = Holds-Grows p params h.holds g }
