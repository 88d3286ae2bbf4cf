-- ===== src/Apps/Logic/Steps.antt =====
-- What alloc, launch and expect of sim/gen_apps.py do to a case.
use simtix.Base.{
  ℕ, zero, suc, ◌+◌, ◌*◌, ◌%◌, ◌≤◌, ◌<◌, ◌≡◌, refl, ap, ◌∙◌, inl, inr, List, [], ◌∷◌, ◌++◌, Option,
  some, lookup, length, length-map, get_elem?_of_lt, arith,
}
use simtix.Base.Int.{ℤ, ints, to_word}
use simtix.Kernels.{Kernel, slot_of}
use simtix.Ddr.{Image, init_or_zeros, store_words}
use simtix.Ddr.Layout.{
  Allocated, alloc-Allocated, store_words_below, store_words_above, store_words_at,
  store_words_from,
}
use simtix.Ddr.Case
use simtix.Ddr.Case.{Case, Tag, Launch, new_case}
use simtix.Apps.Gen.{draws, Config, Run, alloc_words, launch, expect}
use simtix.Apps.Logic.Held.{Holds, Expects, IsValid, Grows}
use simtix.Apps.Logic.Runs.{Ensures, ensures}

module _ {S : Type 0} where
  -- What an allocation does.
  pub record Allocates (r : Run S) (vals : List ℤ) (addr : ℕ) (r' : Run S) : Type 0 where
    pub placed : addr ≡ r.case.img.top
    pub line : addr % 32 ≡ 0
    pub holds : Holds r'.case addr vals
    pub room : addr + 4 * length vals ≤ r'.case.img.top
    pub grows : Grows r.case r'.case
    pub same_gold : r'.case.gold ≡ r.case.gold
    pub same_launches : r'.case.launches ≡ r.case.launches
    pub same_rng : r'.rng ≡ r.rng
    pub valid : IsValid r'.case

  allocated :
      (r : Run S) (vals : List ℤ) (img' : Image)
      → IsValid r.case
      → Allocated r.case.img r.case.img.top vals img'
      → r.case.img.top % 32 ≡ 0
      → Allocates r vals r.case.img.top (record r { case = record (r.case) { img = img' } })
  allocated r vals img' v p line = record {
    placed = refl;
    line = line;
    holds = p.filled;
    room = p.room;
    grows = record { keeps = keeps; top_le = omega (arith, p.room) };
    same_gold = refl;
    same_launches = refl;
    same_rng = refl;
    valid = record {
      image = p.valid;
      golden = λ a w h. let (u, e) = v.golden a w h in (u, keeps a u e);
    };
  }
    where
      keeps : (a w : ℕ) → lookup a r.case.img.words ≡ some w → lookup a img'.words ≡ some w
      keeps a w h = p.kept a (v.image.inside a w h).1 ∙ h

  pub alloc_words-Ensures :
      (n : ℕ) (init : Option (List ℤ)) (r : Run S)
      → IsValid r.case
      → length (init_or_zeros n init) ≡ n
      → Ensures (Allocates r (init_or_zeros n init)) (alloc_words n init r)
  unfolding alloc_words
  alloc_words-Ensures n init r v len =
      let (img', e, p, line) = alloc-Allocated n init r.case.img v.image len in
      rw (e, alloc_words) (ensures (allocated r (init_or_zeros n init) img' v p line))

  -- What a launch does: the parameter block is allocated, and the launch is the last of the list.
  pub record Launches (r : Run S) (tg : Tag) (slot : ℕ) (params : List ℤ) (threads blk : ℕ)
      (r' : Run S) : Type 0 where
    pub block : ℕ
    pub listed :
        r'.case.launches
        ≡ r.case.launches
          ++ record { tag = tg; slot = slot; params = block; threads = threads; blk = blk } ∷ []
    pub line : block % 32 ≡ 0
    pub holds : Holds r'.case block params
    pub grows : Grows r.case r'.case
    pub same_gold : r'.case.gold ≡ r.case.gold
    pub same_rng : r'.rng ≡ r.rng
    pub valid : IsValid r'.case

  pub launch-Ensures :
      (cfg : Config) (tg : Tag) (k : Kernel) (params : List ℤ) (threads blk slot : ℕ) (r : Run S)
      → IsValid r.case
      → slot_of cfg.slots k ≡ some slot
      → Ensures
          (λ _ r'. Launches r tg slot params threads blk r')
          (launch cfg tg k params threads blk r)
  unfolding launch Case.launch
  launch-Ensures cfg tg k params threads blk slot r v found =
      let (img', e, p, line) =
        alloc-Allocated (length params) (some params) r.case.img v.image refl in
      let q = allocated r params img' v p line in
      rw (e, found, launch, Case.launch)
        (ensures (record {
          block = r.case.img.top;
          listed = refl;
          line = line;
          holds = q.holds;
          grows = record { keeps = q.grows.keeps; top_le = q.grows.top_le };
          same_gold = refl;
          same_rng = refl;
          valid = record { image = q.valid.image; golden = q.valid.golden };
        }))

  -- What an expectation does: it changes the expected words of its range and nothing else.
  pub record Expected (r : Run S) (addr : ℕ) (vals : List ℤ) (r' : Run S) : Type 0 where
    pub expects : Expects r'.case addr vals
    pub stored : r'.case.gold ≡ store_words addr vals r.case.gold
    pub below : (a : ℕ) → a < addr → lookup a r'.case.gold ≡ lookup a r.case.gold
    pub above : (a : ℕ) → addr + 4 * length vals ≤ a → lookup a r'.case.gold ≡ lookup a r.case.gold
    pub same_img : r'.case.img ≡ r.case.img
    pub same_launches : r'.case.launches ≡ r.case.launches
    pub same_rng : r'.rng ≡ r.rng
    pub valid : IsValid r'.case

  pub expect-Ensures :
      (addr : ℕ) (vals old : List ℤ) (r : Run S)
      → IsValid r.case
      → Holds r.case addr old
      → length vals ≡ length old
      → Ensures (λ _ r'. Expected r addr vals r') (expect addr vals r)
  unfolding expect Case.expect
  expect-Ensures addr vals old r v h len = ensures (record {
    expects = λ i u e. store_words_at addr i u vals r.case.gold e;
    stored = refl;
    below = λ a lt. store_words_below a addr vals r.case.gold lt;
    above = λ a le. store_words_above a addr vals r.case.gold le;
    same_img = refl;
    same_launches = refl;
    same_rng = refl;
    valid = record { image = v.image; golden = golden };
  })
    where
      golden :
          (a w : ℕ)
          → lookup a (store_words addr vals r.case.gold) ≡ some w
          → (u : ℕ) × (lookup a r.case.img.words ≡ some u)
      golden a w g = elim (store_words_from a w addr vals r.case.gold g) [
        | inl before ↦ v.golden a w before
        | inr (i, lt, e) ↦
            let (x, ex) = get_elem?_of_lt old i (omega arith) in
            (to_word x, ap (λ (b : ℕ). lookup b r.case.img.words) e ∙ h i x ex)
      ]

pub length-draws : {S A : Type 0} (n : ℕ) (op : S → A × S) (s : S) → length (draws n op s).0 ≡ n
unfolding draws
length-draws zero op s = refl
length-draws (suc n) op s = ap suc (length-draws n op (op s).1)

pub length-ints : (l : List ℕ) → length (ints l) ≡ length l
length-ints l = length-map ℤ.pos l
