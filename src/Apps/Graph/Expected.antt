-- ===== src/Apps/Graph/Expected.antt =====
-- The words that the breadth-first search test expects.
use mathlib.Core.Option.{some-injective}
use simtix.Base.{
  ℕ, zero, suc, ◌+◌, ◌*◌, ◌≤◌, ◌≡◌, refl, sym, ap, ◌∙◌, arith, inl, inr, List, [], ◌∷◌, Option,
  none, some, Bool-cases, Option-cases, ◌==◌, get_elem?, length, length-set,
}
use simtix.Base.Int.{ℤ, pos, ints}
use simtix.Base.Partial.{>>=-eq-some}
use simtix.Ddr.Case.{Case, Launch}
use simtix.Random.{Rng}
use simtix.Apps.Gen.{Config, Run}
use simtix.Apps.Logic.{
  Expects, Expects-Expected, IsValid, Grows-of_same, Ensures, ensures, Ensures-bind, Ensures-weaken,
  expect-Ensures,
}
use simtix.Apps.Bfs.{unseen, Levels, visit_edges, visit_frontier, search}
use simtix.Apps.Graph.Search.{Flag, expect_flags}
use simtix.Apps.Graph.Levels.{RunsLevels, next, RunsLevels-Grows, search-Steps}

abbrev pub AllExpected : Case → List Flag → Type 0
AllExpected c [] = Unit {0}
AllExpected c ((a, v) ∷ flags) = Expects c a (ints (v ∷ [])) × AllExpected c flags

-- What the expectations of the flags do, where the flags lie from `lo` on.
pub record Flagged {S : Type 0} (r : Run S) (lo : ℕ) (flags : List Flag) (r' : Run S) : Type 0 where
  pub valid : IsValid r'.case
  pub each : AllExpected r'.case flags
  pub same_img : r'.case.img ≡ r.case.img
  pub same_launches : r'.case.launches ≡ r.case.launches
  pub kept :
      (addr : ℕ) (vals : List ℤ)
      → addr + 4 * length vals ≤ lo
      → Expects r.case addr vals
      → Expects r'.case addr vals

module _ (R : Rng) (cfg : Config) where
  pub expect_flags-Ensures :
      (flags : List Flag) (ls : List Launch) (r : Run R.State) (level lo : ℕ)
      {slot nv prp pcol plev : ℕ}
      → IsValid r.case
      → RunsLevels r.case slot nv prp pcol plev level lo flags ls
      → Ensures (λ _ r'. Flagged r lo flags r') (expect_flags R cfg flags r)
  unfolding expect_flags
  expect_flags-Ensures [] ls r level lo v p = ensures (record {
    valid = v;
    each = tt;
    same_img = refl;
    same_launches = refl;
    kept = λ addr vals le h. h;
  })
  expect_flags-Ensures ((a, w) ∷ flags) ls r level lo v (next _ _ p _ ls' le zeroed b rest) =
      Ensures-bind (expect-Ensures a (ints (w ∷ [])) (pos 0 ∷ []) r v zeroed refl) λ _ r1 E.
        Ensures-weaken
          (expect_flags-Ensures flags ls' r1 (level + 1) (a + 4) E.valid
            (RunsLevels-Grows rest (Grows-of_same {c = r.case} {d = r1.case} E.same_img)))
          λ _ r2 F. record {
            valid = F.valid;
            each = (F.kept a (ints (w ∷ [])) (omega arith) E.expects, F.each);
            same_img = F.same_img ∙ E.same_img;
            same_launches = F.same_launches ∙ E.same_launches;
            kept = λ addr vals le' h.
                F.kept addr vals (omega arith)
                  (Expects-Expected {r = r} {r' = r1} addr vals E (omega arith) h);
          }

-- The levels stay as many as the vertices.
length-visit_edges :
    (level : ℕ) (us : List ℕ) (s t : Levels)
    → visit_edges level us s ≡ some t
    → length t.lev ≡ length s.lev
unfolding visit_edges
length-visit_edges level [] s t e = ap (λ (x : Levels). length x.lev) (sym (some-injective s t e))
length-visit_edges level (u ∷ us) s t e = elim (Option-cases (get_elem? s.lev u)) [
  | inl missing ↦ absurd (never (rw (missing, visit_edges) at e))
  | inr (l, found) ↦ elim (Bool-cases (l == unseen)) [
    | inl new ↦
        length-visit_edges level us _ t (rw (found, new, visit_edges) at e)
        ∙ length-set s.lev u (level + 1)
    | inr old ↦ length-visit_edges level us s t (rw (found, old, visit_edges) at e)
  ]
]
  where
    never : ◌≡◌ {A = Option Levels} none (some t) → ⊥
    never f = cc

length-visit_frontier :
    (edges : ℕ → Option (List ℕ)) (level : ℕ) (frontier : List ℕ) (s t : Levels)
    → visit_frontier edges level frontier s ≡ some t
    → length t.lev ≡ length s.lev
unfolding visit_frontier
length-visit_frontier edges level [] s t e =
    ap (λ (x : Levels). length x.lev) (sym (some-injective s t e))
length-visit_frontier edges level (v ∷ frontier) s t e =
    let (us, f, g) = >>=-eq-some (edges v) _ e in
    let (s', h, k) = >>=-eq-some (visit_edges level us s) _ g in
    length-visit_frontier edges level frontier s' t k ∙ length-visit_edges level us s s' h

pub length-search :
    (edges : ℕ → Option (List ℕ)) (fuel : ℕ) (lev frontier : List ℕ) (level : ℕ)
    (last flags : List ℕ)
    → search edges fuel lev frontier level ≡ some (last, flags)
    → length last ≡ length lev
unfolding search
length-search edges zero lev frontier level last flags e = cc
length-search edges (suc fuel) lev frontier level last flags e =
    let st = search-Steps edges fuel level lev frontier last flags e in
    let same = length-visit_frontier edges level frontier _ st.s st.visited in
    elim st.ends [
      | inl (_, f, _) ↦ ap length (sym f) ∙ same
      | inr (u, us, rest, _, run, _) ↦
          length-search edges fuel st.s.lev (u ∷ us) (level + 1) last rest run ∙ same
    ]
