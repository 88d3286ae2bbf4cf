-- ===== src/Apps/Graph/Levels.antt =====
-- The launches of the breadth-first search test, one for each level, and its flags.
use mathlib.Core.Option.{some-injective}
use mathlib.Core.Path.{subst}
use simtix.Base.{
  ℕ, zero, suc, ◌+◌, ◌≤◌, ◌≡◌, refl, sym, ap, ◌∙◌, arith, ◌⊎◌, inl, inr, List, [], ◌∷◌, ◌++◌, map,
  Option, none, some,
}
use simtix.Base.Int.{pos, ints}
use simtix.Base.Partial.{◌>>=◌, >>=-eq-some}
use simtix.Kernels.{Kernel, slot_of}
use simtix.Ddr.Case.{Case, Launch, numbered}
use simtix.Random.{Rng}
use simtix.Apps.Gen.{Config, Run}
use simtix.Apps.Logic.{
  Holds, Holds-Grows, IsBlock, IsBlock-Grows, IsValid, Grows, Grows-trans, Ensures, ensures,
  Ensures-bind, listed_next, Ensures-run, lift_run, alloc_words-Ensures, launch-Ensures,
}
use simtix.Apps.Bfs.{Levels, visit_frontier, search}
use simtix.Apps.Graph.{neighbours}
use simtix.Apps.Graph.Search.{Flag, levels}

abbrev level_launch : ℕ → ℕ → ℕ → ℕ → Launch
level_launch level slot p nv = record {
  tag = numbered "bfs" level;
  slot = slot;
  params = p;
  threads = nv;
  blk = 0;
}

-- The launches of the levels from `level` on: each is given the search's arrays and a flag of its own,
-- zero at first; the flags lie one after another, from `lo` on.
pub data RunsLevels (c : Case) (slot nv prp pcol plev : ℕ)
    : ℕ → ℕ → List Flag → List Launch → Type 0 where
  done : {level lo : ℕ} → RunsLevels c slot nv prp pcol plev level lo [] []
  next :
      {level lo : ℕ} (a v p : ℕ) (flags : List Flag) (ls : List Launch)
      → lo ≤ a
      → Holds c a (pos 0 ∷ [])
      → IsBlock c p (ints (prp ∷ pcol ∷ plev ∷ level ∷ a ∷ []))
      → RunsLevels c slot nv prp pcol plev (level + 1) (a + 4) flags ls
      → RunsLevels c slot nv prp pcol plev level lo
          ((a, v) ∷ flags)
          (level_launch level slot p nv ∷ ls)

pub RunsLevels-Grows :
    {c d : Case} {slot nv prp pcol plev level lo : ℕ} {flags : List Flag} {ls : List Launch}
    → RunsLevels c slot nv prp pcol plev level lo flags ls
    → Grows c d
    → RunsLevels d slot nv prp pcol plev level lo flags ls
RunsLevels-Grows done g = done
RunsLevels-Grows (next a v p flags ls le h b rest) g =
    next a v p flags ls le (Holds-Grows a (pos 0 ∷ []) h g) (IsBlock-Grows b g)
      (RunsLevels-Grows rest g)

pub lower :
    {c : Case} {slot nv prp pcol plev level lo lo' : ℕ} {flags : List Flag} {ls : List Launch}
    → RunsLevels c slot nv prp pcol plev level lo flags ls
    → lo' ≤ lo
    → RunsLevels c slot nv prp pcol plev level lo' flags ls
lower done le = done
lower (next a v p flags ls h z b rest) le = next a v p flags ls (omega arith) z b rest

-- The last level, or a further one.
pub record Steps (edges : ℕ → Option (List ℕ)) (fuel level : ℕ) (lev frontier last flags : List ℕ)
    : Type 0 where
  pub s : Levels
  pub visited : visit_frontier edges level frontier (record { lev = lev; nxt = [] }) ≡ some s
  pub ends :
      ((s.nxt ≡ []) × (s.lev ≡ last) × (flags ≡ 0 ∷ []))
      ⊎ ((u : ℕ) × (us rest : List ℕ) × (s.nxt ≡ u ∷ us)
          × (search edges fuel s.lev (u ∷ us) (level + 1) ≡ some (last, rest))
          × (flags ≡ 1 ∷ rest))

pair_eq :
    (a b c d : List ℕ)
    → ◌≡◌ {A = Option (List ℕ × List ℕ)} (some (a, b)) (some (c, d))
    → (a ≡ c) × (b ≡ d)
pair_eq a b c d e =
    let f = some-injective (a, b) (c, d) e in
    (ap (λ (p : List ℕ × List ℕ). p.0) f, ap (λ (p : List ℕ × List ℕ). p.1) f)

pub search-Steps :
    (edges : ℕ → Option (List ℕ)) (fuel level : ℕ) (lev frontier last flags : List ℕ)
    → search edges (suc fuel) lev frontier level ≡ some (last, flags)
    → Steps edges fuel level lev frontier last flags
unfolding search
search-Steps edges fuel level lev frontier last flags e =
    let (s, f, g) =
      >>=-eq-some (visit_frontier edges level frontier (record { lev = lev; nxt = [] })) _ e in
    record { s = s; visited = f; ends = split s (s.nxt) refl g }
  where
    split :
        (s : Levels) (l : List ℕ)
        → s.nxt ≡ l
        → ◌≡◌ {A = Option (List ℕ × List ℕ)}
            (elim l [
              | [] ↦ some (s.lev, 0 ∷ [])
              | u ∷ us ↦ search edges fuel s.lev (u ∷ us) (level + 1) >>= λ (last, flags).
                  some (last, 1 ∷ flags)
            ])
            (some (last, flags))
        → ((s.nxt ≡ []) × (s.lev ≡ last) × (flags ≡ 0 ∷ []))
          ⊎ ((u : ℕ) × (us rest : List ℕ) × (s.nxt ≡ u ∷ us)
              × (search edges fuel s.lev (u ∷ us) (level + 1) ≡ some (last, rest))
              × (flags ≡ 1 ∷ rest))
    split s [] h g = let (a, b) = pair_eq s.lev (0 ∷ []) last flags g in inl (h, a, sym b)
    split s (u ∷ us) h g =
        let ((l, rest), p, q) = >>=-eq-some (search edges fuel s.lev (u ∷ us) (level + 1)) _ g in
        let (a, b) = pair_eq l (1 ∷ rest) last flags q in
        inr (
          u,
          us,
          rest,
          h,
          subst
              (λ x.
                ◌≡◌ {A = Option (List ℕ × List ℕ)} (search edges fuel s.lev (u ∷ us) (level + 1))
                  (some (x, rest)))
              a p,
          sym b,
        )

module _ (R : Rng) (cfg : Config) (slot : ℕ) (found : slot_of cfg.slots Kernel.bfs ≡ some slot)
    (nv prp pcol plev : ℕ) (rowptr col : List ℕ) where
  -- What the loop over the levels does.
  pub record Searched (r : Run R.State) (level : ℕ) (last values : List ℕ) (last' : List ℕ)
      (flags : List Flag) (r' : Run R.State) : Type 0 where
    pub same_levels : last' ≡ last
    pub same_values : map (λ (f : Flag). f.1) flags ≡ values
    pub valid : IsValid r'.case
    pub grows : Grows r.case r'.case
    pub same_gold : r'.case.gold ≡ r.case.gold
    pub launched : List Launch
    pub listed : r'.case.launches ≡ r.case.launches ++ launched
    pub plan : RunsLevels r'.case slot nv prp pcol plev level r.case.img.top flags launched

  pub levels-Ensures :
      (fuel : ℕ) (lev frontier : List ℕ) (level : ℕ) (last values : List ℕ) (r : Run R.State)
      → IsValid r.case
      → search (neighbours rowptr col) fuel lev frontier level ≡ some (last, values)
      → Ensures
          (λ (last', flags) r'. Searched r level last values last' flags r')
          (levels R cfg nv prp pcol plev rowptr col fuel lev frontier level r)
  unfolding levels search
  levels-Ensures zero lev frontier level last values r v e = cc
  levels-Ensures (suc fuel) lev frontier level last values r v e =
      let st = search-Steps (neighbours rowptr col) fuel level lev frontier last values e in
      Ensures-bind (alloc_words-Ensures 1 none r v refl) λ a r1 A.
        Ensures-bind
          (launch-Ensures cfg (numbered "bfs" level) Kernel.bfs
            (ints (prp ∷ pcol ∷ plev ∷ level ∷ a ∷ [])) nv 0 slot r1 A.valid found)
          λ _ r2 L. Ensures-run _ (lift_run r2 st.visited) (elim st.ends [
            | inl (none_left, same, only) ↦ rw (none_left) (
                ensures (record {
                  same_levels = same;
                  same_values = sym only;
                  valid = L.valid;
                  grows = Grows-trans A.grows L.grows;
                  same_gold = L.same_gold ∙ A.same_gold;
                  launched = level_launch level slot L.block nv ∷ [];
                  listed =
                      L.listed
                      ∙ ap (λ (l : List Launch). l ++ level_launch level slot L.block nv ∷ [])
                          A.same_launches;
                  plan =
                      next a 0 L.block [] [] (omega (arith, A.placed))
                        (Holds-Grows a (pos 0 ∷ []) A.holds L.grows) (record { holds = L.holds })
                        done;
                }))
            | inr (u, us, rest, some_left, run, more) ↦ rw (some_left) (
                Ensures-bind
                  (levels-Ensures fuel st.s.lev (u ∷ us) (level + 1) last rest r2 L.valid run)
                  λ (last', flags) r3 S. ensures (record {
                    same_levels = S.same_levels;
                    same_values = ap (λ (l : List ℕ). 1 ∷ l) S.same_values ∙ sym more;
                    valid = S.valid;
                    grows = Grows-trans A.grows (Grows-trans L.grows S.grows);
                    same_gold = S.same_gold ∙ L.same_gold ∙ A.same_gold;
                    launched = level_launch level slot L.block nv ∷ S.launched;
                    listed =
                        listed_next r.case.launches (level_launch level slot L.block nv) S.launched
                          (L.listed
                            ∙ ap (λ (l : List Launch). l ++ level_launch level slot L.block nv ∷ [])
                                A.same_launches)
                          S.listed;
                    plan =
                        next a 1 L.block flags S.launched (omega (arith, A.placed))
                          (Holds-Grows a (pos 0 ∷ []) A.holds (Grows-trans L.grows S.grows))
                          (IsBlock-Grows (record { holds = L.holds }) S.grows)
                          (lower S.plan (omega (arith, A.room, L.grows.top_le)));
                  }))
          ])
