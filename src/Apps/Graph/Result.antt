-- ===== src/Apps/Graph/Result.antt =====
-- What the breadth-first search test holds: its graph, and the levels that it expects.
use mathlib.Core.Path.{subst}
use simtix.Base.{
  ℕ, ◌+◌, ◌*◌, ◌<◌, ◌≡◌, ◌≢◌, sym, ap, ◌∙◌, arith, List, [], ◌∷◌, ◌++◌, some, map, ltb, lt→ltb,
  replicate, length, length-set, length-replicate,
}
use simtix.Base.Sort.{sorted, mem-sorted, sorted-mem}
use simtix.Base.Int.{ints}
use simtix.Kernels.{Kernel, slot_of}
use simtix.Ddr.Case.{Case, Launch, new_case}
use simtix.Random.{Rng, IsRandom}
use simtix.Apps.Gen.{Config, Run, ◌>>=◌, ◌>>◌, assert, alloc_list, expect}
use simtix.Apps.Logic.{
  Holds, Holds-Grows, Expects, IsValid, Grows-trans, Grows-of_same, Ensures, Ensures-bind,
  Ensures-run, Ensures-weaken, assert_run, alloc_words-Ensures, expect-Ensures, new_case-IsValid,
  length-ints, build-Ensures, Allocates, Expected,
}
use simtix.Apps.Bfs.{unseen, search, start}
use simtix.Apps.Bfs.Visit.{level_of}
use simtix.Apps.Bfs.Walks.{IsDistance}
use simtix.Apps.Bfs.Distance.{search-IsDistance}
use simtix.Apps.Graph.{csr, neighbours}
use simtix.Apps.Graph.Search.{Flag, levels, expect_flags, bfs_body, bfs}
use simtix.Apps.Graph.Levels.{Searched, RunsLevels, RunsLevels-Grows, lower, levels-Ensures}
use simtix.Apps.Graph.Expected.{AllExpected, Flagged, expect_flags-Ensures, length-search}
use simtix.Apps.Graph.Edges.{set_of}
use simtix.Apps.Graph.Compressed.{csr-neighbours}
use simtix.Apps.Graph.Connected.{IsGraph, Walk-more, graph-IsGraph}

-- The search over the compressed rows of `adj` ends, with the distance of every vertex.
pub record IsSearched (nv : ℕ) (adj : List (List ℕ)) : Type 0 where
  pub lev : List ℕ
  pub flags : List ℕ
  pub run :
      search (neighbours (csr adj (0 ∷ []) []).0 (csr adj (0 ∷ []) []).1) nv (start nv) (0 ∷ []) 0
      ≡ some (lev, flags)
  pub distance : IsDistance (set_of adj) lev
  pub all_seen : (v : ℕ) → v < nv → level_of lev v ≢ unseen

graph-IsSearched :
    (nv : ℕ) (adj : List (List ℕ)) → 0 < nv → nv < unseen → IsGraph nv nv adj → IsSearched nv adj
graph-IsSearched nv adj pos few p =
    let slice = neighbours (csr adj (0 ∷ []) []).0 (csr adj (0 ∷ []) []).1 in
    let (lev, flags, e, d) =
      search-IsDistance slice (λ v. sorted (set_of adj v)) nv pos few
        (λ v lt. (csr-neighbours adj v (omega (arith, p.size))).1)
        (λ v u m. p.inside v u (mem-sorted u (set_of adj v) m)) in
    let q : IsDistance (set_of adj) lev = record {
      shortest = λ u k w. d.shortest u k (Walk-more w λ v x m. sorted-mem x (set_of adj v) m);
      reached = λ u ne. Walk-more (d.reached u ne) λ v x m. mem-sorted x (set_of adj v) m;
    } in
    record {
      lev = lev;
      flags = flags;
      run = e;
      distance = q;
      all_seen = λ v lt. let (k, w) = p.joined v lt in (q.shortest v k w).0;
    }

-- A case that searches a graph of nv vertices.
pub record IsBfs (c : Case) (slot nv : ℕ) : Type 0 where
  pub adj : List (List ℕ)
  pub prp : ℕ
  pub pcol : ℕ
  pub plev : ℕ
  pub flags : List Flag
  pub valid : IsValid c
  pub graph : IsGraph nv nv adj
  pub searched : IsSearched nv adj
  pub row_pointers : Holds c prp (ints (csr adj (0 ∷ []) []).0)
  pub columns : Holds c pcol (ints (csr adj (0 ∷ []) []).1)
  pub levels_at_first : Holds c plev (ints (start nv))
  pub plan : RunsLevels c slot nv prp pcol plev 0 (plev + 4 * nv) flags c.launches
  pub expected : Expects c plev (ints searched.lev)
  pub flag_values : map (λ (f : Flag). f.1) flags ≡ searched.flags
  pub expected_flags : AllExpected c flags

module _ (R : Rng) (law : IsRandom R) (cfg : Config) (nv slot : ℕ) (pos_nv : 0 < nv)
    (few : nv < unseen) (found : slot_of cfg.slots Kernel.bfs ≡ some slot) where
  -- The steps behind the graph, together.
  steps-IsBfs :
      {prp pcol plev : ℕ} {lev : List ℕ} {flags : List Flag} {r r1 r2 r3 r4 r5 r6 : Run R.State}
      (adj : List (List ℕ))
      → IsGraph nv nv adj
      → (q : IsSearched nv adj) → r.case.launches ≡ []
      → length (start nv) ≡ nv
      → length q.lev ≡ nv
      → Allocates r (ints (csr adj (0 ∷ []) []).0) prp r1
      → Allocates r1 (ints (csr adj (0 ∷ []) []).1) pcol r2
      → Allocates r2 (ints (start nv)) plev r3
      → Searched R cfg slot found nv prp pcol plev
          (csr adj (0 ∷ []) []).0
          (csr adj (0 ∷ []) []).1
          r3
          0
          q.lev
          q.flags
          lev
          flags
          r4
      → Expected r4 plev (ints lev) r5
      → Flagged r5 (plev + 4 * nv) flags r6
      → IsBfs r6.case slot nv
  steps-IsBfs {prp} {pcol} {plev} {flags} {r4} {r5} {r6} adj p q none_yet len lev_len A B C S E F =
      let g5 = Grows-of_same {c = r4.case} {d = r5.case} E.same_img in
      let g6 = Grows-of_same {c = r5.case} {d = r6.case} F.same_img in
      let up = Grows-trans S.grows (Grows-trans g5 g6) in
      record {
        adj = adj;
        prp = prp;
        pcol = pcol;
        plev = plev;
        flags = flags;
        valid = F.valid;
        graph = p;
        searched = q;
        row_pointers = Holds-Grows prp _ A.holds (Grows-trans B.grows (Grows-trans C.grows up));
        columns = Holds-Grows pcol _ B.holds (Grows-trans C.grows up);
        levels_at_first = Holds-Grows plev (ints (start nv)) C.holds up;
        plan =
            subst (λ l. RunsLevels r6.case slot nv prp pcol plev 0 (plev + 4 * nv) flags l)
              (sym (
                F.same_launches
                ∙ E.same_launches
                ∙ S.listed
                ∙ ap (λ (l : List Launch). l ++ S.launched)
                    (C.same_launches ∙ B.same_launches ∙ A.same_launches ∙ none_yet)))
              (lower (RunsLevels-Grows S.plan (Grows-trans g5 g6))
                (omega (arith, C.room, length-ints (start nv), len)));
        expected =
            F.kept plev (ints q.lev) (omega (arith, length-ints q.lev, lev_len))
              (subst (Expects r5.case plev) (ap ints S.same_levels) E.expects);
        flag_values = S.same_values;
        expected_flags = F.each;
      }

  -- The part behind the graph.
  from_sets :
      (adj : List (List ℕ)) (r : Run R.State)
      → IsGraph nv nv adj
      → IsValid r.case
      → r.case.launches ≡ []
      → Ensures
          (λ _ r'. IsBfs r'.case slot nv)
          ((do
            assert (ltb 0 nv)
            let (rowptr, col) = csr adj (0 ∷ []) []
            prp ← alloc_list rowptr (nv + 1)
            pcol ← alloc_list col (length col)
            plev ← alloc_list (start nv) nv
            (lev, flags) ← levels R cfg nv prp pcol plev rowptr col nv (start nv) (0 ∷ []) 0
            expect plev (ints lev)
            expect_flags R cfg flags)
            r)
  from_sets adj r p v no_launch =
      let q = graph-IsSearched nv adj pos_nv few p in
      let rowptr = (csr adj (0 ∷ []) []).0 in
      let col = (csr adj (0 ∷ []) []).1 in
      let size : length rowptr ≡ nv + 1 =
        omega (arith, (csr-neighbours adj 0 (omega (arith, p.size))).0, p.size) in
      let len : length (start nv) ≡ nv =
        length-set (replicate nv unseen) 0 0 ∙ length-replicate nv unseen in
      let lev_len =
        length-search (neighbours rowptr col) nv (start nv) (0 ∷ []) 0 q.lev q.flags q.run in
      Ensures-run _ (assert_run r (lt→ltb 0 nv pos_nv)) (
        Ensures-bind
          (alloc_words-Ensures (nv + 1) (some (ints rowptr)) r v (length-ints rowptr ∙ size))
          λ prp r1 A.
            Ensures-bind
              (alloc_words-Ensures (length col) (some (ints col)) r1 A.valid (length-ints col))
              λ pcol r2 B.
                Ensures-bind
                  (alloc_words-Ensures nv (some (ints (start nv))) r2 B.valid
                    (length-ints (start nv) ∙ len))
                  λ plev r3 C.
                    Ensures-bind
                      (levels-Ensures R cfg slot found nv prp pcol plev rowptr col nv (start nv)
                        (0 ∷ []) 0 q.lev q.flags r3 C.valid q.run)
                      λ (lev, flags) r4 S.
                        let same_ints = ap ints S.same_levels in
                        Ensures-bind
                          (expect-Ensures plev (ints lev) (ints (start nv)) r4 S.valid
                            (Holds-Grows plev (ints (start nv)) C.holds S.grows)
                            (ap length same_ints
                              ∙ length-ints q.lev
                              ∙ lev_len
                              ∙ sym (length-ints (start nv))))
                          λ _ r5 E.
                            Ensures-weaken
                              (expect_flags-Ensures R cfg flags S.launched r5 0 (plev + 4 * nv)
                                E.valid
                                (lower
                                  (RunsLevels-Grows S.plan
                                    (Grows-of_same {c = r4.case} {d = r5.case} E.same_img))
                                  (omega (arith, C.room, length-ints (start nv), len))))
                              λ _ r6 F.
                                steps-IsBfs adj p q no_launch len (lev_len ∙ len) A B C S E F)

  -- For a random source as documented, 0 < nv < 0xffffffff vertices, any degree and a slot for the
  -- kernel bfs, `bfs` gives a case. It is well formed and holds a graph of nv vertices in compressed
  -- rows, in which an edge is known at both ends and a walk joins every vertex to vertex 0. There is
  -- one launch for each level, with a flag of its own that is zero at first. The case expects as
  -- the level of each vertex its distance from vertex 0, never UNSEEN, and as the flags 1 for
  -- each level that finds a vertex and 0 for the last.
  pub bfs-IsBfs :
      (deg : ℕ) (s : R.State)
      → (c : Case) × (s' : R.State) × (bfs R cfg nv deg s ≡ some (c, s')) × IsBfs c slot nv
  unfolding bfs bfs_body
  bfs-IsBfs deg s =
      build-Ensures R {P = λ _ r. IsBfs r.case slot nv} (bfs_body R cfg nv deg)
        (new_case "bfs" (nv ∷ deg ∷ [])) s
        (Ensures-bind
          (graph-IsGraph R law nv deg (record { case = new_case "bfs" (nv ∷ deg ∷ []); rng = s })
            pos_nv)
          λ adj r (p, same).
            from_sets adj r p (subst IsValid (sym same) (new_case-IsValid "bfs" (nv ∷ deg ∷ [])))
              (ap (λ (c : Case). c.launches) same))
