-- ===== src/Apps/Spmv/Result.antt =====
-- What the case of spmv holds.
use mathlib.Core.Path.{subst}
use simtix.Base.{
  ℕ, zero, suc, ◌+◌, ◌-◌, ◌≤◌, ◌<◌, ◌≡◌, refl, sym, ap, ◌∙◌, arith, List, [], ◌∷◌, none, some, Bool,
  ltb, le→leb, lt→ltb, if◌then◌else◌, length, length-replicate, get_elem?, get_or, range_from,
  replicate,
}
use simtix.Base.Int.{ints, pos}
use simtix.Kernels.{slot_of}
use simtix.Ddr.Case.{Case, tag, new_case}
use simtix.Random.{Rng, IsRandom, rand_f32}
use simtix.Fp.Accumulate.{Accumulates}
use simtix.Apps.Gen.{Config, Run, draw, draws, sample, randrange, assert}
use simtix.Apps.Logic.{
  Holds, IsValid, Grows-trans, Holds-Grows, Ensures, ensures, Ensures-bind, Ensures-run,
  Ensures-weaken, lift_run, alloc_words-Ensures, launch-Ensures, ChecksOnly, RunsOnce,
  finish-Ensures, new_case-IsValid, AllocatesFour, alloc_four-Ensures, Allocates, Finished,
  length-draws, length-ints, build-Ensures,
}
use simtix.Apps.Inputs.{draws-AllUnit}
use simtix.Apps.Spmv.Rows.{Csr, gather, row_sums, or_zero}
use simtix.Apps.Spmv.{spmv_kernel, nnz, draw_rows, spmv_body, spmv}
use simtix.Apps.Spmv.Matrix.{IsCsr, add_row-IsCsr}
use simtix.Apps.Loops.{Collects}
use simtix.Apps.Spmv.Sums.{row_sums-Collects}

module _ (R : Rng) (cfg : Config) (law : IsRandom R) (cols maxnnz : ℕ) (fits : maxnnz ≤ cols) where
  -- The loop over the rows changes nothing of the case.
  record Drawn (rows : ℕ) (r : Run R.State) (a : Csr) (r' : Run R.State) : Type 0 where
    csr : IsCsr rows cols a
    same_case : r'.case ≡ r.case

  draw_rows-Ensures :
      (left rows : ℕ) (a : Csr) (r : Run R.State)
      → IsCsr rows cols a
      → Ensures (λ b r'. Drawn (rows + left) r b r') (draw_rows R cfg cols maxnnz left a r)
  unfolding draw_rows randrange sample assert draw
  draw_rows-Ensures zero rows a r p =
      ensures (record { csr = subst (λ n. IsCsr n cols a) (omega arith) p; same_case = refl })
  draw_rows-Ensures (suc left) rows a r p =
      let drawn = R.randrange (maxnnz + 1) r.rng in
      let nz-le : drawn.0 ≤ cols =
        omega (arith, law.randrange-lt (maxnnz + 1) r.rng (omega arith)) in
      rw (lt→ltb 0 (maxnnz + 1) (omega arith), le→leb drawn.0 cols nz-le)
        (Ensures-weaken
          (draw_rows-Ensures left (rows + 1) _ _ (
            add_row-IsCsr rows cols a _ _ p
              (law.length-sample cols drawn.0 drawn.1 nz-le
                ∙ sym (length-draws drawn.0 (rand_f32 R) _))
              (λ c m. law.sample-lt cols drawn.0 c drawn.1 nz-le m)
              (draws-AllUnit R law drawn.0 _)))
          λ b r' D. record {
            csr = subst (λ n. IsCsr n cols b) (omega arith) D.csr;
            same_case = D.same_case;
          })

-- A case that multiplies a matrix of `rows` rows with a vector of `cols` words.
pub record IsSpmv (c : Case) (slot rows cols : ℕ) : Type 0 where
  pub matrix : Csr
  pub x : List ℕ
  pub y : List ℕ
  pub prp : ℕ
  pub pcol : ℕ
  pub pval : ℕ
  pub px : ℕ
  pub py : ℕ
  pub csr : IsCsr rows cols matrix
  pub length_x : length x ≡ cols
  pub valid : IsValid c
  pub once : RunsOnce c (tag "spmv") slot (ints (prp ∷ pcol ∷ pval ∷ px ∷ py ∷ [])) rows 0
  pub held_rowptr : Holds c prp (ints matrix.rowptr)
  pub held_col : Holds c pcol (ints (or_zero matrix.col))
  pub held_val : Holds c pval (ints (or_zero matrix.val))
  pub held_x : Holds c px (ints x)
  pub count : length y ≡ rows
  pub sums :
      (r : ℕ)
      → r < rows
      → (w : ℕ) × (get_elem? y r ≡ some w)
        × Accumulates
            (gather matrix x)
            (range_from
              (get_or matrix.rowptr r 0)
              (get_or matrix.rowptr (r + 1) 0 - get_or matrix.rowptr r 0))
            0
            w
  pub checked : ChecksOnly c py (ints y)

length-or_zero :
    (l k : List ℕ)
    → length k ≡ length l
    → length (ints (or_zero k)) ≡ (if ltb 1 (length l) then length l else 1)
length-or_zero [] [] h = refl
length-or_zero [] (v ∷ k) h = absurd (omega arith)
length-or_zero (u ∷ l) [] h = absurd (omega arith)
length-or_zero (u ∷ l) (v ∷ k) h = ground (arith, length-ints (v ∷ k), h)

module _ {S : Type 0} {r0 r1 r2 r4 : Run S} (slot rows cols : ℕ) (a : Csr) (x : List ℕ)
    (csr : IsCsr rows cols a) (lx : length x ≡ cols)
    (sums : Collects
      (λ r w.
        Accumulates
          (gather a x)
          (range_from (get_or a.rowptr r 0) (get_or a.rowptr (r + 1) 0 - get_or a.rowptr r 0))
          0
          w)
      0
      rows
      (row_sums a x rows))
    {prp pcol pval px py : ℕ} where
  -- The steps of the generator behind the drawing, together.
  steps-IsSpmv :
      AllocatesFour r0
        (ints a.rowptr)
        (ints (or_zero a.col))
        (ints (or_zero a.val))
        (ints x)
        prp
        pcol
        pval
        px
        r1
      → Allocates r1 (replicate rows (pos 0)) py r2
      → Finished r2
          (tag "spmv")
          slot
          (ints (prp ∷ pcol ∷ pval ∷ px ∷ py ∷ []))
          rows
          py
          (ints sums.items)
          r4
      → IsSpmv r4.case slot rows cols
  steps-IsSpmv I O F =
      let up = Grows-trans O.grows F.grows in
      record {
        matrix = a;
        x = x;
        y = sums.items;
        prp = prp;
        pcol = pcol;
        pval = pval;
        px = px;
        py = py;
        csr = csr;
        length_x = lx;
        valid = F.valid;
        once = F.once;
        held_rowptr = Holds-Grows prp (ints a.rowptr) I.first up;
        held_col = Holds-Grows pcol (ints (or_zero a.col)) I.second up;
        held_val = Holds-Grows pval (ints (or_zero a.val)) I.third up;
        held_x = Holds-Grows px (ints x) I.fourth up;
        count = sums.count;
        sums = λ r h.
            subst
              (λ i.
                (w : ℕ) × (get_elem? sums.items r ≡ some w)
                × Accumulates (gather a x)
                    (range_from (get_or a.rowptr i 0)
                      (get_or a.rowptr (i + 1) 0 - get_or a.rowptr i 0))
                    0 w)
              (omega arith) (sums.each r h);
        checked = F.checks;
      }

-- For every source that draws numbers between -1.0 and 1.0, and rows of at most as many entries as
-- there are columns, `spmv` gives a case: it is well formed, it holds a well-formed matrix in CSR form
-- and a vector, it launches the kernel once, and it expects just the sum of each row, over the row's
-- entries in order, rounded to nearest even in every step. The kernel has a slot.
pub spmv-IsSpmv :
    (R : Rng) (cfg : Config) (rows cols maxnnz slot : ℕ) (zba : Bool) (s : R.State)
    → IsRandom R
    → maxnnz ≤ cols
    → slot_of cfg.slots (spmv_kernel zba) ≡ some slot
    → (c : Case) × (s' : R.State) × (spmv R cfg rows cols maxnnz zba s ≡ some (c, s'))
      × IsSpmv c slot rows cols
unfolding spmv spmv_body draw
spmv-IsSpmv R cfg rows cols maxnnz slot zba s law fits found =
    build-Ensures R {P = λ _ r. IsSpmv r.case slot rows cols} (spmv_body R cfg rows cols maxnnz zba)
      (new_case _ (rows ∷ cols ∷ [])) s
      (Ensures-bind (draw_rows-Ensures R cfg law cols maxnnz fits rows 0 _ _ start) λ a r0 D.
        let x = (draws cols (rand_f32 R) r0.rng).0 in
        let lx = length-draws cols (rand_f32 R) r0.rng in
        let csr : IsCsr rows cols a = subst (λ n. IsCsr n cols a) (omega arith) D.csr in
        let sums = row_sums-Collects rows cols a x csr lx (draws-AllUnit R law cols r0.rng) in
        let v0 = subst IsValid (sym D.same_case) (new_case-IsValid _ _) in
        alloc_four-Ensures (rows + 1) (nnz a) (nnz a) cols (some (ints a.rowptr))
          (some (ints (or_zero a.col))) (some (ints (or_zero a.val))) (some (ints x)) v0
          (length-ints a.rowptr ∙ csr.pointers) (length-or_zero a.col a.col refl)
          (length-or_zero a.col a.val csr.values) (length-ints x ∙ lx)
          λ prp pcol pval px r1 I.
            Ensures-bind (alloc_words-Ensures rows none _ I.valid (length-replicate rows (pos 0)))
              λ py r2 O.
                Ensures-bind
                  (launch-Ensures cfg (tag "spmv") (spmv_kernel zba) _ rows 0 slot r2 O.valid found)
                  λ _ r3 L. Ensures-run _ (lift_run _ sums.made) (
                    Ensures-weaken
                      (finish-Ensures py (ints sums.items) _ L
                        (O.same_launches
                          ∙ I.same_launches
                          ∙ ap (λ (c : Case). c.launches) D.same_case)
                        (O.same_gold ∙ I.same_gold ∙ ap (λ (c : Case). c.gold) D.same_case) O.holds
                        (length-ints sums.items ∙ sums.count ∙ sym (length-replicate rows (pos 0))))
                      λ _ r4 F. steps-IsSpmv slot rows cols a x csr lx sums I O F))
  where
    start : IsCsr 0 cols (record { rowptr = 0 ∷ []; col = []; val = [] })
    start = record {
      pointers = refl;
      first = refl;
      last = refl;
      rising = λ r lt. elim lt [ ];
      values = refl;
      columns = λ c m. elim m [ ];
      unit = λ i w e. cc;
    }
