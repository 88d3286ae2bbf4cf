-- ===== src/Mnist.antt =====
-- The integer inference and the exported words of ml/mnist_quant.py. The training in floating point
-- stands outside: the INT8 weights and images, the word of the scale M1f and the labels are arguments.
-- A numpy array is a list, and `none` an error of numpy on shapes. FP32 is that of sim/gen_apps.py:
-- an overflow, which the scale excludes, is `none` too.
pub mod Parts
pub mod Store
use mathlib.Core.List.{flatten}
use simtix.Base.{
  ℕ, suc, ◌+◌, ◌/◌, ◌%◌, ◌^◌, List, [], ◌∷◌, ◌++◌, map, Option, none, some, length, replicate, take,
  drop, range_from, ◌==◌, if◌then◌else◌,
}
use simtix.Base.Int.{ℤ, pos, to_word, ltb_ℤ, ints}
use simtix.Base.Partial.{◌>>=◌, ◌>>◌, guard}
use simtix.Fp.{Fraction, f2fr, fr2f, fmul}
use simtix.Apps.Gen.{traverse}
use simtix.Apps.Loops.{rows}
use simtix.Apps.Mlp.{dot, packed}
use simtix.Apps.Quant.{less, zero_fraction, round, pack8}
use simtix.Apps.Zbtest.{sx}

-- A row of `x @ W` in int32, which wraps around.
unfoldable int32_product : List ℤ → List (List ℤ) → ℕ → Option (List ℤ)
int32_product x w cols = do
  guard (length w == length x)
  acc ← traverse (dot (x ∷ []) w (length x) 0) (range_from 0 cols)
  some (map (λ v. sx (to_word v)) acc)

-- `np.clip(np.rint(f), 0, 127)`
unfoldable clip_rint : Fraction → ℕ
clip_rint f =
    if less f zero_fraction
    then 0
    else (let n = round f in if ltb_ℤ (pos 127) (pos n) then 127 else n)

-- The hidden value of an accumulator: multiplied by M1f in FP32, rounded to even and clipped.
unfoldable hidden_of : ℕ → ℤ → Option ℕ
unfolding clip_rint
hidden_of m1 acc = do
  a ← fr2f (record { num = acc; den = 1 })
  p ← fmul a m1
  f ← f2fr p
  some (clip_rint f)

unfoldable hidden_int : List (List ℤ) → ℕ → List ℤ → Option (List ℤ)
unfolding int32_product hidden_of
hidden_int w1 m1 xq = do
  acc1 ← int32_product xq w1 128
  h ← traverse (hidden_of m1) acc1
  some (ints h)

-- `argmax`: the first index of a greatest item; `at` is the place of the item, `best` the value and
-- `place` the index so far.
unfoldable pub argmax_from : ℕ → ℤ → ℕ → List ℤ → ℕ
argmax_from at best place [] = place
argmax_from at best place (v ∷ vals) =
    if ltb_ℤ best v then argmax_from (suc at) v at vals else argmax_from (suc at) best place vals

unfoldable pub argmax : List ℤ → Option ℕ
unfolding argmax_from
argmax [] = Option.none
argmax (v ∷ vals) = some (argmax_from 1 v 0 vals)

-- The predicted digit.
unfoldable infer_int : List (List ℤ) → List (List ℤ) → ℕ → List ℤ → Option ℕ
unfolding hidden_int argmax
infer_int w1 w2 m1 xq = do h ← hidden_int w1 m1 xq; acc2 ← int32_product h w2 10; argmax acc2

-- How numpy combines the four slices where the length is not a multiple of 4: a slice of one byte is
-- repeated for the others, and longer ones of different lengths raise ValueError.
abbrev broadcast : List ℤ → Option (List ℕ)
broadcast (a ∷ []) = some []
broadcast (a ∷ b ∷ []) = some []
broadcast (a ∷ b ∷ c ∷ []) = some []
broadcast (a ∷ b ∷ c ∷ d ∷ e ∷ []) = some (pack8 (a ∷ b ∷ c ∷ d ∷ e ∷ b ∷ c ∷ d ∷ []))
broadcast (a ∷ b ∷ c ∷ d ∷ e ∷ f ∷ []) = some (pack8 (a ∷ b ∷ c ∷ d ∷ e ∷ f ∷ c ∷ d ∷ []))
broadcast (a ∷ b ∷ c ∷ d ∷ e ∷ f ∷ g ∷ []) = some (pack8 (a ∷ b ∷ c ∷ d ∷ e ∷ f ∷ g ∷ d ∷ []))
broadcast vals = none

-- Four int8 to a word.
unfoldable pub pack_words : List ℤ → Option (List ℕ)
pack_words vals = if length vals % 4 == 0 then some (pack8 vals) else broadcast vals

-- Word kk * n + col packs the rows 4 kk to 4 kk + 3 of a column.
unfoldable pub pack_weights : List (List ℤ) → ℕ → Option (List ℕ)
pack_weights w cols = do guard (length w % 4 == 0); rows (packed w) cols 0 (length w / 4)

abbrev qgemv_rom : List ℕ
qgemv_rom =
    0x1000_0293 ∷ 0x0002_a303 ∷ 0x0025_1393 ∷ 0x0076_03b3 ∷ 0x0027_1e13 ∷ 0x0005_8e93 ∷ 0x0000_0f13
    ∷ 0x0000_0f93 ∷ 0x000e_a403 ∷ 0x0003_a483 ∷ 0x0094_090b ∷ 0x012f_0f33 ∷ 0x004e_8e93
    ∷ 0x01c3_83b3 ∷ 0x001f_8f93 ∷ 0xfe6f_c2e3 ∷ 0x0025_1993 ∷ 0x0136_89b3 ∷ 0x01e9_a023
    ∷ 0x0000_0073 ∷ []

abbrev rqr_rom : List ℕ
rqr_rom =
    0x0025_1293 ∷ 0x0055_8333 ∷ 0x0003_2383 ∷ 0x0006_2087 ∷ 0x0046_2107 ∷ 0xd003_f1d3 ∷ 0x1011_f1c3
    ∷ 0x42fe_0e37 ∷ 0xf00e_0253 ∷ 0xf000_02d3 ∷ 0x2841_81d3 ∷ 0x2851_91d3 ∷ 0xc001_8ed3
    ∷ 0x00a6_8f33 ∷ 0x01df_0023 ∷ 0x0000_0073 ∷ []

abbrev pub nimg : ℕ
nimg = 64

abbrev pub store_words_count : ℕ
store_words_count = 2 ^ 16

-- `store[lo:lo + n] = words`
unfoldable pub put : ℕ → ℕ → List ℕ → List ℕ → Option (List ℕ)
put lo n words store =
    guard (length words == n) >> some (take lo store ++ words ++ drop (lo + n) store)

-- An assignment to a slice: its first index, its length, and the words.
abbrev pub Part : Type 0
Part = ℕ × ℕ × List ℕ

-- The assignments in order.
unfoldable pub put_parts : List Part → List ℕ → Option (List ℕ)
unfolding put
put_parts [] store = some store
put_parts (p ∷ parts) store = do s ← put p.0 p.1 p.2 store; put_parts parts s

abbrev pub store_parts : ℕ → List ℕ → List ℕ → List ℕ → List ℕ → List Part
store_parts m1 gold p1 p2 px =
    (0, 20, qgemv_rom)
    ∷ (24, 16, rqr_rom)
    ∷ (40, 1, m1 ∷ [])
    ∷ (41, 1, 0 ∷ [])
    ∷ (42, nimg, gold)
    ∷ (1024, 25088, p1)
    ∷ (26624, 320, p2)
    ∷ (27648, 12544, px)
    ∷ []

-- The image of the on-chip store.
unfoldable pub store_image :
    List (List ℤ) → List (List ℤ) → ℕ → List ℕ → List (List ℤ) → Option (List ℕ)
unfolding put_parts pack_weights pack_words
store_image w1 w2 m1 gold images = do
  p1 ← pack_weights w1 128
  p2 ← pack_weights w2 10
  px ← traverse pack_words images
  put_parts (store_parts m1 gold p1 p2 (flatten px)) (replicate store_words_count 0)

pub record Export : Type 0 where
  pub w1packed : List ℕ
  pub w2packed : List ℕ
  pub images : List ℕ
  pub params : List ℕ
  pub gold : List ℕ
  pub labels : List ℕ
  pub weights_rom : List ℕ
  pub mnist_store : List ℕ

-- The words of each file, from the first `nimg` images and labels.
unfoldable export : List (List ℤ) → List (List ℤ) → ℕ → List (List ℤ) → List ℕ → Option Export
unfolding infer_int pack_weights pack_words store_image
export w1 w2 m1 xte_q labels = do
  golds ← traverse (infer_int w1 w2 m1) xte_q
  p1 ← pack_weights w1 128
  p2 ← pack_weights w2 10
  px ← traverse pack_words xte_q
  store ← store_image w1 w2 m1 golds xte_q
  let files : Export = record {
    w1packed = p1;
    w2packed = p2;
    images = flatten px;
    params = m1 ∷ 0 ∷ [];
    gold = golds;
    labels = labels;
    weights_rom = p1 ++ p2;
    mnist_store = store;
  }
  some files
