-- ===== src/Mnist/Store.antt =====
-- The on-chip store of ml/mnist_quant.py: its kernels, parameters, weights and images.
use mathlib.Core.List.{flatten}
use simtix.Base.{
  ℕ, ◌*◌, ◌%◌, ◌≡◌, refl, ap, arith, List, [], ◌∷◌, some, length, map, suc, ◌==◌, true,
}
use simtix.Base.Int.{ℤ}
use simtix.Apps.Gen.{traverse}
use simtix.Apps.Quant.{pack8}
use simtix.Apps.Quant.Pack.{IsInt8, AllInt8, unpack, unpack-pack8}
use simtix.Apps.Mlp.Matrix.{All, IsRow, IsMatrix}
use simtix.Apps.Mlp.Packed.{pack_weights-CollectsRows, length-pack8, length-flatten}
use simtix.Apps.Mlp.Started.{ArePacked}
use simtix.Mnist.{nimg, store_words_count, pack_words, pack_weights, store_parts, store_image}
use simtix.Mnist.Parts.{AllPlaced, put_parts-blank}

all_int8 : (l : List ℤ) → All IsInt8 l → AllInt8 l
all_int8 [] h = tt
all_int8 (v ∷ l) (p, h) = (p, all_int8 l h)

-- Images of 4 * m pixels are packed one by one, and unpack to what they were.
record PacksImages (m : ℕ) (images : List (List ℤ)) : Type 0 where
  px : List (List ℕ)
  made : traverse pack_words images ≡ some px
  count : length px ≡ length images
  widths : All (λ l. length l ≡ m) px
  unpacked : map unpack px ≡ images

pack_words-PacksImages :
    (m : ℕ) (images : List (List ℤ)) → All (IsRow IsInt8 (4 * m)) images → PacksImages m images
unfolding pack_words traverse
pack_words-PacksImages m [] h = record {
  px = [];
  made = refl;
  count = refl;
  widths = tt;
  unpacked = refl;
}
pack_words-PacksImages m (row ∷ images) ((len, bytes), h) =
    let whole : (length row % 4 == 0) ≡ true = ground arith in
    let rest = pack_words-PacksImages m images h in
    record {
      px = pack8 row ∷ rest.px;
      made = rw (whole, rest.made, traverse, pack_words) refl;
      count = ap suc rest.count;
      widths = (length-pack8 row m len, rest.widths);
      unpacked = rw (unpack-pack8 row (all_int8 row bytes) (omega arith), rest.unpacked) refl;
    }

-- Weights whose rows come in fours are packed.
pack_weights-ArePacked :
    (w : List (List ℤ)) (k n : ℕ)
    → k % 4 ≡ 0
    → IsMatrix IsInt8 k n w
    → (words : List ℕ) × (pack_weights w n ≡ some words) × ArePacked w k n words
unfolding pack_weights
pack_weights-ArePacked w k n fours h =
    let W = pack_weights-CollectsRows w k n h in
    let whole : (length w % 4 == 0) ≡ true = four_divides (length w) k h.0 fours in
    (W.items, rw (whole, h.0, W.made, pack_weights) refl, record { count = W.count; each = W.each })
  where
    four_divides : (l k : ℕ) → l ≡ k → k % 4 ≡ 0 → (l % 4 == 0) ≡ true
    four_divides l k e h = ground arith

-- The store: its size, and every part at its place.
pub record IsStore (w1 w2 : List (List ℤ)) (m1 : ℕ) (gold : List ℕ) (images : List (List ℤ))
    (store : List ℕ) : Type 0 where
  pub p1 : List ℕ
  pub p2 : List ℕ
  pub px : List (List ℕ)
  pub first : ArePacked w1 784 128 p1
  pub second : ArePacked w2 128 10 p2
  pub pictures : map unpack px ≡ images
  pub size : length store ≡ store_words_count
  pub placed : AllPlaced store (store_parts m1 gold p1 p2 (flatten px))

-- For INT8 weights of 784 by 128 and of 128 by 10, 64 predictions and 64 INT8 images of 784 pixels, the
-- store is made, of 2^16 words. The kernels, the scale and the zero point, the predictions, the packed
-- weights and the packed images stand at their offsets, each whole: no assignment overwrites another's
-- words. Every packed word of weights unpacks to four of a column, and the packed images to the images.
pub store_image-IsStore :
    (w1 w2 : List (List ℤ)) (m1 : ℕ) (gold : List ℕ) (images : List (List ℤ))
    → IsMatrix IsInt8 784 128 w1
    → IsMatrix IsInt8 128 10 w2
    → length gold ≡ nimg
    → IsMatrix IsInt8 nimg 784 images
    → (store : List ℕ) × (store_image w1 w2 m1 gold images ≡ some store)
      × IsStore w1 w2 m1 gold images store
unfolding store_image
store_image-IsStore w1 w2 m1 gold images h1 h2 few hx =
    let (p1, made1, A) = pack_weights-ArePacked w1 784 128 refl h1 in
    let (p2, made2, B) = pack_weights-ArePacked w2 128 10 refl h2 in
    let I = pack_words-PacksImages 196 images hx.1 in
    let pixels : length (flatten I.px) ≡ 12544 =
      omega (arith, length-flatten I.px 196 I.widths, I.count, hx.0) in
    let (store, made, size, placed) =
      put_parts-blank store_words_count (store_parts m1 gold p1 p2 (flatten I.px)) (
        omega arith,
        refl,
        (
          omega arith,
          refl,
          (
            omega arith,
            refl,
            (
              omega arith,
              refl,
              (
                omega arith,
                few,
                (omega arith, A.count, (omega arith, B.count, (omega arith, pixels, omega arith))),
              ),
            ),
          ),
        ),
      ) in
    (
      store,
      rw (made1, made2, I.made, store_image) made,
      record {
        p1 = p1;
        p2 = p2;
        px = I.px;
        first = A;
        second = B;
        pictures = I.unpacked;
        size = size;
        placed = placed;
      },
    )
