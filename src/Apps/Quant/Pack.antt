-- ===== src/Apps/Quant/Pack.antt =====
-- The packed words hold the INT8 values.
use simtix.Base.{
  ℕ, ◌+◌, ◌*◌, ◌/◌, ◌%◌, ◌^◌, ◌≤◌, ◌<◌, ◌≡◌, refl, arith, List, [], ◌∷◌, ◌++◌, length, ltb,
  if◌then◌else◌,
}
use simtix.Base.Int.{ℤ, pos, negsuc, sub_ℕ, pos_part, neg_part}
use simtix.Apps.Quant.{to_byte, pack8}

-- The signed number of a byte.
unfoldable pub signed_byte : ℕ → ℤ
signed_byte v = if ltb v 128 then pos v else sub_ℕ v 256

-- The four signed bytes of a word, the lowest first.
unfoldable pub unpack_word : ℕ → List ℤ
unpack_word w =
    signed_byte (w % 256)
    ∷ signed_byte (w / 2 ^ 8 % 256)
    ∷ signed_byte (w / 2 ^ 16 % 256)
    ∷ signed_byte (w / 2 ^ 24 % 256)
    ∷ []

unfoldable pub unpack : List ℕ → List ℤ
unpack [] = []
unpack (w ∷ ws) = unpack_word w ++ unpack ws

-- -128 ≤ v < 128
abbrev pub IsInt8 : ℤ → Type 0
IsInt8 v = (pos_part v < 128) × (neg_part v ≤ 128)

abbrev pub AllInt8 : List ℤ → Type 0
AllInt8 [] = Unit
AllInt8 (v ∷ vals) = IsInt8 v × AllInt8 vals

to_byte-lt : (v : ℤ) → to_byte v < 256
unfolding to_byte
to_byte-lt (pos n) = omega arith
to_byte-lt (negsuc n) = omega arith

signed_byte-to_byte : (v : ℤ) → IsInt8 v → signed_byte (to_byte v) ≡ v
unfolding signed_byte to_byte
signed_byte-to_byte (pos n) h = ground arith
signed_byte-to_byte (negsuc n) h = ground arith

bytes :
    (a b c d : ℕ)
    → a < 256
    → b < 256
    → c < 256
    → d < 256
    → let w = a + b * 2 ^ 8 + c * 2 ^ 16 + d * 2 ^ 24 in
      (w % 256 ≡ a) × (w / 2 ^ 8 % 256 ≡ b) × (w / 2 ^ 16 % 256 ≡ c) × (w / 2 ^ 24 % 256 ≡ d)
bytes a b c d ha hb hc hd = (omega arith, omega arith, omega arith, omega arith)

-- Values between -128 and 127, in a number that is a multiple of four, come back from the packed
-- words, byte by byte with their signs.
pub unpack-pack8 : (vals : List ℤ) → AllInt8 vals → length vals % 4 ≡ 0 → unpack (pack8 vals) ≡ vals
unfolding unpack unpack_word pack8
unpack-pack8 [] h len = refl
unpack-pack8 (a ∷ []) h len = absurd (omega arith)
unpack-pack8 (a ∷ b ∷ []) h len = absurd (omega arith)
unpack-pack8 (a ∷ b ∷ c ∷ []) h len = absurd (omega arith)
unpack-pack8 (a ∷ b ∷ c ∷ d ∷ vals) (ha, (hb, (hc, (hd, h)))) len =
    let (ea, eb, ec, ed) =
      bytes (to_byte a) (to_byte b) (to_byte c) (to_byte d) (to_byte-lt a) (to_byte-lt b)
        (to_byte-lt c) (to_byte-lt d) in
    rw
      (
        ea,
        eb,
        ec,
        ed,
        signed_byte-to_byte a ha,
        signed_byte-to_byte b hb,
        signed_byte-to_byte c hc,
        signed_byte-to_byte d hd,
        unpack-pack8 vals h (omega arith),
      )
      refl
