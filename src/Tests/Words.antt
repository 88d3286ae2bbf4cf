-- ===== src/Tests/Words.antt =====
-- Runs of the scripts that write kernel words and weights.
use simtix.Base.{◌∷◌, [], some, ◌≡◌, refl}
use simtix.Base.Int.{pos, negsuc}
use simtix.Base.Text.{codes, str, str_from}
use simtix.KernelHeader.{find_words, hex_digits, array_lines, word_lines, join, split_blank}
use simtix.Mnist.{argmax, argmax_from, pack_words, put}
use simtix.Apps.Quant.{pack8, to_byte}
use simtix.Base.{map}

find_words_run :
    find_words 60 (codes "mem[0] = 32'h0000AbCd; 32'h12; 32'h12345678")
    ≡ map codes ("0000AbCd" ∷ "12345678" ∷ [])
unfolding find_words hex_digits
find_words_run = refl

split_blank_run :
    split_blank [] (codes " 00000013\n 00000073 ") ≡ map codes ("00000013" ∷ "00000073" ∷ [])
unfolding split_blank
split_blank_run = refl

array_lines_run :
    array_lines (codes "k") (map codes ("a" ∷ "b" ∷ "c" ∷ "d" ∷ "e" ∷ "f" ∷ "g" ∷ []))
    ≡ map codes (
        "static const uint32_t k_k[7] = {" ∷ "    0xa, 0xb, 0xc, 0xd, 0xe, 0xf," ∷ "    0xg," ∷ "};"
        ∷ "" ∷ [])
unfolding array_lines word_lines join str str_from
array_lines_run = refl

-- The first of two equal items.
argmax_run : argmax (negsuc 3 ∷ pos 5 ∷ pos 2 ∷ pos 5 ∷ []) ≡ some 1
unfolding argmax argmax_from
argmax_run = refl

put_run : put 1 2 (7 ∷ 8 ∷ []) (0 ∷ 0 ∷ 0 ∷ 0 ∷ []) ≡ some (0 ∷ 7 ∷ 8 ∷ 0 ∷ [])
unfolding put
put_run = refl

pack_words_run : pack_words (pos 1 ∷ negsuc 0 ∷ pos 0 ∷ pos 2 ∷ []) ≡ some (0x0200_ff01 ∷ [])
unfolding pack_words pack8 to_byte
pack_words_run = refl
