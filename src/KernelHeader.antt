-- ===== src/KernelHeader.antt =====
-- The header of kernel words that sw/ps_host/gen_kernels.py writes. The files that it reads are an
-- argument, a text is a list of code points, and the header is a list of lines.
use Prim.Native.String.{String}
use simtix.Base.{
  ℕ, zero, suc, List, [], ◌∷◌, ◌++◌, map, Bool, true, false, ◌&&◌, ◌||◌, leb, if◌then◌else◌, take,
  drop, length,
}
use simtix.Base.Text.{Text, codes, text_eq, starts_with, str}

abbrev sync : List String
sync = "reduce_shfl" ∷ "histogram" ∷ "reduce_all" ∷ "hist_shared" ∷ []

abbrev header_apps : List String
header_apps =
    "gemm" ∷ "spmv" ∷ "stencil" ∷ "kmeans" ∷ "bfs" ∷ "scan" ∷ "scan_add" ∷ "mlp" ∷ "gemm_rb"
    ∷ "scan_seg" ∷ "scan_segadd" ∷ "stencil_rb" ∷ "kmeans_u" ∷ "spmv_z" ∷ []

-- `[0-9a-fA-F]`
abbrev is_hex : ℕ → Bool
is_hex c = (leb b'0' c && leb c b'9') || (leb b'a' c && leb c b'f') || (leb b'A' c && leb c b'F')

-- `[0-9a-fA-F]{n}` at the start of a text
unfoldable pub hex_digits : ℕ → Text → Bool
hex_digits zero s = true
hex_digits (suc n) [] = false
hex_digits (suc n) (c ∷ s) = is_hex c && hex_digits n s

-- `re.findall(r"32'h([0-9a-fA-F]{8})", s)`, on fuel for the characters: a match takes twelve.
unfoldable pub find_words : ℕ → Text → List Text
unfolding hex_digits
find_words zero s = []
find_words (suc fuel) [] = []
find_words (suc fuel) (c ∷ s) =
    let later = find_words fuel s in
    let behind = find_words fuel (drop 11 s) in
    if starts_with (codes "32'h") (c ∷ s) && hex_digits 8 (drop 3 s)
    then take 8 (drop 3 s) ∷ behind
    else later

-- The white space of ASCII, as `split` takes it.
abbrev is_space : ℕ → Bool
is_space c = (leb 9 c && leb c 13) || (leb 28 c && leb c 32)

-- `s.split()`: `field` is the part read so far.
unfoldable pub split_blank : Text → Text → List Text
split_blank [] [] = []
split_blank (d ∷ field) [] = (d ∷ field) ∷ []
split_blank [] (c ∷ s) =
    let skip = split_blank [] s in
    let go = split_blank (c ∷ []) s in if is_space c then skip else go
split_blank (d ∷ field) (c ∷ s) =
    let cut = (d ∷ field) ∷ split_blank [] s in
    let go = split_blank (d ∷ field ++ c ∷ []) s in if is_space c then cut else go

unfoldable is_among : Text → List String → Bool
is_among name [] = false
is_among name (k ∷ ks) = text_eq name (codes k) || is_among name ks

-- The words of a kernel; `svh` and `hex` give the text of its file.
unfoldable words_of : (Text → Text) → (Text → Text) → Text → List Text
unfolding find_words split_blank is_among
words_of svh hex name =
    if is_among name sync
    then (let text = svh name in find_words (length text) text)
    else split_blank [] (hex name)

unfoldable pub join : Text → List Text → Text
join sep [] = []
join sep (s ∷ []) = s
join sep (s ∷ t ∷ rest) = s ++ sep ++ join sep (t ∷ rest)

-- Six words to a line, on fuel for the words.
unfoldable pub word_lines : ℕ → List Text → List Text
unfolding join
word_lines zero words = []
word_lines (suc fuel) [] = []
word_lines (suc fuel) (w ∷ words) =
    (codes "    "
      ++ join (codes ", ") (map (λ (t : Text). codes "0x" ++ t) (take 6 (w ∷ words)))
      ++ codes ",")
    ∷ word_lines fuel (drop 6 (w ∷ words))

-- The array of a kernel.
unfoldable pub array_lines : Text → List Text → List Text
unfolding word_lines
array_lines name words =
    (codes "static const uint32_t k_" ++ name ++ codes "[" ++ str (length words) ++ codes "] = {")
      ∷ word_lines (length words) words
    ++ (codes "};" ∷ [] ∷ [])

unfoldable all_arrays : (Text → List Text) → List String → List Text
unfolding array_lines
all_arrays words [] = []
all_arrays words (k ∷ ks) = array_lines (codes k) (words (codes k)) ++ all_arrays words ks

-- kernels.h
unfoldable header_lines : (Text → Text) → (Text → Text) → List Text
unfolding words_of all_arrays
header_lines svh hex =
    map codes (
      "/* Generated by gen_kernels.py from the kernels/sync .svh and kernels/apps .hex files -- do not edit. */"
      ∷ "#ifndef KERNELS_H" ∷ "#define KERNELS_H" ∷ "#include <stdint.h>" ∷ "" ∷ [])
    ++ all_arrays (words_of svh hex) (sync ++ header_apps)
    ++ (codes "#endif" ∷ [])
