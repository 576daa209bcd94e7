-- ===== src/Tests/Codes.antt =====
-- DataCompression at concrete inputs.
use mathlib.Core.List.{Perm}
use bitcoin_messaging.Base.{ℕ, ◌>>=◌, ◌≡◌, refl, [], ◌∷◌, ◌++◌, none, some, arith, false, All}
use bitcoin_messaging.Types.{DataBits, Data}
use bitcoin_messaging.DataCompression.{
  is_char_invalid, transform_char_domain, compute_frequencies, Node, leaf, internal, build_tree,
  HuffCodeMap, left_at, right_find, generate_codes, codes_of_frequencies, compress, decompress,
}
use bitcoin_messaging.DataCompression.Codebook.{
  IsCodebook, IsEncodable, decompress-compress, compress-unknown,
}
use bitcoin_messaging.DataCompression.Ways.{code_of, walk}
use bitcoin_messaging.DataCompression.Tree.{generate_codes-tree, generate_codes-IsCodebook}
use bitcoin_messaging.DataCompression.Distinct.{chars, no_repeat, HasDistinct-of_no_repeat}
use bitcoin_messaging.DataCompression.Frequencies.{occurrences}
use bitcoin_messaging.DataCompression.Building.{leaves, build_tree-IsBuilt}
use bitcoin_messaging.DataCompression.Learning.{decompress-compress_learned}
use bitcoin_messaging.DataCompression.Shipped.{
  shipped_codes, shipped_codes-IsCodebook, valid-IsEncodable, eof_word, eof_found,
  decompress-compress_shipped,
}
use bitcoin_messaging.Tests.Models.{list_queue}

abbrev hi : Data
hi = 104 ∷ 105 ∷ []

hi_valid : All (λ c. is_char_invalid c ≡ false) hi
unfolding is_char_invalid
hi_valid = (refl, (refl, tt))

hi-IsEncodable : All (IsEncodable shipped_codes) hi
hi-IsEncodable = (valid-IsEncodable 104 hi_valid.0, (valid-IsEncodable 105 hi_valid.1.0, tt))

decompress-compress_example :
    (bits : DataBits) × (compress hi shipped_codes ≡ some bits)
    × ((padding : DataBits) → decompress (bits ++ padding) shipped_codes ≡ hi)
decompress-compress_example =
    decompress-compress shipped_codes-IsCodebook hi eof_word hi-IsEncodable eof_found

no_code : left_at 0x80 shipped_codes ≡ none
unfolding left_at
no_code = refl

compress-unknown_example : compress (hi ++ (0x80 ∷ [])) shipped_codes ≡ none
compress-unknown_example =
    compress-unknown shipped_codes-IsCodebook hi [] 0x80 hi-IsEncodable no_code

abbrev mixed : Data
mixed = 104 ∷ 0x80 ∷ 105 ∷ []

decompress-compress_shipped_example :
    (bits : DataBits) × (compress (transform_char_domain mixed) shipped_codes ≡ some bits)
    × ((padding : DataBits)
        → decompress (bits ++ padding) shipped_codes ≡ transform_char_domain mixed)
decompress-compress_shipped_example = decompress-compress_shipped mixed

abbrev small_tree : Node
small_tree = internal 3 (leaf 97 1) (leaf 3 2)

generate_codes-tree_example :
    ((c : ℕ) → left_at c (generate_codes small_tree [] []) ≡ code_of small_tree c)
    × ((z : DataBits) → right_find z (generate_codes small_tree [] []) ≡ walk small_tree z)
unfolding chars no_repeat
generate_codes-tree_example =
    generate_codes-tree small_tree (HasDistinct-of_no_repeat small_tree refl)

generate_codes-IsCodebook_example : IsCodebook (generate_codes small_tree [] [])
unfolding chars no_repeat
generate_codes-IsCodebook_example =
    generate_codes-IsCodebook 3 (leaf 97 1) (leaf 3 2) (HasDistinct-of_no_repeat small_tree refl)

build_tree-IsBuilt_example :
    (t : Node) × (build_tree list_queue ((3, 1) ∷ (97, 2) ∷ []) ≡ some t)
    × Perm (leaves t) ((3, 1) ∷ (97, 2) ∷ [])
build_tree-IsBuilt_example = build_tree-IsBuilt list_queue (3, 1) ((97, 2) ∷ []) (omega arith)

abbrev corpus : Data
corpus = 97 ∷ 98 ∷ 97 ∷ 3 ∷ []

decompress-compress_learned_example :
    (codes : HuffCodeMap) × ((compute_frequencies corpus >>= λ frequencies.
    codes_of_frequencies list_queue frequencies)
      ≡ some codes)
    × ((bits : DataBits) × (compress (98 ∷ 97 ∷ []) codes ≡ some bits)
        × ((padding : DataBits) → decompress (bits ++ padding) codes ≡ 98 ∷ 97 ∷ []))
unfolding occurrences
decompress-compress_learned_example =
    decompress-compress_learned list_queue corpus (98 ∷ 97 ∷ []) 97 (omega arith) (omega arith)
      (omega arith) (omega arith) (omega arith)
      ((omega arith, λ e. omega arith), ((omega arith, λ e. omega arith), tt))
