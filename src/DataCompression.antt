-- ===== src/DataCompression.antt =====
-- src/lib/bms/DataCompression.cpp: the Huffman code.
--
-- A `char` is the byte of its bit pattern. The bimap is the list of its pairs in the order of insertion.
-- A frequency is an `int`: from 2^31 on an addition has no result.
pub mod Codebook
pub mod Ways
pub mod Tree
pub mod Distinct
pub mod Frequencies
pub mod Building
pub mod Learning
pub mod Shipped
use mathlib.Core.List.{Perm}
use bitcoin_messaging.Base.{
  assert, ℕ, zero, suc, ◌+◌, ◌%◌, ◌^◌, ◌≤◌, ◌≡◌, Bool, true, false, List, [], ◌∷◌, ◌++◌, Option,
  none, some, length, leb, ltb, ◌==◌, if◌then◌else◌, ◌>>=◌, ◌>>◌, not, ◌&&◌, ◌||◌, All,
}
use bitcoin_messaging.Types.{DataBits, Data}

abbrev pub eof : ℕ
eof = 0x03

-- The branches of the source, in their order. A negative `char` fails every lower bound; as a byte
-- it is at least 0x80 and fails every upper bound.
unfoldable pub is_char_invalid : ℕ → Bool
is_char_invalid symbol =
    if 0x0A == symbol
    then false
    else if leb 0x20 symbol && leb symbol 0x2F
    then false
    else if leb 0x30 symbol && leb symbol 0x39
    then false
    else if leb 0x3A symbol && leb symbol 0x40
    then false
    else if leb 0x61 symbol && leb symbol 0x7A
    then false
    else if leb 0x41 symbol && leb symbol 0x5A
    then false
    else true

-- `text.erase(remove_if(…), text.end())`
unfoldable pub transform_char_domain : Data → Data
transform_char_domain [] = []
transform_char_domain (c ∷ text) =
    if is_char_invalid c then transform_char_domain text else c ∷ transform_char_domain text

-- `std::map<char, int>`: the pairs in ascending order of the key, a signed `char`.
abbrev pub FreqMap : Type 0
FreqMap = List (ℕ × ℕ)

abbrev pub char_ltb : ℕ → ℕ → Bool
char_ltb a b = ltb ((a + 128) % 256) ((b + 128) % 256)

-- `frequencies[c]++`
unfoldable pub count_char : ℕ → FreqMap → Option FreqMap
count_char c [] = some ((c, 1) ∷ [])
count_char c ((d, n) ∷ fs) =
    let rest = count_char c fs in
    if d == c
    then assert (ltb (n + 1) (2 ^ 31)) >> some ((d, n + 1) ∷ fs)
    else (if char_ltb c d
        then some ((c, 1) ∷ (d, n) ∷ fs)
        else rest >>= λ counted. some ((d, n) ∷ counted))

pub frequencies_loop : Data → FreqMap → Option FreqMap
frequencies_loop [] fs = some fs
frequencies_loop (c ∷ text) fs = count_char c fs >>= λ counted. frequencies_loop text counted

unfoldable pub compute_frequencies : Data → Option FreqMap
unfolding frequencies_loop
compute_frequencies text = frequencies_loop text []

-- `LeafNode(sym, freq)`, and `InternalNode` with the frequency of its base class.
pub data Node : Type 0 where
  leaf : ℕ → ℕ → Node
  internal : ℕ → Node → Node → Node

unfoldable pub frequency : Node → ℕ
frequency (leaf character freq) = freq
frequency (internal freq left right) = freq

unfoldable pub join : Node → Node → Option Node
unfolding frequency
join node1 node2 = do
  assert (ltb (frequency node1 + frequency node2) (2 ^ 31))
  some (internal (frequency node1 + frequency node2) node1 node2)

-- The library's priority queue of nodes with `NodeCmp`: which of several nodes of least frequency
-- comes first is its own choice. `none` is `top` or `pop` of an empty queue.
pub record NodeQueue : Type 1 where
  pub Queue : Type 0
  pub empty : Queue
  pub push : Node → Queue → Queue
  pub pop : Queue → Option (Node × Queue)
  pub contents : Queue → List Node
  pub contents-empty : contents empty ≡ []
  pub contents-push : (n : Node) (q : Queue) → Perm (contents (push n q)) (n ∷ contents q)
  pub pop-none : (q : Queue) → pop q ≡ none → contents q ≡ []
  pub pop-some :
      (q q' : Queue) (n : Node) → pop q ≡ some (n, q') → Perm (n ∷ contents q') (contents q)
  pub pop-least :
      (q q' : Queue) (n : Node)
      → pop q ≡ some (n, q')
      → All (λ m. frequency n ≤ frequency m) (contents q')

module _ (queue : NodeQueue) where
  open queue use {Queue, empty, push, pop, contents}

  pub push_leaves : FreqMap → Queue → Queue
  push_leaves [] q = q
  push_leaves ((c, n) ∷ fs) q = push_leaves fs (push (leaf c n) q)

  -- `while (tree.size() > 1)`, then `tree.top()`. Each round takes a node away.
  pub build_loop : ℕ → Queue → Option Node
  build_loop zero q = none
  build_loop (suc fuel) q = elim (ltb 1 (length (contents q))) [
    | true ↦ pop q >>= λ first. pop first.1 >>= λ second.
        join first.0 second.0 >>= λ parent. build_loop fuel (push parent second.1)
    | false ↦ pop q >>= λ root. some root.0
  ]

  unfoldable pub build_tree : FreqMap → Option Node
  unfolding build_loop push_leaves join
  build_tree frequencies = build_loop (suc (length frequencies)) (push_leaves frequencies empty)

abbrev pub HuffCodeMap : Type 0
HuffCodeMap = List (ℕ × DataBits)

-- Equality of bit vectors.
unfoldable pub bits_eq : DataBits → DataBits → Bool
bits_eq [] [] = true
bits_eq [] (b ∷ bs) = false
bits_eq (a ∷ as') [] = false
bits_eq (true ∷ as') (true ∷ bs) = bits_eq as' bs
bits_eq (true ∷ as') (false ∷ bs) = false
bits_eq (false ∷ as') (true ∷ bs) = false
bits_eq (false ∷ as') (false ∷ bs) = bits_eq as' bs

-- `Codes.left.at(c)`; the exception of a missing key is `none`.
unfoldable pub left_at : ℕ → HuffCodeMap → Option DataBits
left_at c [] = none
left_at c ((d, code) ∷ codes) = if d == c then some code else left_at c codes

-- `Codes.right.find(ch)`
unfoldable pub right_find : DataBits → HuffCodeMap → Option ℕ
unfolding bits_eq
right_find ch [] = none
right_find ch ((d, code) ∷ codes) = if bits_eq code ch then some d else right_find ch codes

abbrev pub is_some {ℓ} : {A : Type ℓ} → Option A → Bool
is_some none = false
is_some (some a) = true

-- `codes.insert(…)` changes nothing if the character or the code is there already.
unfoldable pub insert_code : ℕ → DataBits → HuffCodeMap → HuffCodeMap
unfolding left_at right_find
insert_code c code codes =
    if is_some (left_at c codes) || is_some (right_find code codes)
    then codes
    else codes ++ ((c, code) ∷ [])

unfoldable pub generate_codes : Node → DataBits → HuffCodeMap → HuffCodeMap
unfolding insert_code
generate_codes (leaf character freq) prefix codes = insert_code character prefix codes
generate_codes (internal freq left right) prefix codes =
    generate_codes right (prefix ++ (true ∷ []))
      (generate_codes left (prefix ++ (false ∷ [])) codes)

-- `GenerateCodes(Frequencies)`
unfoldable pub codes_of_frequencies : NodeQueue → FreqMap → Option HuffCodeMap
unfolding build_tree generate_codes
codes_of_frequencies queue frequencies = do
  root ← build_tree queue frequencies
  some (generate_codes root [] [])

pub compress_loop : Data → HuffCodeMap → DataBits → Option DataBits
compress_loop [] codes comp_data = some comp_data
compress_loop (c ∷ text) codes comp_data =
    left_at c codes >>= λ code. compress_loop text codes (comp_data ++ code)

unfoldable pub compress : Data → HuffCodeMap → Option DataBits
unfolding compress_loop left_at
compress text codes = do
  comp_data ← compress_loop text codes []
  last ← left_at eof codes
  some (comp_data ++ last)

-- `ch` holds the bits since the last character.
pub decompress_loop : DataBits → HuffCodeMap → DataBits → Data → Data
decompress_loop [] codes ch decomp_data = decomp_data
decompress_loop (b ∷ bits) codes ch decomp_data = elim (right_find (ch ++ (b ∷ [])) codes) [
  | none ↦ decompress_loop bits codes (ch ++ (b ∷ [])) decomp_data
  | some tmp ↦ elim (tmp == eof) [
    | true ↦ decomp_data
    | false ↦ decompress_loop bits codes [] (decomp_data ++ (tmp ∷ []))
  ]
]

unfoldable pub decompress : DataBits → HuffCodeMap → Data
unfolding decompress_loop right_find
decompress bits codes = decompress_loop bits codes [] []
