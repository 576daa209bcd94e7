-- ===== src/DataCompression/Learning.antt =====
-- `ComputeFrequencies`, `GenerateCodes`, `Compress` and `Decompress` together: the code that is made from
-- a text, for the characters of that text.
use bitcoin_messaging.Base.{
  ℕ, ◌^◌, length, ◌>>=◌, ◌<◌, ◌≡◌, ◌≢◌, ap, ◌∙◌, true, false, [], ◌∷◌, ◌++◌, some, arith,
  Bool-cases, Option-cases, inl, inr, All,
}
use bitcoin_messaging.Types.{DataBits, Data, IsByte}
use bitcoin_messaging.DataCompression.{
  eof, FreqMap, compute_frequencies, Node, leaf, internal, NodeQueue, build_tree, HuffCodeMap,
  generate_codes, codes_of_frequencies, compress, decompress,
}
use bitcoin_messaging.DataCompression.Codebook.{IsCodebook, IsEncodable, decompress-compress}
use bitcoin_messaging.DataCompression.Ways.{code_of, HasDistinct}
use bitcoin_messaging.DataCompression.Tree.{generate_codes-tree, generate_codes-IsCodebook}
use bitcoin_messaging.DataCompression.Distinct.{
  chars, member, member-append, no_repeat, HasDistinct-of_no_repeat,
}
use bitcoin_messaging.DataCompression.Building.{total, build_tree-IsBuilt}
use bitcoin_messaging.DataCompression.Frequencies.{
  occurrences, keys, counted_all, compute_frequencies-counted_all, counted_all-occurrences,
  keys-no_repeat, member-keys, chars-keys, member-perm, no_repeat-perm,
}

-- Every character of a tree has a way to it.
member-code_of :
    (t : Node) (c : ℕ) → member c (chars t) ≡ true → (x : DataBits) × (code_of t c ≡ some x)
unfolding member chars code_of
member-code_of (leaf d freq) c h = ([], ground arith)
member-code_of (internal freq l r) c h = elim (Option-cases (code_of l c)) [
  | inr (x, e) ↦ (false ∷ x, ground arith)
  | inl e ↦ elim (Bool-cases (member c (chars l))) [
    | inl f ↦ absurd (let (x, g) = member-code_of l c f in cc)
    | inr f ↦
        let (x, g) = member-code_of r c (ground (arith, member-append c (chars l) (chars r))) in
        (true ∷ x, ground arith)
  ]
]

-- What is known of the tree of a corpus.
record IsLearned (corpus : Data) (t : Node) : Type 0 where
  pub distinct : HasDistinct t
  pub has : (c : ℕ) → 0 < occurrences c corpus → member c (chars t) ≡ true

module _ (queue : NodeQueue) where
  build_nonempty :
      (fs : FreqMap) (c : ℕ)
      → member c (keys fs) ≡ true
      → total fs < 2 ^ 31
      → (t : Node) × (build_tree queue fs ≡ some t)
        × (no_repeat (keys fs) ≡ true → no_repeat (chars t) ≡ true)
        × ((d : ℕ) → member d (keys fs) ≡ true → member d (chars t) ≡ true)
  unfolding member keys
  build_nonempty [] c h light = cc
  build_nonempty (f ∷ fs) c h light =
      let (t, built, same) = build_tree-IsBuilt queue f fs light in
      (
        t,
        built,
        λ u. ap no_repeat (chars-keys t) ∙ no_repeat-perm same ∙ u,
        λ d m. ap (member d) (chars-keys t) ∙ member-perm d same ∙ m,
      )

  learn :
      (corpus : Data) (c : ℕ)
      → All IsByte corpus
      → length corpus < 2 ^ 31
      → 0 < occurrences c corpus
      → (t : Node) × (build_tree queue (counted_all corpus []) ≡ some t) × IsLearned corpus t
  learn corpus c bytes few h =
      let fs = counted_all corpus [] in
      let size = (compute_frequencies-counted_all corpus few).1 in
      let (t, built, distinct, has) =
        build_nonempty fs c (member-keys corpus c bytes h) (omega arith) in
      let ordered = (counted_all-occurrences corpus bytes).0 in
      (
        t,
        built,
        record {
          distinct = HasDistinct-of_no_repeat t (distinct (keys-no_repeat 0 fs ordered));
          has = λ d m. has d (member-keys corpus d bytes m);
        },
      )

encodable :
    (corpus text : Data) (t : Node)
    → IsLearned corpus t
    → All (λ c. (0 < occurrences c corpus) × (c ≢ eof)) text
    → All (IsEncodable (generate_codes t [] [])) text
encodable corpus [] t l h = tt
encodable corpus (c ∷ text) t l ((m, ne), h) =
    let (x, e) = member-code_of t c (l.has c m) in
    ((x, (generate_codes-tree t l.distinct).0 c ∙ e, ne), encodable corpus text t l h)

-- Two characters make an inner node.
learned-IsCodebook :
    (corpus : Data) (d : ℕ) (t : Node)
    → IsLearned corpus t
    → 0 < occurrences eof corpus
    → 0 < occurrences d corpus
    → d ≢ eof
    → IsCodebook (generate_codes t [] [])
learned-IsCodebook corpus d (leaf c freq) l end other ne =
    absurd (unfold member chars in ground (arith, l.has eof end, l.has d other))
learned-IsCodebook corpus d (internal freq a b) l end other ne =
    generate_codes-IsCodebook freq a b l.distinct

-- From a corpus of less than 2^31 bytes that holds the end mark and some other character a code is made, whatever
-- the order in which the queue gives nodes of equal frequency. Every text of characters of the
-- corpus other than the end mark is compressed with it and decompressed again, whatever padding
-- follows the bits.
pub decompress-compress_learned :
    (queue : NodeQueue) (corpus text : Data) (d : ℕ)
    → All IsByte corpus
    → length corpus < 2 ^ 31
    → 0 < occurrences eof corpus
    → 0 < occurrences d corpus
    → d ≢ eof
    → All (λ c. (0 < occurrences c corpus) × (c ≢ eof)) text
    → (codes : HuffCodeMap) × ((compute_frequencies corpus >>= λ frequencies.
          codes_of_frequencies queue frequencies)
        ≡ some codes)
      × ((bits : DataBits) × (compress text codes ≡ some bits)
          × ((padding : DataBits) → decompress (bits ++ padding) codes ≡ text))
unfolding codes_of_frequencies
decompress-compress_learned queue corpus text d bytes few end other ne h =
    let (t, built, l) = learn queue corpus eof bytes few end in
    let (last, e) = member-code_of t eof (l.has eof end) in
    (
      generate_codes t [] [],
      rw ((compute_frequencies-counted_all corpus few).0, built),
      decompress-compress (learned-IsCodebook corpus d t l end other ne) text last
          (encodable corpus text t l h) ((generate_codes-tree t l.distinct).0 eof ∙ e),
    )
