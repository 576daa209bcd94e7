-- ===== src/DataCompression/Tree.antt =====
-- `GenerateCodes`: the table that it fills is the tree, read from the characters and from the bits.
use bitcoin_messaging.Base.{
  ℕ, ◌≡◌, ◌≢◌, ◌⊎◌, inl, inr, refl, sym, ap, ◌∙◌, true, false, [], ◌∷◌, ◌++◌, Option, none, some,
  arith, ◌==◌, ◌>>=◌, append-nil, append_assoc, if◌then◌else◌,
}
use bitcoin_messaging.Types.{DataBits}
use bitcoin_messaging.DataCompression.Codebook.{IsCodebook}
use bitcoin_messaging.DataCompression.{
  Node, leaf, internal, HuffCodeMap, left_at, right_find, insert_code, generate_codes,
}
use bitcoin_messaging.DataCompression.Ways.{
  code_of, walk, HasDistinct, strip, or_else, walk-code_of, walk-prefix, left_at-append,
  right_find-append, strip_leaf, strip_internal, strip_other, behind, join_ways, code_of-internal,
  or_else_assoc,
}

-- What a subtree adds to the table behind the word `p`, on both sides of the map.
record IsFilled (t : Node) (p : DataBits) (codes codes' : HuffCodeMap) : Type 0 where
  pub by_char : (c : ℕ) → left_at c codes' ≡ or_else (left_at c codes) (behind p (code_of t c))
  pub by_code :
      (z : DataBits) → right_find z codes' ≡ or_else (right_find z codes) (strip p z >>= walk t)

-- The characters of the subtree and the words behind `p` are not in the table yet.
record IsFresh (t : Node) (p : DataBits) (codes : HuffCodeMap) : Type 0 where
  pub no_char : (c : ℕ) → (code_of t c ≡ none) ⊎ (left_at c codes ≡ none)
  pub no_code : (y : DataBits) → right_find (p ++ y) codes ≡ none

insert_fresh :
    (c : ℕ) (p : DataBits) (codes : HuffCodeMap)
    → left_at c codes ≡ none
    → right_find p codes ≡ none
    → insert_code c p codes ≡ codes ++ ((c, p) ∷ [])
unfolding insert_code
insert_fresh c p codes e f = ground arith

leaf_char :
    (d freq : ℕ) (codes : HuffCodeMap)
    → (code_of (leaf d freq) d ≡ none) ⊎ (left_at d codes ≡ none)
    → left_at d codes ≡ none
unfolding code_of
leaf_char d freq codes (inl e) = ground arith
leaf_char d freq codes (inr e) = e

leaf_behind :
    (c d freq : ℕ) (p : DataBits)
    → (if d == c then some p else none) ≡ behind p (code_of (leaf d freq) c)
unfolding code_of
leaf_behind c d freq p = ground (arith, append-nil p)

fill_leaf :
    (d freq : ℕ) (p : DataBits) (codes : HuffCodeMap)
    → IsFresh (leaf d freq) p codes
    → IsFilled (leaf d freq) p codes (generate_codes (leaf d freq) p codes)
fill_leaf d freq p codes fresh =
    let here : insert_code d p codes ≡ codes ++ ((d, p) ∷ []) =
      insert_fresh d p codes (leaf_char d freq codes (fresh.no_char d))
        (rw (append-nil p) at (fresh.no_code [])) in
    let made : generate_codes (leaf d freq) p codes ≡ codes ++ ((d, p) ∷ []) =
      unfold generate_codes in here in
    record {
      by_char = λ c.
          rw made
            (left_at-append c d p codes ∙ ap (or_else (left_at c codes)) (leaf_behind c d freq p));
      by_code = λ z. rw made (
          right_find-append d p z codes
          ∙ ap (or_else (right_find z codes)) (sym (strip_leaf d freq p z)));
    }

none_below :
    (freq : ℕ) (l r : Node) (c : ℕ)
    → code_of (internal freq l r) c ≡ none
    → (code_of l c ≡ none) × (code_of r c ≡ none)
unfolding code_of
none_below freq l r c h = ground arith

IsFresh-left :
    (freq : ℕ) (l r : Node) (p : DataBits) (codes : HuffCodeMap)
    → IsFresh (internal freq l r) p codes
    → IsFresh l (p ++ (false ∷ [])) codes
IsFresh-left freq l r p codes f = record {
  no_char = λ c. elim (f.no_char c) [ inl h ↦ inl (none_below freq l r c h).0 | inr h ↦ inr h ];
  no_code = λ y. rw (append_assoc p (false ∷ []) y) (f.no_code (false ∷ y));
}

IsFresh-right :
    (freq : ℕ) (l r : Node) (p : DataBits) (codes codes' : HuffCodeMap)
    → ((c : ℕ) → (code_of l c ≡ none) ⊎ (code_of r c ≡ none))
    → IsFresh (internal freq l r) p codes
    → IsFilled l (p ++ (false ∷ [])) codes codes'
    → IsFresh r (p ++ (true ∷ [])) codes'
IsFresh-right freq l r p codes codes' apart f filled = record {
  no_char = λ c. elim (apart c) [
    | inl e ↦ elim (f.no_char c) [
      | inl h ↦ inl (none_below freq l r c h).1
      | inr h ↦ inr (filled.by_char c ∙ rw (h, e))
    ]
    | inr e ↦ inl e
  ];
  no_code = λ y.
      filled.by_code ((p ++ (true ∷ [])) ++ y)
      ∙ rw (strip_other p y, append_assoc p (true ∷ []) y, f.no_code (true ∷ y));
}

fill_internal :
    (freq : ℕ) (l r : Node) (p : DataBits) (codes first : HuffCodeMap)
    → IsFilled l (p ++ (false ∷ [])) codes first
    → IsFilled r (p ++ (true ∷ [])) first (generate_codes r (p ++ (true ∷ [])) first)
    → IsFilled (internal freq l r) p codes (generate_codes r (p ++ (true ∷ [])) first)
fill_internal freq l r p codes first left right = record {
  by_char = λ c.
      right.by_char c
      ∙ ap (λ o. or_else o (behind (p ++ (true ∷ [])) (code_of r c))) (left.by_char c)
      ∙ or_else_assoc (left_at c codes) _ _
      ∙ ap (or_else (left_at c codes)) (
          sym (
            ap (behind p) (code_of-internal freq l r c) ∙ join_ways p (code_of l c) (code_of r c)));
  by_code = λ z.
      right.by_code z
      ∙ ap (λ o. or_else o (strip (p ++ (true ∷ [])) z >>= walk r)) (left.by_code z)
      ∙ or_else_assoc (right_find z codes) _ _
      ∙ ap (or_else (right_find z codes)) (sym (strip_internal freq l r p z));
}

-- Filling the table from a tree without repeated characters adds the tree's ways to it, and only these.
generate_codes-IsFilled :
    (t : Node) (p : DataBits) (codes : HuffCodeMap)
    → HasDistinct t
    → IsFresh t p codes
    → IsFilled t p codes (generate_codes t p codes)
unfolding generate_codes
generate_codes-IsFilled (leaf d freq) p codes distinct fresh = fill_leaf d freq p codes fresh
generate_codes-IsFilled (internal freq l r) p codes (dl, dr, apart) fresh =
    let first = generate_codes l (p ++ (false ∷ [])) codes in
    let left =
      generate_codes-IsFilled l (p ++ (false ∷ [])) codes dl
        (IsFresh-left freq l r p codes fresh) in
    let right =
      generate_codes-IsFilled r (p ++ (true ∷ [])) first dr
        (IsFresh-right freq l r p codes first apart fresh left) in
    fill_internal freq l r p codes first left right

behind-nil : (o : Option DataBits) → behind [] o ≡ o
behind-nil none = refl
behind-nil (some y) = refl

no_empty_way : (freq : ℕ) (l r : Node) (c : ℕ) → code_of (internal freq l r) c ≢ some []
no_empty_way freq l r c h = unfold walk in cc (walk-code_of (internal freq l r) c [] h)

-- The table of a tree without repeated characters is the tree: a character's code word is the way to
-- it, and a bit vector is the code word of the leaf at its end, if there is one.
pub generate_codes-tree :
    (t : Node)
    → HasDistinct t
    → ((c : ℕ) → left_at c (generate_codes t [] []) ≡ code_of t c)
      × ((z : DataBits) → right_find z (generate_codes t [] []) ≡ walk t z)
unfolding left_at right_find strip
generate_codes-tree t distinct =
    let filled =
      generate_codes-IsFilled t [] [] distinct
        (record { no_char = λ c. inr refl; no_code = λ y. refl }) in
    (λ c. filled.by_char c ∙ behind-nil (code_of t c), filled.by_code)

-- The table of a tree with an inner node at its root and no repeated character has no empty code word,
-- no code word that begins another one, and finds every character by its code word.
pub generate_codes-IsCodebook :
    (freq : ℕ) (l r : Node)
    → HasDistinct (internal freq l r)
    → IsCodebook (generate_codes (internal freq l r) [] [])
generate_codes-IsCodebook freq l r distinct =
    let t = internal freq l r in
    let (by_char, by_code) = generate_codes-tree t distinct in
    record {
      found = λ c x e. by_code x ∙ walk-code_of t c x (sym (by_char c) ∙ e);
      nonempty = λ c e. no_empty_way freq l r c (sym (by_char c) ∙ e);
      prefix_free = λ c b x y e.
          by_code x ∙ walk-prefix t x b y c (walk-code_of t c (x ++ (b ∷ y)) (sym (by_char c) ∙ e));
    }
