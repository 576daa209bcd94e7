-- ===== src/DataCompression/Codebook.antt =====
-- `Compress` and `Decompress` with a code in which no code word begins another.
use bitcoin_messaging.Base.{
  ℕ, ◌≡◌, ◌≢◌, sym, ap, ◌∙◌, Bool, [], ◌∷◌, ◌++◌, none, some, arith, All, append-nil, append_assoc,
}
use bitcoin_messaging.Types.{DataBits, Data}
use bitcoin_messaging.DataCompression.{
  eof, HuffCodeMap, left_at, right_find, compress_loop, compress, decompress_loop, decompress,
}

-- The two sides agree, and neither the empty vector nor a proper beginning of a code word is one.
pub record IsCodebook (codes : HuffCodeMap) : Type 0 where
  pub found : (c : ℕ) (x : DataBits) → left_at c codes ≡ some x → right_find x codes ≡ some c
  pub nonempty : (c : ℕ) → left_at c codes ≢ some []
  pub prefix_free :
      (c : ℕ) (b : Bool) (x y : DataBits)
      → left_at c codes ≡ some (x ++ (b ∷ y))
      → right_find x codes ≡ none

-- A character of the text: it has a code word and is not the end mark.
abbrev pub IsEncodable : HuffCodeMap → ℕ → Type 0
IsEncodable codes c = (x : DataBits) × (left_at c codes ≡ some x) × (c ≢ eof)

loop_none :
    (b : Bool) (bits ch : DataBits) (codes : HuffCodeMap) (out : Data)
    → right_find (ch ++ (b ∷ [])) codes ≡ none
    → decompress_loop (b ∷ bits) codes ch out ≡ decompress_loop bits codes (ch ++ (b ∷ [])) out
unfolding decompress_loop
loop_none b bits ch codes out e = ground arith

loop_eof :
    (b : Bool) (bits ch : DataBits) (codes : HuffCodeMap) (out : Data)
    → right_find (ch ++ (b ∷ [])) codes ≡ some eof
    → decompress_loop (b ∷ bits) codes ch out ≡ out
unfolding decompress_loop
loop_eof b bits ch codes out e = ground arith

loop_char :
    (c : ℕ) (b : Bool) (bits ch : DataBits) (codes : HuffCodeMap) (out : Data)
    → right_find (ch ++ (b ∷ [])) codes ≡ some c
    → c ≢ eof
    → decompress_loop (b ∷ bits) codes ch out ≡ decompress_loop bits codes [] (out ++ (c ∷ []))
unfolding decompress_loop
loop_char c b bits ch codes out e h = ground arith

module _ {codes : HuffCodeMap} (book : IsCodebook codes) where
  -- The rest of a code word is read up to its last bit.
  read_word :
      (c : ℕ) (b : Bool) (ch y rest : DataBits) (out : Data)
      → left_at c codes ≡ some (ch ++ (b ∷ y))
      → c ≢ eof
      → decompress_loop ((b ∷ y) ++ rest) codes ch out
        ≡ decompress_loop rest codes [] (out ++ (c ∷ []))
  read_word c b ch [] rest out e h = loop_char c b rest ch codes out (book.found c _ e) h
  read_word c b ch (d ∷ y) rest out e h =
      let moved : left_at c codes ≡ some ((ch ++ (b ∷ [])) ++ (d ∷ y)) =
        e ∙ ap some (sym (append_assoc ch (b ∷ []) (d ∷ y))) in
      loop_none b ((d ∷ y) ++ rest) ch codes out (book.prefix_free c d (ch ++ (b ∷ [])) y moved)
      ∙ read_word c d (ch ++ (b ∷ [])) y rest out moved h

  read_end :
      (b : Bool) (ch y rest : DataBits) (out : Data)
      → left_at eof codes ≡ some (ch ++ (b ∷ y))
      → decompress_loop ((b ∷ y) ++ rest) codes ch out ≡ out
  read_end b ch [] rest out e = loop_eof b rest ch codes out (book.found eof _ e)
  read_end b ch (d ∷ y) rest out e =
      let moved : left_at eof codes ≡ some ((ch ++ (b ∷ [])) ++ (d ∷ y)) =
        e ∙ ap some (sym (append_assoc ch (b ∷ []) (d ∷ y))) in
      loop_none b ((d ∷ y) ++ rest) ch codes out (book.prefix_free eof d (ch ++ (b ∷ [])) y moved)
      ∙ read_end d (ch ++ (b ∷ [])) y rest out moved

  -- The code words of a text, one behind the other.
  abbrev words : (text : Data) → All (IsEncodable codes) text → DataBits
  words [] h = []
  words (c ∷ text) (w, h) = w.0 ++ words text h

  compress_loop-words :
      (text : Data) (h : All (IsEncodable codes) text) (acc : DataBits)
      → compress_loop text codes acc ≡ some (acc ++ words text h)
  unfolding compress_loop
  compress_loop-words [] h acc = ap some (sym (append-nil acc))
  compress_loop-words (c ∷ text) (w, h) acc =
      rw (w.1)
        (compress_loop-words text h (acc ++ w.0) ∙ ap some (append_assoc acc w.0 (words text h)))

  read_char :
      (c : ℕ) (x rest : DataBits) (out : Data)
      → left_at c codes ≡ some x
      → c ≢ eof
      → decompress_loop (x ++ rest) codes [] out ≡ decompress_loop rest codes [] (out ++ (c ∷ []))
  read_char c [] rest out e h = absurd (book.nonempty c e)
  read_char c (b ∷ y) rest out e h = read_word c b [] y rest out e h

  read_words :
      (text : Data) (h : All (IsEncodable codes) text) (rest : DataBits) (out : Data)
      → decompress_loop (words text h ++ rest) codes [] out
        ≡ decompress_loop rest codes [] (out ++ text)
  read_words [] h rest out = ap (decompress_loop rest codes []) (sym (append-nil out))
  read_words (c ∷ text) (w, h) rest out =
      ap (λ (bits : DataBits). decompress_loop bits codes [] out)
        (append_assoc w.0 (words text h) rest)
      ∙ read_char c w.0 (words text h ++ rest) out w.1 w.2
      ∙ read_words text h rest (out ++ (c ∷ []))
      ∙ ap (decompress_loop rest codes []) (append_assoc out (c ∷ []) text)

  read_eof :
      (x rest : DataBits) (out : Data)
      → left_at eof codes ≡ some x
      → decompress_loop (x ++ rest) codes [] out ≡ out
  read_eof [] rest out e = absurd (book.nonempty eof e)
  read_eof (b ∷ y) rest out e = read_end b [] y rest out e

  -- With a code in which no code word is empty or begins another one, a text of characters that
  -- have code words, the end mark not among them but with one as well, is compressed, and
  -- decompression gives it back, whatever padding stands behind.
  pub decompress-compress :
      (text : Data) (last : DataBits)
      → All (IsEncodable codes) text
      → left_at eof codes ≡ some last
      → (bits : DataBits) × (compress text codes ≡ some bits)
        × ((padding : DataBits) → decompress (bits ++ padding) codes ≡ text)
  unfolding compress decompress
  decompress-compress text last h e = (
    words text h ++ last,
    rw (compress_loop-words text h [], e),
    λ padding.
        ap (λ (bits : DataBits). decompress_loop bits codes [] [])
          (append_assoc (words text h) last padding)
        ∙ read_words text h (last ++ padding) []
        ∙ read_eof last padding text e,
  )

  loop_unknown :
      (text rest : Data) (c : ℕ) (acc : DataBits)
      → All (IsEncodable codes) text
      → left_at c codes ≡ none
      → compress_loop (text ++ (c ∷ rest)) codes acc ≡ none
  unfolding compress_loop
  loop_unknown [] rest c acc h e = rw e
  loop_unknown (d ∷ text) rest c acc (w, h) e = rw (w.1) (loop_unknown text rest c (acc ++ w.0) h e)

  -- With such a code, a text in which a character without a code word follows characters that have
  -- one makes the compression fail, whatever stands behind.
  pub compress-unknown :
      (text rest : Data) (c : ℕ)
      → All (IsEncodable codes) text
      → left_at c codes ≡ none
      → compress (text ++ (c ∷ rest)) codes ≡ none
  unfolding compress
  compress-unknown text rest c h e = rw (loop_unknown text rest c [] h e)
