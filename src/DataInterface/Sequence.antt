-- ===== src/DataInterface/Sequence.antt =====
-- `EncodeDataInSequenceNr` and `DecodeDataInSequenceNr`.
use Prim.Native.Nat.{bit_or}
use bitcoin_messaging.Base.{
  ℕ, ◌+◌, ◌*◌, ◌/◌, ◌%◌, ◌^◌, ◌<◌, ◌≡◌, refl, ap, ap_at, ◌∙◌, [], ◌∷◌, some, arith, length, ◌==◌,
  assert->>, ==_iff, bit_or_field, zero-bit_or, All,
}
use bitcoin_messaging.Types.{DataBits, Data, IsByte, data_to_bits, bits_to_data}
use bitcoin_messaging.Types.Bytes.{
  bits_to_data-data_to_bits, data_to_bits-bits_to_data, data_to_bits-spread, length-spread,
}
use bitcoin_messaging.DataInterface.{encode_data_in_sequence_nr, decode_data_in_sequence_nr}

-- The four shifted bytes make one number.
join_bytes :
    (b0 b1 b2 b3 : ℕ)
    → b1 < 256
    → b2 < 256
    → b3 < 256
    → bit_or (bit_or (bit_or (bit_or 0 (b0 * 2 ^ 24)) (b1 * 2 ^ 16)) (b2 * 2 ^ 8)) b3
      ≡ b0 * 2 ^ 24 + b1 * 2 ^ 16 + b2 * 2 ^ 8 + b3
join_bytes b0 b1 b2 b3 h1 h2 h3 =
    ap (λ (t : ℕ). bit_or (bit_or (bit_or t (b1 * 2 ^ 16)) (b2 * 2 ^ 8)) b3)
      (zero-bit_or (b0 * 2 ^ 24))
    ∙ ap (λ (t : ℕ). bit_or (bit_or t (b2 * 2 ^ 8)) b3)
        (bit_or_field 24 b0 (b1 * 2 ^ 16) (omega arith))
    ∙ ap_at (λ (t : ℕ). bit_or (bit_or t (b2 * 2 ^ 8)) b3) (b0 * 2 ^ 24 + b1 * 2 ^ 16)
        ((b0 * 256 + b1) * 2 ^ 16) (omega arith)
    ∙ ap (λ (t : ℕ). bit_or t b3) (bit_or_field 16 (b0 * 256 + b1) (b2 * 2 ^ 8) (omega arith))
    ∙ ap_at (λ (t : ℕ). bit_or t b3) ((b0 * 256 + b1) * 2 ^ 16 + b2 * 2 ^ 8)
        (((b0 * 256 + b1) * 256 + b2) * 2 ^ 8) (omega arith)
    ∙ bit_or_field 8 ((b0 * 256 + b1) * 256 + b2) b3 (omega arith)
    ∙ omega arith

four_bytes :
    (b0 b1 b2 b3 : ℕ) (bits : DataBits)
    → length bits ≡ 32
    → bits_to_data bits ≡ some (b0 ∷ b1 ∷ b2 ∷ b3 ∷ [])
    → All IsByte (b0 ∷ b1 ∷ b2 ∷ b3 ∷ [])
    → encode_data_in_sequence_nr bits ≡ some (b0 * 2 ^ 24 + b1 * 2 ^ 16 + b2 * 2 ^ 8 + b3)
unfolding encode_data_in_sequence_nr
four_bytes b0 b1 b2 b3 bits size e h =
    assert->> (length bits == 32) _ ((==_iff (length bits) 32).1 size)
    ∙ rw e (ap some (join_bytes b0 b1 b2 b3 h.1.0 h.1.1.0 h.1.1.1.0))

same_bytes :
    (b0 b1 b2 b3 : ℕ)
    → All IsByte (b0 ∷ b1 ∷ b2 ∷ b3 ∷ [])
    → decode_data_in_sequence_nr (b0 * 2 ^ 24 + b1 * 2 ^ 16 + b2 * 2 ^ 8 + b3)
      ≡ data_to_bits (b0 ∷ b1 ∷ b2 ∷ b3 ∷ [])
unfolding decode_data_in_sequence_nr
same_bytes b0 b1 b2 b3 h =
    let e0 : (b0 * 2 ^ 24 + b1 * 2 ^ 16 + b2 * 2 ^ 8 + b3) / 2 ^ 24 % 256 ≡ b0 = omega arith in
    let e1 : (b0 * 2 ^ 24 + b1 * 2 ^ 16 + b2 * 2 ^ 8 + b3) / 2 ^ 16 % 256 ≡ b1 = omega arith in
    let e2 : (b0 * 2 ^ 24 + b1 * 2 ^ 16 + b2 * 2 ^ 8 + b3) / 2 ^ 8 % 256 ≡ b2 = omega arith in
    let e3 : (b0 * 2 ^ 24 + b1 * 2 ^ 16 + b2 * 2 ^ 8 + b3) % 256 ≡ b3 = omega arith in
    rw (e0, e1, e2, e3)

abbrev IsCarried : DataBits → Type 0
IsCarried bits =
    (nr : ℕ) × (encode_data_in_sequence_nr bits ≡ some nr)
    × (nr < 2 ^ 32)
    × (decode_data_in_sequence_nr nr ≡ bits)

carried :
    (bits : DataBits) (bytes : Data)
    → length bits ≡ 32
    → bits_to_data bits ≡ some bytes
    → length bytes ≡ 4
    → All IsByte bytes
    → data_to_bits bytes ≡ bits
    → IsCarried bits
carried bits (b0 ∷ b1 ∷ b2 ∷ b3 ∷ []) size e four h back = (
  b0 * 2 ^ 24 + b1 * 2 ^ 16 + b2 * 2 ^ 8 + b3,
  four_bytes b0 b1 b2 b3 bits size e h,
  omega arith,
  same_bytes b0 b1 b2 b3 h ∙ back,
)
carried bits _ size e four h back = absurd (omega arith)

-- Every 32 bits are stored in a 32-bit sequence number, from which they are read back.
pub decode-encode_data_in_sequence_nr :
    (bits : DataBits)
    → length bits ≡ 32
    → (nr : ℕ) × (encode_data_in_sequence_nr bits ≡ some nr)
      × (nr < 2 ^ 32)
      × (decode_data_in_sequence_nr nr ≡ bits)
decode-encode_data_in_sequence_nr bits h =
    let (bytes, e, four, all, back) = data_to_bits-bits_to_data 4 bits h (omega arith) in
    carried bits bytes h e four all back

-- Every 32-bit sequence number is the one that stores the bits read from it.
pub encode-decode_data_in_sequence_nr :
    (nr : ℕ) → nr < 2 ^ 32 → encode_data_in_sequence_nr (decode_data_in_sequence_nr nr) ≡ some nr
encode-decode_data_in_sequence_nr nr h =
    let b0 = nr / 2 ^ 24 % 256 in
    let b1 = nr / 2 ^ 16 % 256 in
    let b2 = nr / 2 ^ 8 % 256 in
    let b3 = nr % 256 in
    let all : All IsByte (b0 ∷ b1 ∷ b2 ∷ b3 ∷ []) = omega arith in
    let shape : decode_data_in_sequence_nr nr ≡ data_to_bits (b0 ∷ b1 ∷ b2 ∷ b3 ∷ []) =
      unfold decode_data_in_sequence_nr in refl in
    let size : length (data_to_bits (b0 ∷ b1 ∷ b2 ∷ b3 ∷ [])) ≡ 32 =
      ap length (data_to_bits-spread (b0 ∷ b1 ∷ b2 ∷ b3 ∷ []))
      ∙ length-spread (b0 ∷ b1 ∷ b2 ∷ b3 ∷ []) in
    ap encode_data_in_sequence_nr shape
    ∙ four_bytes b0 b1 b2 b3 (data_to_bits (b0 ∷ b1 ∷ b2 ∷ b3 ∷ [])) size
        (bits_to_data-data_to_bits (b0 ∷ b1 ∷ b2 ∷ b3 ∷ []) all (omega arith)) all
    ∙ ap_at some (b0 * 2 ^ 24 + b1 * 2 ^ 16 + b2 * 2 ^ 8 + b3) nr (omega arith)
