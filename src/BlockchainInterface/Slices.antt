-- ===== src/BlockchainInterface/Slices.antt =====
-- What a channel takes of the data: a slice, filled up with zeros at the end of the data.
use bitcoin_messaging.Base.{
  ℕ, ◌+◌, ◌-◌, ◌%◌, ◌^◌, ◌<◌, true, ltb, ◌≤◌, ◌≡◌, refl, ap, false, [], ◌∷◌, ◌++◌, some, arith, min,
  length, take, drop, replicate, leb, le→leb, length-take, length-drop, length-append,
  length-replicate, take-append-drop, append-nil, append_assoc, sym, ◌∙◌, replicate-append,
  Bool-cases, inl, inr,
}
use bitcoin_messaging.BlockchainInterface.{missing}
use bitcoin_messaging.Types.{DataBits, pad_bits, slice_bits}

-- What is read from a channel, and then the data that is left, are the data with zeros behind them;
-- what is left is shorter by what was read, and nothing is left once zeros have been added.
abbrev pub IsStored : DataBits → DataBits → DataBits → Type 0
IsStored bits rest read =
    (k : ℕ) × (read ++ rest ≡ bits ++ replicate k false) × (length rest ≡ length bits - length read)

-- A size below 2^31 is the same `int`.
pub missing-small : (w n_bits : ℕ) → n_bits < 2 ^ 31 → missing w n_bits ≡ some (w - min w n_bits)
unfolding missing
missing-small w n_bits h =
    let same : n_bits % 2 ^ 32 ≡ n_bits = omega arith in
    let small : ltb n_bits (2 ^ 31) ≡ true = ground arith in rw (same, small) refl

-- What is left is not longer.
pub IsStored-few :
    (bits rest read : DataBits) (n : ℕ)
    → IsStored bits rest read
    → length bits < n
    → length rest < n
IsStored-few bits rest read n (k, e, size) h = omega arith

pub slice_bits_lem :
    (n : ℕ) (bits : DataBits)
    → n ≤ length bits
    → slice_bits bits n ≡ some (take n bits, drop n bits)
unfolding slice_bits
slice_bits_lem n bits h = rw (le→leb n (length bits) h)

pub length-pad_bits : (bits : DataBits) (n : ℕ) → length (pad_bits bits n) ≡ length bits + n
unfolding pad_bits
length-pad_bits bits n =
    omega (arith, length-append bits (replicate n false), length-replicate n false)

pub padded_room : (w : ℕ) (bits : DataBits) → w ≤ length (pad_bits bits (w - min w (length bits)))
padded_room w bits = omega (arith, length-pad_bits bits (w - min w (length bits)))

-- Data padded first, then sliced.
pub IsStored-padded :
    (w : ℕ) (bits : DataBits)
    → IsStored bits
        (drop w (pad_bits bits (w - min w (length bits))))
        (take w (pad_bits bits (w - min w (length bits))))
unfolding pad_bits
IsStored-padded w bits = (
  w - min w (length bits),
  take-append-drop w (bits ++ replicate (w - min w (length bits)) false),
  omega (
    arith,
    length-pad_bits bits (w - min w (length bits)),
    length-drop w (pad_bits bits (w - min w (length bits))),
    length-take w (pad_bits bits (w - min w (length bits))) (padded_room w bits),
  ),
)

drop_all : (bits : DataBits) → drop (length bits) bits ≡ []
drop_all [] = refl
drop_all (b ∷ bits) = drop_all bits

take_all : (bits : DataBits) → take (length bits) bits ≡ bits
take_all [] = refl
take_all (b ∷ bits) = ap (λ l. b ∷ l) (take_all bits)

pub length-sliced :
    (w : ℕ) (bits : DataBits)
    → length (pad_bits (take (min w (length bits)) bits) (w - min w (length bits))) ≡ w
length-sliced w bits = omega (
  arith,
  length-pad_bits (take (min w (length bits)) bits) (w - min w (length bits)),
  length-take (min w (length bits)) bits (omega arith),
)

shorter :
    (w : ℕ) (bits : DataBits)
    → length (drop (min w (length bits)) bits)
      ≡ length bits - length (pad_bits (take (min w (length bits)) bits) (w - min w (length bits)))
shorter w bits = omega (arith, length-sliced w bits, length-drop (min w (length bits)) bits)

-- Data sliced first, then the slice padded.
pub IsStored-sliced :
    (w : ℕ) (bits : DataBits)
    → IsStored bits
        (drop (min w (length bits)) bits)
        (pad_bits (take (min w (length bits)) bits) (w - min w (length bits)))
unfolding pad_bits
IsStored-sliced w bits = elim (Bool-cases (leb w (length bits))) [
  | inl e ↦
      let m : min w (length bits) ≡ w = ground arith in
      let z : w - w ≡ 0 = omega arith in
      (
        0,
        rw (m, z, append-nil (take w bits), append-nil bits) (take-append-drop w bits),
        shorter w bits,
      )
  | inr e ↦
      let m : min w (length bits) ≡ length bits = ground arith in
      (
        w - length bits,
        rw (m, drop_all bits, take_all bits)
            (append-nil (bits ++ replicate (w - length bits) false)),
        shorter w bits,
      )
]

-- One channel after the other.
pub IsStored-append :
    (bits mid rest first second : DataBits)
    → IsStored bits mid first
    → IsStored mid rest second
    → IsStored bits rest (first ++ second)
IsStored-append bits mid rest first second (k, e, s) (j, f, t) = (
  k + j,
  append_assoc first second rest
      ∙ ap (λ l. first ++ l) f
      ∙ sym (append_assoc first mid (replicate j false))
      ∙ ap (λ l. l ++ replicate j false) e
      ∙ append_assoc bits (replicate k false) (replicate j false)
      ∙ ap (λ l. bits ++ l) (replicate-append k j false),
  omega (arith, length-append first second),
)

-- Nothing read, nothing taken.
pub IsStored-nil : (bits : DataBits) → IsStored bits bits []
IsStored-nil bits = (0, sym (append-nil bits), omega arith)
