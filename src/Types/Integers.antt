-- ===== src/Types/Integers.antt =====
-- Bit vectors as integers and back.
use mathlib.Core.Logic.{dif_pos, dif_neg}
use mathlib.Core.WellFounded.{Acc}
use native.Mathlib.Nat.{pow-suc}
use native.Mathlib.Bridge.{le_prop}
use native.Mathlib.Decide.{dec_lt}
use bitcoin_messaging.Base.{
  ℕ, zero, suc, ◌+◌, ◌-◌, ◌*◌, ◌/◌, ◌%◌, ◌^◌, ◌≤◌, ◌<◌, ◌≡◌, refl, sym, ap, ◌∙◌, Bool, false, [],
  ◌∷◌, ◌++◌, some, arith, length, replicate, ltb, assert->>, lt→ltb, append_assoc, append-nil,
  length-append, length-replicate, lt_wf,
}
use bitcoin_messaging.Types.{
  DataBits, of_bit, low_bit, data_bits_to_int_loop, data_bits_to_int, int_to_data_bits_loop,
  int_to_data_bits, half-lt,
}
use bitcoin_messaging.Types.Digits.{
  to_nat, digits, length-digits, to_nat-lt, digits-last, digits-zero, digits-to_nat_of_length,
}

data_bits_to_int_loop-to_nat :
    (num : ℕ) (b : Bool) (bits : DataBits)
    → data_bits_to_int_loop num (b ∷ bits) ≡ some (num * 2 ^ length bits + to_nat (b ∷ bits))
unfolding data_bits_to_int_loop
data_bits_to_int_loop-to_nat num b [] = ap some (omega arith)
data_bits_to_int_loop-to_nat num b (c ∷ bits) =
    data_bits_to_int_loop-to_nat ((num + of_bit b) * 2) c bits
    ∙ ap some (
        omega (
          arith,
          ap (λ (t : ℕ). num * t) (pow-suc 2 (length bits)),
          ap (λ (t : ℕ). of_bit b * t) (pow-suc 2 (length bits)),
        ))

-- A vector of 1 to 2^32 bits is read as a binary number, highest bit first.
pub data_bits_to_int-to_nat :
    (bits : DataBits)
    → 0 < length bits
    → length bits ≤ 2 ^ 32
    → data_bits_to_int bits ≡ some (to_nat bits)
unfolding data_bits_to_int
data_bits_to_int-to_nat [] h small = absurd (omega arith)
data_bits_to_int-to_nat (b ∷ bits) h small =
    assert->> (ltb ((length (b ∷ bits) + (2 ^ 64 - 1)) % 2 ^ 64) (2 ^ 32)) _
      (lt→ltb _ _ (omega arith))
    ∙ data_bits_to_int_loop-to_nat 0 b bits
    ∙ ap some (omega arith)

regroup :
    (w num : ℕ) (bits : DataBits)
    → digits w (num / 2) ++ (low_bit num ∷ bits) ≡ digits (suc w) num ++ bits
regroup w num bits =
    sym (append_assoc (digits w (num / 2)) (low_bit num ∷ []) bits)
    ∙ ap (λ (l : DataBits). l ++ bits) (sym (digits-last w num))

-- The loop writes the number in any width that holds it, but for leading zeros.
int_to_data_bits_loop-digits :
    (w num : ℕ) (acc : Acc ◌<◌ num) (bits : DataBits)
    → num < 2 ^ w
    → (k : ℕ) × (replicate k false ++ int_to_data_bits_loop num acc bits ≡ digits w num ++ bits)
unfolding int_to_data_bits_loop
int_to_data_bits_loop-digits zero num (Acc.intro _ smaller) bits h =
    (0, rw (dif_neg (dec_lt 0 num) (λ p. omega arith)) refl)
int_to_data_bits_loop-digits (suc w) num (Acc.intro _ smaller) bits h = elim (dec_lt 0 num) [
  | yes p ↦
      let (k, e) =
        int_to_data_bits_loop-digits w (num / 2) (smaller _ (half-lt num p)) (low_bit num ∷ bits)
          (omega (arith, pow-suc 2 w)) in
      (k, rw (dif_pos (dec_lt 0 num) le_prop p) (e ∙ regroup w num bits))
  | no p ↦ (
    suc w,
    rw (dif_neg (dec_lt 0 num) p) (
        ap (λ (l : DataBits). l ++ bits)
          (sym (ap (digits (suc w)) (omega arith) ∙ digits-zero (suc w)))),
  )
]

-- An integer that fits `w` bits is written without leading zeros: with `w - length` of them in
-- front it is the `w`-bit number.
pub int_to_data_bits-digits :
    (w num : ℕ)
    → num < 2 ^ w
    → (length (int_to_data_bits num) ≤ w)
      × (replicate (w - length (int_to_data_bits num)) false ++ int_to_data_bits num ≡ digits w num)
unfolding int_to_data_bits
int_to_data_bits-digits w num h =
    let bits = int_to_data_bits num in
    let (k, e) = int_to_data_bits_loop-digits w num (lt_wf.apply num) [] h in
    let e' : replicate k false ++ bits ≡ digits w num = e ∙ append-nil (digits w num) in
    let size : k + length bits ≡ w = omega (
      arith,
      length-append (replicate k false) bits,
      length-replicate k false,
      ap (λ (l : DataBits). length l) e',
      length-digits w num,
    ) in
    let k_is : w - length bits ≡ k = omega arith in
    (omega arith, ap (λ (n : ℕ). replicate n false ++ bits) k_is ∙ e')

-- A vector of 1 to 2^32 bits, read as an integer, written again and padded in front to its old
-- length is unchanged.
pub int_to_data_bits-data_bits_to_int :
    (bits : DataBits)
    → 0 < length bits
    → length bits ≤ 2 ^ 32
    → (num : ℕ) × (data_bits_to_int bits ≡ some num)
      × (num < 2 ^ length bits)
      × (length (int_to_data_bits num) ≤ length bits)
      × (replicate (length bits - length (int_to_data_bits num)) false ++ int_to_data_bits num
          ≡ bits)
int_to_data_bits-data_bits_to_int bits h small =
    let (fits, e) = int_to_data_bits-digits (length bits) (to_nat bits) (to_nat-lt bits) in
    (
      to_nat bits,
      data_bits_to_int-to_nat bits h small,
      to_nat-lt bits,
      fits,
      e ∙ digits-to_nat_of_length (length bits) bits refl,
    )
