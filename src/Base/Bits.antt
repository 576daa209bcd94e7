-- ===== src/Base/Bits.antt =====
-- `|` of a number with a smaller field below it is a sum, at every width.
use Prim.Native.Nat.{
  ℕ, zero, suc, ◌+◌, ◌*◌, ◌/◌, ◌^◌, ◌≤◌, ◌<◌, bit_or, bit_or-bitwise, digits, max,
}
use mathlib.Core.Path.{◌≡◌, refl, ap}
use native.Mathlib.Nat.{pow-suc}
use native.Mathlib.Omega.{arith}

abbrev or_digits : ℕ → ℕ → ℕ → ℕ
or_digits fuel a b = digits (λ (d : ℕ). d) max fuel a b

-- With fuel for every digit of `a`, a multiple of 2 ^ k, and `r` below 2 ^ k, no digits meet.
or_digits-field :
    (fuel k q r a : ℕ) → a ≡ q * 2 ^ k → a ≤ fuel → r < 2 ^ k → or_digits fuel a r ≡ a + r
or_digits-field zero k q r a e enough small = omega arith
or_digits-field (suc fuel) k q r zero e enough small = omega arith
or_digits-field (suc fuel) zero q r (suc a) e enough small =
    let none_below : r / 2 ≡ 0 = omega arith in
    rw none_below (
      omega (
        arith,
        or_digits-field fuel zero (suc a / 2) 0 (suc a / 2) (omega arith) (omega arith)
            (omega arith),
      ))
or_digits-field (suc fuel) (suc k) q r (suc a) e enough small =
    let double : q * 2 ^ suc k ≡ q * 2 ^ k * 2 =
      omega (arith, ap (λ (t : ℕ). q * t) (pow-suc 2 k)) in
    omega (
      arith,
      or_digits-field fuel k q (r / 2) (suc a / 2) (omega arith) (omega arith)
          (omega (arith, pow-suc 2 k)),
    )

pub bit_or_field : (k q r : ℕ) → r < 2 ^ k → bit_or (q * 2 ^ k) r ≡ q * 2 ^ k + r
bit_or_field k q r h =
    simp bit_or-bitwise (or_digits-field (q * 2 ^ k) k q r (q * 2 ^ k) refl (omega arith) h)

pub zero-bit_or : (b : ℕ) → bit_or 0 b ≡ b
zero-bit_or b = simp bit_or-bitwise
