-- ===== src/Types/Digits.antt =====
-- Binary numbers of a fixed width, highest bit first: the specification of the conversions of
-- src/lib/bms/Types.cpp.
use native.Mathlib.Nat.{
  pow-suc, pow-succ', one-le-pow, div-div-eq-div-mul, mul-add-div_right, div-eq_of_lt, div-one,
  zero-div, div-add-mod, mod-eq_of_lt,
}
use bitcoin_messaging.Base.{
  ℕ, zero, suc, ◌+◌, ◌*◌, ◌/◌, ◌%◌, ◌^◌, ◌<◌, ◌≡◌, refl, sym, ap, ◌∙◌, Bool, true, false, [], ◌∷◌,
  ◌++◌, arith, length, replicate,
}
use bitcoin_messaging.Types.{DataBits, of_bit, low_bit}

-- The number that the bits stand for.
abbrev pub to_nat : DataBits → ℕ
to_nat [] = 0
to_nat (b ∷ bits) = of_bit b * 2 ^ length bits + to_nat bits

-- The lowest `w` bits of `x`.
abbrev pub digits : ℕ → ℕ → DataBits
digits zero x = []
digits (suc w) x = low_bit (x / 2 ^ w) ∷ digits w x

pub length-digits : (w x : ℕ) → length (digits w x) ≡ w
length-digits zero x = refl
length-digits (suc w) x = ap suc (length-digits w x)

pub to_nat-lt : (bits : DataBits) → to_nat bits < 2 ^ length bits
to_nat-lt [] = omega arith
to_nat-lt (false ∷ bits) = omega (arith, to_nat-lt bits, pow-suc 2 (length bits))
to_nat-lt (true ∷ bits) = omega (arith, to_nat-lt bits, pow-suc 2 (length bits))

pub low_bit-add : (q : ℕ) (b : Bool) → low_bit (q * 2 + of_bit b) ≡ b
unfolding low_bit
low_bit-add q false = ground arith
low_bit-add q true = ground arith

pub of_bit-low_bit : (x : ℕ) → of_bit (low_bit x) ≡ x % 2
unfolding low_bit
of_bit-low_bit x = ground arith

split_top :
    (q n t : ℕ) (b : Bool) → q * 2 ^ suc n + (of_bit b * 2 ^ n + t) ≡ (q * 2 + of_bit b) * 2 ^ n + t
split_top q n t b = omega (arith, ap (λ (x : ℕ). q * x) (pow-suc 2 n))

above : (q n t : ℕ) → t < 2 ^ n → (q * 2 ^ n + t) / 2 ^ n ≡ q
above q n t h = mul-add-div_right (one-le-pow n 2 (omega arith)) q t ∙ omega (arith, div-eq_of_lt h)

-- Reading the digits back, whatever stands above them.
pub digits-to_nat :
    (q : ℕ) (bits : DataBits) → digits (length bits) (q * 2 ^ length bits + to_nat bits) ≡ bits
digits-to_nat q [] = refl
digits-to_nat q (b ∷ bits) = rw (
  split_top q (length bits) (to_nat bits) b,
  above (q * 2 + of_bit b) (length bits) (to_nat bits) (to_nat-lt bits),
  low_bit-add q b,
  digits-to_nat (q * 2 + of_bit b) bits,
)

next_digit : (x p : ℕ) → x / p % 2 * p + x % p ≡ x % (p * 2)
next_digit x p = omega (
  arith,
  div-add-mod x p,
  div-add-mod x (p * 2),
  ap (λ (t : ℕ). p * 2 * t) (sym (div-div-eq-div-mul x p 2)),
  ap (λ (t : ℕ). t * p) (div-add-mod (x / p) 2),
)

pub to_nat-digits : (w x : ℕ) → to_nat (digits w x) ≡ x % 2 ^ w
to_nat-digits zero x = omega arith
to_nat-digits (suc w) x =
    rw (of_bit-low_bit (x / 2 ^ w), length-digits w x, to_nat-digits w x)
      (next_digit x (2 ^ w) ∙ ap (λ (t : ℕ). x % t) (sym (pow-suc 2 w)))

halve : (w x : ℕ) → x / 2 / 2 ^ w ≡ x / 2 ^ suc w
halve w x = div-div-eq-div-mul x 2 (2 ^ w) ∙ ap (λ t. x / t) (sym (pow-succ' 2 w))

-- The lowest bit stands last.
pub digits-last : (w x : ℕ) → digits (suc w) x ≡ digits w (x / 2) ++ (low_bit x ∷ [])
digits-last zero x = ap (λ (t : ℕ). low_bit t ∷ []) (div-one x)
digits-last (suc w) x = rw (halve w x, ← digits-last w x)

pub digits-zero : (w : ℕ) → digits w 0 ≡ replicate w false
digits-zero zero = refl
digits-zero (suc w) = rw (zero-div (2 ^ w), digits-zero w) (unfold low_bit in refl)

pub digits-to_nat_of_length :
    (w : ℕ) (bits : DataBits) → length bits ≡ w → digits w (to_nat bits) ≡ bits
digits-to_nat_of_length w bits h =
    rw (← h) (ap (digits (length bits)) (omega arith) ∙ digits-to_nat 0 bits)

pub to_nat-digits_of_lt : (w x : ℕ) → x < 2 ^ w → to_nat (digits w x) ≡ x
to_nat-digits_of_lt w x h = to_nat-digits w x ∙ mod-eq_of_lt h
