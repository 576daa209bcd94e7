-- ===== src/Utilities/Bounds.antt =====
-- The fee of a chain of transactions is between two multiples of its size.
use bitcoin_messaging.Base.{
  ℕ, ◌+◌, ◌*◌, ◌/◌, ◌^◌, ◌≤◌, ◌<◌, ◌≡◌, ap, ◌∙◌, List, [], ◌∷◌, arith, length, map,
}
use native.Mathlib.Nat.{mul-add, mul-le-mul_left}
use bitcoin_messaging.Maths.{u64}
use bitcoin_messaging.Maths.Compositions.{sum}
use bitcoin_messaging.BlockchainInterface.{Transaction}
use bitcoin_messaging.Utilities.Fees.{Config, transaction_fee, transaction_fee-exact}
use bitcoin_messaging.Utilities.Minimum.{chain_fee_loop, chain_fee}

module _ (size : Transaction → ℕ) (config : Config) where
  open config use {fee_rate}

  -- The kilobytes that a transaction begins.
  abbrev pub kilobytes : Transaction → ℕ
  kilobytes tx = (size tx + 999) / 1000

  abbrev pub all_kilobytes : List Transaction → ℕ
  all_kilobytes chain = sum (map (λ (tx : Transaction). kilobytes tx) chain)

  abbrev pub all_bytes : List Transaction → ℕ
  all_bytes chain = sum (map (λ (tx : Transaction). size tx) chain)

  loop_sum :
      (chain : List Transaction) (fee : ℕ)
      → fee_rate < 2 ^ 53
      → fee + fee_rate * all_kilobytes chain < 2 ^ 53
      → chain_fee_loop size config chain fee ≡ fee + fee_rate * all_kilobytes chain
  unfolding chain_fee_loop
  loop_sum [] fee rate small = omega arith
  loop_sum (tx ∷ chain) fee rate small =
      let split : fee_rate * (kilobytes tx + all_kilobytes chain)
          ≡ fee_rate * kilobytes tx + fee_rate * all_kilobytes chain =
        mul-add fee_rate (kilobytes tx) (all_kilobytes chain) in
      let one : transaction_fee size config tx ≡ fee_rate * kilobytes tx =
        transaction_fee-exact size config tx rate (omega arith) in
      let next : u64 (fee + transaction_fee size config tx) ≡ fee + fee_rate * kilobytes tx =
        omega arith in
      ap (chain_fee_loop size config chain) next
      ∙ loop_sum chain (fee + fee_rate * kilobytes tx) rate (omega arith)
      ∙ omega arith

  bytes_at_most : (chain : List Transaction) → all_bytes chain ≤ 1000 * all_kilobytes chain
  bytes_at_most [] = omega arith
  bytes_at_most (tx ∷ chain) = omega (arith, bytes_at_most chain)

  bytes_at_least :
      (chain : List Transaction) → 1000 * all_kilobytes chain ≤ all_bytes chain + 999 * length chain
  bytes_at_least [] = omega arith
  bytes_at_least (tx ∷ chain) = omega (arith, bytes_at_least chain)

  -- If the rate, and the rate times the kilobytes that the transactions begin, are below 2^53, the fee of a
  -- chain is at least the rate for each 1000 bytes of all of it, and exceeds that by 999 thousandths of the
  -- rate for each of its transactions at most.
  pub chain_fee-bounds :
      (chain : List Transaction)
      → fee_rate < 2 ^ 53
      → fee_rate * all_kilobytes chain < 2 ^ 53
      → (fee_rate * all_bytes chain ≤ 1000 * chain_fee size config chain)
        × (1000 * chain_fee size config chain ≤ fee_rate * (all_bytes chain + 999 * length chain))
  unfolding chain_fee
  chain_fee-bounds chain rate small =
      let total : chain_fee_loop size config chain 0 ≡ fee_rate * all_kilobytes chain =
        loop_sum chain 0 rate (omega arith) ∙ omega arith in
      let low = mul-le-mul_left fee_rate (bytes_at_most chain) in
      let high = mul-le-mul_left fee_rate (bytes_at_least chain) in
      let swap : fee_rate * (1000 * all_kilobytes chain) ≡ 1000 * (fee_rate * all_kilobytes chain) =
        omega arith in
      (omega (arith, low, swap, total), omega (arith, high, swap, total))
