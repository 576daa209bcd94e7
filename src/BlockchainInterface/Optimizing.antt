-- ===== src/BlockchainInterface/Optimizing.antt =====
-- `OptimizeParams`: how many script hashes a transaction gets.
use bitcoin_messaging.Base.{
  ℕ, zero, suc, ◌+◌, ◌-◌, ◌*◌, ◌^◌, ◌≤◌, ◌<◌, ◌≡◌, ◌⊎◌, inl, inr, refl, Bool, true, false, [], ◌∷◌,
  ◌++◌, arith, length, replicate, leb, ltb, ◌==◌, ◌&&◌, ◌||◌, if◌then◌else◌, leb→le, not-leb→lt,
  Bool-cases,
}
use bitcoin_messaging.Types.{DataBits, Data}
use bitcoin_messaging.Maths.{u16, sub64}
use bitcoin_messaging.Utilities.Fees.{transaction_fee}
pub use bitcoin_messaging.Utilities.Fees.{Config}
use bitcoin_messaging.DataInterface.{embeddable_bits_in_values, embeddable_bits_in_permutation}
use bitcoin_messaging.BlockchainInterface.{u32, TxOut, Transaction, Scripts}

pub record Parameters : Type 0 where
  pub n_script_hash : ℕ
  pub n_nulldata : ℕ
  pub n_fees : ℕ

-- `CTxOut()` with a script: the amount is -1, all bits of an int64_t.
abbrev pub dummy_out : Data → TxOut
dummy_out script = record { n_value = 2 ^ 64 - 1; script_pub_key = script }

module _ (floor_log2 : ℕ → ℕ) (scripts : Scripts) (size : Transaction → ℕ) (config : Config)
    (tx : Transaction) (bits : DataBits) (budget : ℕ) where
  -- The bits that `n` script hashes and their inputs hold.
  unfoldable pub script_hash_bits : ℕ → ℕ
  script_hash_bits n =
      let bits_b = u32 (255 + 2 ^ 32 - config.random_suffix_bits) in
      u32 (u32 (n * u32 (config.suffix_bits + 11 * bits_b)) + u32 (n * 32))

  unfoldable pub needs_nulldata : ℕ → Bool
  unfolding script_hash_bits
  needs_nulldata n = (n == 1 && ltb (script_hash_bits n) (length bits)) || leb 2 n

  -- The fees of the transaction with the outputs of this round.
  unfoldable pub round_fees : ℕ → ℕ
  unfolding needs_nulldata
  round_fees n =
      let hashes = replicate n (dummy_out (scripts.hash_equal (replicate 20 0))) in
      let nulldata = dummy_out (scripts.null_data (replicate 40 0)) ∷ [] in
      transaction_fee size config
        (record { vin = tx.vin; vout = hashes ++ (if needs_nulldata n then nulldata else []) })

  -- `nTotalEmbeddableBits` at the end of a round.
  unfoldable pub total_bits : ℕ → ℕ
  unfolding needs_nulldata script_hash_bits round_fees
  total_bits n =
      let plain = u32 (script_hash_bits n + (if needs_nulldata n then 320 else 0)) in
      let split =
        if leb (round_fees n) budget
        then embeddable_bits_in_values floor_log2 (sub64 budget (round_fees n)) (u16 n)
        else 0 in
      if leb 2 n
      then u32 (plain + u32 (split + embeddable_bits_in_permutation floor_log2 (u16 n)))
      else plain

  unfoldable pub round_params : ℕ → Parameters
  unfolding needs_nulldata round_fees
  round_params n = record {
    n_script_hash = n;
    n_nulldata = if needs_nulldata n then 1 else 0;
    n_fees = round_fees n;
  }

  -- The `do … while`, which counts `nScriptHash` down.
  pub optimize_loop : ℕ → Parameters → Parameters
  unfolding total_bits round_params
  optimize_loop zero params = params
  optimize_loop (suc m) params =
      let rest = optimize_loop m (round_params (suc m)) in
      if leb (length bits) (total_bits (suc m))
      then rest
      else (if suc m == 14 then round_params (suc m) else params)

  unfoldable pub optimize_params : Parameters → Parameters
  unfolding optimize_loop
  optimize_params params =
      if length bits == 0
      then record { n_script_hash = 0; n_nulldata = 0; n_fees = transaction_fee size config tx }
      else optimize_loop 14 params

  -- The parameters of a number of script hashes for which there is room, unless it is 14, with one
  -- less of which there is none, unless it is 1.
  pub record IsOptimal (params : Parameters) : Type 0 where
    pub n : ℕ
    pub result : params ≡ round_params n
    pub at_least : 1 ≤ n
    pub at_most : n ≤ 14
    pub enough : (length bits ≤ total_bits n) ⊎ (n ≡ 14)
    pub least :
        length bits ≤ total_bits n
        → (n ≡ 1) ⊎ ((m : ℕ) × (n ≡ suc m) × (total_bits m < length bits))

  loop_on :
      (m : ℕ) (params : Parameters)
      → leb (length bits) (total_bits (suc m)) ≡ true
      → optimize_loop (suc m) params ≡ optimize_loop m (round_params (suc m))
  unfolding optimize_loop
  loop_on m params e = rw e

  loop_end :
      (m : ℕ) (params : Parameters)
      → suc m < 14
      → leb (length bits) (total_bits (suc m)) ≡ false
      → optimize_loop (suc m) params ≡ params
  unfolding optimize_loop
  loop_end m params h e = let early : (suc m == 14) ≡ false = ground arith in rw (e, early)

  optimize_loop-IsOptimal :
      (m : ℕ)
      → m < 14
      → length bits ≤ total_bits (suc m)
      → IsOptimal (optimize_loop m (round_params (suc m)))
  unfolding optimize_loop
  optimize_loop-IsOptimal zero h room = record {
    n = 1;
    result = refl;
    at_least = omega arith;
    at_most = omega arith;
    enough = inl room;
    least = λ _. inl refl;
  }
  optimize_loop-IsOptimal (suc m) h room =
      elim (Bool-cases (leb (length bits) (total_bits (suc m)))) [
        | inl e ↦
            rw (loop_on m (round_params (suc (suc m))) e) (
              optimize_loop-IsOptimal m (omega arith) (leb→le (length bits) (total_bits (suc m)) e))
        | inr e ↦ record {
          n = suc (suc m);
          result = loop_end m (round_params (suc (suc m))) h e;
          at_least = omega arith;
          at_most = omega arith;
          enough = inl room;
          least = λ _. inr (suc m, refl, not-leb→lt (length bits) (total_bits (suc m)) e);
        }
      ]

  full_end :
      (params : Parameters)
      → leb (length bits) (total_bits 14) ≡ false
      → optimize_loop 14 params ≡ round_params 14
  unfolding optimize_loop
  full_end params e = rw e

  -- For any data but none, and whatever the fields of the parameters were before, the parameters are
  -- those of a number n of script hashes from 1 to 14. The data fit, or n is 14; and if they fit, then
  -- n is 1 or they do not fit with one script hash less.
  pub optimize_params-IsOptimal :
      (params : Parameters) → 0 < length bits → IsOptimal (optimize_params params)
  unfolding optimize_params
  optimize_params-IsOptimal params h =
      let some_bits : (length bits == 0) ≡ false = ground arith in
      rw some_bits (elim (Bool-cases (leb (length bits) (total_bits 14))) [
        | inl e ↦
            rw (loop_on 13 params e)
              (optimize_loop-IsOptimal 13 (omega arith) (leb→le (length bits) (total_bits 14) e))
        | inr e ↦ record {
          n = 14;
          result = full_end params e;
          at_least = omega arith;
          at_most = omega arith;
          enough = inr refl;
          least = λ fits. absurd (omega (arith, not-leb→lt (length bits) (total_bits 14) e));
        }
      ])
