-- ===== src/Utilities/Keypairs.antt =====
-- `GenerateKeypairMap` and the loop of `LoadKeystore`: a key for every suffix. What the `r`th call of MakeNewKey
-- yields is an argument, `fresh r`.
pub mod Filing
pub mod Generating
use bitcoin_messaging.Base.{
  ℕ, zero, suc, ◌+◌, ◌-◌, ◌*◌, ◌^◌, ◌≤◌, ◌<◌, ◌≡◌, ◌⊎◌, inl, inr, refl, sym, ap, ◌∙◌, Bool, true,
  false, List, [], ◌∷◌, ◌++◌, Option, none, some, arith, length, length-map, length-drop, map, drop,
  All, leb, le→leb, assert->>, lt→ltb, le→not-ltb, not-ltb→le, ltb→lt, ◌==◌, ltb, if◌then◌else◌,
  ◌>>=◌, ◌>>◌, assert, Bool-cases, Option-cases,
}
use mathlib.Core.Option.{some-injective}
use bitcoin_messaging.Types.{DataBits, data_to_bits}
use bitcoin_messaging.Types.Bytes.{data_to_bits-spread, length-spread}
use bitcoin_messaging.DataCompression.{bits_eq}
use bitcoin_messaging.DataInterface.{PubKeys}
use bitcoin_messaging.DataInterface.Pubkey.{IsCompressed}
use bitcoin_messaging.BlockchainInterface.Signing.{Signing}
use bitcoin_messaging.BlockchainInterface.ScriptHash.{KeypairMap, key_at, suffix}
use bitcoin_messaging.BlockchainInterface.ScriptHash.Keys.{HasSuffixes, length-bytes}
use bitcoin_messaging.Utilities.Suffixes.{
  has, Distinct, IsSized, bits_eq-same, bits_eq→≡, at_most, complete, at_least,
}

module _ {keys : PubKeys} (signing : Signing keys) where
  open signing use {Secret, Store, public_key, has_key, add_key}

  -- `keyMap[key] = val` where the map has the key.
  pub replace_key : DataBits → Secret → KeypairMap signing → KeypairMap signing
  unfolding bits_eq
  replace_key slice secret [] = []
  replace_key slice secret ((bits, old) ∷ key_map) =
      let rest = replace_key slice secret key_map in
      if bits_eq bits slice then (bits, secret) ∷ key_map else (bits, old) ∷ rest

  -- `keyMap[key] = val`
  unfoldable pub set_key : DataBits → Secret → KeypairMap signing → KeypairMap signing
  unfolding replace_key key_at
  set_key slice secret key_map = elim (key_at signing slice key_map) [
    | none ↦ (slice, secret) ∷ key_map
    | some old ↦ replace_key slice secret key_map
  ]

  -- The `while`; `calls` counts the calls of MakeNewKey. `none` if the fuel does not suffice.
  pub keypair_loop : (ℕ → Secret) → ℕ → ℕ → ℕ → KeypairMap signing → Option (KeypairMap signing)
  unfolding set_key suffix
  keypair_loop fresh n_bits zero calls key_map =
      if ltb (length key_map) (2 ^ n_bits) then none else some key_map
  keypair_loop fresh n_bits (suc fuel) calls key_map = elim (ltb (length key_map) (2 ^ n_bits)) [
    | true ↦ suffix signing n_bits (data_to_bits (keys.bytes (public_key (fresh calls)))) >>= λ key.
        keypair_loop fresh n_bits fuel (calls + 1) (set_key key (fresh calls) key_map)
    | false ↦ some key_map
  ]

  unfoldable pub generate_keypair_map : (ℕ → Secret) → ℕ → ℕ → Option (KeypairMap signing)
  unfolding keypair_loop
  generate_keypair_map fresh fuel n_bits = keypair_loop fresh n_bits fuel 0 []

  -- The loop of LoadKeystore.
  unfoldable pub keystore_loop : KeypairMap signing → Store → Store
  keystore_loop [] store = store
  keystore_loop ((bits, secret) ∷ key_map) store = keystore_loop key_map (add_key store secret)
