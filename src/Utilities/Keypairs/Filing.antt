-- ===== src/Utilities/Keypairs/Filing.antt =====
-- The entries of a keypair map, each under the suffix of its key.
use bitcoin_messaging.Base.{
  ℕ, ◌-◌, ◌≤◌, ◌≡◌, inl, inr, refl, sym, ap, ◌∙◌, Bool, true, false, List, [], ◌∷◌, Option, none,
  some, arith, length, length-drop, map, drop, All, leb, le→leb, assert->>, if◌then◌else◌,
  Bool-cases, Option-cases,
}
use mathlib.Core.Option.{some-injective}
use bitcoin_messaging.Types.{DataBits, data_to_bits}
use bitcoin_messaging.Types.Bytes.{data_to_bits-spread, length-spread}
use bitcoin_messaging.DataCompression.{bits_eq}
use bitcoin_messaging.DataInterface.{PubKeys}
use bitcoin_messaging.DataInterface.Pubkey.{IsCompressed}
use bitcoin_messaging.BlockchainInterface.Signing.{Signing}
use bitcoin_messaging.BlockchainInterface.ScriptHash.{KeypairMap, key_at, suffix}
use bitcoin_messaging.BlockchainInterface.ScriptHash.Keys.{length-bytes}
use bitcoin_messaging.Utilities.Suffixes.{has, Distinct, IsSized, bits_eq-same, bits_eq→≡}
use bitcoin_messaging.Utilities.Keypairs.{set_key, replace_key, keystore_loop}

keep_true : (b : Bool) {c : Bool} → c ≡ true → (if b then true else c) ≡ true
keep_true true h = refl
keep_true false h = h

module _ {keys : PubKeys} (signing : Signing keys) where
  open signing use {Secret, Store, public_key, has_key, add_key}

  abbrev pub key_suffix : ℕ → Secret → Option DataBits
  key_suffix n_bits secret = suffix signing n_bits (data_to_bits (keys.bytes (public_key secret)))

  abbrev pub slices : KeypairMap signing → List DataBits
  slices key_map = map (λ (e : DataBits × Secret). e.0) key_map

  -- An entry under the suffix of its key.
  abbrev pub IsFiled : ℕ → DataBits × Secret → Type 0
  IsFiled n_bits e =
      (length e.0 ≡ n_bits)
      × IsCompressed keys (public_key e.1)
      × (key_suffix n_bits e.1 ≡ some e.0)

  abbrev pub IsKeypairMap : ℕ → KeypairMap signing → Type 0
  IsKeypairMap n_bits key_map = All (IsFiled n_bits) key_map × Distinct (slices key_map)

  pub slices-IsSized :
      (n_bits : ℕ) (key_map : KeypairMap signing)
      → All (IsFiled n_bits) key_map
      → IsSized n_bits (slices key_map)
  slices-IsSized n_bits [] h = tt
  slices-IsSized n_bits (e ∷ key_map) (h, hs) = (h.0, slices-IsSized n_bits key_map hs)

  key_at-has :
      (slice : DataBits) (key_map : KeypairMap signing)
      → key_at signing slice key_map ≡ none
      → has (slices key_map) slice ≡ false
  unfolding key_at
  key_at-has slice [] = λ h. refl
  key_at-has slice ((bits, secret) ∷ key_map) = elim (Bool-cases (bits_eq bits slice)) [
    | inl e ↦ rw e (λ h. ground (arith, h))
    | inr e ↦ rw e (key_at-has slice key_map)
  ]

  pub key_at-IsFiled :
      (n_bits : ℕ) (slice : DataBits) (key_map : KeypairMap signing)
      → All (IsFiled n_bits) key_map
      → has (slices key_map) slice ≡ true
      → (secret : Secret) × (key_at signing slice key_map ≡ some secret)
        × IsCompressed keys (public_key secret)
        × (key_suffix n_bits secret ≡ some slice)
  unfolding key_at
  key_at-IsFiled n_bits slice [] h = λ found. ground (arith, found)
  key_at-IsFiled n_bits slice ((bits, secret) ∷ key_map) ((size, shape, ends), hs) =
      elim (Bool-cases (bits_eq bits slice)) [
        | inl e ↦ rw e (λ found. (secret, refl, shape, ends ∙ ap some (bits_eq→≡ bits slice e)))
        | inr e ↦ rw e (key_at-IsFiled n_bits slice key_map hs)
      ]

  replace_key-slices :
      (slice : DataBits) (secret : Secret) (key_map : KeypairMap signing)
      → slices (replace_key signing slice secret key_map) ≡ slices key_map
  unfolding replace_key
  replace_key-slices slice secret [] = refl
  replace_key-slices slice secret ((bits, old) ∷ key_map) = elim (Bool-cases (bits_eq bits slice)) [
    | inl e ↦ rw e
    | inr e ↦ rw e (ap (λ (l : List DataBits). bits ∷ l) (replace_key-slices slice secret key_map))
  ]

  replace_key-IsFiled :
      (n_bits : ℕ) (slice : DataBits) (secret : Secret) (key_map : KeypairMap signing)
      → IsFiled n_bits (slice, secret)
      → All (IsFiled n_bits) key_map
      → All (IsFiled n_bits) (replace_key signing slice secret key_map)
  unfolding replace_key
  replace_key-IsFiled n_bits slice secret [] new h = tt
  replace_key-IsFiled n_bits slice secret ((bits, old) ∷ key_map) new (h, hs) =
      elim (Bool-cases (bits_eq bits slice)) [
        | inl e ↦
            let same = bits_eq→≡ bits slice e in rw e ((h.0, new.1, new.2 ∙ ap some (sym same)), hs)
        | inr e ↦ rw e (h, replace_key-IsFiled n_bits slice secret key_map new hs)
      ]

  key_at-found :
      (slice : DataBits) (old : Secret) (key_map : KeypairMap signing)
      → key_at signing slice key_map ≡ some old
      → has (slices key_map) slice ≡ true
  unfolding key_at
  key_at-found slice old [] = λ h. ground (arith, h)
  key_at-found slice old ((bits, secret) ∷ key_map) = elim (Bool-cases (bits_eq bits slice)) [
    | inl e ↦ rw e (λ h. refl)
    | inr e ↦ rw e (key_at-found slice old key_map)
  ]

  set_key-new :
      (slice : DataBits) (secret : Secret) (key_map : KeypairMap signing)
      → key_at signing slice key_map ≡ none
      → set_key signing slice secret key_map ≡ (slice, secret) ∷ key_map
  unfolding set_key
  set_key-new slice secret key_map e = rw (set_key, e)

  set_key-old :
      (slice : DataBits) (secret old : Secret) (key_map : KeypairMap signing)
      → key_at signing slice key_map ≡ some old
      → set_key signing slice secret key_map ≡ replace_key signing slice secret key_map
  unfolding set_key
  set_key-old slice secret old key_map e = rw (set_key, e)

  pub set_key-IsKeypairMap :
      (n_bits : ℕ) (slice : DataBits) (secret : Secret) (key_map : KeypairMap signing)
      → IsFiled n_bits (slice, secret)
      → IsKeypairMap n_bits key_map
      → IsKeypairMap n_bits (set_key signing slice secret key_map)
  set_key-IsKeypairMap n_bits slice secret key_map new (h, d) =
      elim (Option-cases (key_at signing slice key_map)) [
        | inl e ↦
            rw (set_key-new slice secret key_map e) ((new, h), (key_at-has slice key_map e, d))
        | inr (old, e) ↦
            rw (set_key-old slice secret old key_map e, replace_key-slices slice secret key_map)
              (replace_key-IsFiled n_bits slice secret key_map new h, d)
      ]

  pub set_key-has :
      (slice : DataBits) (secret : Secret) (key_map : KeypairMap signing)
      → has (slices (set_key signing slice secret key_map)) slice ≡ true
  set_key-has slice secret key_map = elim (Option-cases (key_at signing slice key_map)) [
    | inl e ↦ rw (set_key-new slice secret key_map e, bits_eq-same slice)
    | inr (old, e) ↦
        rw (set_key-old slice secret old key_map e, replace_key-slices slice secret key_map)
          (key_at-found slice old key_map e)
  ]

  pub set_key-keeps :
      (slice : DataBits) (secret : Secret) (key_map : KeypairMap signing) (other : DataBits)
      → has (slices key_map) other ≡ true
      → has (slices (set_key signing slice secret key_map)) other ≡ true
  set_key-keeps slice secret key_map other h = elim (Option-cases (key_at signing slice key_map)) [
    | inl e ↦ rw (set_key-new slice secret key_map e) (keep_true (bits_eq slice other) h)
    | inr (old, e) ↦
        rw (set_key-old slice secret old key_map e, replace_key-slices slice secret key_map) h
  ]

  keystore_loop-keeps :
      (key_map : KeypairMap signing) (store : Store) (secret : Secret)
      → has_key store secret ≡ true
      → has_key (keystore_loop signing key_map store) secret ≡ true
  unfolding keystore_loop
  keystore_loop-keeps [] store secret h = h
  keystore_loop-keeps ((bits, other) ∷ key_map) store secret h =
      keystore_loop-keeps key_map (add_key store other) secret
        (signing.has_key-add_other store other secret h)

  pub keystore_loop-known :
      (slice : DataBits) (secret : Secret) (key_map : KeypairMap signing) (store : Store)
      → key_at signing slice key_map ≡ some secret
      → has_key (keystore_loop signing key_map store) secret ≡ true
  unfolding key_at keystore_loop
  keystore_loop-known slice secret [] store = λ h. ground (arith, h)
  keystore_loop-known slice secret ((bits, other) ∷ key_map) store =
      elim (Bool-cases (bits_eq bits slice)) [
        | inl e ↦ rw e (λ h.
            let same = some-injective _ _ h in
            rw (sym same) (
              keystore_loop-keeps key_map (add_key store other) other
                (signing.has_key-add_key store other)))
        | inr e ↦ rw e (keystore_loop-known slice secret key_map (add_key store other))
      ]

  -- The suffix of a compressed key.
  pub suffix-IsCompressed :
      (n_bits : ℕ) (secret : Secret)
      → n_bits ≤ 264
      → IsCompressed keys (public_key secret)
      → (slice : DataBits) × (key_suffix n_bits secret ≡ some slice) × (length slice ≡ n_bits)
  unfolding suffix
  suffix-IsCompressed n_bits secret small shape =
      let buf = data_to_bits (keys.bytes (public_key secret)) in
      let size : length buf ≡ 264 = omega (
        arith,
        ap length (data_to_bits-spread (keys.bytes (public_key secret))),
        length-spread (keys.bytes (public_key secret)),
        length-bytes keys (public_key secret) shape,
      ) in
      (
        drop (length buf - n_bits) buf,
        assert->> (leb n_bits (length buf)) _ (le→leb n_bits (length buf) (omega arith)),
        omega (arith, length-drop (length buf - n_bits) buf),
      )
