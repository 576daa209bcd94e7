-- ===== src/Utilities/Keypairs/Generating.antt =====
-- The loop of GenerateKeypairMap ends with a key for every suffix.
use bitcoin_messaging.Base.{
  ℕ, zero, suc, ◌+◌, ◌^◌, ◌≤◌, ◌<◌, ◌≡◌, ◌⊎◌, inl, inr, sym, ap, ◌∙◌, true, [], Option, some, arith,
  length, length-map, lt→ltb, le→not-ltb, not-ltb→le, ltb→lt, ◌==◌, ltb, ◌>>=◌, Bool-cases,
}
use mathlib.Core.Option.{some-injective}
use bitcoin_messaging.Types.{DataBits, data_to_bits}
use bitcoin_messaging.DataInterface.{PubKeys}
use bitcoin_messaging.DataInterface.Pubkey.{IsCompressed}
use bitcoin_messaging.BlockchainInterface.Signing.{Signing}
use bitcoin_messaging.BlockchainInterface.ScriptHash.{KeypairMap, suffix}
use bitcoin_messaging.BlockchainInterface.ScriptHash.Keys.{HasSuffixes}
use bitcoin_messaging.Utilities.Suffixes.{has, at_most, complete, at_least}
use bitcoin_messaging.Utilities.Keypairs.{
  set_key, keypair_loop, generate_keypair_map, keystore_loop,
}
use bitcoin_messaging.Utilities.Keypairs.Filing.{
  slices, key_suffix, IsKeypairMap, slices-IsSized, key_at-IsFiled, set_key-IsKeypairMap,
  set_key-has, set_key-keeps, suffix-IsCompressed, keystore_loop-known,
}

module _ {keys : PubKeys} (signing : Signing keys) where
  open signing use {Secret, Store, public_key, has_key, add_key}

  module _ (fresh : ℕ → Secret) (n_bits : ℕ) (small : n_bits ≤ 264)
      (fresh-IsCompressed : (r : ℕ) → IsCompressed keys (public_key (fresh r))) where
    -- A suffix is in the map already, or one of the next keys has it.
    abbrev IsComing : ℕ → ℕ → KeypairMap signing → DataBits → Type 0
    IsComing fuel calls key_map slice =
        (has (slices signing key_map) slice ≡ true)
        ⊎ ((r : ℕ) × (calls ≤ r)
            × (r < calls + fuel)
            × (key_suffix signing n_bits (fresh r) ≡ some slice))

    abbrev IsGenerated : Option (KeypairMap signing) → Type 0
    IsGenerated result =
        (key_map : KeypairMap signing) × (result ≡ some key_map)
        × IsKeypairMap signing n_bits key_map
        × (2 ^ n_bits ≤ length key_map)

    many : (key_map : KeypairMap signing) → length (slices signing key_map) ≡ length key_map
    many key_map = length-map (λ (e : DataBits × Secret). e.0) key_map

    loop_end :
        (fuel calls : ℕ) (key_map : KeypairMap signing)
        → 2 ^ n_bits ≤ length key_map
        → keypair_loop signing fresh n_bits fuel calls key_map ≡ some key_map
    unfolding keypair_loop
    loop_end zero calls key_map h = rw (le→not-ltb (length key_map) (2 ^ n_bits) h)
    loop_end (suc fuel) calls key_map h =
        let e = le→not-ltb (length key_map) (2 ^ n_bits) h in ground (arith, e)

    loop_on :
        (fuel calls : ℕ) (key_map : KeypairMap signing) (slice : DataBits)
        → length key_map < 2 ^ n_bits
        → key_suffix signing n_bits (fresh calls) ≡ some slice
        → keypair_loop signing fresh n_bits (suc fuel) calls key_map
          ≡ keypair_loop signing fresh n_bits fuel
              (calls + 1)
              (set_key signing slice (fresh calls) key_map)
    unfolding keypair_loop
    loop_on fuel calls key_map slice h f =
        let e = lt→ltb (length key_map) (2 ^ n_bits) h in
        (ground (arith, e))
        ∙ ap
            (λ (o : Option DataBits). o >>= λ key.
              keypair_loop signing fresh n_bits fuel (calls + 1)
                (set_key signing key (fresh calls) key_map))
            f

    -- One more key: those that are still to come.
    come :
        (fuel calls : ℕ) (key_map : KeypairMap signing) (key slice : DataBits)
        → key_suffix signing n_bits (fresh calls) ≡ some key
        → IsComing (suc fuel) calls key_map slice
        → IsComing fuel (calls + 1) (set_key signing key (fresh calls) key_map) slice
    come fuel calls key_map key slice e (inl h) =
        inl (set_key-keeps signing key (fresh calls) key_map slice h)
    come fuel calls key_map key slice e (inr (r, from, below, f)) = elim (Bool-cases (r == calls)) [
      | inl same ↦
          let now : r ≡ calls = ground arith in
          let is_key =
            some-injective _ _
              (sym e ∙ ap (λ (c : ℕ). key_suffix signing n_bits (fresh c)) (sym now) ∙ f) in
          inl (rw (sym is_key) (set_key-has signing key (fresh calls) key_map))
      | inr other ↦ let later : calls + 1 ≤ r = ground arith in inr (r, later, omega arith, f)
    ]

    come_all :
        (calls : ℕ) (key_map : KeypairMap signing) (slice : DataBits)
        → IsComing zero calls key_map slice
        → has (slices signing key_map) slice ≡ true
    come_all calls key_map slice (inl h) = h
    come_all calls key_map slice (inr (r, from, below, f)) = absurd (omega arith)

    keypair_loop-IsGenerated :
        (fuel calls : ℕ) (key_map : KeypairMap signing)
        → IsKeypairMap signing n_bits key_map
        → ((slice : DataBits) → length slice ≡ n_bits → IsComing fuel calls key_map slice)
        → IsGenerated (keypair_loop signing fresh n_bits fuel calls key_map)
    keypair_loop-IsGenerated zero calls key_map inv coming =
        let full =
          at_least n_bits (slices signing key_map) (slices-IsSized signing n_bits key_map inv.0)
            (λ slice size. come_all calls key_map slice (coming slice size)) in
        (
          key_map,
          loop_end zero calls key_map (omega (arith, full, many key_map)),
          inv,
          omega (arith, full, many key_map),
        )
    keypair_loop-IsGenerated (suc fuel) calls key_map inv coming =
        elim (Bool-cases (ltb (length key_map) (2 ^ n_bits))) [
          | inl e ↦
              let (key, ends, size) =
                suffix-IsCompressed signing n_bits (fresh calls) small (fresh-IsCompressed calls) in
              let (made, returns, good, full) =
                keypair_loop-IsGenerated fuel (calls + 1)
                  (set_key signing key (fresh calls) key_map)
                  (set_key-IsKeypairMap signing n_bits key (fresh calls) key_map
                    (size, fresh-IsCompressed calls, ends) inv)
                  (λ slice length_ok.
                    come fuel calls key_map key slice ends (coming slice length_ok)) in
              (
                made,
                loop_on fuel calls key_map key (ltb→lt (length key_map) (2 ^ n_bits) e) ends
                    ∙ returns,
                good,
                full,
              )
          | inr e ↦
              let full = not-ltb→le (length key_map) (2 ^ n_bits) e in
              (key_map, loop_end (suc fuel) calls key_map full, inv, full)
        ]

    -- If new keys are compressed, the suffix is not longer than a key, and every suffix comes up among as
    -- many keys as the fuel allows, a map is generated. It has one entry for each of the 2 ^ n suffixes,
    -- which is a key with that suffix, and a keystore that loads the map has all of these keys.
    pub generate_keypair_map-HasSuffixes :
        (fuel : ℕ)
        → ((slice : DataBits)
            → length slice ≡ n_bits
            → (r : ℕ) × (r < fuel)
              × (suffix signing n_bits (data_to_bits (keys.bytes (public_key (fresh r))))
                  ≡ some slice))
        → (store : Store)
        → (key_map : KeypairMap signing) × (generate_keypair_map signing fresh fuel n_bits
            ≡ some key_map)
          × (length key_map ≡ 2 ^ n_bits)
          × HasSuffixes signing key_map n_bits (keystore_loop signing key_map store)
    unfolding generate_keypair_map
    generate_keypair_map-HasSuffixes fuel luck store =
        let (made, returns, good, full) =
          keypair_loop-IsGenerated fuel 0 [] (tt, tt)
            (λ slice size.
              let (r, below, e) = luck slice size in inr (r, omega arith, omega arith, e)) in
        let sized = slices-IsSized signing n_bits made good.0 in
        let room = at_most n_bits (slices signing made) sized good.1 in
        (
          made,
          returns,
          omega (arith, many made, full, room),
          λ slice size.
              let (secret, found, shape, ends) = key_at-IsFiled signing n_bits slice made good.0 (
                complete n_bits (slices signing made) sized good.1 (omega (arith, many made, full))
                  slice size) in
              (
                secret,
                found,
                shape,
                ends,
                keystore_loop-known signing slice secret made store found,
              ),
        )
