-- ===== src/DataInterface/Pubkey.antt =====
-- `EncodeDataInPubkey` and `DecodeDataInPubkey`: data in public keys that nobody holds the secret of.
use mathlib.Core.Bool.{false≢true}
use bitcoin_messaging.Base.{
  ℕ, zero, suc, ◌+◌, ◌-◌, ◌*◌, ◌≤◌, ◌<◌, ◌≡◌, ◌≢◌, refl, sym, ap, ap_at, ◌∙◌, ◌∷◌, ◌++◌, Bool, true,
  false, Option, some, arith, length, take, drop, leb, ◌==◌, ◌>>=◌, assert->>, le→leb, ==_iff,
  append-nil, length-append, take-append, inl, inr, ◌⊎◌, Bool-cases,
}
use bitcoin_messaging.Types.{DataBits, Data, data_to_bits, bits_to_data}
use bitcoin_messaging.Types.Bytes.{
  bits_to_data-gather, gather, length-gather, data_to_bits-spread, spread-gather,
}
use bitcoin_messaging.Maths.{sub64}
use bitcoin_messaging.Utilities.{generate_random_bits, length-generate_random_bits}
use bitcoin_messaging.DataInterface.{
  PubKeys, key_prefix, key_payload, random_key, key_loop, encode_data_in_pubkey,
  decode_data_in_pubkey,
}

-- With 255 bits of data and randomness the padding behind the data is empty.
key_payload_full :
    (bits : DataBits) (n_rand : ℕ)
    → length bits + n_rand ≡ 255
    → key_payload bits n_rand ≡ false ∷ bits
unfolding key_payload
key_payload_full bits n_rand h =
    let none_left : sub64 (sub64 256 (suc (length bits))) n_rand ≡ 0 =
      unfold sub64 in omega arith in
    rw none_left (append-nil (false ∷ bits))

module _ (keys : PubKeys) where
  open keys use {Key, of_bytes, bytes, is_fully_valid, bytes-of_bytes}

  -- The 33 bytes of a compressed key.
  abbrev pub IsCompressed : Key → Type 0
  IsCompressed k =
      (tail : Data) × (length tail ≡ 32) × ((bytes k ≡ 2 ∷ tail) ⊎ (bytes k ≡ 3 ∷ tail))

  -- What every round makes: a key whose bits are the header, the padding bit, the data and noise.
  pub record IsCarrying (bits noise : DataBits) (result : Option Key) : Type 0 where
    pub key : Key
    pub returns : result ≡ some key
    pub contents : data_to_bits (bytes key) ≡ key_prefix ++ (false ∷ (bits ++ noise))
    pub compressed : IsCompressed key

  random_key-IsCarrying :
      (bits : DataBits) (n_rand : ℕ) (coin : ℕ → Bool)
      → length bits + n_rand ≡ 255
      → IsCarrying bits (generate_random_bits coin n_rand) (random_key keys bits n_rand coin)
  unfolding random_key
  random_key-IsCarrying bits n_rand coin h =
      let noise = generate_random_bits coin n_rand in
      let tmp : DataBits = key_prefix ++ (false ∷ (bits ++ noise)) in
      let size : length tmp ≡ suc 32 * 8 =
        omega (arith, length-append bits noise, length-generate_random_bits coin n_rand) in
      let tail : Data = gather 32 (drop 8 tmp) in
      record {
        key = of_bytes (2 ∷ tail);
        returns =
            ap
              (λ (p : DataBits).
                bits_to_data (key_prefix ++ (p ++ noise)) >>= λ packed. some (of_bytes packed))
              (key_payload_full bits n_rand h)
            ∙ ap (λ (o : Option Data). o >>= λ packed. some (of_bytes packed))
                (bits_to_data-gather (suc 32) tmp size (omega arith));
        contents =
            ap data_to_bits (bytes-of_bytes 2 tail (inl refl) (length-gather 32 (drop 8 tmp)))
            ∙ data_to_bits-spread (2 ∷ tail)
            ∙ spread-gather (suc 32) tmp size;
        compressed = (
          tail,
          length-gather 32 (drop 8 tmp),
          inl (bytes-of_bytes 2 tail (inl refl) (length-gather 32 (drop 8 tmp))),
        );
      }

  decode_carried :
      (pk : Key) (bits noise : DataBits) (n_rand : ℕ)
      → data_to_bits (bytes pk) ≡ key_prefix ++ (false ∷ (bits ++ noise))
      → length noise ≡ n_rand
      → decode_data_in_pubkey keys pk n_rand ≡ some bits
  unfolding decode_data_in_pubkey
  decode_carried pk bits noise n_rand contents size =
      let len = length-append bits noise in
      rw contents (
        assert->> (leb (9 + n_rand) (length (key_prefix ++ (false ∷ (bits ++ noise))))) _
          (le→leb _ _ (omega arith))
        ∙ ap_at (λ (n : ℕ). some (take n (bits ++ noise)))
            (length (key_prefix ++ (false ∷ (bits ++ noise))) - 9 - n_rand) (length bits)
            (omega arith)
        ∙ ap some (take-append bits noise))

  -- A key that the loop returns: it is valid and carries the data.
  abbrev pub IsGood : DataBits → ℕ → Option Key → Type 0
  IsGood bits n_rand result =
      (pk : Key) × (result ≡ some pk)
      × (is_fully_valid pk ≡ true)
      × (decode_data_in_pubkey keys pk n_rand ≡ some bits)
      × IsCompressed pk

  key_loop_go :
      (fuel round n_rand : ℕ) (bits : DataBits) (coins : ℕ → ℕ → Bool) {pk : Key}
      → random_key keys bits n_rand (coins round) ≡ some pk
      → is_fully_valid pk ≡ false
      → key_loop keys (suc fuel) round bits n_rand coins
        ≡ key_loop keys fuel (round + 1) bits n_rand coins
  unfolding key_loop
  key_loop_go fuel round n_rand bits coins e v = ground arith

  key_loop_stop :
      (fuel round n_rand : ℕ) (bits : DataBits) (coins : ℕ → ℕ → Bool) {pk : Key}
      → random_key keys bits n_rand (coins round) ≡ some pk
      → is_fully_valid pk ≡ true
      → key_loop keys (suc fuel) round bits n_rand coins ≡ some pk
  unfolding key_loop
  key_loop_stop fuel round n_rand bits coins e v = ground arith

  key_loop-IsGood :
      (fuel round r n_rand : ℕ) (bits : DataBits) (coins : ℕ → ℕ → Bool)
      → length bits + n_rand ≡ 255
      → round ≤ r
      → r < round + fuel
      → ((pk : Key) → random_key keys bits n_rand (coins r) ≡ some pk → is_fully_valid pk ≡ true)
      → IsGood bits n_rand (key_loop keys fuel round bits n_rand coins)
  key_loop-IsGood zero round r n_rand bits coins full lo hi lucky = absurd (omega arith)
  key_loop-IsGood (suc fuel) round r n_rand bits coins full lo hi lucky =
      let c = random_key-IsCarrying bits n_rand (coins round) full in
      elim (Bool-cases (is_fully_valid c.key)) [
        | inl v ↦ (
          c.key,
          key_loop_stop fuel round n_rand bits coins c.returns v,
          v,
          decode_carried c.key bits (generate_random_bits (coins round) n_rand) n_rand c.contents
              (length-generate_random_bits (coins round) n_rand),
          c.compressed,
        )
        | inr v ↦
            let other : round ≢ r = (λ e. false≢true (sym v ∙ lucky c.key (rw (← e) c.returns))) in
            rw (key_loop_go fuel round n_rand bits coins c.returns v) (
              key_loop-IsGood fuel (round + 1) r n_rand bits coins full (omega arith) (omega arith)
                lucky)
      ]

  -- For at least one bit of data and five random ones, 255 together: if one of the rounds that the
  -- fuel allows draws a valid key, the encoding returns a valid compressed key from which
  -- `DecodeDataInPubkey` reads the data back, whatever the random bits are.
  pub decode-encode_data_in_pubkey :
      (fuel r n_rand : ℕ) (bits : DataBits) (coins : ℕ → ℕ → Bool)
      → 1 ≤ length bits
      → 5 ≤ n_rand
      → length bits + n_rand ≡ 255
      → r < fuel
      → ((pk : Key) → random_key keys bits n_rand (coins r) ≡ some pk → is_fully_valid pk ≡ true)
      → (pk : Key) × (encode_data_in_pubkey keys fuel bits n_rand coins ≡ some pk)
        × (is_fully_valid pk ≡ true)
        × (decode_data_in_pubkey keys pk n_rand ≡ some bits)
        × IsCompressed pk
  unfolding encode_data_in_pubkey
  decode-encode_data_in_pubkey fuel r n_rand bits coins one five full enough lucky =
      let (pk, found, valid, read, shape) =
        key_loop-IsGood fuel 0 r n_rand bits coins full (omega arith) (omega arith) lucky in
      (
        pk,
        assert->> (leb 1 (length bits)) _ (le→leb 1 (length bits) one)
            ∙ assert->> (leb 5 n_rand) _ (le→leb 5 n_rand five)
            ∙ assert->> (sub64 255 (length bits) == n_rand) _
                ((==_iff (sub64 255 (length bits)) n_rand).1 (unfold sub64 in omega arith))
            ∙ found,
        valid,
        read,
        shape,
      )
