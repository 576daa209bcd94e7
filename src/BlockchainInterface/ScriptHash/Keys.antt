-- ===== src/BlockchainInterface/ScriptHash/Keys.antt =====
-- Data in a list of public keys: the packing of PackDataIntoP2SH against the reading of
-- UnpackDataFromP2SH.
use bitcoin_messaging.Base.{
  ℕ, zero, suc, ◌+◌, ◌-◌, ◌/◌, ◌^◌, ltb, ◌≤◌, ◌<◌, ◌≡◌, inl, inr, refl, sym, ap, ◌∙◌, Bool, true,
  List, [], ◌∷◌, ◌++◌, some, arith, All, length, map, min, take, drop, length-take, append_assoc,
  append-nil,
}
use bitcoin_messaging.Types.{DataBits, Data, pad_bits, data_to_bits}
use bitcoin_messaging.DataInterface.{PubKeys, random_key, decode_data_in_pubkey}
use bitcoin_messaging.DataInterface.Pubkey.{IsCompressed, decode-encode_data_in_pubkey}
use bitcoin_messaging.BlockchainInterface.Slices.{
  IsStored, IsStored-nil, IsStored-append, IsStored-padded, missing-small, padded_room,
  slice_bits_lem,
}
use bitcoin_messaging.BlockchainInterface.Signing.{Signing}
use bitcoin_messaging.BlockchainInterface.ScriptHash.{
  KeypairMap, key_at, suffix, unpack_loop, unpack_keys, extra_keys_loop, n_extra_keys, pack_keys,
}

module _ (keys : PubKeys) where
  -- A key, read again from its bytes.
  abbrev pub reread : keys.Key → keys.Key
  reread k = keys.of_bytes (keys.bytes k)

  pub bytes-reread : (k : keys.Key) → IsCompressed keys k → keys.bytes (reread k) ≡ keys.bytes k
  bytes-reread k (tail, size, inl e) =
      ap (λ (d : Data). keys.bytes (keys.of_bytes d)) e
      ∙ keys.bytes-of_bytes 2 tail (inl refl) size
      ∙ sym e
  bytes-reread k (tail, size, inr e) =
      ap (λ (d : Data). keys.bytes (keys.of_bytes d)) e
      ∙ keys.bytes-of_bytes 3 tail (inr refl) size
      ∙ sym e

  pub length-bytes : (k : keys.Key) → IsCompressed keys k → length (keys.bytes k) ≡ 33
  length-bytes k (tail, size, inl e) = omega (arith, ap length e)
  length-bytes k (tail, size, inr e) = omega (arith, ap length e)

  pub decode-reread :
      (k : keys.Key) (n_rand : ℕ)
      → IsCompressed keys k
      → decode_data_in_pubkey keys (reread k) n_rand ≡ decode_data_in_pubkey keys k n_rand
  unfolding decode_data_in_pubkey
  decode-reread k n_rand h = rw (bytes-reread k h)

-- In every call of the encoding, whatever 250 bits it is given, some round that the fuel allows draws a
-- valid key.
abbrev pub IsLucky : PubKeys → ℕ → (ℕ → ℕ → ℕ → Bool) → Type 0
IsLucky keys fuel draws =
    (call : ℕ) (bits : DataBits)
    → length bits ≡ 250
    → (r : ℕ) × (r < fuel)
      × ((pk : keys.Key)
          → random_key keys bits 5 (draws call r) ≡ some pk
          → keys.is_fully_valid pk ≡ true)

-- The map has a compressed key with every suffix of this length, whose secret is in the store.
abbrev pub HasSuffixes :
    {keys : PubKeys} (signing : Signing keys) → KeypairMap signing → ℕ → signing.Store → Type 0
HasSuffixes {keys} signing key_map suffix_bits store =
    (slice : DataBits)
    → length slice ≡ suffix_bits
    → (secret : signing.Secret) × (key_at signing slice key_map ≡ some secret)
      × IsCompressed keys (signing.public_key secret)
      × (suffix signing suffix_bits (data_to_bits (keys.bytes (signing.public_key secret)))
          ≡ some slice)
      × (signing.has_key store secret ≡ true)

module _ {keys : PubKeys} (signing : Signing keys) (key_map : KeypairMap signing)
    (suffix_bits fuel : ℕ) (draws : ℕ → ℕ → ℕ → Bool) (lucky : IsLucky keys fuel draws) where
  -- So many more keys, what they take of the data, and what is read from them.
  record IsExtended (left calls : ℕ) (bits : DataBits) : Type 0 where
    pub rest : DataBits
    pub made : List keys.Key
    pub read : DataBits
    pub returns :
        (before : List keys.Key)
        → extra_keys_loop signing key_map suffix_bits fuel draws left calls bits before
          ≡ some (rest, before ++ made)
    pub count : length made ≡ left
    pub shape : All (IsCompressed keys) made
    pub back :
        (before : DataBits)
        → unpack_loop signing (map (reread keys) made) before ≡ some (before ++ read)
    pub stored : IsStored bits rest read

  extra_keys_loop-IsExtended :
      (left calls : ℕ) (bits : DataBits) → length bits < 2 ^ 31 → IsExtended left calls bits
  unfolding extra_keys_loop unpack_loop
  extra_keys_loop-IsExtended zero calls bits fits = record {
    rest = bits;
    made = [];
    read = [];
    returns = λ before. ap (λ l. some (bits, l)) (sym (append-nil before));
    count = refl;
    shape = tt;
    back = λ before. ap some (sym (append-nil before));
    stored = IsStored-nil bits;
  }
  extra_keys_loop-IsExtended (suc left) calls bits fits =
      let padded = pad_bits bits (250 - min 250 (length bits)) in
      let slice = take 250 padded in
      let size = length-take 250 padded (padded_room 250 bits) in
      let (r, enough, valid) = lucky calls slice size in
      let (pk, made, ok, read, shape) =
        decode-encode_data_in_pubkey keys fuel r 5 slice (draws calls) (omega arith) (omega arith)
          (omega arith) enough valid in
      let stored = IsStored-padded 250 bits in
      let shorter : length (drop 250 padded) ≡ length bits - length slice = stored.2 in
      let more = extra_keys_loop-IsExtended left (calls + 1) (drop 250 padded) (omega arith) in
      record {
        rest = more.rest;
        made = pk ∷ more.made;
        read = slice ++ more.read;
        returns = λ before.
            rw
              (
                missing-small 250 (length bits) fits,
                slice_bits_lem 250 padded (padded_room 250 bits),
                made,
              )
              (more.returns (before ++ (pk ∷ []))
                ∙ ap (λ l. some (more.rest, l)) (append_assoc before (pk ∷ []) more.made));
        count = ap suc more.count;
        shape = (shape, more.shape);
        back = λ before.
            rw (decode-reread keys pk 5 shape, read)
              (more.back (before ++ slice) ∙ ap some (append_assoc before slice more.read));
        stored =
            IsStored-append bits (drop 250 padded) more.rest slice more.read stored more.stored;
      }

  -- The keys of one redeem script, the first of which can sign.
  pub record IsPacked (store : signing.Store) (calls : ℕ) (bits : DataBits) : Type 0 where
    pub rest : DataBits
    pub secret : signing.Secret
    pub others : List keys.Key
    pub read : DataBits
    pub returns :
        pack_keys signing key_map suffix_bits fuel draws bits calls
        ≡ some (rest, signing.public_key secret ∷ others)
    pub few : length others ≤ 11
    pub known : signing.has_key store secret ≡ true
    pub shape : All (IsCompressed keys) (signing.public_key secret ∷ others)
    pub back :
        unpack_keys signing suffix_bits (map (reread keys) (signing.public_key secret ∷ others))
        ≡ some read
    pub stored : IsStored bits rest read

  pub pack_keys-IsPacked :
      (store : signing.Store) (calls : ℕ) (bits : DataBits)
      → length bits < 2 ^ 31
      → HasSuffixes signing key_map suffix_bits store
      → IsPacked store calls bits
  unfolding pack_keys unpack_keys
  pack_keys-IsPacked store calls bits fits suffixes =
      let padded = pad_bits bits (suffix_bits - min suffix_bits (length bits)) in
      let slice = take suffix_bits padded in
      let rest = drop suffix_bits padded in
      let size = length-take suffix_bits padded (padded_room suffix_bits bits) in
      let (secret, found, shape, ends, known) = suffixes slice size in
      let stored = IsStored-padded suffix_bits bits in
      let shorter : length rest ≡ length bits - length slice = stored.2 in
      let int : ltb ((length rest + 249) / 250) (2 ^ 31) ≡ true = ground arith in
      let more =
        extra_keys_loop-IsExtended (n_extra_keys signing key_map suffix_bits fuel draws rest) calls
          rest (omega arith) in
      record {
        rest = more.rest;
        secret = secret;
        others = more.made;
        read = slice ++ more.read;
        returns =
            rw
              (
                missing-small suffix_bits (length bits) fits,
                slice_bits_lem suffix_bits padded (padded_room suffix_bits bits),
                found,
                int,
              )
              (more.returns (signing.public_key secret ∷ []));
        few = omega (arith, more.count);
        known = known;
        shape = (shape, more.shape);
        back = rw (bytes-reread keys (signing.public_key secret) shape, ends) (more.back slice);
        stored = IsStored-append bits rest more.rest slice more.read stored more.stored;
      }
