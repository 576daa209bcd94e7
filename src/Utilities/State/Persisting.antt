-- ===== src/Utilities/State/Persisting.antt =====
-- The keypair map across restarts: generated and saved once, then loaded from the file.
use bitcoin_messaging.Base.{
  ℕ, zero, suc, ◌^◌, ◌≤◌, ◌<◌, ◌≡◌, refl, ap, ◌∙◌, assert->>, Bool, true, false, List, [], ◌∷◌,
  Option, none, some, arith, length,
}
use bitcoin_messaging.Types.{DataBits, Data, data_to_bits}
use bitcoin_messaging.DataInterface.{PubKeys}
use bitcoin_messaging.DataInterface.Pubkey.{IsCompressed}
use bitcoin_messaging.BlockchainInterface.Signing.{Signing}
use bitcoin_messaging.BlockchainInterface.ScriptHash.{KeypairMap, suffix}
use bitcoin_messaging.BlockchainInterface.ScriptHash.Keys.{HasSuffixes}
use bitcoin_messaging.Serialization.{
  codes, ConfigMap, config_at, Archive, serialize_keypair_map, deserialize_keypair_map,
}
use bitcoin_messaging.Serialization.Restoring.{deserialize_keypair_map-serialize_keypair_map}
use bitcoin_messaging.Utilities.Keypairs.{generate_keypair_map, keystore_loop}
use bitcoin_messaging.Utilities.Keypairs.Generating.{generate_keypair_map-HasSuffixes}
use bitcoin_messaging.Utilities.State.{
  is_nil, Disk, Globals, is_config_file_loaded, is_keypair_map_loaded, is_keystore_loaded,
  unload_keypair_map, load_keystore, load_keypair_map,
}

power : (n : ℕ) → 1 ≤ 2 ^ n
power zero = omega arith
power (suc n) = omega (arith, power n)

some_config :
    (key value : Data) (config : ConfigMap)
    → config_at key config ≡ some value
    → is_nil config ≡ false
unfolding config_at
some_config key value [] h = ground (arith, h)
some_config key value (e ∷ config) h = refl

some_entries {ℓ} : {A : Type ℓ} (xs : List A) → 0 < length xs → is_nil xs ≡ false
some_entries [] h = absurd (omega arith)
some_entries (x ∷ xs) h = refl

module _ {keys : PubKeys} (signing : Signing keys) (is_empty : signing.Store → Bool)
    (no_keys : signing.Store) (archive : Archive signing.Secret) (stoi : Data → Option ℕ)
    (fresh : ℕ → signing.Secret) (fuel : ℕ) where
  open signing use {Secret, Store, public_key}

  abbrev load : Disk → Globals signing → Option (Globals signing × Disk)
  load disk g = load_keypair_map signing archive stoi fresh fuel disk g

  load-missing :
      (disk : Disk) (g : Globals signing) (text : Data) (n_bits : ℕ) (key_map : KeypairMap signing)
      (file : Data)
      → config_at (codes "Keymap.SuffixBits") g.config ≡ some text
      → stoi text ≡ some n_bits
      → g.key_map ≡ []
      → disk.has_path ≡ true
      → disk.keypairs ≡ none
      → serialize_keypair_map archive disk.keypairs_opens key_map ≡ some file
      → generate_keypair_map signing fresh fuel n_bits ≡ some key_map
      → load disk g
        ≡ some (record g { key_map = key_map }, record disk { keypairs = some (some file) })
  unfolding load_keypair_map is_config_file_loaded is_keypair_map_loaded
  load-missing disk g text n_bits key_map file configured number unloaded path missing written
        generated =
      let e = some_config (codes "Keymap.SuffixBits") text g.config configured in
      rw (e, unloaded)
        (assert->> disk.has_path _ path ∙ (rw (missing, configured, number, generated, written)))

  load-found :
      (disk : Disk) (g : Globals signing) (file : Data) (key_map : KeypairMap signing)
      → is_nil g.config ≡ false
      → disk.has_path ≡ true
      → deserialize_keypair_map archive (some file) ≡ some key_map
      → load (record disk { keypairs = some (some file) }) (record g { key_map = [] })
        ≡ some (record g { key_map = key_map }, record disk { keypairs = some (some file) })
  unfolding load_keypair_map is_config_file_loaded is_keypair_map_loaded
  load-found disk g file key_map e path restored =
      rw e (assert->> disk.has_path _ path ∙ rw restored refl)

  loaded_keystore :
      (g : Globals signing)
      → is_nil g.key_map ≡ false
      → is_empty g.store ≡ true
      → (load_keystore signing is_empty no_keys g).store ≡ keystore_loop signing g.key_map g.store
  unfolding load_keystore is_keypair_map_loaded is_keystore_loaded
  loaded_keystore g e f = rw (e, f)

  -- With a configuration that has a number of suffix bits, at most the bits of a key, a directory for the
  -- files, in which keypair.map is not there but can be written, no keypair map in memory and an empty
  -- keystore, if new keys are compressed and every suffix comes up among as
  -- many keys as the fuel allows: LoadKeypairMap generates a map and saves it; the keystore that
  -- LoadKeystore fills from it has a key for every suffix; and after unloading the map, LoadKeypairMap
  -- gives the same map back from the file, without a new key.
  pub load_keypair_map-persists :
      (disk : Disk) (g : Globals signing) (text : Data) (n_bits : ℕ)
      → config_at (codes "Keymap.SuffixBits") g.config ≡ some text
      → stoi text ≡ some n_bits
      → n_bits ≤ 264
      → g.key_map ≡ []
      → disk.has_path ≡ true
      → disk.keypairs ≡ none
      → disk.keypairs_opens ≡ true
      → is_empty g.store ≡ true
      → ((r : ℕ) → IsCompressed keys (public_key (fresh r)))
      → ((slice : DataBits)
          → length slice ≡ n_bits
          → (r : ℕ) × (r < fuel)
            × (suffix signing n_bits (data_to_bits (keys.bytes (public_key (fresh r))))
                ≡ some slice))
      → (g' : Globals signing) × ((disk' : Disk) × (load_keypair_map signing archive stoi fresh fuel
              disk g
            ≡ some (g', disk'))
          × HasSuffixes signing g'.key_map n_bits (load_keystore signing is_empty no_keys g').store
          × (load_keypair_map signing archive stoi fresh fuel disk' (unload_keypair_map signing g')
              ≡ some (g', disk')))
  unfolding unload_keypair_map
  load_keypair_map-persists disk g text n_bits configured number small unloaded path missing opens
        no_store compressed luck =
      let (key_map, generated, size, suffixes) =
        generate_keypair_map-HasSuffixes signing fresh n_bits small compressed fuel luck g.store in
      let g' : Globals signing = record g { key_map = key_map } in
      let (file, saved, restored) = deserialize_keypair_map-serialize_keypair_map archive key_map in
      let written : serialize_keypair_map archive disk.keypairs_opens key_map ≡ some file =
        ap (λ (b : Bool). serialize_keypair_map archive b key_map) opens ∙ saved in
      let disk' : Disk = record disk { keypairs = some (some file) } in
      let config = some_config (codes "Keymap.SuffixBits") text g.config configured in
      (
        g',
        (
          disk',
          load-missing disk g text n_bits key_map file configured number unloaded path missing
              written generated,
          rw
              (loaded_keystore g' (some_entries key_map (omega (arith, size, power n_bits)))
                no_store)
              suffixes,
          load-found disk g file key_map config path restored,
        ),
      )
