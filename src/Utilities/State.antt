-- ===== src/Utilities/State.antt =====
-- The global variables of Utilities: loading, unloading, and the state of the chain.
--
-- `none` is an exception, also where a file is missing. The files are the record `Disk`.
pub mod Persisting
pub mod Chainstate
use bitcoin_messaging.Base.{
  ℕ, ◌≡◌, Bool, true, false, List, [], ◌∷◌, Option, none, some, not, replicate, if◌then◌else◌, ◌++◌,
  ◌&&◌, ◌>>◌, assert, ◌>>=◌,
}
use bitcoin_messaging.Types.{Data}
use bitcoin_messaging.DataCompression.{HuffCodeMap}
use bitcoin_messaging.DataInterface.{PubKeys}
use bitcoin_messaging.BlockchainInterface.Signing.{Signing}
use bitcoin_messaging.BlockchainInterface.ScriptHash.{KeypairMap}
use bitcoin_messaging.Serialization.{
  codes, text_eq, ConfigMap, config_at, deserialize_config_map, serialize_state, Archive,
  serialize_keypair_map, deserialize_keypair_map,
}
use bitcoin_messaging.Utilities.Keypairs.{generate_keypair_map, keystore_loop}

-- `empty()`
abbrev pub is_nil {ℓ} : {A : Type ℓ} → List A → Bool
is_nil [] = true
is_nil (x ∷ xs) = false

-- Whether GetConfigPath finds a directory; bms.conf, huffcode.map and keypair.map in it, each of them
-- `none` if it cannot be opened, and keypair.map itself only if it is there; and whether the two that are
-- written can be opened for that.
pub record Disk : Type 0 where
  pub has_path : Bool
  pub conf : Option Data
  pub huffcode : Option Data
  pub keypairs : Option (Option Data)
  pub conf_opens : Bool
  pub keypairs_opens : Bool

-- `GetConfigPath`, where `home` is the value of HOME: the directory beside the program comes before the one
-- of the user.
unfoldable pub get_config_path : (Data → Bool) → (Data → Bool) → Data → Option Data
get_config_path exists is_directory home = do
  let own = home ++ codes "/.bms"
  let begun = if exists own && is_directory own then home ++ codes "/.bms/" else []
  let path =
      if exists (codes "config") && is_directory (codes "config") then codes "config/" else begun
  assert (not (is_nil path))
  some path

-- What a BitcoinAPI is made of.
pub record Account : Type 0 where
  pub user : Data
  pub password : Data
  pub address : Data
  pub port : ℕ

-- `config.at(key) = value`, where the key is there.
pub set_config : Data → Data → ConfigMap → ConfigMap
unfolding text_eq
set_config key value [] = []
set_config key value ((k, old) ∷ config) =
    let rest = set_config key value config in
    if text_eq k key then (k, value) ∷ config else (k, old) ∷ rest

module _ {keys : PubKeys} (signing : Signing keys) where
  open signing use {Secret, Store}

  pub record Globals : Type 0 where
    pub config : ConfigMap
    pub key_map : KeypairMap signing
    pub store : Store
    pub huff_code : HuffCodeMap
    pub wallet : Option Account

  unfoldable pub is_config_file_loaded : Globals → Bool
  is_config_file_loaded g = not (is_nil g.config)

  unfoldable pub is_keypair_map_loaded : Globals → Bool
  is_keypair_map_loaded g = not (is_nil g.key_map)

  unfoldable pub is_huffman_code_loaded : Globals → Bool
  is_huffman_code_loaded g = not (is_nil g.huff_code)

  -- `IsInit` of a BitcoinAPI with and without an account.
  unfoldable pub is_wallet_loaded : Globals → Bool
  is_wallet_loaded g = elim g.wallet [ none ↦ false | some account ↦ true ]

  -- `answers` is whether getinfo succeeds.
  unfoldable pub is_bitcoin_running : Bool → Globals → Bool
  unfolding is_wallet_loaded
  is_bitcoin_running answers g = if not (is_wallet_loaded g) then false else answers

  unfoldable pub unload_config_file : Globals → Globals
  unload_config_file g = record g { config = [] }

  unfoldable pub unload_huffman_code : Globals → Globals
  unload_huffman_code g = record g { huff_code = [] }

  unfoldable pub unload_keypair_map : Globals → Globals
  unload_keypair_map g = record g { key_map = [] }

  unfoldable pub unload_wallet : Globals → Globals
  unload_wallet g = record g { wallet = none }

  unfoldable pub load_config_file :
      (Data → Option (List (Data × Data))) → Disk → Globals → Option Globals
  unfolding is_config_file_loaded deserialize_config_map
  load_config_file options disk g = if is_config_file_loaded g then some g else (do
    assert disk.has_path
    config ← deserialize_config_map options disk.conf
    some (record g { config = config }))

  -- `restore` is DeserializeHuffmanCode of the bytes.
  unfoldable pub load_huffman_code : (Data → Option HuffCodeMap) → Disk → Globals → Option Globals
  unfolding is_huffman_code_loaded
  load_huffman_code restore disk g = if is_huffman_code_loaded g then some g else (do
    assert disk.has_path
    text ← disk.huffcode
    huff_code ← restore text
    some (record g { huff_code = huff_code }))

  unfoldable pub load_wallet : (Data → Option ℕ) → Globals → Option Globals
  unfolding is_config_file_loaded is_wallet_loaded config_at
  load_wallet stoi g =
      if not (is_config_file_loaded g)
      then some g
      else (if is_wallet_loaded g then some g else (do
        user ← config_at (codes "Wallet.User") g.config
        password ← config_at (codes "Wallet.Password") g.config
        address ← config_at (codes "Wallet.IP") g.config
        port_text ← config_at (codes "Wallet.Port") g.config
        port ← stoi port_text
        some (record g {
          wallet =
              some (record { user = user; password = password; address = address; port = port });
        })))

  -- The transaction ids are given by their hexadecimal digits.
  unfoldable pub update_chainstate : Data → Data → Disk → Globals → Option (Globals × Disk)
  unfolding is_config_file_loaded config_at text_eq set_config serialize_state
  update_chainstate first_tx last_tx disk g =
      if not (is_config_file_loaded g) then some (g, disk) else (do
        old ← config_at (codes "State.FirstTx") g.config
        let begun =
            if text_eq old (replicate 64 b'0')
            then set_config (codes "State.FirstTx") first_tx g.config
            else g.config
        last ← config_at (codes "State.LastTx") begun
        let config = set_config (codes "State.LastTx") last_tx begun
        assert disk.has_path
        text ← serialize_state disk.conf_opens config disk.conf
        some (record g { config = config }, record disk { conf = some text }))

  module _ (is_empty : Store → Bool) (no_keys : Store) where
    unfoldable pub is_keystore_loaded : Globals → Bool
    is_keystore_loaded g = not (is_empty g.store)

    unfoldable pub unload_keystore : Globals → Globals
    unload_keystore g = record g { store = no_keys }

    unfoldable pub load_keystore : Globals → Globals
    unfolding is_keypair_map_loaded is_keystore_loaded keystore_loop
    load_keystore g =
        if not (is_keypair_map_loaded g)
        then g
        else (if is_keystore_loaded g
            then g
            else record g { store = keystore_loop signing g.key_map g.store })

  module _ (archive : Archive Secret) (stoi : Data → Option ℕ) (fresh : ℕ → Secret) (fuel : ℕ) where
    unfoldable pub load_keypair_map : Disk → Globals → Option (Globals × Disk)
    unfolding is_config_file_loaded is_keypair_map_loaded config_at generate_keypair_map
        serialize_keypair_map deserialize_keypair_map
    load_keypair_map disk g =
        if not (is_config_file_loaded g)
        then some (g, disk)
        else (if is_keypair_map_loaded g
            then some (g, disk)
            else (assert disk.has_path >> (elim disk.keypairs [
              | none ↦ (do
                text ← config_at (codes "Keymap.SuffixBits") g.config
                n_bits ← stoi text
                key_map ← generate_keypair_map signing fresh fuel n_bits
                file ← serialize_keypair_map archive disk.keypairs_opens key_map
                some (record g { key_map = key_map }, record disk { keypairs = some (some file) }))
              | some file ↦ (do
                key_map ← deserialize_keypair_map archive file
                some (record g { key_map = key_map }, disk))
            ])))
