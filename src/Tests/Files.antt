-- ===== src/Tests/Files.antt =====
-- The files and the global variables at concrete inputs.
use bitcoin_messaging.Base.{
  ℕ, zero, suc, ◌-◌, ◌≡◌, refl, ap, Bool, true, false, List, [], ◌∷◌, ◌++◌, Option, none, some,
  arith, length, replicate, if◌then◌else◌, not, take, drop, take-append, drop-append, ◌==◌, ◌>>=◌,
}
use bitcoin_messaging.Types.{DataBits, Data}
use bitcoin_messaging.BlockchainInterface.ScriptHash.Keys.{HasSuffixes}
use bitcoin_messaging.Serialization.{
  codes, text_eq, ConfigMap, config_at, find_from, deserialize_config_map, Archive,
  serialize_keypair_map, deserialize_keypair_map,
}
use bitcoin_messaging.Serialization.Restoring.{
  deserialize_keypair_map-serialize_keypair_map, deserialize_config_map-first,
}
use bitcoin_messaging.Utilities.State.{
  update_chainstate, Disk, Globals, load_keypair_map, load_keystore, unload_keypair_map,
}
use bitcoin_messaging.Utilities.State.Chainstate.{first_of, update_chainstate-values}
use bitcoin_messaging.Utilities.State.Persisting.{load_keypair_map-persists}
use bitcoin_messaging.Tests.Wallet.{wallet_signing}
use bitcoin_messaging.Tests.Chains.{
  two_keys, key_ending, by_turns, by_turns-IsCompressed, both_come,
}

bit_bytes : DataBits → Data
bit_bytes [] = []
bit_bytes (b ∷ bits) = (if b then 1 else 0) ∷ bit_bytes bits

byte_bits : Data → DataBits
byte_bits [] = []
byte_bits (b ∷ bytes) = (if b == 0 then false else true) ∷ byte_bits bytes

byte_bits-bit_bytes : (bits : DataBits) → byte_bits (bit_bytes bits) ≡ bits
unfolding byte_bits bit_bytes
byte_bits-bit_bytes [] = refl
byte_bits-bit_bytes (true ∷ bits) = ap (λ (l : DataBits). true ∷ l) (byte_bits-bit_bytes bits)
byte_bits-bit_bytes (false ∷ bits) = ap (λ (l : DataBits). false ∷ l) (byte_bits-bit_bytes bits)

-- The entries, each as its bits and its bytes behind their numbers.
write_entries : List (DataBits × Data) → Data
unfolding bit_bytes
write_entries [] = []
write_entries ((bits, bytes) ∷ entries) =
    length (bit_bytes bits) ∷ (bit_bytes bits ++ (length bytes ∷ (bytes ++ write_entries entries)))

read_bytes : Data → Option (Data × Data)
read_bytes [] = none
read_bytes (n ∷ text) = some (take n text, drop n text)

read_entries : ℕ → Data → Option (List (DataBits × Data))
unfolding read_bytes byte_bits
read_entries zero text = some []
read_entries (suc left) [] = none
read_entries (suc left) (n ∷ text) = read_bytes (drop n text) >>= λ bytes.
    read_entries left bytes.1 >>= λ entries. some ((byte_bits (take n text), bytes.0) ∷ entries)

read_entries-write_entries :
    (entries : List (DataBits × Data))
    → read_entries (length entries) (write_entries entries) ≡ some entries
unfolding read_entries write_entries read_bytes
read_entries-write_entries [] = refl
read_entries-write_entries ((bits, bytes) ∷ entries) =
    let rest = length bytes ∷ (bytes ++ write_entries entries) in
    rw (
      drop-append (bit_bytes bits) rest,
      take-append (bit_bytes bits) rest,
      take-append bytes (write_entries entries),
      drop-append bytes (write_entries entries),
      read_entries-write_entries entries,
      byte_bits-bit_bytes bits,
    )

load_entries : Data → Option (List (DataBits × Data))
unfolding read_entries
load_entries [] = none
load_entries (n ∷ text) = read_entries n text

entry_archive : Archive wallet_signing.Secret
unfolding wallet_signing load_entries
entry_archive = record {
  is_compressed = λ secret. true;
  secret_bytes = λ secret. secret;
  set_secret = λ bytes compressed. bytes;
  set_secret-bytes = λ secret. refl;
  save = λ entries. length entries ∷ write_entries entries;
  load = load_entries;
  load-save = read_entries-write_entries;
}

deserialize_keypair_map-serialize_keypair_map_example :
    (text : Data) × (serialize_keypair_map entry_archive true two_keys ≡ some text)
    × (deserialize_keypair_map entry_archive (some text) ≡ some two_keys)
deserialize_keypair_map-serialize_keypair_map_example =
    deserialize_keypair_map-serialize_keypair_map entry_archive two_keys

abbrev two_values : List (Data × Data)
two_values =
    (codes "TxFeeRate", codes "10000")
    ∷ (codes "Wallet.Port", codes "8332")
    ∷ (codes "TxFeeRate", codes "1")
    ∷ []

deserialize_config_map-first_example :
    (config : ConfigMap) × (deserialize_config_map (λ text. some two_values) (some (codes "file"))
      ≡ some config)
    × ((key : Data) → config_at key config ≡ config_at key two_values)
deserialize_config_map-first_example =
    deserialize_config_map-first (λ text. some two_values) (codes "file") two_values refl

abbrev ones : Data
ones = replicate 64 b'1'

abbrev twos : Data
twos = replicate 64 b'2'

abbrev zeros : Data
zeros = replicate 64 b'0'

abbrev state : ConfigMap
state = (codes "State.FirstTx", ones) ∷ (codes "State.LastTx", twos) ∷ []

abbrev line_end : Data
line_end = 10 ∷ []

first_at :
    find_from 0 (codes "State.FirstTx") (
      codes "# "
      ++ (codes "State.FirstTx="
          ++ (zeros ++ (line_end ++ (codes "State.LastTx=" ++ (zeros ++ line_end))))))
    ≡ length (codes "# ")
unfolding find_from
first_at = refl

last_at :
    find_from 0 (codes "State.LastTx") (
      (codes "# " ++ (codes "State.FirstTx=" ++ (ones ++ line_end)))
      ++ (codes "State.LastTx=" ++ (zeros ++ line_end)))
    ≡ length (codes "# " ++ (codes "State.FirstTx=" ++ (ones ++ line_end)))
unfolding find_from
last_at = refl

first_set : config_at (codes "State.FirstTx") state ≡ some ones
unfolding config_at text_eq
first_set = refl

last_set : config_at (codes "State.LastTx") state ≡ some twos
unfolding config_at text_eq
last_set = refl

stoi : Data → Option ℕ
stoi [] = none
stoi (c ∷ text) = some (c - b'0')

abbrev no_keys : wallet_signing.Store
unfolding wallet_signing
no_keys = record { knows = λ key. false; redeems = [] }

abbrev knows_none : wallet_signing.Store → Bool
unfolding wallet_signing
knows_none store = not (store.knows (key_ending 0))

abbrev fresh_globals : Globals wallet_signing
fresh_globals = record {
  config = (codes "Keymap.SuffixBits", codes "1") ∷ [];
  key_map = [];
  store = no_keys;
  huff_code = [];
  wallet = none;
}

abbrev fresh_disk : Disk
fresh_disk = record {
  has_path = true;
  conf = none;
  huffcode = none;
  keypairs = none;
  conf_opens = true;
  keypairs_opens = true;
}

suffix_set : config_at (codes "Keymap.SuffixBits") fresh_globals.config ≡ some (codes "1")
unfolding config_at text_eq
suffix_set = refl

no_store : knows_none fresh_globals.store ≡ true
unfolding wallet_signing
no_store = refl

suffix_number : stoi (codes "1") ≡ some 1
unfolding stoi
suffix_number = refl

load_keypair_map-persists_example :
    (g' : Globals wallet_signing) × ((disk' : Disk) × (load_keypair_map wallet_signing entry_archive
          stoi by_turns 2 fresh_disk fresh_globals
        ≡ some (g', disk'))
      × HasSuffixes wallet_signing g'.key_map 1
          (load_keystore wallet_signing knows_none no_keys g').store
      × (load_keypair_map wallet_signing entry_archive stoi by_turns 2 disk'
            (unload_keypair_map wallet_signing g')
          ≡ some (g', disk')))
load_keypair_map-persists_example =
    load_keypair_map-persists wallet_signing knows_none no_keys entry_archive stoi by_turns 2
      fresh_disk fresh_globals (codes "1") 1 suffix_set suffix_number (omega arith) refl refl refl
      refl no_store by_turns-IsCompressed both_come

-- The state before and after a first message.
abbrev empty_state : ConfigMap
empty_state = (codes "State.FirstTx", zeros) ∷ (codes "State.LastTx", zeros) ∷ []

abbrev begun_globals : Globals wallet_signing
begun_globals = record fresh_globals { config = empty_state }

abbrev state_disk : Disk
state_disk = record {
  has_path = true;
  conf_opens = true;
  keypairs_opens = true;
  conf = some (
      codes "# "
      ++ (codes "State.FirstTx="
          ++ (zeros ++ (line_end ++ (codes "State.LastTx=" ++ (zeros ++ line_end))))));
  huffcode = none;
  keypairs = none;
}

empty_first : config_at (codes "State.FirstTx") empty_state ≡ some zeros
unfolding config_at text_eq
empty_first = refl

empty_last : config_at (codes "State.LastTx") empty_state ≡ some zeros
unfolding config_at text_eq
empty_last = refl

begins_at_ones : first_of zeros ones ≡ ones
unfolding text_eq
begins_at_ones = refl

update_chainstate-values_example :
    (config : ConfigMap) × (update_chainstate wallet_signing ones twos state_disk begun_globals
      ≡ some (
        record begun_globals { config = config },
        record state_disk {
          conf = some (
              (codes "# " ++ (codes "State.FirstTx=" ++ (first_of zeros ones ++ line_end)))
              ++ (codes "State.LastTx=" ++ (twos ++ line_end)));
        },
      ))
    × (config_at (codes "State.LastTx") config ≡ some twos)
    × (config_at (codes "State.FirstTx") config ≡ some (first_of zeros ones))
    × ((key : Data)
        → text_eq (codes "State.FirstTx") key ≡ false
        → text_eq (codes "State.LastTx") key ≡ false
        → config_at key config ≡ config_at key empty_state)
update_chainstate-values_example =
    update_chainstate-values wallet_signing ones twos state_disk begun_globals (codes "# ") line_end
      line_end zeros zeros zeros zeros empty_first empty_last refl refl
      (rw begins_at_ones (omega arith)) first_at (rw begins_at_ones last_at) refl refl refl
