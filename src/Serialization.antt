-- ===== src/Serialization.antt =====
-- src/lib/bms/Serialization.cpp: the files of the configuration and of the keys.
--
-- A file is its bytes, or `none` if it cannot be opened. The archives of Boost are the record `Archive`, and the
-- reading of a configuration file's lines is the parameter `options`. A map is the list of its pairs.
pub mod Restoring
pub mod Updating
use Prim.Native.String.{String}
use Prim.Native.Char.{code}
use bitcoin_messaging.Base.{
  ℕ, zero, suc, ◌+◌, ◌-◌, ◌%◌, ◌^◌, ◌≡◌, Bool, true, false, List, [], ◌∷◌, ◌++◌, Option, none, some,
  length, take, drop, leb, ◌==◌, ◌&&◌, if◌then◌else◌, ◌>>=◌, ◌>>◌, assert, map,
}
use bitcoin_messaging.Types.{DataBits, Data}

-- The bytes of a text.
abbrev pub codes : String → Data
codes String.[] = []
codes (String.◌∷◌ c s) = code c ∷ codes s

unfoldable pub text_eq : Data → Data → Bool
text_eq [] [] = true
text_eq [] (b ∷ t) = false
text_eq (a ∷ s) [] = false
text_eq (a ∷ s) (b ∷ t) = a == b && text_eq s t

abbrev pub ConfigMap : Type 0
ConfigMap = List (Data × Data)

-- `Config.at(key)`
unfoldable pub config_at : Data → ConfigMap → Option Data
unfolding text_eq
config_at key [] = none
config_at key ((k, value) ∷ config) = if text_eq k key then some value else config_at key config

-- `config.count(key)`
unfoldable pub config_count : Data → ConfigMap → ℕ
unfolding config_at
config_count key config = elim (config_at key config) [ none ↦ 0 | some value ↦ 1 ]

-- The loop over the options of the file: the first value of a key stays.
pub config_loop : List (Data × Data) → ConfigMap → ConfigMap
unfolding config_count
config_loop [] config = config
config_loop ((key, value) ∷ options) config =
    config_loop options
      (if config_count key config == 0 then config ++ ((key, value) ∷ []) else config)

unfoldable pub deserialize_config_map :
    (Data → Option (List (Data × Data))) → Option Data → Option ConfigMap
unfolding config_loop
deserialize_config_map options file = do
  text ← file
  found ← options text
  some (config_loop found [])

-- Whether a text begins with another one.
unfoldable pub begins : Data → Data → Bool
begins [] text = true
begins (a ∷ s) [] = false
begins (a ∷ s) (b ∷ text) = a == b && begins s text

-- `str.find(s)` from a position on, which is `npos`, 2^64 - 1, if there is none.
unfoldable pub find_from : ℕ → Data → Data → ℕ
unfolding begins
find_from pos s [] = if begins s [] then pos else 2 ^ 64 - 1
find_from pos s (b ∷ text) =
    let rest = find_from (pos + 1) s text in if begins s (b ∷ text) then pos else rest

-- `str.replace(pos, count, s)`, an exception behind the end.
unfoldable pub replace_at : ℕ → ℕ → Data → Data → Option Data
replace_at pos count s text = do
  assert (leb pos (length text))
  some (take pos text ++ (s ++ drop (pos + count) text))

-- A state parameter, so many bytes behind the beginning of its name.
unfoldable pub replace_state : Data → ℕ → Data → Data → Option Data
unfolding find_from replace_at
replace_state name offset value text =
    replace_at ((find_from 0 name text + offset) % 2 ^ 64) 64 value text

-- The new contents of the file. `opens` is whether the output stream can be opened.
unfoldable pub serialize_state : Bool → ConfigMap → Option Data → Option Data
unfolding config_at replace_state
serialize_state opens config file = do
  first_tx ← config_at (codes "State.FirstTx") config
  last_tx ← config_at (codes "State.LastTx") config
  text ← file
  first ← replace_state (codes "State.FirstTx") 14 first_tx text
  last ← replace_state (codes "State.LastTx") 13 last_tx first
  assert opens
  some last

-- CKey, and text_oarchive and text_iarchive for a map from bits to bytes.
pub record Archive (Secret : Type 0) : Type 0 where
  pub is_compressed : Secret → Bool
  pub secret_bytes : Secret → Data
  pub set_secret : Data → Bool → Secret
  pub set_secret-bytes :
      (secret : Secret) → set_secret (secret_bytes secret) (is_compressed secret) ≡ secret
  pub save : List (DataBits × Data) → Data
  pub load : Data → Option (List (DataBits × Data))
  pub load-save : (entries : List (DataBits × Data)) → load (save entries) ≡ some entries

module _ {Secret : Type 0} (archive : Archive Secret) where
  open archive use {is_compressed, secret_bytes, set_secret, save, load}

  -- `element`: the flag and the key.
  unfoldable pub pack_secret : Secret → Data
  pack_secret secret = (if is_compressed secret then 1 else 0) ∷ secret_bytes secret

  -- `element[0]` and the rest; of an empty element the flag is read out of range.
  unfoldable pub unpack_secret : Data → Option Secret
  unpack_secret [] = none
  unpack_secret (flag ∷ key) = some (set_secret key (if flag == 0 then false else true))

  -- The loops from one map to the other, whose keys are the same.
  pub save_loop : List (DataBits × Secret) → List (DataBits × Data)
  unfolding pack_secret
  save_loop [] = []
  save_loop ((bits, secret) ∷ keymap) = (bits, pack_secret secret) ∷ save_loop keymap

  pub load_loop : List (DataBits × Data) → Option (List (DataBits × Secret))
  unfolding unpack_secret
  load_loop [] = some []
  load_loop ((bits, element) ∷ entries) = unpack_secret element >>= λ secret.
      load_loop entries >>= λ keymap. some ((bits, secret) ∷ keymap)

  -- What the file gets, if the output stream can be opened.
  unfoldable pub serialize_keypair_map : Bool → List (DataBits × Secret) → Option Data
  unfolding save_loop
  serialize_keypair_map opens keymap = do assert opens; some (save (save_loop keymap))

  unfoldable pub deserialize_keypair_map : Option Data → Option (List (DataBits × Secret))
  unfolding load_loop
  deserialize_keypair_map file = do text ← file; entries ← load text; load_loop entries
