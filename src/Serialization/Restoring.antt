-- ===== src/Serialization/Restoring.antt =====
-- What is read from a file that was written, and from one with options in it.
use bitcoin_messaging.Base.{
  ◌≡◌, refl, sym, ap, ap₂, ◌∙◌, Bool, true, false, List, [], ◌∷◌, ◌++◌, Option, none, some, arith,
  ◌==◌, if◌then◌else◌, Bool-cases, Option-cases, inl, inr,
}
use bitcoin_messaging.Types.{DataBits, Data}
use bitcoin_messaging.Serialization.{
  text_eq, ConfigMap, config_at, config_count, config_loop, deserialize_config_map, Archive,
  pack_secret, unpack_secret, save_loop, load_loop, serialize_keypair_map, deserialize_keypair_map,
}

module _ {Secret : Type 0} (archive : Archive Secret) where
  open archive use {is_compressed, secret_bytes, set_secret}

  unpack_secret-pack_secret :
      (secret : Secret) → unpack_secret archive (pack_secret archive secret) ≡ some secret
  unfolding unpack_secret pack_secret
  unpack_secret-pack_secret secret = elim (Bool-cases (is_compressed secret)) [
    | inl e ↦ rw e (
        ap (λ (c : Bool). some (set_secret (secret_bytes secret) c)) (sym e)
        ∙ ap some (archive.set_secret-bytes secret))
    | inr e ↦ rw e (
        ap (λ (c : Bool). some (set_secret (secret_bytes secret) c)) (sym e)
        ∙ ap some (archive.set_secret-bytes secret))
  ]

  load_entry :
      (bits : DataBits) (element : Data) (entries : List (DataBits × Data)) (secret : Secret)
      (keymap : List (DataBits × Secret))
      → unpack_secret archive element ≡ some secret
      → load_loop archive entries ≡ some keymap
      → load_loop archive ((bits, element) ∷ entries) ≡ some ((bits, secret) ∷ keymap)
  unfolding load_loop
  load_entry bits element entries secret keymap e f = rw (e, f)

  load_loop-save_loop :
      (keymap : List (DataBits × Secret))
      → load_loop archive (save_loop archive keymap) ≡ some keymap
  unfolding load_loop save_loop
  load_loop-save_loop [] = refl
  load_loop-save_loop ((bits, secret) ∷ keymap) =
      load_entry bits (pack_secret archive secret) (save_loop archive keymap) secret keymap
        (unpack_secret-pack_secret secret) (load_loop-save_loop keymap)

  -- If the output stream can be opened, every keypair map is written, and it is read back from the file that was written for it, the keys with their flags of
  -- compression.
  pub deserialize_keypair_map-serialize_keypair_map :
      (keymap : List (DataBits × Secret))
      → (text : Data) × (serialize_keypair_map archive true keymap ≡ some text)
        × (deserialize_keypair_map archive (some text) ≡ some keymap)
  unfolding deserialize_keypair_map serialize_keypair_map
  deserialize_keypair_map-serialize_keypair_map keymap = (
    archive.save (save_loop archive keymap),
    refl,
    rw (archive.load-save (save_loop archive keymap)) (load_loop-save_loop keymap),
  )

abbrev or_else : Option Data → Option Data → Option Data
or_else none other = other
or_else (some value) other = some value

text_eq-same : (s : Data) → text_eq s s ≡ true
unfolding text_eq
text_eq-same [] = refl
text_eq-same (a ∷ s) = let e : (a == a) ≡ true = ground arith in rw (e, text_eq-same s)

pub text_eq→≡ : (s t : Data) → text_eq s t ≡ true → s ≡ t
unfolding text_eq
text_eq→≡ [] [] h = refl
text_eq→≡ [] (b ∷ t) h = ground (arith, h)
text_eq→≡ (a ∷ s) [] h = ground (arith, h)
text_eq→≡ (a ∷ s) (b ∷ t) h =
    let e : a ≡ b = ground arith in
    let f : text_eq s t ≡ true = ground arith in ap₂ ◌∷◌ e (text_eq→≡ s t f)

config_at-append :
    (key : Data) (config : ConfigMap) (k value : Data)
    → config_at key (config ++ ((k, value) ∷ []))
      ≡ or_else (config_at key config) (if text_eq k key then some value else none)
unfolding config_at
config_at-append key [] k value = refl
config_at-append key ((k', value') ∷ config) k value = elim (Bool-cases (text_eq k' key)) [
  | inl e ↦ rw e
  | inr e ↦ rw e (config_at-append key config k value)
]

or_else-none : (o : Option Data) → o ≡ or_else o none
or_else-none none = refl
or_else-none (some value) = refl

or_else-if :
    (o other : Option Data) (b : Bool) (value : Data)
    → or_else (or_else o (if b then some value else none)) other
      ≡ or_else o (if b then some value else other)
or_else-if none other true value = refl
or_else-if none other false value = refl
or_else-if (some old) other b value = refl

-- A new name is put behind the others, a known one is passed over.
add_option :
    (k value : Data) (options config : ConfigMap)
    → config_at k config ≡ none
    → config_loop ((k, value) ∷ options) config ≡ config_loop options (config ++ ((k, value) ∷ []))
unfolding config_loop config_count
add_option k value options config e = rw (config_count, e)

skip_option :
    (k value old : Data) (options config : ConfigMap)
    → config_at k config ≡ some old
    → config_loop ((k, value) ∷ options) config ≡ config_loop options config
unfolding config_loop config_count
skip_option k value old options config e = rw (config_count, e)

known :
    (k key old : Data) (config : ConfigMap) (b : Bool) (value : Data) (other : Option Data)
    → config_at k config ≡ some old
    → (b ≡ true → k ≡ key)
    → or_else (config_at key config) other
      ≡ or_else (config_at key config) (if b then some value else other)
known k key old config true value other e same =
    let here : config_at key config ≡ some old =
      ap (λ (n : Data). config_at n config) (sym (same refl)) ∙ e in
    rw here
known k key old config false value other e same = refl

config_loop-first :
    (key : Data) (options config : ConfigMap)
    → config_at key (config_loop options config)
      ≡ or_else (config_at key config) (config_at key options)
unfolding config_at
config_loop-first key [] config = unfold config_loop in or_else-none (config_at key config)
config_loop-first key ((k, value) ∷ options) config = elim (Option-cases (config_at k config)) [
  | inl e ↦
      ap (config_at key) (add_option k value options config e)
      ∙ config_loop-first key options (config ++ ((k, value) ∷ []))
      ∙ ap (λ (o : Option Data). or_else o (config_at key options))
          (config_at-append key config k value)
      ∙ or_else-if (config_at key config) (config_at key options) (text_eq k key) value
  | inr (old, e) ↦
      ap (config_at key) (skip_option k value old options config e)
      ∙ config_loop-first key options config
      ∙ known k key old config (text_eq k key) value (config_at key options) e (text_eq→≡ k key)
]

-- If the options of the file can be read, the configuration has for every name the first value that the
-- file gives it, and no value for other names.
pub deserialize_config_map-first :
    (options : Data → Option (List (Data × Data))) (text : Data) (found : List (Data × Data))
    → options text ≡ some found
    → (config : ConfigMap) × (deserialize_config_map options (some text) ≡ some config)
      × ((key : Data) → config_at key config ≡ config_at key found)
unfolding deserialize_config_map
deserialize_config_map-first options text found e =
    (config_loop found [], rw e, λ key. config_loop-first key found [])
