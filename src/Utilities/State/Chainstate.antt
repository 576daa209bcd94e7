-- ===== src/Utilities/State/Chainstate.antt =====
-- `UpdateChainstate`: the configuration and its file after a message was sent.
use bitcoin_messaging.Base.{
  ◌+◌, ◌<◌, ◌^◌, ◌≡◌, refl, sym, ap, ap₂, assert->>, ◌∙◌, Bool, true, false, [], ◌∷◌, ◌++◌, Option,
  some, length, if◌then◌else◌, Bool-cases, inl, inr, replicate,
}
use mathlib.Core.Option.{none-ne-some}
use bitcoin_messaging.Types.{Data}
use bitcoin_messaging.DataInterface.{PubKeys}
use bitcoin_messaging.BlockchainInterface.Signing.{Signing}
use bitcoin_messaging.Serialization.{
  codes, text_eq, ConfigMap, config_at, find_from, serialize_state,
}
use bitcoin_messaging.Serialization.Restoring.{text_eq→≡}
use bitcoin_messaging.Serialization.Updating.{serialize_state-values}
use bitcoin_messaging.Utilities.State.{
  is_nil, Disk, Globals, is_config_file_loaded, set_config, update_chainstate,
}

entry :
    (key k v : Data) (config : ConfigMap)
    → text_eq k key ≡ true
    → config_at key ((k, v) ∷ config) ≡ some v
unfolding config_at
entry key k v config e = rw e refl

no_entry :
    (key k v : Data) (config : ConfigMap)
    → text_eq k key ≡ false
    → config_at key ((k, v) ∷ config) ≡ config_at key config
unfolding config_at
no_entry key k v config e = rw e refl

config_at-set_config :
    (key value old : Data) (config : ConfigMap)
    → config_at key config ≡ some old
    → config_at key (set_config key value config) ≡ some value
unfolding set_config
config_at-set_config key value old [] h = unfold config_at in absurd (none-ne-some _ h)
config_at-set_config key value old ((k, v) ∷ config) h = elim (Bool-cases (text_eq k key)) [
  | inl e ↦ rw e (entry key k value config e)
  | inr e ↦ rw e (
      no_entry key k v (set_config key value config) e
      ∙ config_at-set_config key value old config (sym (no_entry key k v config e) ∙ h))
]

config_at-set_other :
    (key other value : Data) (config : ConfigMap)
    → text_eq key other ≡ false
    → config_at other (set_config key value config) ≡ config_at other config
unfolding set_config
config_at-set_other key other value [] h = refl
config_at-set_other key other value ((k, v) ∷ config) h = elim (Bool-cases (text_eq k key)) [
  | inl e ↦
      let differs : text_eq k other ≡ false =
        ap (λ (t : Data). text_eq t other) (text_eq→≡ k key e) ∙ h in
      rw e (no_entry other k value config differs ∙ sym (no_entry other k v config differs))
  | inr e ↦ elim (Bool-cases (text_eq k other)) [
    | inl f ↦
        rw e (entry other k v (set_config key value config) f ∙ sym (entry other k v config f))
    | inr f ↦ rw e (
        no_entry other k v (set_config key value config) f
        ∙ config_at-set_other key other value config h
        ∙ sym (no_entry other k v config f))
  ]
]

loaded :
    (key value : Data) (config : ConfigMap)
    → config_at key config ≡ some value
    → is_nil config ≡ false
unfolding config_at
loaded key value [] h = absurd (none-ne-some _ h)
loaded key value (e ∷ config) h = refl

-- The first transaction stays, once there is one.
abbrev pub first_of : Data → Data → Data
first_of old first_tx = if text_eq old (replicate 64 b'0') then first_tx else old

first_at :
    (old first_tx : Data) (config : ConfigMap)
    → config_at (codes "State.FirstTx") config ≡ some old
    → config_at (codes "State.FirstTx") (
        if text_eq old (replicate 64 b'0')
        then set_config (codes "State.FirstTx") first_tx config
        else config)
      ≡ some (first_of old first_tx)
first_at old first_tx config h = elim (Bool-cases (text_eq old (replicate 64 b'0'))) [
  | inl e ↦ rw e (config_at-set_config (codes "State.FirstTx") first_tx old config h)
  | inr e ↦ rw e h
]

other_at :
    (key old first_tx : Data) (config : ConfigMap)
    → text_eq (codes "State.FirstTx") key ≡ false
    → config_at key (
        if text_eq old (replicate 64 b'0')
        then set_config (codes "State.FirstTx") first_tx config
        else config)
      ≡ config_at key config
other_at key old first_tx config h = elim (Bool-cases (text_eq old (replicate 64 b'0'))) [
  | inl e ↦ rw e (config_at-set_other (codes "State.FirstTx") key first_tx config h)
  | inr e ↦ rw e refl
]

module _ {keys : PubKeys} (signing : Signing keys) where
  -- With both entries in the configuration, a directory for the files, and in it a file that can be written,
  -- a file of less than 2^63 bytes in which the two names are
  -- first found where their values of 64 bytes stand, one behind the other: the entry of the last
  -- transaction is the new one; that of the first transaction is the new one if it was all zeros, and
  -- stays otherwise; every other entry stays; and the file gets the two values in their places.
  pub update_chainstate-values :
      (first_tx last_tx : Data) (disk : Disk) (g : Globals signing)
      (before mid after old old_last old' old_last' : Data)
      → config_at (codes "State.FirstTx") g.config ≡ some old
      → config_at (codes "State.LastTx") g.config ≡ some old_last
      → length old' ≡ 64
      → length old_last' ≡ 64
      → length before + length (first_of old first_tx) + length mid < 2 ^ 63
      → find_from 0 (codes "State.FirstTx") (
          before
          ++ (codes "State.FirstTx="
              ++ (old' ++ (mid ++ (codes "State.LastTx=" ++ (old_last' ++ after))))))
        ≡ length before
      → find_from 0 (codes "State.LastTx") (
          (before ++ (codes "State.FirstTx=" ++ (first_of old first_tx ++ mid)))
          ++ (codes "State.LastTx=" ++ (old_last' ++ after)))
        ≡ length (before ++ (codes "State.FirstTx=" ++ (first_of old first_tx ++ mid)))
      → disk.has_path ≡ true
      → disk.conf_opens ≡ true
      → disk.conf
        ≡ some (
            before
            ++ (codes "State.FirstTx="
                ++ (old' ++ (mid ++ (codes "State.LastTx=" ++ (old_last' ++ after))))))
      → (config : ConfigMap) × (update_chainstate signing first_tx last_tx disk g
          ≡ some (
            record g { config = config },
            record disk {
              conf = some (
                  (before ++ (codes "State.FirstTx=" ++ (first_of old first_tx ++ mid)))
                  ++ (codes "State.LastTx=" ++ (last_tx ++ after)));
            },
          ))
        × (config_at (codes "State.LastTx") config ≡ some last_tx)
        × (config_at (codes "State.FirstTx") config ≡ some (first_of old first_tx))
        × ((key : Data)
            → text_eq (codes "State.FirstTx") key ≡ false
            → text_eq (codes "State.LastTx") key ≡ false
            → config_at key config ≡ config_at key g.config)
  unfolding update_chainstate is_config_file_loaded text_eq
  update_chainstate-values first_tx last_tx disk g before mid after old old_last old' old_last' e f
        size size' small found found' path opens file =
      let begun =
        if text_eq old (replicate 64 b'0')
        then set_config (codes "State.FirstTx") first_tx g.config
        else g.config in
      let config = set_config (codes "State.LastTx") last_tx begun in
      let last : config_at (codes "State.LastTx") begun ≡ some old_last =
        other_at (codes "State.LastTx") old first_tx g.config refl ∙ f in
      let last' : config_at (codes "State.LastTx") config ≡ some last_tx =
        config_at-set_config (codes "State.LastTx") last_tx old_last begun last in
      let first' : config_at (codes "State.FirstTx") config ≡ some (first_of old first_tx) =
        config_at-set_other (codes "State.LastTx") (codes "State.FirstTx") last_tx begun refl
        ∙ first_at old first_tx g.config e in
      let written : serialize_state disk.conf_opens config disk.conf
          ≡ some (
              (before ++ (codes "State.FirstTx=" ++ (first_of old first_tx ++ mid)))
              ++ (codes "State.LastTx=" ++ (last_tx ++ after))) =
        ap₂ (λ (b : Bool) (o : Option Data). serialize_state b config o) opens file
        ∙ serialize_state-values config (first_of old first_tx) last_tx before mid after old'
            old_last' first' last' size size' small found found' in
      (
        config,
        rw (loaded (codes "State.FirstTx") old g.config e, e, last)
            (assert->> disk.has_path _ path ∙ rw written refl),
        last',
        first',
        λ key one other.
            config_at-set_other (codes "State.LastTx") key last_tx begun other
            ∙ other_at key old first_tx g.config one,
      )
