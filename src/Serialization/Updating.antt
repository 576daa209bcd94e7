-- ===== src/Serialization/Updating.antt =====
-- `SerializeState` changes the two values and nothing else.
use bitcoin_messaging.Base.{
  ℕ, ◌+◌, ◌%◌, ◌^◌, ◌<◌, ◌≡◌, refl, sym, ap, ap₂, ◌∙◌, ◌++◌, true, some, arith, length,
  length-append, drop, take-append, drop-append, append_assoc, leb, le→leb, assert->>,
}
use bitcoin_messaging.Types.{Data}
use bitcoin_messaging.Serialization.{
  codes, ConfigMap, config_at, find_from, replace_at, replace_state, serialize_state,
}

-- What stands between a beginning and a rest is replaced.
replace_at-middle :
    (begin old rest value : Data)
    → replace_at (length begin) (length old) value (begin ++ (old ++ rest))
      ≡ some (begin ++ (value ++ rest))
unfolding replace_at
replace_at-middle begin old rest value =
    let size : length (begin ++ (old ++ rest)) ≡ length begin + length (old ++ rest) =
      length-append begin (old ++ rest) in
    let behind : drop (length begin + length old) (begin ++ (old ++ rest)) ≡ rest =
      ap₂ drop (sym (length-append begin old)) (sym (append_assoc begin old rest))
      ∙ drop-append (begin ++ old) rest in
    assert->> (leb (length begin) (length (begin ++ (old ++ rest)))) _ (le→leb _ _ (omega arith))
    ∙ (rw (take-append begin (old ++ rest), behind))

replace_state-found :
    (name before mark old rest value : Data) (offset : ℕ)
    → length mark ≡ offset
    → length old ≡ 64
    → find_from 0 name (before ++ (mark ++ (old ++ rest))) ≡ length before
    → length before + offset < 2 ^ 64
    → replace_state name offset value (before ++ (mark ++ (old ++ rest)))
      ≡ some (before ++ (mark ++ (value ++ rest)))
unfolding replace_state
replace_state-found name before mark old rest value offset size count found small =
    let pos : (length before + offset) % 2 ^ 64 ≡ length (before ++ mark) =
      omega (arith, length-append before mark) in
    let split = append_assoc before mark (old ++ rest) in
    rw (found, pos, sym count)
      (ap (replace_at (length (before ++ mark)) (length old) value) (sym split)
        ∙ replace_at-middle (before ++ mark) old rest value
        ∙ ap some (append_assoc before mark (value ++ rest)))

regroup :
    (before mark value mid rest : Data)
    → before ++ (mark ++ (value ++ (mid ++ rest))) ≡ (before ++ (mark ++ (value ++ mid))) ++ rest
regroup before mark value mid rest = sym (
    append_assoc before (mark ++ (value ++ mid)) rest
    ∙ ap (λ (l : Data). before ++ l) (append_assoc mark (value ++ mid) rest)
    ∙ ap (λ (l : Data). before ++ (mark ++ l)) (append_assoc value mid rest))

-- If the file can be opened for writing, a file of less than 2^63 bytes in which the two names are first found where their values of 64 bytes
-- stand, one behind the other: the file gets the two transaction ids of the configuration in their
-- place, and all its other bytes stay.
pub serialize_state-values :
    (config : ConfigMap) (first last before mid after old old' : Data)
    → config_at (codes "State.FirstTx") config ≡ some first
    → config_at (codes "State.LastTx") config ≡ some last
    → length old ≡ 64
    → length old' ≡ 64
    → length before + length first + length mid < 2 ^ 63
    → find_from 0 (codes "State.FirstTx") (
        before
        ++ (codes "State.FirstTx=" ++ (old ++ (mid ++ (codes "State.LastTx=" ++ (old' ++ after))))))
      ≡ length before
    → find_from 0 (codes "State.LastTx") (
        (before ++ (codes "State.FirstTx=" ++ (first ++ mid)))
        ++ (codes "State.LastTx=" ++ (old' ++ after)))
      ≡ length (before ++ (codes "State.FirstTx=" ++ (first ++ mid)))
    → serialize_state true config (
        some (
          before
          ++ (codes "State.FirstTx="
              ++ (old ++ (mid ++ (codes "State.LastTx=" ++ (old' ++ after)))))))
      ≡ some (
          (before ++ (codes "State.FirstTx=" ++ (first ++ mid)))
          ++ (codes "State.LastTx=" ++ (last ++ after)))
unfolding serialize_state
serialize_state-values config first last before mid after old old' e f size size' small found
      found' =
    let mark = codes "State.FirstTx=" in
    let rest = codes "State.LastTx=" ++ (old' ++ after) in
    let place = length-append before (mark ++ (first ++ mid)) in
    let place' = length-append mark (first ++ mid) in
    let step =
      replace_state-found (codes "State.FirstTx") before mark old (mid ++ rest) first 14 refl size
        found (omega arith)
      ∙ ap some (regroup before mark first mid rest) in
    let step' =
      replace_state-found (codes "State.LastTx") (before ++ (mark ++ (first ++ mid)))
        (codes "State.LastTx=") old' after last 13 refl size' found'
        (omega (arith, place, place', length-append first mid)) in
    rw (e, f, step, step') refl
