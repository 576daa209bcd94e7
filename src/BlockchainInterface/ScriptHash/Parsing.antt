-- ===== src/BlockchainInterface/ScriptHash/Parsing.antt =====
-- The two loops over scripts: the last push of a script, and the public keys in it.
use bitcoin_messaging.Base.{
  ℕ, zero, suc, ◌≤◌, ◌<◌, ◌≡◌, refl, sym, ap, ◌∙◌, Bool, true, List, [], ◌∷◌, ◌++◌, arith, All,
  length, ◌==◌, if◌then◌else◌, append-nil, append_assoc, Bool-cases, inl, inr,
}
use bitcoin_messaging.Types.{Data}
use bitcoin_messaging.DataInterface.{PubKeys}
use bitcoin_messaging.BlockchainInterface.Signing.{Op, push, op_data, IsOp, Signing}
use bitcoin_messaging.BlockchainInterface.ScriptHash.{last_push_loop, pubkeys_loop}

abbrev last_data : Data → List Op → Data
last_data d [] = d
last_data d (op ∷ ops) = last_data (op_data op) ops

last_data-append : (d bytes : Data) (ops : List Op) → last_data d (ops ++ (push bytes ∷ [])) ≡ bytes
last_data-append d bytes [] = refl
last_data-append d bytes (op ∷ ops) = last_data-append (op_data op) bytes ops

module _ {keys : PubKeys} (signing : Signing keys) where
  open signing use {
    script_of, get_op, script_of-nil, script_of-cons, get_op-script_of, get_op-shorter,
  }

  shorter :
      (op : Op) (ops : List Op) → IsOp op → length (script_of ops) < length (script_of (op ∷ ops))
  shorter op ops h =
      let e = get_op-script_of op ops h in
      let less =
        get_op-shorter (script_of (op ∷ ops)) (script_of-cons op ops)
          (ap (λ (r : Bool × Data × Data). r.0) e) in
      omega (arith, less, ap (λ (r : Bool × Data × Data). length r.1) e)

  last_push_go :
      (fuel : ℕ) (script rest bytes d : Data)
      → 0 < length script
      → get_op script ≡ (true, rest, bytes)
      → last_push_loop signing (suc fuel) script d ≡ last_push_loop signing fuel rest bytes
  unfolding last_push_loop
  last_push_go fuel script rest bytes d h e =
      let e0 : (get_op script).0 ≡ true = ap (λ (r : Bool × Data × Data). r.0) e in
      let e1 : (get_op script).1 ≡ rest = ap (λ (r : Bool × Data × Data). r.1) e in
      let e2 : (get_op script).2 ≡ bytes = ap (λ (r : Bool × Data × Data). r.2) e in
      ground (arith, e0, e1, e2)

  last_push_step :
      (fuel : ℕ) (op : Op) (ops : List Op) (d : Data)
      → IsOp op
      → last_push_loop signing (suc fuel) (script_of (op ∷ ops)) d
        ≡ last_push_loop signing fuel (script_of ops) (op_data op)
  last_push_step fuel op ops d h =
      last_push_go fuel (script_of (op ∷ ops)) (script_of ops) (op_data op) d
        (script_of-cons op ops) (get_op-script_of op ops h)

  last_push_end : (fuel : ℕ) (d : Data) → last_push_loop signing fuel (script_of []) d ≡ d
  unfolding last_push_loop
  last_push_end zero d = refl
  last_push_end (suc fuel) d = rw script_of-nil

  last_push_loop-last :
      (fuel : ℕ) (ops : List Op) (d : Data)
      → All IsOp ops
      → length (script_of ops) ≤ fuel
      → last_push_loop signing fuel (script_of ops) d ≡ last_data d ops
  last_push_loop-last fuel [] d h enough = last_push_end fuel d
  last_push_loop-last zero (op ∷ ops) d h enough = absurd (omega (arith, script_of-cons op ops))
  last_push_loop-last (suc fuel) (op ∷ ops) d (ho, h) enough =
      last_push_step fuel op ops d ho
      ∙ last_push_loop-last fuel ops (op_data op) h (omega (arith, shorter op ops ho))

  -- The last push of a script that ends with one.
  pub last_push_loop_lem :
      (ops : List Op) (bytes : Data)
      → All IsOp (ops ++ (push bytes ∷ []))
      → last_push_loop signing
          (length (script_of (ops ++ (push bytes ∷ []))))
          (script_of (ops ++ (push bytes ∷ [])))
          []
        ≡ bytes
  last_push_loop_lem ops bytes h =
      last_push_loop-last (length (script_of (ops ++ (push bytes ∷ [])))) (ops ++ (push bytes ∷ []))
        [] h (omega arith)
      ∙ last_data-append [] bytes ops

  abbrev pub found_keys : List Op → List keys.Key
  found_keys [] = []
  found_keys (op ∷ ops) =
      if length (op_data op) == 33
      then keys.of_bytes (op_data op) ∷ found_keys ops
      else found_keys ops

  pubkeys_go :
      (fuel : ℕ) (script rest bytes : Data) (pubkeys : List keys.Key)
      → 0 < length script
      → get_op script ≡ (true, rest, bytes)
      → pubkeys_loop signing (suc fuel) script pubkeys
        ≡ pubkeys_loop signing fuel rest
            (if length bytes == 33 then pubkeys ++ (keys.of_bytes bytes ∷ []) else pubkeys)
  unfolding pubkeys_loop
  pubkeys_go fuel script rest bytes pubkeys h e =
      let e0 : (get_op script).0 ≡ true = ap (λ (r : Bool × Data × Data). r.0) e in
      let e1 : (get_op script).1 ≡ rest = ap (λ (r : Bool × Data × Data). r.1) e in
      let e2 : (get_op script).2 ≡ bytes = ap (λ (r : Bool × Data × Data). r.2) e in
      ground (arith, e0, e1, e2)

  pubkeys_step :
      (fuel : ℕ) (op : Op) (ops : List Op) (pubkeys : List keys.Key)
      → IsOp op
      → pubkeys_loop signing (suc fuel) (script_of (op ∷ ops)) pubkeys
        ≡ pubkeys_loop signing fuel (script_of ops) (
            if length (op_data op) == 33
            then pubkeys ++ (keys.of_bytes (op_data op) ∷ [])
            else pubkeys)
  pubkeys_step fuel op ops pubkeys h =
      pubkeys_go fuel (script_of (op ∷ ops)) (script_of ops) (op_data op) pubkeys
        (script_of-cons op ops) (get_op-script_of op ops h)

  pubkeys_end :
      (fuel : ℕ) (pubkeys : List keys.Key)
      → pubkeys_loop signing fuel (script_of []) pubkeys ≡ pubkeys
  unfolding pubkeys_loop
  pubkeys_end zero pubkeys = refl
  pubkeys_end (suc fuel) pubkeys = rw script_of-nil

  pubkeys_loop-found :
      (fuel : ℕ) (ops : List Op) (pubkeys : List keys.Key)
      → All IsOp ops
      → length (script_of ops) ≤ fuel
      → pubkeys_loop signing fuel (script_of ops) pubkeys ≡ pubkeys ++ found_keys ops
  pubkeys_loop-found fuel [] pubkeys h enough = pubkeys_end fuel pubkeys ∙ sym (append-nil pubkeys)
  pubkeys_loop-found zero (op ∷ ops) pubkeys h enough =
      absurd (omega (arith, script_of-cons op ops))
  pubkeys_loop-found (suc fuel) (op ∷ ops) pubkeys (ho, h) enough =
      let rest = λ (found : List keys.Key).
        pubkeys_loop-found fuel ops found h (omega (arith, shorter op ops ho)) in
      pubkeys_step fuel op ops pubkeys ho ∙ (elim (Bool-cases (length (op_data op) == 33)) [
        | inl e ↦ rw e (
            rest (pubkeys ++ (keys.of_bytes (op_data op) ∷ []))
            ∙ append_assoc pubkeys (keys.of_bytes (op_data op) ∷ []) (found_keys ops))
        | inr e ↦ rw e (rest pubkeys)
      ])

  -- The keys that the loop finds in a script.
  pub pubkeys_loop_lem :
      (ops : List Op)
      → All IsOp ops
      → pubkeys_loop signing (length (script_of ops)) (script_of ops) [] ≡ found_keys ops
  pubkeys_loop_lem ops h = pubkeys_loop-found (length (script_of ops)) ops [] h (omega arith)
