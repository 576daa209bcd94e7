-- ===== src/Tests/Wallet.antt =====
-- A concrete function for what the chains of transactions take from the Bitcoin client. Keys are their
-- bytes, and all of them are on the curve. Scripts are encoded as in the client, with at most two bytes for
-- the length of a push.
use mathlib.Core.Bool.{false≢true}
use bitcoin_messaging.Base.{
  ℕ, ◌+◌, ◌*◌, ◌/◌, ◌%◌, ◌≤◌, ◌<◌, ◌≡◌, refl, ◌∙◌, Bool, true, false, List, [], ◌∷◌, ◌++◌, Option,
  none, some, arith, length, length-append, map, take, drop, length-drop, take-append, drop-append,
  All, leb, ltb, ◌==◌, ◌&&◌, if◌then◌else◌, Bool-cases, inl, inr, ◌>>=◌, sym, ap, ap₂, ==_iff,
}
use bitcoin_messaging.Types.{Data}
use bitcoin_messaging.DataInterface.{PubKeys}
use bitcoin_messaging.BlockchainInterface.{Transaction}
use bitcoin_messaging.BlockchainInterface.Signing.{Op, opcode, push, op_data, IsOp, Signing}

abbrev pub byte_keys : PubKeys
byte_keys = record {
  Key = Data;
  of_bytes = λ b. b;
  bytes = λ k. k;
  is_fully_valid = λ k. true;
  bytes-of_bytes = λ b rest two_or_three size. refl;
}

op_bytes : Op → Data
op_bytes (opcode code) = code ∷ []
op_bytes (push d) =
    if ltb (length d) 0x4C then length d ∷ d else 0x4D ∷ length d % 256 ∷ length d / 256 ∷ d

unfoldable pub ops_bytes : List Op → Data
unfolding op_bytes
ops_bytes [] = []
ops_bytes (op ∷ ops) = op_bytes op ++ ops_bytes ops

-- So many bytes of a push.
take_push : ℕ → Data → Bool × Data × Data
take_push n d = if leb n (length d) then (true, drop n d, take n d) else (false, [], [])

long_push : Data → Bool × Data × Data
unfolding take_push
long_push [] = (false, [], [])
long_push (low ∷ []) = (false, [], [])
long_push (low ∷ high ∷ d) = take_push (low + 256 * high) d

unfoldable pub read_op : Data → Bool × Data × Data
unfolding take_push long_push
read_op [] = (false, [], [])
read_op (b ∷ d) =
    if ltb b 0x4C then take_push b d else (if b == 0x4D then long_push d else (true, d, []))

take_push-whole : (d rest : Data) → take_push (length d) (d ++ rest) ≡ (true, rest, d)
unfolding take_push
take_push-whole d rest =
    let whole : leb (length d) (length (d ++ rest)) ≡ true = ground (arith, length-append d rest) in
    rw (whole, drop-append d rest, take-append d rest)

read_short : (b : ℕ) (d : Data) → b < 0x4C → read_op (b ∷ d) ≡ take_push b d
unfolding read_op
read_short b d h = let e : ltb b 0x4C ≡ true = ground arith in rw e

read_long : (d : Data) → read_op (0x4D ∷ d) ≡ long_push d
unfolding read_op
read_long d = refl

read_code :
    (b : ℕ) (d : Data) → ltb b 0x4C ≡ false → (b == 0x4D) ≡ false → read_op (b ∷ d) ≡ (true, d, [])
unfolding read_op
read_code b d e f = rw (e, f)

pub read_op-bytes :
    (op : Op) (ops : List Op)
    → IsOp op
    → read_op (ops_bytes (op ∷ ops)) ≡ (true, ops_bytes ops, op_data op)
unfolding ops_bytes op_bytes long_push
read_op-bytes (opcode code) ops h = read_code code (ops_bytes ops) (ground arith) (ground arith)
read_op-bytes (push d) ops h = elim (Bool-cases (ltb (length d) 0x4C)) [
  | inl e ↦ rw e (
      read_short (length d) (d ++ ops_bytes ops) (ground arith) ∙ take_push-whole d (ops_bytes ops))
  | inr e ↦
      let whole : length d % 256 + 256 * (length d / 256) ≡ length d = omega arith in
      rw e (
        read_long (length d % 256 ∷ length d / 256 ∷ (d ++ ops_bytes ops))
        ∙ (rw whole (take_push-whole d (ops_bytes ops))))
]

take_push-shorter :
    (n : ℕ) (d : Data) → (take_push n d).0 ≡ true → length (take_push n d).1 ≤ length d
unfolding take_push
take_push-shorter n d h = elim (Bool-cases (leb n (length d))) [
  | inl e ↦ rw e (omega (arith, length-drop n d))
  | inr e ↦ rw e (omega arith)
]

long_push-shorter : (d : Data) → (long_push d).0 ≡ true → length (long_push d).1 ≤ length d
unfolding long_push
long_push-shorter [] h = omega arith
long_push-shorter (low ∷ []) h = omega arith
long_push-shorter (low ∷ high ∷ d) h = omega (arith, take_push-shorter (low + 256 * high) d h)

pub read_op-shorter :
    (script : Data)
    → 0 < length script
    → (read_op script).0 ≡ true
    → length (read_op script).1 < length script
read_op-shorter [] some_bytes = absurd (omega arith)
read_op-shorter (b ∷ d) some_bytes = elim (Bool-cases (ltb b 0x4C)) [
  | inl e ↦ rw (read_short b d (ground arith)) (λ h. omega (arith, take_push-shorter b d h))
  | inr e ↦ elim (Bool-cases (b == 0x4D)) [
    | inl f ↦
        let same : b ≡ 0x4D = ground arith in
        rw (same, read_long d) (λ h. omega (arith, long_push-shorter d h))
    | inr f ↦ rw (read_code b d e f) (λ h. omega arith)
  ]
]

pub op_bytes-some : (op : Op) (ops : List Op) → 0 < length (ops_bytes (op ∷ ops))
unfolding ops_bytes op_bytes
op_bytes-some (opcode code) ops = omega arith
op_bytes-some (push d) ops = elim (Bool-cases (ltb (length d) 0x4C)) [
  | inl e ↦ rw e (omega arith)
  | inr e ↦ rw e (omega arith)
]

unfoldable pub data_eq : Data → Data → Bool
data_eq [] [] = true
data_eq [] (b ∷ e) = false
data_eq (a ∷ d) [] = false
data_eq (a ∷ d) (b ∷ e) = a == b && data_eq d e

pub data_eq-same : (d : Data) → data_eq d d ≡ true
unfolding data_eq
data_eq-same [] = refl
data_eq-same (a ∷ d) = let e : (a == a) ≡ true = ground arith in rw (e, data_eq-same d)

same_data : (d e : Data) → data_eq d e ≡ true → d ≡ e
unfolding data_eq
same_data [] [] h = refl
same_data [] (b ∷ e) h = ground (arith, h)
same_data (a ∷ d) [] h = ground (arith, h)
same_data (a ∷ d) (b ∷ e) h = elim (Bool-cases (a == b)) [
  | inl x ↦ ap₂ ◌∷◌ ((==_iff a b).0 x) (same_data d e (sym (rw x refl) ∙ h))
  | inr x ↦ absurd (false≢true (sym (rw x refl) ∙ h))
]

pub keep_true : (b : Bool) {c : Bool} → c ≡ true → (if b then true else c) ≡ true
keep_true true h = refl
keep_true false h = h

-- The keys whose secrets are known, and the scripts.
pub record Wallet : Type 0 where
  pub knows : Data → Bool
  pub redeems : List Data

abbrev pub multisig_of : ℕ → List Data → Data
multisig_of n ks = ops_bytes (
    opcode (0x50 + n)
    ∷ (map (λ (k : Data). push k) ks ++ (opcode (0x50 + length ks) ∷ opcode 0xAE ∷ [])))

unfoldable pub member : List Data → Data → Bool
member [] script = false
member (r ∷ redeems) script = if data_eq r script then true else member redeems script

-- The hash of a script is the script with a byte before it.
unfoldable pub find_redeem : List Data → Data → Option Data
find_redeem [] script = none
find_redeem (r ∷ redeems) script =
    if data_eq (0xA9 ∷ r) script then some r else find_redeem redeems script

pub find_redeem-member :
    (redeems : List Data) (r : Data)
    → member redeems r ≡ true
    → find_redeem redeems (0xA9 ∷ r) ≡ some r
unfolding member find_redeem data_eq
find_redeem-member [] r h = ground (arith, h)
find_redeem-member (s ∷ redeems) r h = elim (Bool-cases (data_eq s r)) [
  | inl e ↦ rw e (ap some (same_data s r e))
  | inr e ↦ rw e (find_redeem-member redeems r (sym (rw e refl) ∙ h))
]

-- The signature is one byte.
sign : Wallet → Data → Transaction → ℕ → Option Data
unfolding find_redeem
sign wallet script tx n = find_redeem wallet.redeems script >>= λ redeem.
    some (ops_bytes (push (0x30 ∷ []) ∷ push redeem ∷ []))

keys_room :
    (n : ℕ) (ks : List Data)
    → All (λ (k : Data). length k ≡ 33) ks
    → length (ops_bytes (map (λ (k : Data). push k) ks ++ (opcode n ∷ opcode 0xAE ∷ [])))
      ≡ 34 * length ks + 2
unfolding ops_bytes op_bytes
keys_room n [] h = refl
keys_room n (k ∷ ks) (hk, h) =
    let short : ltb (length k) 0x4C ≡ true = ground arith in
    rw short (
      omega (
        arith,
        keys_room n ks h,
        length-append k
            (ops_bytes (map (λ (k : Data). push k) ks ++ (opcode n ∷ opcode 0xAE ∷ []))),
      ))

pub redeem_room :
    (ks : List Data)
    → length ks ≤ 15
    → All (λ (k : Data). length k ≡ 33) ks
    → length (multisig_of 1 ks) ≤ 520
unfolding ops_bytes op_bytes
redeem_room ks few sizes = omega (arith, keys_room (0x50 + length ks) ks sizes)

unfoldable pub wallet_signing : Signing byte_keys
unfolding sign ops_bytes data_eq member
wallet_signing = record {
  script_of = ops_bytes;
  get_op = read_op;
  script_of-nil = refl;
  script_of-cons = op_bytes-some;
  get_op-script_of = read_op-bytes;
  get_op-shorter = read_op-shorter;
  Secret = Data;
  public_key = λ secret. secret;
  set_multisig = multisig_of;
  set_multisig-ops = λ n pubkeys few few'. refl;
  Store = Wallet;
  has_key = λ store secret. store.knows secret;
  add_script = λ store script. record store { redeems = script ∷ store.redeems };
  has_script = λ store script. member store.redeems script;
  has_script-add_script = λ store script. rw (data_eq-same script);
  has_script-add_other = λ store script other h. keep_true (data_eq other script) h;
  add_key = λ store secret. record store {
    knows = λ d. if data_eq d secret then true else store.knows d;
  };
  has_key-add_key = λ store secret. rw (data_eq-same secret);
  has_key-add_other = λ store other secret h. keep_true (data_eq secret other) h;
  has_key-add_script = λ store script secret h. h;
  script_hash = λ script. 0xA9 ∷ script;
  sign_signature = sign;
  sign_signature-multisig = λ store secret others tx n known redeemable few sizes inside. (
    push (0x30 ∷ []) ∷ [],
    rw (find_redeem-member store.redeems (multisig_of 1 (secret ∷ others)) redeemable),
    (omega arith, (redeem_room (secret ∷ others) (omega arith) sizes, tt)),
  );
}
