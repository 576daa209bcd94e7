-- ===== src/Tests/Models.antt =====
-- Concrete functions for what the program takes from elsewhere: a root, a logarithm, keys and a queue.
use mathlib.Core.List.{Perm}
use mathlib.Core.List.Perm
use mathlib.Core.Path.{subst}
use bitcoin_messaging.Base.{
  ℕ, zero, suc, ◌+◌, ◌*◌, ◌%◌, ◌^◌, ◌≤◌, ◌<◌, ◌≡◌, ◌≢◌, refl, ap, Bool, true, false, List, [], ◌∷◌,
  Option, none, some, arith, leb, ◌==◌, if◌then◌else◌, get_elem?, Bool-cases, inl, inr, not-leb→lt,
  leb→le, All,
}
use bitcoin_messaging.Types.{Data}
use bitcoin_messaging.DataInterface.{PubKeys}
use bitcoin_messaging.DataCompression.{Node, frequency, NodeQueue}

-- The least `r`, from a given one on, with `a ≤ r ^ j`.
root_scan : ℕ → ℕ → ℕ → ℕ → ℕ
root_scan zero a j r = r
root_scan (suc fuel) a j r =
    let next = root_scan fuel a j (r + 1) in if leb a (r ^ j) then r else next

pub ceil_root : ℕ → ℕ → ℕ
ceil_root a j = root_scan a a j 0

root_scan-le : (fuel a b j r : ℕ) → a ≤ b ^ j → r ≤ b → root_scan fuel a j r ≤ b
unfolding root_scan
root_scan-le zero a b j r h lo = lo
root_scan-le (suc fuel) a b j r h lo = elim (Bool-cases (leb a (r ^ j))) [
  | inl e ↦ rw e lo
  | inr e ↦
      let other : r ≢ b =
        (λ (q : r ≡ b). absurd (omega (arith, not-leb→lt a (r ^ j) e, ap (λ (t : ℕ). t ^ j) q))) in
      rw e (root_scan-le fuel a b j (r + 1) h (omega arith))
]

pub ceil_root-le : (a b j : ℕ) → 0 < j → a ≤ b ^ j → ceil_root a j ≤ 2 * b
unfolding ceil_root
ceil_root-le a b j pos h = omega (arith, root_scan-le a a b j 0 h (omega arith))

-- The largest exponent, from a given one on, whose power of 2 is at most `x`.
log_scan : ℕ → ℕ → ℕ → ℕ
log_scan zero x e = e
log_scan (suc fuel) x e =
    let next = log_scan fuel x (e + 1) in if leb (2 ^ (e + 1)) x then next else e

unfoldable pub log2 : ℕ → ℕ
unfolding log_scan
log2 x = log_scan 64 x 0

log_scan-le : (fuel x e : ℕ) → 2 ^ e ≤ x → 2 ^ log_scan fuel x e ≤ x
unfolding log_scan
log_scan-le zero x e h = h
log_scan-le (suc fuel) x e h = elim (Bool-cases (leb (2 ^ (e + 1)) x)) [
  | inl t ↦ rw t (log_scan-le fuel x (e + 1) (leb→le (2 ^ (e + 1)) x t))
  | inr t ↦ rw t h
]

pub log2-le : (x : ℕ) → 0 < x → 2 ^ log2 x ≤ x
unfolding log2
log2-le x h = log_scan-le 64 x 0 (omega arith)

log_scan-from : (fuel x e : ℕ) → e ≤ log_scan fuel x e
unfolding log_scan
log_scan-from zero x e = omega arith
log_scan-from (suc fuel) x e = elim (Bool-cases (leb (2 ^ (e + 1)) x)) [
  | inl t ↦ rw t (omega (arith, log_scan-from fuel x (e + 1)))
  | inr t ↦ rw t (omega arith)
]

pub log2-pos : (x : ℕ) → 2 ≤ x → 0 < log2 x
unfolding log2 log_scan
log2-pos x h =
    let large : leb (2 ^ (0 + 1)) x ≡ true = ground arith in
    rw large (omega (arith, log_scan-from 63 x 1))

-- Keys are their bytes; those with an even last byte are on the curve.
is_even_key : Data → Bool
is_even_key key = elim (get_elem? key 32) [ none ↦ false | some b ↦ b % 2 == 0 ]

unfoldable pub even_keys : PubKeys
unfolding is_even_key
even_keys = record {
  Key = Data;
  of_bytes = λ b. b;
  bytes = λ k. k;
  is_fully_valid = is_even_key;
  bytes-of_bytes = λ b rest two_or_three size. refl;
}

-- The node of least frequency and the others.
take_least : Node → List Node → Node × List Node
take_least n [] = (n, [])
take_least n (m ∷ ms) =
    let keep = take_least n ms in
    let change = take_least m ms in
    if leb (frequency n) (frequency m) then (keep.0, m ∷ keep.1) else (change.0, n ∷ change.1)

take_least-perm :
    (n : Node) (ms : List Node) → Perm ((take_least n ms).0 ∷ (take_least n ms).1) (n ∷ ms)
unfolding take_least
take_least-perm n [] = Perm.refl (n ∷ [])
take_least-perm n (m ∷ ms) = elim (Bool-cases (leb (frequency n) (frequency m))) [
  | inl e ↦ rw e (
      Perm.trans (Perm.swap m (take_least n ms).0 (take_least n ms).1)
        (Perm.trans (Perm.cons m (take_least-perm n ms)) (Perm.swap n m ms)))
  | inr e ↦ rw e (
      Perm.trans (Perm.swap n (take_least m ms).0 (take_least m ms).1)
        (Perm.cons n (take_least-perm m ms)))
]

least_le :
    (n : Node) (ms : List Node)
    → (frequency (take_least n ms).0 ≤ frequency n)
      × All (λ m. frequency (take_least n ms).0 ≤ frequency m) (take_least n ms).1
unfolding take_least
least_le n [] = (omega arith, tt)
least_le n (m ∷ ms) = elim (Bool-cases (leb (frequency n) (frequency m))) [
  | inl e ↦ let (le, all) = least_le n ms in rw e (le, (omega (arith, leb→le _ _ e), all))
  | inr e ↦
      let (le, all) = least_le m ms in
      rw e (omega (arith, not-leb→lt _ _ e), (omega (arith, not-leb→lt _ _ e), all))
]

list_pop : List Node → Option (Node × List Node)
list_pop [] = none
list_pop (n ∷ ns) = some (take_least n ns)

list_pop-none : (q : List Node) → list_pop q ≡ none → q ≡ []
unfolding list_pop
list_pop-none [] h = refl
list_pop-none (n ∷ ns) h = cc

popped :
    (n0 : Node) (ns : List Node) {r : Node × List Node}
    → list_pop (n0 ∷ ns) ≡ some r
    → take_least n0 ns ≡ r
unfolding list_pop
popped n0 ns {r} h = ap (λ (o : Option (Node × List Node)). elim o [ none ↦ r | some x ↦ x ]) h

list_pop-some : (q q' : List Node) (n : Node) → list_pop q ≡ some (n, q') → Perm (n ∷ q') q
list_pop-some [] q' n h = unfold list_pop in cc
list_pop-some (n0 ∷ ns) q' n h =
    subst (λ (r : Node × List Node). Perm (r.0 ∷ r.1) (n0 ∷ ns)) (popped n0 ns h)
      (take_least-perm n0 ns)

list_pop-least :
    (q q' : List Node) (n : Node)
    → list_pop q ≡ some (n, q')
    → All (λ m. frequency n ≤ frequency m) q'
list_pop-least [] q' n h = unfold list_pop in cc
list_pop-least (n0 ∷ ns) q' n h =
    subst (λ (r : Node × List Node). All (λ m. frequency r.0 ≤ frequency m) r.1) (popped n0 ns h)
      (least_le n0 ns).1

pub list_queue : NodeQueue
list_queue = record {
  Queue = List Node;
  empty = [];
  push = λ n q. n ∷ q;
  pop = list_pop;
  contents = λ q. q;
  contents-empty = refl;
  contents-push = λ n q. Perm.refl (n ∷ q);
  pop-none = list_pop-none;
  pop-some = list_pop-some;
  pop-least = list_pop-least;
}
