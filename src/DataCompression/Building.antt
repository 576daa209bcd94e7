-- ===== src/DataCompression/Building.antt =====
-- `BuildTree`: from frequencies a tree with these leaves.
use mathlib.Core.Logic.{∥∥₁_elim}
use mathlib.Core.List.{Perm, Permᴰ, Perm-prop, perm_append_comm, perm_middle}
use mathlib.Core.Path.{subst, subst₂}
use mathlib.Core.List.Perm
use bitcoin_messaging.Base.{
  ℕ, zero, suc, ◌+◌, ◌^◌, ◌≤◌, ◌<◌, ◌≡◌, refl, sym, ap, ap₂, ◌∙◌, true, false, List, [], ◌∷◌, ◌++◌,
  Option, some, arith, length, ltb, append-nil, append_assoc, Bool-cases, Option-cases, inl, inr,
  ltb→lt, not-ltb→le, length-perm, lt→ltb, assert->>,
}
use native.Mathlib.Nat.{ℕ_set}
use bitcoin_messaging.DataCompression.{
  FreqMap, Node, frequency, leaf, internal, join, NodeQueue, push_leaves, build_loop, build_tree,
}

-- The characters with their frequencies at the leaves of a tree, and of several.
abbrev pub leaves : Node → FreqMap
leaves (leaf c n) = (c, n) ∷ []
leaves (internal freq l r) = leaves l ++ leaves r

abbrev pub all_leaves : List Node → FreqMap
all_leaves [] = []
all_leaves (n ∷ ns) = leaves n ++ all_leaves ns

-- The sum of the frequencies, and of those of several nodes.
abbrev pub total : FreqMap → ℕ
total [] = 0
total ((c, n) ∷ fs) = n + total fs

abbrev weight : List Node → ℕ
weight [] = 0
weight (n ∷ ns) = frequency n + weight ns

weight-permᴰ : {ms ns : List Node} → Permᴰ ms ns → weight ms ≡ weight ns
weight-permᴰ Permᴰ.nil = refl
weight-permᴰ (Permᴰ.cons e p) = ap₂ ◌+◌ (ap frequency e) (weight-permᴰ p)
weight-permᴰ (Permᴰ.swap e f) = omega (arith, ap frequency e, ap frequency f)
weight-permᴰ (Permᴰ.trans p q) = weight-permᴰ p ∙ weight-permᴰ q

weight-perm : {ms ns : List Node} → Perm ms ns → weight ms ≡ weight ns
weight-perm p = ∥∥₁_elim p (ℕ_set _ _) weight-permᴰ

-- The parent of two nodes.
abbrev joined : Node → Node → Node
joined a b = internal (frequency a + frequency b) a b

join-joined : (a b : Node) → frequency a + frequency b < 2 ^ 31 → join a b ≡ some (joined a b)
unfolding join
join-joined a b h = assert->> _ _ (lt→ltb _ _ h)

frequency-joined : (a b : Node) → frequency (joined a b) ≡ frequency a + frequency b
unfolding frequency
frequency-joined a b = refl

frequency-leaf : (c n : ℕ) → frequency (leaf c n) ≡ n
unfolding frequency
frequency-leaf c n = refl

swap_front : (xs ys zs : FreqMap) → Perm (xs ++ (ys ++ zs)) (ys ++ (xs ++ zs))
swap_front xs ys zs =
    subst₂ Perm (append_assoc xs ys zs) (append_assoc ys xs zs)
      (Perm.append_right zs (perm_append_comm xs ys))

all_leaves-permᴰ : {ms ns : List Node} → Permᴰ ms ns → Perm (all_leaves ms) (all_leaves ns)
all_leaves-permᴰ Permᴰ.nil = Perm.nil
all_leaves-permᴰ (Permᴰ.cons {a} {b} {l₁} {l₂} e p) =
    subst (λ t. Perm (leaves a ++ all_leaves l₁) (leaves t ++ all_leaves l₂)) e
      (Perm.append_left (leaves a) (all_leaves-permᴰ p))
all_leaves-permᴰ (Permᴰ.swap {a} {b} {l} e f) =
    subst₂
      (λ s t.
        Perm (leaves a ++ (leaves b ++ all_leaves l)) (leaves t ++ (leaves s ++ all_leaves l)))
      e f (swap_front (leaves a) (leaves b) (all_leaves l))
all_leaves-permᴰ (Permᴰ.trans p q) = Perm.trans (all_leaves-permᴰ p) (all_leaves-permᴰ q)

pub all_leaves-perm : {ms ns : List Node} → Perm ms ns → Perm (all_leaves ms) (all_leaves ns)
all_leaves-perm p = ∥∥₁_elim p Perm-prop all_leaves-permᴰ

empty_of_length : (ns : List Node) → length ns ≡ 0 → ns ≡ []
empty_of_length [] h = refl
empty_of_length (n ∷ ns) h = absurd (omega arith)

module _ (queue : NodeQueue) where
  open queue use {
    Queue, empty, push, pop, contents, contents-empty, contents-push, pop-none, pop-some,
  }

  -- A queue with something in it gives a node and the rest.
  pub record IsPopped (q : Queue) : Type 0 where
    pub node : Node
    pub rest : Queue
    pub returns : pop q ≡ some (node, rest)
    pub size : length (contents q) ≡ suc (length (contents rest))
    pub heavy : weight (contents q) ≡ frequency node + weight (contents rest)
    pub same : Perm (leaves node ++ all_leaves (contents rest)) (all_leaves (contents q))

  pop_lem : (q : Queue) → 0 < length (contents q) → IsPopped q
  pop_lem q h = elim (Option-cases (pop q)) [
    | inl e ↦ absurd (omega (arith, ap length (pop-none q e)))
    | inr ((n, q'), e) ↦ record {
      node = n;
      rest = q';
      returns = e;
      size = sym (length-perm (pop-some q q' n e));
      heavy = sym (weight-perm (pop-some q q' n e));
      same = all_leaves-perm (pop-some q q' n e);
    }
  ]

  -- A tree with the leaves of a queue.
  abbrev pub IsBuilt : FreqMap → Option Node → Type 0
  IsBuilt fs result = (t : Node) × (result ≡ some t) × Perm (leaves t) fs

  build_more :
      (fuel : ℕ) (q q1 q2 : Queue) (a b : Node)
      → ltb 1 (length (contents q)) ≡ true
      → pop q ≡ some (a, q1)
      → pop q1 ≡ some (b, q2)
      → join a b ≡ some (joined a b)
      → build_loop queue (suc fuel) q ≡ build_loop queue fuel (push (joined a b) q2)
  unfolding build_loop
  build_more fuel q q1 q2 a b e f g h = ground arith

  build_last :
      (fuel : ℕ) (q q1 : Queue) (a : Node)
      → ltb 1 (length (contents q)) ≡ false
      → pop q ≡ some (a, q1)
      → build_loop queue (suc fuel) q ≡ some a
  unfolding build_loop
  build_last fuel q q1 a e f = ground arith

  -- Joining the first two nodes keeps the leaves.
  merged :
      (q : Queue) (p : IsPopped q) (p2 : IsPopped p.rest)
      → Perm
          (all_leaves (contents (push (joined p.node p2.node) p2.rest)))
          (all_leaves (contents q))
  merged q p p2 = Perm.trans (all_leaves-perm (contents-push (joined p.node p2.node) p2.rest)) (
      subst (λ l. Perm l (all_leaves (contents q)))
        (sym (append_assoc (leaves p.node) (leaves p2.node) (all_leaves (contents p2.rest))))
        (Perm.trans (Perm.append_left (leaves p.node) p2.same) p.same))

  alone :
      (q : Queue) (p : IsPopped q)
      → length (contents p.rest) ≡ 0
      → Perm (leaves p.node) (all_leaves (contents q))
  alone q p h =
      subst (λ l. Perm l (all_leaves (contents q)))
        (ap (λ l. leaves p.node ++ all_leaves l) (empty_of_length (contents p.rest) h)
          ∙ append-nil (leaves p.node))
        p.same

  build_loop-IsBuilt :
      (fuel : ℕ) (q : Queue)
      → 0 < length (contents q)
      → length (contents q) ≤ fuel
      → weight (contents q) < 2 ^ 31
      → IsBuilt (all_leaves (contents q)) (build_loop queue fuel q)
  build_loop-IsBuilt zero q some_node enough light = absurd (omega arith)
  build_loop-IsBuilt (suc fuel) q some_node enough light =
      let p = pop_lem q some_node in
      let p_size = p.size in
      elim (Bool-cases (ltb 1 (length (contents q)))) [
        | inl e ↦
            let p2 = pop_lem p.rest (omega (arith, ltb→lt _ _ e)) in
            let q' = push (joined p.node p2.node) p2.rest in
            let q'_size = length-perm (contents-push (joined p.node p2.node) p2.rest) in
            let p2_size = p2.size in
            let sum : weight (contents q') ≡ weight (contents q) = omega (
              arith,
              weight-perm (contents-push (joined p.node p2.node) p2.rest),
              frequency-joined p.node p2.node,
              p.heavy,
              p2.heavy,
            ) in
            let fits = join-joined p.node p2.node (omega (arith, p.heavy, p2.heavy)) in
            let (t, built, same) =
              build_loop-IsBuilt fuel q' (omega arith) (omega arith) (omega arith) in
            (
              t,
              build_more fuel q p.rest p2.rest p.node p2.node e p.returns p2.returns fits ∙ built,
              Perm.trans same (merged q p p2),
            )
        | inr e ↦ (
          p.node,
          build_last fuel q p.rest p.node e p.returns,
          alone q p (omega (arith, not-ltb→le _ _ e)),
        )
      ]

  push_leaves-all :
      (fs : FreqMap) (q : Queue)
      → Perm (all_leaves (contents (push_leaves queue fs q))) (all_leaves (contents q) ++ fs)
  unfolding push_leaves
  push_leaves-all [] q =
      subst (Perm (all_leaves (contents q))) (sym (append-nil (all_leaves (contents q))))
        (Perm.refl (all_leaves (contents q)))
  push_leaves-all ((c, n) ∷ fs) q = Perm.trans (push_leaves-all fs (push (leaf c n) q)) (
      Perm.trans (Perm.append_right fs (all_leaves-perm (contents-push (leaf c n) q)))
        (Perm.symm (perm_middle (all_leaves (contents q)) fs)))

  length-push_leaves :
      (fs : FreqMap) (q : Queue)
      → length (contents (push_leaves queue fs q)) ≡ length (contents q) + length fs
  unfolding push_leaves
  length-push_leaves [] q = omega arith
  length-push_leaves ((c, n) ∷ fs) q =
      omega
        (arith, length-push_leaves fs (push (leaf c n) q), length-perm (contents-push (leaf c n) q))

  weight-push_leaves :
      (fs : FreqMap) (q : Queue)
      → weight (contents (push_leaves queue fs q)) ≡ weight (contents q) + total fs
  unfolding push_leaves
  weight-push_leaves [] q = omega arith
  weight-push_leaves ((c, n) ∷ fs) q = omega (
    arith,
    weight-push_leaves fs (push (leaf c n) q),
    weight-perm (contents-push (leaf c n) q),
    frequency-leaf c n,
  )

  -- From frequencies whose sum is below 2^31, any but none, a tree is built, and its leaves are the characters with their
  -- frequencies, in some order.
  pub build_tree-IsBuilt :
      (f : ℕ × ℕ) (fs : FreqMap)
      → total (f ∷ fs) < 2 ^ 31
      → (t : Node) × (build_tree queue (f ∷ fs) ≡ some t) × Perm (leaves t) (f ∷ fs)
  unfolding build_tree
  build_tree-IsBuilt f fs light =
      let q = push_leaves queue (f ∷ fs) empty in
      let size = length-push_leaves (f ∷ fs) empty in
      let none_yet = ap length contents-empty in
      let weights = weight-push_leaves (f ∷ fs) empty in
      let nothing = ap weight contents-empty in
      let (t, built, same) =
        build_loop-IsBuilt (suc (length (f ∷ fs))) q (omega arith) (omega arith) (omega arith) in
      (
        t,
        built,
        Perm.trans same (
            subst (λ ns. Perm (all_leaves (contents q)) (all_leaves ns ++ (f ∷ fs))) contents-empty
              (push_leaves-all (f ∷ fs) empty)),
      )
