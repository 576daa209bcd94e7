-- ===== src/BlockchainInterface/Selecting.antt =====
-- `SelectInputs`: unspent outputs that reach a minimum together.
--
-- The amounts of the wallet are floating-point numbers: their type, their value in Satoshi, the test of
-- the balance and the sorting by amount are parameters. A txid and its hexadecimal string are one number.
pub mod Continuing
use mathlib.Core.Logic.{∥∥₁_elim}
use mathlib.Core.Path.{subst}
use native.Mathlib.Nat.{ℕ_set}
use mathlib.Core.List.{Perm, Permᴰ, perm_middle}
use mathlib.Core.List.Perm
use bitcoin_messaging.Base.{
  ℕ, ◌+◌, ◌^◌, ◌≤◌, ◌<◌, ◌≡◌, ◌⊎◌, inl, inr, refl, sym, ap, ap₂, ◌∙◌, Bool, false, List, [], ◌∷◌,
  ◌++◌, Option, some, arith, leb, leb→le, ◌==◌, ◌&&◌, ◌>>◌, assert, not, if◌then◌else◌, map,
  append-nil, append_assoc, Bool-cases,
}
use bitcoin_messaging.Maths.{u64}
use bitcoin_messaging.Maths.Compositions.{sum}
use bitcoin_messaging.BlockchainInterface.{OutPoint}

module _ {Amount : Type 0} (satoshi : Amount → ℕ) where
  -- unspenttxout_t, the fields that the code reads.
  pub record Unspent : Type 0 where
    pub txid : ℕ
    pub n : ℕ
    pub amount : Amount

  pub record InitInputs : Type 0 where
    pub utxo : List OutPoint
    pub budget : ℕ

  abbrev pub point_of : Unspent → OutPoint
  point_of u = record { hash = u.txid; n = u.n }

  -- `params.budget += …; params.utxo.push_back(point)`
  abbrev pub add_input : Unspent → InitInputs → InitInputs
  add_input u params = record {
    utxo = params.utxo ++ (point_of u ∷ []);
    budget = u64 (params.budget + satoshi u.amount);
  }

  -- The loop that looks for output 0 of the last transaction: the parameters, and what is left.
  pub last_loop : ℕ → List Unspent → List Unspent → InitInputs → InitInputs × List Unspent
  last_loop last_tx [] before params = (params, before)
  last_loop last_tx (u ∷ us) before params =
      let rest = last_loop last_tx us (before ++ (u ∷ [])) params in
      if u.txid == last_tx && u.n == 0 then (add_input u params, before ++ us) else rest

  pub fill_loop : ℕ → List Unspent → InitInputs → InitInputs
  fill_loop n_min [] params = params
  fill_loop n_min (u ∷ us) params =
      let rest = fill_loop n_min us (add_input u params) in
      if leb n_min params.budget then params else rest

  -- `none` is the exception of insufficient funds.
  unfoldable pub select_inputs :
      (List Unspent → List Unspent) → (ℕ → Bool) → List Unspent → ℕ → ℕ → Option InitInputs
  unfolding last_loop fill_loop
  select_inputs sort balance_below list_unspent last_tx n_min = do
    assert (not (balance_below n_min))
    let found = last_loop last_tx (sort list_unspent) [] (record { utxo = []; budget = 0 })
    some (fill_loop n_min found.1 found.0)

  abbrev pub worth : List Unspent → ℕ
  worth us = sum (map (λ (u : Unspent). satoshi u.amount) us)

  worth-permᴰ : {us vs : List Unspent} → Permᴰ us vs → worth us ≡ worth vs
  worth-permᴰ Permᴰ.nil = refl
  worth-permᴰ (Permᴰ.cons e p) = ap₂ ◌+◌ (ap (λ (u : Unspent). satoshi u.amount) e) (worth-permᴰ p)
  worth-permᴰ (Permᴰ.swap e f) =
      omega
        (arith, ap (λ (u : Unspent). satoshi u.amount) e, ap (λ (u : Unspent). satoshi u.amount) f)
  worth-permᴰ (Permᴰ.trans p q) = worth-permᴰ p ∙ worth-permᴰ q

  worth-perm : {us vs : List Unspent} → Perm us vs → worth us ≡ worth vs
  worth-perm p = ∥∥₁_elim p (ℕ_set _ _) worth-permᴰ

  worth-append : (us vs : List Unspent) → worth (us ++ vs) ≡ worth us + worth vs
  worth-append [] vs = omega arith
  worth-append (u ∷ us) vs = omega (arith, worth-append us vs)

  points-append :
      (us : List Unspent) (u : Unspent)
      → map point_of us ++ (point_of u ∷ []) ≡ map point_of (us ++ (u ∷ []))
  points-append [] u = refl
  points-append (v ∷ us) u = ap (λ l. point_of v ∷ l) (points-append us u)

  -- The parameters list these outputs, with their worth.
  pub record IsListing (us : List Unspent) (params : InitInputs) : Type 0 where
    pub points : params.utxo ≡ map point_of us
    pub value : params.budget ≡ worth us

  add_input-IsListing :
      (us : List Unspent) (u : Unspent) (params : InitInputs)
      → IsListing us params
      → worth us + satoshi u.amount < 2 ^ 64
      → IsListing (us ++ (u ∷ [])) (add_input u params)
  add_input-IsListing us u params l small = record {
    points = ap (λ (ps : List OutPoint). ps ++ (point_of u ∷ [])) l.points ∙ points-append us u;
    value = omega (arith, l.value, worth-append us (u ∷ []));
  }

  -- The loop takes outputs from the front until the minimum is reached.
  record IsFilled (n_min : ℕ) (taken us : List Unspent) (result : InitInputs) : Type 0 where
    pub chosen : List Unspent
    pub left : List Unspent
    pub parts : us ≡ chosen ++ left
    pub listing : IsListing (taken ++ chosen) result
    pub reached : (n_min ≤ result.budget) ⊎ (left ≡ [])

  fill_loop-IsFilled :
      (n_min : ℕ) (us taken : List Unspent) (params : InitInputs)
      → IsListing taken params
      → worth taken + worth us < 2 ^ 64
      → IsFilled n_min taken us (fill_loop n_min us params)
  unfolding fill_loop
  fill_loop-IsFilled n_min [] taken params l small = record {
    chosen = [];
    left = [];
    parts = refl;
    listing = rw (append-nil taken) l;
    reached = inr refl;
  }
  fill_loop-IsFilled n_min (u ∷ us) taken params l small =
      elim (Bool-cases (leb n_min params.budget)) [
        | inl e ↦ record {
          chosen = [];
          left = u ∷ us;
          parts = refl;
          listing = rw (e, append-nil taken) l;
          reached = inl (rw e (leb→le n_min params.budget e));
        }
        | inr e ↦
            let r =
              fill_loop-IsFilled n_min us (taken ++ (u ∷ [])) (add_input u params)
                (add_input-IsListing taken u params l (omega arith))
                (omega (arith, worth-append taken (u ∷ []))) in
            record {
              chosen = u ∷ r.chosen;
              left = r.left;
              parts = ap (λ l. u ∷ l) r.parts;
              listing = rw (e, ← append_assoc taken (u ∷ []) r.chosen) (r.listing);
              reached = rw e (r.reached);
            }
      ]

  abbrev start : InitInputs
  start = record { utxo = []; budget = 0 }

  record IsFound (all : List Unspent) (result : InitInputs × List Unspent) : Type 0 where
    pub taken : List Unspent
    pub listing : IsListing taken result.0
    pub same : Perm (taken ++ result.1) all

  last_loop-IsFound :
      (last_tx : ℕ) (us before : List Unspent)
      → worth us < 2 ^ 64
      → IsFound (before ++ us) (last_loop last_tx us before start)
  unfolding last_loop
  last_loop-IsFound last_tx [] before small = record {
    taken = [];
    listing = record { points = refl; value = refl };
    same = rw (append-nil before) (Perm.refl before);
  }
  last_loop-IsFound last_tx (u ∷ us) before small =
      elim (Bool-cases (u.txid == last_tx && u.n == 0)) [
        | inl e ↦ rw e (record {
          taken = u ∷ [];
          listing =
              add_input-IsListing [] u start (record { points = refl; value = refl }) (omega arith);
          same = Perm.symm (perm_middle before us);
        })
        | inr e ↦
            rw (e, ← append_assoc before (u ∷ []) us)
              (last_loop-IsFound last_tx us (before ++ (u ∷ [])) (omega arith))
      ]

  -- If the balance is not below the minimum, the unspent outputs are worth less than 2^64 together,
  -- and the sorting only permutes them, they fall into chosen ones and others. Each chosen one is
  -- listed once, the budget is what they are worth, and it reaches the minimum unless all outputs
  -- are chosen.
  pub select_inputs-reached :
      (sort : List Unspent → List Unspent)
      → ((us : List Unspent) → Perm (sort us) us)
      → (balance_below : ℕ → Bool) (list_unspent : List Unspent) (last_tx n_min : ℕ)
      → balance_below n_min ≡ false
      → worth list_unspent < 2 ^ 64
      → (params : InitInputs) × ((chosen : List Unspent) × ((others : List Unspent) × (select_inputs
                sort balance_below list_unspent last_tx n_min
              ≡ some params)
            × Perm (chosen ++ others) list_unspent
            × IsListing chosen params
            × ((n_min ≤ params.budget) ⊎ (others ≡ []))))
  unfolding select_inputs
  select_inputs-reached sort sort-perm balance_below list_unspent last_tx n_min rich small =
      let sorted = sort list_unspent in
      let sorted_small = worth-perm (sort-perm list_unspent) in
      let f = last_loop-IsFound last_tx sorted [] (omega arith) in
      let found = last_loop last_tx sorted [] start in
      let all = worth-perm f.same in
      let r =
        fill_loop-IsFilled n_min found.1 f.taken found.0 f.listing
          (omega (arith, worth-append f.taken found.1)) in
      (
        fill_loop n_min found.1 found.0,
        (
          f.taken ++ r.chosen,
          (
            r.left,
            rw rich,
            Perm.trans
                (subst (λ l. Perm l sorted)
                  (ap (λ l. f.taken ++ l) r.parts ∙ sym (append_assoc f.taken r.chosen r.left))
                  f.same)
                (sort-perm list_unspent),
            r.listing,
            r.reached,
          ),
        ),
      )
