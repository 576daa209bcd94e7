-- ===== src/Maths/Search.antt =====
-- The two loops of `IntegerToComposition` that correct the guess of a part.
use mathlib.Core.Logic.{inl, inr}
use native.Mathlib.Decide.{dec_lt}
use native.Mathlib.Nat.{zero-add}
use bitcoin_messaging.Base.{
  ℕ, zero, suc, ◌+◌, ◌-◌, ◌^◌, ◌≤◌, ◌<◌, ◌≡◌, refl, ap, ap_at, ◌∙◌, Option, some, arith, leb, ltb,
  Bool-cases, true, false, ltb→lt, not-ltb→le, leb→le, not-leb→lt, le→not-ltb,
}
use bitcoin_messaging.Maths.{u64, sub64, number_compositions, climb, descend}
use bitcoin_messaging.Maths.Choose.{choose, choose_mono_le, choose_self}
use bitcoin_messaging.Maths.Binomial.{number_compositions-choose, number_compositions-wrapped}

-- The ways to write `m` as a sum of `j + 1` parts; and those for `m - 1`, of which 0 - 1 has none.
abbrev pub comps : ℕ → ℕ → ℕ
comps m j = choose (m + j) j

abbrev pub comps_pred : ℕ → ℕ → ℕ
comps_pred zero j = 0
comps_pred (suc m) j = comps m j

-- One part more: the first part is 0, or one can be taken from it.
pub comps_split : (m i : ℕ) → comps m (suc i) ≡ comps m i + comps_pred m (suc i)
comps_split zero i =
    rw (zero-add (suc i), zero-add i) (omega (arith, choose_self i, choose_self (suc i)))
comps_split (suc m) i =
    ap_at (λ (t : ℕ). choose t (suc i)) (suc m + suc i) (suc (m + suc i)) (omega arith)
    ∙ ap_at (λ (t : ℕ). choose t i + choose (m + suc i) (suc i)) (m + suc i) (suc m + i)
        (omega arith)

pub comps-le : (m n j : ℕ) → m ≤ n → comps m j ≤ comps n j
comps-le m n j h =
    let e : m + j + (n - m) ≡ n + j = omega arith in
    omega (arith, choose_mono_le (m + j) (n - m) j, ap (λ (t : ℕ). choose t j) e)

climb-stop :
    (fuel idx n k mu : ℕ)
    → ltb (number_compositions (sub64 (sub64 n mu) 1) k + idx) (number_compositions n k) ≡ true
    → climb (suc fuel) idx n k mu ≡ some mu
unfolding climb
climb-stop fuel idx n k mu e = ground arith

climb-go :
    (fuel idx n k mu : ℕ)
    → ltb (number_compositions (sub64 (sub64 n mu) 1) k + idx) (number_compositions n k) ≡ false
    → climb (suc fuel) idx n k mu ≡ climb fuel idx n k (u64 (mu + 1))
unfolding climb
climb-go fuel idx n k mu e = ground arith

descend-stop :
    (fuel idx n k mu : ℕ)
    → leb (number_compositions n k) (number_compositions (sub64 n mu) k + idx) ≡ true
    → descend (suc fuel) idx n k mu ≡ some mu
unfolding descend
descend-stop fuel idx n k mu e = ground arith

descend-go :
    (fuel idx n k mu : ℕ)
    → leb (number_compositions n k) (number_compositions (sub64 n mu) k + idx) ≡ false
    → descend (suc fuel) idx n k mu ≡ descend fuel idx n k (sub64 mu 1)
unfolding descend
descend-go fuel idx n k mu e = ground arith

module _ (n j idx : ℕ) (j_pos : 0 < j) (n_small : n < 2 ^ 62) (j_small : j < 2 ^ 16) where
  -- The count that the first loop tests: at a part of at most n, and at a "negative" part.
  test_at_by :
      (t m : ℕ)
      → t ≤ n
      → n - t ≡ m
      → number_compositions (sub64 (sub64 n t) 1) (suc j) ≡ comps_pred m j
  test_at_by t zero h e =
      let arg : sub64 (sub64 n t) 1 ≡ 2 ^ 64 - 1 = unfold sub64 in omega arith in
      ap (λ (t : ℕ). number_compositions t (suc j)) arg
      ∙ number_compositions-wrapped j j_pos (omega arith)
  test_at_by t (suc m) h e =
      let arg : sub64 (sub64 n t) 1 ≡ m = unfold sub64 in omega arith in
      ap (λ (t : ℕ). number_compositions t (suc j)) arg
      ∙ number_compositions-choose m j (omega arith)

  pub test_at :
      (t : ℕ) → t ≤ n → number_compositions (sub64 (sub64 n t) 1) (suc j) ≡ comps_pred (n - t) j
  test_at t h = test_at_by t (n - t) h refl

  pub test_negative :
      (mu d : ℕ)
      → mu + d ≡ 2 ^ 64
      → 0 < d
      → n + d + j < 2 ^ 64
      → comps n j ≤ number_compositions (sub64 (sub64 n mu) 1) (suc j)
  test_negative mu d e pos fits =
      let arg : sub64 (sub64 n mu) 1 ≡ n + d - 1 = unfold sub64 in omega arith in
      omega (
        arith,
        ap (λ (t : ℕ). number_compositions t (suc j)) arg,
        number_compositions-choose (n + d - 1) j (omega arith),
        comps-le n (n + d - 1) j (omega arith),
      )

  pub all_at : number_compositions n (suc j) ≡ comps n j
  all_at = number_compositions-choose n j (omega arith)

  pub rest_at : (t : ℕ) → t ≤ n → number_compositions (sub64 n t) (suc j) ≡ comps (n - t) j
  rest_at t h =
      let arg : sub64 n t ≡ n - t = unfold sub64 in omega arith in
      ap (λ (t : ℕ). number_compositions t (suc j)) arg
      ∙ number_compositions-choose (n - t) j (omega arith)

  -- Where the first loop stops.
  pub record IsClimbed (result : Option ℕ) : Type 0 where
    pub part : ℕ
    pub returns : result ≡ some part
    pub fits : part ≤ n
    pub stops : comps_pred (n - part) j + idx < comps n j

  climb_room :
      (t : ℕ)
      → idx < comps n j
      → t ≤ n
      → number_compositions n (suc j) ≤ number_compositions (sub64 (sub64 n t) 1) (suc j) + idx
      → t < n
  climb_room t h fits le = elim (dec_lt t n) [
    | yes lt ↦ lt
    | no ge ↦ absurd (
        omega (
          arith,
          test_at t fits,
          all_at,
          ap_at (λ (m : ℕ). comps_pred m j) (n - t) 0 (omega arith),
        ))
  ]

  pub climb_up :
      (fuel t : ℕ) → idx < comps n j → t ≤ n → n - t < fuel → IsClimbed (climb fuel idx n (suc j) t)
  climb_up zero t h fits enough = absurd (omega arith)
  climb_up (suc fuel) t h fits enough =
      elim (Bool-cases (
        ltb (number_compositions (sub64 (sub64 n t) 1) (suc j) + idx)
          (number_compositions n (suc j)))) [
            | inl e ↦ record {
              part = t;
              returns = climb-stop fuel idx n (suc j) t e;
              fits = fits;
              stops = omega (arith, ltb→lt _ _ e, test_at t fits, all_at);
            }
            | inr e ↦
                let later : t < n = climb_room t h fits (not-ltb→le _ _ e) in
                let rest = climb_up fuel (t + 1) h (omega arith) (omega arith) in
                record {
                  part = rest.part;
                  returns =
                      climb-go fuel idx n (suc j) t e
                      ∙ ap_at (climb fuel idx n (suc j)) (u64 (t + 1)) (t + 1) (omega arith)
                      ∙ rest.returns;
                  fits = rest.fits;
                  stops = rest.stops;
                }
          ]

  pub climb_negative :
      (fuel mu d : ℕ)
      → idx < comps n j
      → mu + d ≡ 2 ^ 64
      → 0 < d
      → n + d + j < 2 ^ 64
      → n + d < fuel
      → IsClimbed (climb fuel idx n (suc j) mu)
  climb_negative zero mu d h e pos fits enough = absurd (omega arith)
  climb_negative (suc fuel) mu d h e pos fits enough =
      let stays : ltb (number_compositions (sub64 (sub64 n mu) 1) (suc j) + idx)
            (number_compositions n (suc j))
          ≡ false =
        le→not-ltb _ _ (omega (arith, test_negative mu d e pos fits, all_at)) in
      let go = climb-go fuel idx n (suc j) mu stays in
      elim (dec_lt 1 d) [
        | yes more ↦
            let rest =
              climb_negative fuel (mu + 1) (d - 1) h (omega arith) (omega arith) (omega arith)
                (omega arith) in
            record {
              part = rest.part;
              returns =
                  go
                  ∙ ap_at (climb fuel idx n (suc j)) (u64 (mu + 1)) (mu + 1) (omega arith)
                  ∙ rest.returns;
              fits = rest.fits;
              stops = rest.stops;
            }
        | no last ↦
            let rest = climb_up fuel 0 h (omega arith) (omega arith) in
            record {
              part = rest.part;
              returns =
                  go
                  ∙ ap_at (climb fuel idx n (suc j)) (u64 (mu + 1)) 0 (omega arith)
                  ∙ rest.returns;
              fits = rest.fits;
              stops = rest.stops;
            }
      ]

  -- Where the second loop stops: `part` is the one part that fits both tests.
  pub record IsFound (result : Option ℕ) : Type 0 where
    pub part : ℕ
    pub returns : result ≡ some part
    pub fits : part ≤ n
    pub below : comps_pred (n - part) j + idx < comps n j
    pub reaches : comps n j ≤ comps (n - part) j + idx

  descend_room : (t : ℕ) → comps (n - t) j + idx < comps n j → 0 < t
  descend_room zero h = absurd (omega (arith, ap_at (λ (m : ℕ). comps m j) (n - 0) n (omega arith)))
  descend_room (suc t) h = omega arith

  pub descend_from :
      (fuel t : ℕ)
      → t ≤ n
      → comps_pred (n - t) j + idx < comps n j
      → t < fuel
      → IsFound (descend fuel idx n (suc j) t)
  descend_from zero t fits h enough = absurd (omega arith)
  descend_from (suc fuel) t fits h enough =
      elim (Bool-cases
        (leb (number_compositions n (suc j)) (number_compositions (sub64 n t) (suc j) + idx))) [
          | inl e ↦ record {
            part = t;
            returns = descend-stop fuel idx n (suc j) t e;
            fits = fits;
            below = h;
            reaches = omega (arith, leb→le _ _ e, rest_at t fits, all_at);
          }
          | inr e ↦
              let short : comps (n - t) j + idx < comps n j =
                omega (arith, not-leb→lt _ _ e, rest_at t fits, all_at) in
              let pos : 0 < t = descend_room t short in
              let pred_is : comps_pred (n - (t - 1)) j ≡ comps (n - t) j =
                ap_at (λ (m : ℕ). comps_pred m j) (n - (t - 1)) (suc (n - t)) (omega arith) in
              let rest =
                descend_from fuel (t - 1) (omega arith) (omega (arith, pred_is)) (omega arith) in
              record {
                part = rest.part;
                returns =
                    descend-go fuel idx n (suc j) t e
                    ∙ ap_at (descend fuel idx n (suc j)) (sub64 t 1) (t - 1)
                        (unfold sub64 in omega arith)
                    ∙ rest.returns;
                fits = rest.fits;
                below = rest.below;
                reaches = rest.reaches;
              }
        ]
