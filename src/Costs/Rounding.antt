-- ===== src/Costs/Rounding.antt =====
-- Half-up rounding in src/ace_service/costs.py.
use audio_ventura.Base.{
  ℕ, suc, ◌+◌, ◌*◌, ◌≡◌, ◌≤◌, ◌<◌, refl, subst, false, ◌||◌, List, [], ◌∷◌, String, ltb, ok, arith,
}
use audio_ventura.Costs.{
  half_up, round_half_up_compute_cost, CostView, take, numerator_sum, view_of,
  build_cost_estimate_view,
}

-- The whole number next to a fraction, the upper one at a half.
pub record IsHalfUp (numerator denominator r : ℕ) : Type 0 where
  pub low : 2 * (denominator * r) ≤ 2 * numerator + denominator
  pub high : 2 * numerator + denominator < 2 * (denominator * suc r)

-- The estimated cost of an execution is its exact cost rounded to the nearest micro-dollar, a half
-- rounded up.
pub round_half_up_compute_cost-IsHalfUp :
    (execution_ms rate : ℕ)
    → IsHalfUp (execution_ms * rate) 3600000 (round_half_up_compute_cost execution_ms rate)
unfolding round_half_up_compute_cost
round_half_up_compute_cost-IsHalfUp execution_ms rate = record {
  low = omega arith;
  high = omega arith;
}

hour_IsHalfUp : (n : ℕ) → IsHalfUp n 3600000 (half_up n 3600000)
hour_IsHalfUp n = record { low = omega arith; high = omega arith }

two_hours_IsHalfUp : (n : ℕ) → IsHalfUp n 7200000 (half_up n 7200000)
two_hours_IsHalfUp n = record { low = omega arith; high = omega arith }

three_hours_IsHalfUp : (n : ℕ) → IsHalfUp n 10800000 (half_up n 10800000)
three_hours_IsHalfUp n = record { low = omega arith; high = omega arith }

-- The exact cost of one variation as a fraction, written out: the seed of a minute, or the average of
-- the first three samples in milliseconds, at half a dollar an hour.
abbrev pub exact_numerator : List ℕ → ℕ
exact_numerator [] = 60000 * 500000
exact_numerator (a ∷ []) = a * 500000
exact_numerator (a ∷ b ∷ []) = (a + b) * 500000
exact_numerator (a ∷ b ∷ c ∷ xs) = (a + b + c) * 500000

abbrev pub exact_denominator : List ℕ → ℕ
exact_denominator [] = 3600000
exact_denominator (a ∷ []) = 3600000
exact_denominator (a ∷ b ∷ []) = 2 * 3600000
exact_denominator (a ∷ b ∷ c ∷ xs) = 3 * 3600000

sum_one : (a : ℕ) → numerator_sum (a ∷ []) ≡ a * 500000
unfolding numerator_sum
sum_one a = omega arith

sum_two : (a b : ℕ) → numerator_sum (a ∷ b ∷ []) ≡ (a + b) * 500000
unfolding numerator_sum
sum_two a b = omega arith

sum_three : (a b c : ℕ) → numerator_sum (a ∷ b ∷ c ∷ []) ≡ (a + b + c) * 500000
unfolding numerator_sum
sum_three a b c = omega arith

in_range : (n : ℕ) → 1 ≤ n → n ≤ 4 → (ltb n 1 || ltb 4 n) ≡ false
in_range n h k = ground (arith, h, k)

module _ (label : ℕ → ℕ → String) where
  accepted :
      (samples : List ℕ) (n : ℕ) (kind : String)
      → 1 ≤ n
      → n ≤ 4
      → build_cost_estimate_view label samples n kind ≡ ok (view_of label (take 3 samples) n kind)
  unfolding build_cost_estimate_view
  accepted samples n kind h k = rw (in_range n h k) refl

  view_of-IsHalfUp :
      (samples : List ℕ) (n : ℕ) (kind : String)
      → IsHalfUp
          (exact_numerator samples * n)
          (exact_denominator samples)
          (view_of label (take 3 samples) n kind).request_estimate_micro_usd
  unfolding view_of take
  view_of-IsHalfUp [] n kind = hour_IsHalfUp (60000 * 500000 * n)
  view_of-IsHalfUp (a ∷ []) n kind =
      subst (λ m. IsHalfUp (m * n) 3600000 (half_up (numerator_sum (a ∷ []) * n) 3600000))
        (sum_one a) (hour_IsHalfUp (numerator_sum (a ∷ []) * n))
  view_of-IsHalfUp (a ∷ b ∷ []) n kind =
      subst (λ m. IsHalfUp (m * n) 7200000 (half_up (numerator_sum (a ∷ b ∷ []) * n) 7200000))
        (sum_two a b) (two_hours_IsHalfUp (numerator_sum (a ∷ b ∷ []) * n))
  view_of-IsHalfUp (a ∷ b ∷ c ∷ xs) n kind =
      subst (λ m. IsHalfUp (m * n) 10800000 (half_up (numerator_sum (a ∷ b ∷ c ∷ []) * n) 10800000))
        (sum_three a b c) (three_hours_IsHalfUp (numerator_sum (a ∷ b ∷ c ∷ []) * n))

  -- For one to four variations there is a view, and its request estimate is the exact cost at half a
  -- dollar an hour, rounded once, half up, to micro-dollars: the average time of the first three
  -- samples, of all where there are fewer, or a minute where there is none, times the number of
  -- variations.
  pub request_estimate-IsHalfUp :
      (samples : List ℕ) (n : ℕ) (kind : String)
      → 1 ≤ n
      → n ≤ 4
      → (view : CostView) × (build_cost_estimate_view label samples n kind ≡ ok view)
        × IsHalfUp
            (exact_numerator samples * n)
            (exact_denominator samples)
            view.request_estimate_micro_usd
  request_estimate-IsHalfUp samples n kind h k = (
    view_of label (take 3 samples) n kind,
    accepted samples n kind h k,
    view_of-IsHalfUp samples n kind,
  )
