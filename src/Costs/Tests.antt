-- ===== src/Costs/Tests.antt =====
-- Runs of the estimates of src/ace_service/costs.py.
use audio_ventura.Base.{ℕ, ◌*◌, ◌≡◌, refl, some, [], ◌∷◌, String, ok, err, arith}
use audio_ventura.Errors.{value_error}
use audio_ventura.Costs.{CostView, round_half_up_compute_cost, build_cost_estimate_view}
use audio_ventura.Costs.Rounding.{
  IsHalfUp, exact_numerator, exact_denominator, request_estimate-IsHalfUp,
}
use audio_ventura.Costs.Quotes.{unavailable_reason, is_in}

abbrev no_label : ℕ → ℕ → String
no_label n d = ""

-- A minute costs 8,333.33 micro-dollars.
minute : round_half_up_compute_cost 60000 500000 ≡ 8333
unfolding round_half_up_compute_cost
minute = refl

too_many :
    build_cost_estimate_view no_label [] 5 "song"
    ≡ err (value_error "variation_count must be between 1 and 4")
unfolding build_cost_estimate_view
too_many = refl

stale_rate :
    unavailable_reason ("a" ∷ "b" ∷ []) ("a" ∷ []) ("b" ∷ []) (some 1) (some (5, 6))
    ≡ some "rate_stale"
unfolding unavailable_reason is_in
stale_rate = refl

request_estimate-IsHalfUp_example :
    (view : CostView) × (build_cost_estimate_view no_label (61000 ∷ 70001 ∷ []) 3 "song" ≡ ok view)
    × IsHalfUp
        (exact_numerator (61000 ∷ 70001 ∷ []) * 3)
        (exact_denominator (61000 ∷ 70001 ∷ []))
        view.request_estimate_micro_usd
request_estimate-IsHalfUp_example =
    request_estimate-IsHalfUp no_label (61000 ∷ 70001 ∷ []) 3 "song" (omega arith) (omega arith)
