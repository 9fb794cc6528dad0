-- ===== src/Costs.antt =====
-- The estimates of src/ace_service/costs.py over whole micro-dollars: half-up rounding, the estimate
-- view, and why a submission has no quote. `label` stands for `format_exact_usd_half_up`, whose
-- `Decimal` division and `quantize` come from Python's `decimal`.
use audio_ventura.Base.{
  ℕ, zero, suc, ◌+◌, ◌*◌, ◌/◌, Bool, true, false, not, ◌&&◌, ◌||◌, Option, none, some, List, [],
  ◌∷◌, String, ltb, is_none, if◌then◌else◌, Result, ok, err,
}
use audio_ventura.Errors.{Failure, value_error}
pub mod Rounding
pub mod Quotes
mod Tests

abbrev pub ms_per_hour : ℕ
ms_per_hour = 3600000

abbrev pub fixed_gpu_hourly_rate_micro_usd : ℕ
fixed_gpu_hourly_rate_micro_usd = 500000

abbrev pub no_history_seed_execution_ms : ℕ
no_history_seed_execution_ms = 60000

abbrev pub estimate_history_sample_limit : ℕ
estimate_history_sample_limit = 3

-- `(numerator + denominator // 2) // denominator`
abbrev pub half_up : ℕ → ℕ → ℕ
half_up numerator denominator = (numerator + denominator / 2) / denominator

unfoldable pub round_half_up_compute_cost : ℕ → ℕ → ℕ
round_half_up_compute_cost execution_ms hourly_rate_micro_usd =
    half_up (execution_ms * hourly_rate_micro_usd) ms_per_hour

pub record Sample : Type 0 where
  pub execution_ms : ℕ
  pub cost_micro_usd : ℕ
  pub cost_label : String

-- The fields of the view that are not fixed texts.
pub record CostView : Type 0 where
  pub kind_label : String
  pub variation_count : ℕ
  pub used_seed : Bool
  pub seed_note : Option String
  pub samples : List Sample
  pub sample_count : ℕ
  pub average_micro_usd : Option ℕ
  pub average_label : Option String
  pub per_variation_label : String
  pub request_estimate_micro_usd : ℕ
  pub request_estimate_label : String

unfoldable pub take {ℓ} : {A : Type ℓ} → ℕ → List A → List A
take zero xs = []
take (suc n) [] = []
take (suc n) (x ∷ xs) = x ∷ take n xs

unfoldable pub length {ℓ} : {A : Type ℓ} → List A → ℕ
length [] = 0
length (x ∷ xs) = suc (length xs)

-- The sum of the numerators.
unfoldable pub numerator_sum : List ℕ → ℕ
numerator_sum [] = 0
numerator_sum (ms ∷ xs) = ms * fixed_gpu_hourly_rate_micro_usd + numerator_sum xs

module _ (label : ℕ → ℕ → String) where
  unfoldable pub priced_samples : List ℕ → List Sample
  priced_samples [] = []
  priced_samples (ms ∷ xs) =
      record {
        execution_ms = ms;
        cost_micro_usd = half_up (ms * fixed_gpu_hourly_rate_micro_usd) ms_per_hour;
        cost_label = label (ms * fixed_gpu_hourly_rate_micro_usd) ms_per_hour;
      }
      ∷ priced_samples xs

  -- The view with no history, and the one over the samples that were kept.
  unfoldable pub seeded_view : ℕ → String → CostView
  seeded_view variation_count kind_label =
      let seed = no_history_seed_execution_ms * fixed_gpu_hourly_rate_micro_usd in
      record {
        kind_label = kind_label;
        variation_count = variation_count;
        used_seed = true;
        seed_note = some "no completed history of this kind yet — using a 60-second seed";
        samples = [];
        sample_count = 0;
        average_micro_usd = none;
        average_label = none;
        per_variation_label = label seed ms_per_hour;
        request_estimate_micro_usd = half_up (seed * variation_count) ms_per_hour;
        request_estimate_label = label (seed * variation_count) ms_per_hour;
      }

  unfoldable pub sampled_view : List ℕ → ℕ → String → CostView
  unfolding priced_samples numerator_sum length
  sampled_view samples variation_count kind_label =
      let total = numerator_sum samples in
      let denominator = length samples * ms_per_hour in
      record {
        kind_label = kind_label;
        variation_count = variation_count;
        used_seed = false;
        seed_note = none;
        samples = priced_samples samples;
        sample_count = length samples;
        average_micro_usd = some (half_up total denominator);
        average_label = some (label total denominator);
        per_variation_label = label total denominator;
        request_estimate_micro_usd = half_up (total * variation_count) denominator;
        request_estimate_label = label (total * variation_count) denominator;
      }

  unfoldable pub view_of : List ℕ → ℕ → String → CostView
  unfolding seeded_view sampled_view
  view_of [] variation_count kind_label = seeded_view variation_count kind_label
  view_of (ms ∷ xs) variation_count kind_label = sampled_view (ms ∷ xs) variation_count kind_label

  unfoldable pub build_cost_estimate_view : List ℕ → ℕ → String → Result Failure CostView
  unfolding view_of take
  build_cost_estimate_view execution_ms_samples variation_count kind_label =
      if ltb variation_count 1 || ltb 4 variation_count
      then err (value_error "variation_count must be between 1 and 4")
      else ok (
          view_of (take estimate_history_sample_limit execution_ms_samples) variation_count
            kind_label)
