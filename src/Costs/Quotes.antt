-- ===== src/Costs/Quotes.antt =====
-- Why `compute_submission_quote` of src/ace_service/costs.py gives no amount.
use audio_ventura.Base.{
  ℕ, ◌≡◌, ◌↔◌, refl, Bool, true, false, not, ◌&&◌, ◌||◌, Option, none, some, List, [], ◌∷◌, String,
  ◌==◌, string_eq, is_none, if◌then◌else◌, arith,
}

-- A list of ids for a set, and for the keys of a mapping.
unfoldable pub is_in : String → List String → Bool
is_in id [] = false
is_in id (x ∷ xs) = x == id || is_in id xs

-- `any(id not in fresh for id in eligible)`, and the ones among those that are stale.
unfoldable pub any_missing : List String → List String → Bool
unfolding is_in
any_missing fresh [] = false
any_missing fresh (id ∷ ids) = not (is_in id fresh) || any_missing fresh ids

unfoldable pub any_stale : List String → List String → List String → Bool
unfolding is_in
any_stale fresh stale [] = false
any_stale fresh stale (id ∷ ids) =
    (not (is_in id fresh) && is_in id stale) || any_stale fresh stale ids

abbrev pub no_ids : List String → Bool
no_ids [] = true
no_ids (id ∷ ids) = false

unfoldable pub unavailable_reason :
    List String → List String → List String → Option ℕ → Option (ℕ × ℕ) → Option String
unfolding any_missing any_stale
unavailable_reason eligible fresh stale calibration_version range =
    if no_ids eligible
    then some "gpu_unknown"
    else if any_missing fresh eligible
    then some (if any_stale fresh stale eligible then "rate_stale" else "rate_unknown")
    else if is_none calibration_version || is_none range
    then some "calibration_missing"
    else none

-- Every one of the ids is fresh.
abbrev pub AllFresh : List String → List String → Type 0
AllFresh fresh [] = Unit
AllFresh fresh (id ∷ ids) = (is_in id fresh ≡ true) × AllFresh fresh ids

-- What a quote needs.
abbrev pub IsQuotable : List String → List String → Option ℕ → Option (ℕ × ℕ) → Type 0
IsQuotable eligible fresh calibration_version range =
    (no_ids eligible ≡ false)
    × AllFresh fresh eligible
    × (is_none calibration_version ≡ false)
    × (is_none range ≡ false)

none_missing : (fresh ids : List String) → any_missing fresh ids ≡ false → AllFresh fresh ids
unfolding any_missing
none_missing fresh [] h = tt
none_missing fresh (id ∷ ids) h = (ground (arith, h), none_missing fresh ids (ground (arith, h)))

missing_none : (fresh ids : List String) → AllFresh fresh ids → any_missing fresh ids ≡ false
unfolding any_missing
missing_none fresh [] h = refl
missing_none fresh (id ∷ ids) (e, h) = rw (e, missing_none fresh ids h) refl

-- A submission has no reason against its quote exactly if some GPU is eligible, every eligible GPU has
-- a fresh rate, and there is a calibration with a predicted range.
pub quote-IsQuotable :
    (eligible fresh stale : List String) (calibration_version : Option ℕ) (range : Option (ℕ × ℕ))
    → (unavailable_reason eligible fresh stale calibration_version range ≡ none)
      ↔ IsQuotable eligible fresh calibration_version range
unfolding unavailable_reason
quote-IsQuotable eligible fresh stale calibration_version range = (
  λ h. (
    ground (arith, h),
    none_missing fresh eligible (ground (arith, h)),
    ground (arith, h),
    ground (arith, h),
  ),
  λ q. let (n, a, c, r) = q in rw (n, missing_none fresh eligible a, c, r) refl,
)
