-- ===== src/Assets/Opens.antt =====
-- How often a download capability of src/ace_service/repository.py is opened.
use audio_ventura.Base.{
  ℕ, ◌+◌, ◌≡◌, ◌≤◌, inl, inr, refl, ap, subst, ◌∙◌, Bool, true, ◌&&◌, some, List, [], ◌∷◌, String,
  ◌==◌, nat_eq, string_eq, leb, is_empty, err, lookup, lookup-map_rows, viewed, unique-map_rows,
  arith, Bool-cases,
}
use audio_ventura.Errors.{value_error}
use audio_ventura.Assets.Capabilities.{
  token_sha256, completed, revoke_row, Library, get_active_asset_transfer, claim_asset_download,
}
use audio_ventura.Assets.Rows.{AssetTransferCapability, Assets}
use audio_ventura.Assets.Calls.{
  AssetCall, issue_asset, look, claim, complete, revoke, run_call, run_calls, Kept,
}
use audio_ventura.Assets.Keeping.{
  get_active-Keeps, complete-Keeps, revoke-Keeps, issue-Keeps, run_calls-Keeps,
}
use audio_ventura.Assets.Uploads.{IsKeyed-Kept, IsKeyed-KeptByClaim, empty-IsKeyed}
use audio_ventura.Assets.Counting.{
  opened_by, count_of, Counted, write-Counted, viewed-revoked, add-Counted, Claimed, not_opened,
  look_and_claim-Claimed,
}

module _ (p : Library) (id : String) where
  unfoldable pub opened : AssetCall → Assets → ℕ
  opened (claim token max_opens now) t =
      opened_by id (claim_asset_download p token max_opens now t).0
  opened _ t = 0

  -- How many calls of the sequence return the capability for a download.
  unfoldable pub opens : List AssetCall → Assets → ℕ
  unfolding opened
  opens [] t = 0
  opens (c ∷ cs) t = opened c t + opens cs (run_call p c t)

-- No claim allows more opens than this.
abbrev pub allows : ℕ → AssetCall → Bool
allows bound (claim token max_opens now) = leb max_opens bound
allows bound _ = true

unfoldable pub all_allow : ℕ → List AssetCall → Bool
all_allow bound [] = true
all_allow bound (c ∷ cs) = allows bound c && all_allow bound cs

module _ (p : Library) (id : String) where
  Counted-Kept : (k : ℕ) → Kept p (Counted id k)
  Counted-Kept k = record {
    keyed = λ t q. q.keys;
    by_expiry = λ j c t e b q. write-Counted id k j _ t (λ d. refl) q;
    by_completion =
        λ j c size hash now t e b q. write-Counted id k j (completed size hash now) t (λ d. refl) q;
    by_revocation = λ test now t q. record {
      shown =
          ap (viewed count_of) (lookup-map_rows (revoke_row test now) id t)
          ∙ (viewed-revoked id test now (lookup id t) ∙ q.shown);
      keys = unique-map_rows (revoke_row test now) t ∙ q.keys;
    };
    by_adding = add-Counted id k;
  }

  claim-Claimed :
      (token : String) (max_opens now k : ℕ) (t : Assets)
      → Counted id k t
      → Claimed id max_opens k (claim_asset_download p token max_opens now t)
  unfolding claim_asset_download get_active_asset_transfer token_sha256
  claim-Claimed token max_opens now k t q = elim (Bool-cases (max_opens == 0)) [
    | inl z ↦ rw z (
        not_opened id max_opens k (err (value_error "asset download open limit is invalid")) t refl
          q)
    | inr z ↦ elim (Bool-cases (is_empty token)) [
      | inl b ↦
          rw (z, b)
            (not_opened id max_opens k (err (value_error "transfer token must not be empty")) t refl
              q)
      | inr b ↦
          rw (z, b)
            (look_and_claim-Claimed id max_opens k now (λ c. c.token_sha256 == p.sha256 token) t q)
    ]
  ]

  -- One call: the count goes up by what it opened, and stays below the bound.
  record Stepped (bound k : ℕ) (c : AssetCall) (t : Assets) : Type 0 where
    counted : Counted id (k + opened p id c t) (run_call p c t)
    room : k + opened p id c t ≤ bound

  unopened :
      (bound k : ℕ) (c : AssetCall) (t : Assets)
      → opened p id c t ≡ 0
      → k ≤ bound
      → Counted id k (run_call p c t)
      → Stepped bound k c t
  unopened bound k c t z h q = record {
    counted = subst (λ n. Counted id n (run_call p c t)) (omega (arith, z)) q;
    room = omega (arith, z, h);
  }

  step :
      (bound k : ℕ) (c : AssetCall) (t : Assets)
      → allows bound c ≡ true
      → k ≤ bound
      → Counted id k t
      → Stepped bound k c t
  unfolding opened run_call
  step bound k (issue_asset tables r) t a h q =
      unopened bound k (issue_asset tables r) t refl h
        ((issue-Keeps p (Counted-Kept k) tables r).kept t q)
  step bound k (look token now) t a h q =
      unopened bound k (look token now) t refl h
        ((get_active-Keeps p (Counted-Kept k) token now).kept t q)
  step bound k (complete j size hash now) t a h q =
      unopened bound k (complete j size hash now) t refl h
        ((complete-Keeps p (Counted-Kept k) j size hash now).kept t q)
  step bound k (revoke owner now) t a h q =
      unopened bound k (revoke owner now) t refl h
        ((revoke-Keeps p (Counted-Kept k) owner now).kept t q)
  step bound k (claim token max_opens now) t a h q =
      let w = claim-Claimed token max_opens now k t q in
      record { counted = w.counted; room = w.room bound (ground (arith, a)) h }

  all_opens :
      (bound k : ℕ) (cs : List AssetCall) (t : Assets)
      → all_allow bound cs ≡ true
      → k ≤ bound
      → Counted id k t
      → k + opens p id cs t ≤ bound
  unfolding opens all_allow
  all_opens bound k [] t a h q = omega (arith, h)
  all_opens bound k (c ∷ cs) t a h q =
      let w = step bound k c t (ground (arith, a)) h q in
      let r =
        all_opens bound (k + opened p id c t) cs (run_call p c t) (ground (arith, a)) w.room
          w.counted in
      omega (arith, r)

  -- In a table that the calls of `AssetCall` made, a capability that has been opened no more often than
  -- the bound is returned for download by the calls that follow at most so often that its count stays
  -- within the bound, if no claim among them allows more opens.
  pub opens_bounded :
      (before : List AssetCall) (row : AssetTransferCapability) (bound : ℕ)
      → lookup id (run_calls p before []) ≡ some row
      → row.access_count ≤ bound
      → (cs : List AssetCall) → all_allow bound cs ≡ true
      → row.access_count + opens p id cs (run_calls p before []) ≤ bound
  opens_bounded before row bound e h cs a =
      all_opens bound row.access_count cs (run_calls p before []) a h (record {
        shown = rw e refl;
        keys = run_calls-Keeps p (IsKeyed-Kept p) (IsKeyed-KeptByClaim p) before [] empty-IsKeyed;
      })
