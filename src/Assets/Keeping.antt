-- ===== src/Assets/Keeping.antt =====
-- What the calls of src/ace_service/repository.py on asset transfer capabilities keep, by the writes
-- that they are made of.
use audio_ventura.Base.{
  ℕ, ◌≡◌, inl, inr, subst, sym, Bool, true, not, Option, none, some, List, [], ◌∷◌, String, ◌==◌,
  nat_eq, string_eq, leb, is_empty, is_some, Result, modify, lookup, map_rows, find_row,
  find_row-lookup, Keeps, Keeps-pure, Keeps-bind, Keeps-then, Keeps-raise_if, Bool-cases,
  Option-cases, after,
}
use audio_ventura.Errors.{Failure, value_error, key_error}
use audio_ventura.Paths.{normalize_relative_path, normalize_extension, validate_sha256}
use audio_ventura.Assets.Policy.{breaks_fixed, breaks_lossless, path_message}
use audio_ventura.Assets.Capabilities.{
  token_sha256, owned, claimed, is_content, finish_upload, revoke_row, Library, asset_uuid,
  issue_asset_transfer_capability, canonical, checked_sha256, fixed_extension, recorded, located,
  misplaced, get_active_asset_transfer, claim_asset_download, complete_asset_upload,
  revoke_asset_transfers,
}
use audio_ventura.Assets.Rows.{
  AssetTransferCapability, Assets, is_issued, is_consumed, is_upload, lifted, Owner, OtherTables,
  AssetRequest, active_or_expired, owner_count, unknown, bad_expected_size, bad_mime_type,
  chosen_token, capability_of,
}
use audio_ventura.Assets.Calls.{
  AssetCall, Kept, KeptByClaim, claim, complete, issue_asset, look, revoke, run_call, run_calls,
}
use audio_ventura.Assets.Completion.{active_or_expired-cases, complete-cases}

module _ (p : Library) {P : Assets → Type 0} (k : Kept p P) where
  lifted-Keeps : {A : Type 0} (r : Result Failure A) → Keeps P (lifted r)
  lifted-Keeps r = record { kept = λ s q. q }

  pub active-Keeps :
      (now : ℕ) (g : AssetTransferCapability → Bool) (t : Assets)
      → P t
      → P (active_or_expired now (find_row g t) t).1
  active-Keeps now g t q = elim (active_or_expired-cases now (find_row g t) t) [
    | inl w ↦ subst (λ y. P y.1) (sym w) q
    | inr (inl (id, c, e, b, w)) ↦
        subst (λ y. P y.1) (sym w)
          (k.by_expiry id c t (find_row-lookup g t id c (k.keyed t q) e) b q)
    | inr (inr (id, c, e, b, w)) ↦ subst (λ y. P y.1) (sym w) q
  ]

  pub get_active-Keeps :
      (token : String) (now : ℕ) → Keeps P (get_active_asset_transfer p token now)
  unfolding get_active_asset_transfer token_sha256
  get_active-Keeps token now = record {
    kept = λ t q. elim (Bool-cases (is_empty token)) [
      | inl b ↦ rw b q
      | inr b ↦ rw b (active-Keeps now (λ c. c.token_sha256 == p.sha256 token) t q)
    ];
  }

  finish-Keeps :
      (id : String) (c : AssetTransferCapability) (size : ℕ) (hash : String) (now : ℕ) (t : Assets)
      → lookup id t ≡ some c
      → P t
      → P (finish_upload id c size hash now t).1
  unfolding finish_upload
  finish-Keeps id c size hash now t e q = elim (Bool-cases (is_consumed c.status)) [
    | inl u ↦ elim (Bool-cases (is_content c size hash)) [
      | inl i ↦ rw (u, i) q
      | inr i ↦ rw (u, i) q
    ]
    | inr u ↦ elim (Bool-cases (is_issued c.status)) [
      | inr b ↦ rw (u, b) q
      | inl b ↦ elim (Bool-cases (leb c.expires_at now)) [
        | inl l ↦ rw (u, b, l) (k.by_expiry id c t e b q)
        | inr l ↦ rw (u, b, l) (k.by_completion id c size hash now t e b q)
      ]
    ]
  ]

  pub complete-Keeps :
      (id : String) (size : ℕ) (sha256 : String) (now : ℕ)
      → Keeps P (complete_asset_upload p id size sha256 now)
  complete-Keeps id size sha256 now = record {
    kept = λ t q. elim (complete-cases p size sha256 now id t) [
      | inl (x, w) ↦ subst (λ y. P y.1) (sym w) q
      | inr (key, c, hash, u, e, h, d, w) ↦
          subst (λ y. P y.1) (sym w) (finish-Keeps key c size hash now t e q)
    ];
  }

  asset_uuid-Keeps : (id : String) → Keeps P (asset_uuid p id)
  unfolding asset_uuid
  asset_uuid-Keeps id = record {
    kept = λ t q. elim (Option-cases (p.uuid id)) [ inl e ↦ rw e q | inr (c, e) ↦ rw e q ];
  }

  canonical-Keeps : (o : Option String) → Keeps P (canonical p o)
  unfolding canonical
  canonical-Keeps none = Keeps-pure none
  canonical-Keeps (some id) = Keeps-bind (asset_uuid-Keeps id) (λ uuid. Keeps-pure (some uuid))

  checked-Keeps : (o : Option String) → Keeps P (checked_sha256 p o)
  unfolding checked_sha256
  checked-Keeps none = Keeps-pure none
  checked-Keeps (some hash) =
      Keeps-bind (lifted-Keeps (validate_sha256 p.lower hash)) (λ h. Keeps-pure (some h))

  token_sha256-Keeps : (token : String) → Keeps P (token_sha256 p token)
  unfolding token_sha256
  token_sha256-Keeps token =
      Keeps-then (Keeps-raise_if (is_empty token) (value_error "transfer token must not be empty"))
        (Keeps-pure (p.sha256 token))

  revoking-Keeps :
      (test : AssetTransferCapability → Bool) (now : ℕ)
      → Keeps {E = Failure} P (modify (map_rows (revoke_row test now)))
  revoking-Keeps test now = record { kept = λ t q. k.by_revocation test now t q }

  pub revoke-Keeps : (owner : Owner) (now : ℕ) → Keeps P (revoke_asset_transfers p owner now)
  unfolding revoke_asset_transfers
  revoke-Keeps owner now =
      Keeps-then
        (Keeps-raise_if (not (owner_count owner == 1))
          (value_error "one asset transfer owner is required"))
        (Keeps-bind (canonical-Keeps owner.source_asset_id)
          (λ source. revoking-Keeps (owned owner source) now))

  -- What an issue does once its arguments have passed.
  recorded-Keeps :
      (r : AssetRequest) (path extension : String) (source hash : Option String)
      → Keeps P (recorded p r path extension source hash)
  unfolding recorded
  recorded-Keeps r path extension source hash = Keeps-bind (asset_uuid-Keeps r.capability_id) (λ id.
      Keeps-bind (token_sha256-Keeps (chosen_token r)) (λ token.
        Keeps-then (k.by_adding id (capability_of r token path extension source hash))
          (Keeps-pure (chosen_token r))))

  located-Keeps :
      (tables : OtherTables) (r : AssetRequest) (extension : String) (hash : Option String)
      → Keeps P (located p tables r extension hash)
  unfolding located
  located-Keeps tables r extension hash =
      Keeps-bind (canonical-Keeps r.owner.source_asset_id) (λ source.
        Keeps-then (Keeps-raise_if (unknown source tables.has_source_asset) key_error) (
          Keeps-then (Keeps-raise_if (unknown r.owner.job_id tables.has_job) key_error) (
            Keeps-then
              (Keeps-raise_if
                (unknown r.owner.derivative_task_id (λ id. is_some (tables.derivative_task id)))
                key_error)
              (Keeps-bind (lifted-Keeps (normalize_relative_path r.expected_relative_path)) (λ path.
                Keeps-then
                  (Keeps-raise_if (misplaced tables r source path)
                    (value_error (path_message r.purpose)))
                  (recorded-Keeps r path extension source hash))))))

  pub issue-Keeps :
      (tables : OtherTables) (r : AssetRequest)
      → Keeps P (issue_asset_transfer_capability p tables r)
  unfolding issue_asset_transfer_capability
  issue-Keeps tables r =
      Keeps-bind (lifted-Keeps (normalize_extension p.strip p.lower r.expected_extension))
        (λ extension.
          Keeps-then
            (Keeps-raise_if (breaks_fixed (fixed_extension r) extension)
              (value_error "asset transfer extension does not match its purpose"))
            (Keeps-then
              (Keeps-raise_if (breaks_lossless (fixed_extension r) extension)
                (value_error "derivative source must be FLAC or WAV"))
              (Keeps-then
                (Keeps-raise_if (not (owner_count r.owner == 1))
                  (value_error "asset transfer must have exactly one owner"))
                (Keeps-then
                  (Keeps-raise_if (r.max_bytes == 0)
                    (value_error "asset transfer maximum must be positive"))
                  (Keeps-then
                    (Keeps-raise_if (bad_expected_size r.max_bytes r.expected_byte_size)
                      (value_error "expected asset size is invalid"))
                    (Keeps-bind (checked-Keeps r.expected_sha256) (λ hash.
                      Keeps-then
                        (Keeps-raise_if (bad_mime_type r.expected_mime_type)
                          (value_error "asset MIME type is invalid"))
                        (located-Keeps tables r extension hash))))))))

  module _ (claims : KeptByClaim p P) where
    claimed-Keeps :
        (max_opens : ℕ) (id : String) (c : AssetTransferCapability) (t : Assets)
        → lookup id t ≡ some c
        → is_issued c.status ≡ true
        → P t
        → P (claimed max_opens (some (id, c)) t).1
    unfolding claimed
    claimed-Keeps max_opens id c t e b q = elim (Bool-cases (is_upload c.direction)) [
      | inl u ↦ rw u q
      | inr u ↦ elim (Bool-cases (leb max_opens c.access_count)) [
        | inl l ↦ rw (u, l) (k.by_expiry id c t e b q)
        | inr l ↦ rw (u, l) (claims.by_claim id c t e b q)
      ]
    ]

    -- A look, and a claim behind it.
    look_and_claim-Keeps :
        (max_opens now : ℕ) (g : AssetTransferCapability → Bool) (t : Assets)
        → P t
        → P (after (claimed max_opens) (active_or_expired now (find_row g t) t)).1
    unfolding claimed
    look_and_claim-Keeps max_opens now g t q = elim (active_or_expired-cases now (find_row g t) t) [
      | inl w ↦ subst (λ y. P (after (claimed max_opens) y).1) (sym w) q
      | inr (inl (id, c, e, b, w)) ↦
          subst (λ y. P (after (claimed max_opens) y).1) (sym w)
            (k.by_expiry id c t (find_row-lookup g t id c (k.keyed t q) e) b q)
      | inr (inr (id, c, e, b, w)) ↦
          subst (λ y. P (after (claimed max_opens) y).1) (sym w)
            (claimed-Keeps max_opens id c t (find_row-lookup g t id c (k.keyed t q) e) b q)
    ]

    claim-Keeps :
        (token : String) (max_opens now : ℕ) → Keeps P (claim_asset_download p token max_opens now)
    unfolding claim_asset_download get_active_asset_transfer token_sha256
    claim-Keeps token max_opens now = record {
      kept = λ t q. elim (Bool-cases (max_opens == 0)) [
        | inl z ↦ rw z q
        | inr z ↦ elim (Bool-cases (is_empty token)) [
          | inl b ↦ rw (z, b) q
          | inr b ↦
              rw (z, b)
                (look_and_claim-Keeps max_opens now (λ c. c.token_sha256 == p.sha256 token) t q)
        ]
      ];
    }

    run_call-Keeps : (c : AssetCall) (t : Assets) → P t → P (run_call p c t)
    unfolding run_call
    run_call-Keeps (issue_asset tables r) t q = (issue-Keeps tables r).kept t q
    run_call-Keeps (look token now) t q = (get_active-Keeps token now).kept t q
    run_call-Keeps (claim token max_opens now) t q = (claim-Keeps token max_opens now).kept t q
    run_call-Keeps (complete id size hash now) t q = (complete-Keeps id size hash now).kept t q
    run_call-Keeps (revoke owner now) t q = (revoke-Keeps owner now).kept t q

    pub run_calls-Keeps : (cs : List AssetCall) (t : Assets) → P t → P (run_calls p cs t)
    unfolding run_calls
    run_calls-Keeps [] t q = q
    run_calls-Keeps (c ∷ cs) t q = run_calls-Keeps cs (run_call p c t) (run_call-Keeps c t q)
