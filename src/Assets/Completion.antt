-- ===== src/Assets/Completion.antt =====
-- How a look at an asset transfer capability and a completion of an upload in
-- src/ace_service/repository.py end.
use audio_ventura.Base.{
  ℕ, ◌≡◌, ◌⊎◌, inl, inr, refl, ap, ◌∙◌, true, Option, none, some, String, nat_eq, string_eq, leb,
  ok, err, ◌>>=◌, ◌>>◌, lookup, update, Bool-cases, Option-cases, Result-cases, after,
}
use audio_ventura.Errors.{Failure, value_error, key_error}
use audio_ventura.Paths.{validate_sha256}
use audio_ventura.Assets.Policy.{expired}
use audio_ventura.Assets.Capabilities.{
  check_content, finish_upload, require_asset, Library, asset_uuid, complete_asset_upload,
}
use audio_ventura.Assets.Rows.{
  AssetTransferCapability, Assets, Call, Entry, is_issued, lifted, active_or_expired,
}

-- How a look ends, behind the search for its hash.
pub active_or_expired-cases :
    (now : ℕ) (o : Option Entry) (t : Assets)
    → (active_or_expired now o t ≡ (ok none, t))
      ⊎ (((id : String) × (c : AssetTransferCapability) × (o ≡ some (id, c))
            × (is_issued c.status ≡ true)
            × (active_or_expired now o t
                ≡ (ok none, update id (λ c. record c { status = expired }) t)))
          ⊎ ((id : String) × (c : AssetTransferCapability) × (o ≡ some (id, c))
              × (is_issued c.status ≡ true)
              × (active_or_expired now o t ≡ (ok (some (id, c)), t))))
unfolding active_or_expired
active_or_expired-cases now none t = inl refl
active_or_expired-cases now (some (id, c)) t = elim (Bool-cases (is_issued c.status)) [
  | inr b ↦ inl (rw b refl)
  | inl b ↦ elim (Bool-cases (leb c.expires_at now)) [
    | inl l ↦ inr (inl (id, c, refl, b, rw (b, l) refl))
    | inr l ↦ inr (inr (id, c, refl, b, rw (b, l) refl))
  ]
]

-- How a completion ends: it raises with no write, or comes to `finish_upload` with all checks passed.
abbrev pub Finishes : Library → String → ℕ → String → ℕ → Assets → Type 0
Finishes p id size sha256 now t =
    (key : String) × (c : AssetTransferCapability) × (hash : String) × (p.uuid id ≡ some key)
    × (lookup key t ≡ some c)
    × (validate_sha256 p.lower sha256 ≡ ok hash)
    × (check_content c size hash ≡ ok tt)
    × (complete_asset_upload p id size sha256 now t ≡ finish_upload key c size hash now t)

asset_uuid-none :
    (p : Library) (id : String) (t : Assets)
    → p.uuid id ≡ none
    → asset_uuid p id t ≡ (err (value_error "asset identity must be a UUID"), t)
unfolding asset_uuid
asset_uuid-none p id t e = rw e refl

asset_uuid-some :
    (p : Library) (id : String) (t : Assets) (key : String)
    → p.uuid id ≡ some key
    → asset_uuid p id t ≡ (ok key, t)
unfolding asset_uuid
asset_uuid-some p id t key e = rw e refl

require_asset-none :
    (key : String) (t : Assets) → lookup key t ≡ none → require_asset key t ≡ (err key_error, t)
unfolding require_asset
require_asset-none key t e = rw e refl

require_asset-some :
    (key : String) (t : Assets) (c : AssetTransferCapability)
    → lookup key t ≡ some c
    → require_asset key t ≡ (ok c, t)
unfolding require_asset
require_asset-some key t c e = rw e refl

module _ (p : Library) (size : ℕ) (sha256 : String) (now : ℕ) where
  -- A completion behind its hash, its row and its id.
  abbrev behind_hash : String → AssetTransferCapability → String → Call AssetTransferCapability
  behind_hash key c hash = lifted (check_content c size hash) >> finish_upload key c size hash now

  abbrev behind_row : String → AssetTransferCapability → Call AssetTransferCapability
  behind_row key c = lifted (validate_sha256 p.lower sha256) >>= behind_hash key c

  abbrev behind_id : String → Call AssetTransferCapability
  behind_id key = require_asset key >>= behind_row key

  row-cases :
      (key : String) (c : AssetTransferCapability) (t : Assets)
      → ((x : Failure) × (behind_row key c t ≡ (err x, t)))
        ⊎ ((hash : String) × (validate_sha256 p.lower sha256 ≡ ok hash)
            × (check_content c size hash ≡ ok tt)
            × (behind_row key c t ≡ finish_upload key c size hash now t))
  row-cases key c t = elim (Result-cases (validate_sha256 p.lower sha256)) [
    | inr (x, h) ↦ inl (x, rw h refl)
    | inl (hash, h) ↦ elim (Result-cases (check_content c size hash)) [
      | inr (x, d) ↦ inl (x, rw (h, d) refl)
      | inl (_, d) ↦ inr (hash, h, d, rw (h, d) refl)
    ]
  ]

  -- With its id and its row.
  pub complete-row :
      (id : String) (t : Assets) (key : String) (c : AssetTransferCapability)
      → p.uuid id ≡ some key
      → lookup key t ≡ some c
      → complete_asset_upload p id size sha256 now t ≡ behind_row key c t
  unfolding complete_asset_upload
  complete-row id t key c u e =
      ap (after behind_id) (asset_uuid-some p id t key u)
      ∙ ap (after (behind_row key)) (require_asset-some key t c e)

  pub complete-passing :
      (id : String) (t : Assets) (key : String) (c : AssetTransferCapability) (hash : String)
      → p.uuid id ≡ some key
      → lookup key t ≡ some c
      → validate_sha256 p.lower sha256 ≡ ok hash
      → check_content c size hash ≡ ok tt
      → complete_asset_upload p id size sha256 now t ≡ finish_upload key c size hash now t
  complete-passing id t key c hash u e h d = complete-row id t key c u e ∙ rw (h, d) refl

  pub complete-cases :
      (id : String) (t : Assets)
      → ((x : Failure) × (complete_asset_upload p id size sha256 now t ≡ (err x, t)))
        ⊎ Finishes p id size sha256 now t
  unfolding complete_asset_upload
  complete-cases id t = elim (Option-cases (p.uuid id)) [
    | inl n ↦ inl (
      value_error "asset identity must be a UUID",
      ap (after behind_id) (asset_uuid-none p id t n),
    )
    | inr (key, u) ↦ elim (Option-cases (lookup key t)) [
      | inl n ↦ inl (
        key_error,
        ap (after behind_id) (asset_uuid-some p id t key u)
            ∙ ap (after (behind_row key)) (require_asset-none key t n),
      )
      | inr (c, e) ↦
          let v = complete-row id t key c u e in
          elim (row-cases key c t) [
            | inl (x, r) ↦ inl (x, v ∙ r)
            | inr (hash, h, d, r) ↦ inr (key, c, hash, u, e, h, d, v ∙ r)
          ]
    ]
  ]
