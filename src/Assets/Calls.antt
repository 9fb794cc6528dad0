-- ===== src/Assets/Calls.antt =====
-- Sequences of the calls of src/ace_service/repository.py on asset transfer capabilities, and the
-- writes that they are made of.
use audio_ventura.Base.{
  ℕ, ◌+◌, ◌≡◌, Bool, true, some, List, [], ◌∷◌, String, nat_eq, string_eq, lookup, update, map_rows,
  unique, Keeps,
}
use audio_ventura.Assets.Policy.{expired}
use audio_ventura.Assets.Capabilities.{
  completed, revoke_row, Library, issue_asset_transfer_capability, get_active_asset_transfer,
  claim_asset_download, complete_asset_upload, revoke_asset_transfers,
}
use audio_ventura.Assets.Rows.{
  AssetTransferCapability, Assets, is_issued, Owner, OtherTables, AssetRequest, add_capability,
}

pub data AssetCall : Type 0 where
  issue_asset : OtherTables → AssetRequest → AssetCall
  look : String → ℕ → AssetCall
  claim : String → ℕ → ℕ → AssetCall
  complete : String → ℕ → String → ℕ → AssetCall
  revoke : Owner → ℕ → AssetCall

module _ (p : Library) where
  unfoldable pub run_call : AssetCall → Assets → Assets
  run_call (issue_asset tables r) t = (issue_asset_transfer_capability p tables r t).1
  run_call (look token now) t = (get_active_asset_transfer p token now t).1
  run_call (claim token max_opens now) t = (claim_asset_download p token max_opens now t).1
  run_call (complete id size hash now) t = (complete_asset_upload p id size hash now t).1
  run_call (revoke owner now) t = (revoke_asset_transfers p owner now t).1

  unfoldable pub run_calls : List AssetCall → Assets → Assets
  run_calls [] t = t
  run_calls (c ∷ cs) t = run_calls cs (run_call c t)

  -- What a predicate of the table must survive beside claims: the writes of a row that is issued, the
  -- revocation of the issued rows of an owner, and a new row.
  pub record Kept (P : Assets → Type 0) : Type 0 where
    pub keyed : (t : Assets) → P t → unique t ≡ true
    pub by_expiry :
        (id : String) (c : AssetTransferCapability) (t : Assets)
        → lookup id t ≡ some c
        → is_issued c.status ≡ true
        → P t
        → P (update id (λ c. record c { status = expired }) t)
    pub by_completion :
        (id : String) (c : AssetTransferCapability) (size : ℕ) (hash : String) (now : ℕ)
        (t : Assets)
        → lookup id t ≡ some c
        → is_issued c.status ≡ true
        → P t
        → P (update id (completed size hash now) t)
    pub by_revocation :
        (test : AssetTransferCapability → Bool) (now : ℕ) (t : Assets)
        → P t
        → P (map_rows (revoke_row test now) t)
    pub by_adding : (id : String) (c : AssetTransferCapability) → Keeps P (add_capability id c)

  -- And the write of a claim.
  pub record KeptByClaim (P : Assets → Type 0) : Type 0 where
    pub by_claim :
        (id : String) (c : AssetTransferCapability) (t : Assets)
        → lookup id t ≡ some c
        → is_issued c.status ≡ true
        → P t
        → P (update id (λ d. record d { access_count = c.access_count + 1 }) t)
