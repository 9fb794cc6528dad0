-- ===== src/Assets/Recorded.antt =====
-- What the completion of an upload in src/ace_service/repository.py leaves, now and later.
use audio_ventura.Base.{
  ℕ, ◌≡◌, ◌⊎◌, inl, inr, refl, ap, subst, sym, true, some, List, [], ◌∷◌, String, nat_eq, string_eq,
  option_eq, leb, if◌then◌else◌, ok, err, lookup, update, lookup-update_self, arith, Bool-cases,
  raised, returned,
}
use audio_ventura.Errors.{Failure, value_error}
use audio_ventura.Paths.{validate_sha256}
use audio_ventura.Assets.Capabilities.{
  check_content, is_content, completed, finish_upload, Library, complete_asset_upload,
}
use audio_ventura.Assets.Rows.{AssetTransferCapability, Assets, is_issued, is_consumed}
use audio_ventura.Assets.Calls.{AssetCall, complete, run_call, run_calls}
use audio_ventura.Assets.Completion.{complete-cases}
use audio_ventura.Assets.Keeping.{run_calls-Keeps}
use audio_ventura.Assets.Uploads.{
  Frozen-Kept, Frozen-KeptByClaim, IsKeyed, IsKeyed-Kept, IsKeyed-KeptByClaim,
}

is_content-completed :
    (size : ℕ) (hash : String) (now : ℕ) (c : AssetTransferCapability)
    → is_content (completed size hash now c) size hash ≡ true
is_content-completed size hash now c =
    ground (arith, (nat_eq.same_iff size size).1 refl, (string_eq.same_iff hash hash).1 refl)

-- What the completion of an upload leaves: a consumed row that holds the content.
pub record IsCompleted (key : String) (c : AssetTransferCapability) (size : ℕ) (hash : String)
    (t : Assets) : Type 0 where
  pub found : lookup key t ≡ some c
  pub done : is_consumed c.status ≡ true
  pub content : is_content c size hash ≡ true
  pub fits : check_content c size hash ≡ ok tt

finish-cases :
    (key : String) (c : AssetTransferCapability) (size : ℕ) (hash : String) (now : ℕ) (t : Assets)
    → ((x : Failure) × ((finish_upload key c size hash now t).0 ≡ err x))
      ⊎ (((is_consumed c.status ≡ true)
            × (is_content c size hash ≡ true)
            × (finish_upload key c size hash now t ≡ (ok c, t)))
          ⊎ (finish_upload key c size hash now t
              ≡ (ok (completed size hash now c), update key (completed size hash now) t)))
unfolding finish_upload
finish-cases key c size hash now t = elim (Bool-cases (is_consumed c.status)) [
  | inl u ↦ elim (Bool-cases (is_content c size hash)) [
    | inl i ↦ inr (inl (u, i, rw (u, i) refl))
    | inr i ↦
        inl (value_error "asset upload retry conflicts with the consumed content", rw (u, i) refl)
  ]
  | inr u ↦ elim (Bool-cases (is_issued c.status)) [
    | inr b ↦ inl (value_error "asset transfer capability is not issued", rw (u, b) refl)
    | inl b ↦ elim (Bool-cases (leb c.expires_at now)) [
      | inl l ↦ inl (value_error "asset transfer capability has expired", rw (u, b, l) refl)
      | inr l ↦ inr (inr (rw (u, b, l) refl))
    ]
  ]
]

finish-IsCompleted :
    (key : String) (c : AssetTransferCapability) (size : ℕ) (hash : String) (now : ℕ) (t : Assets)
    (d : AssetTransferCapability)
    → lookup key t ≡ some c
    → check_content c size hash ≡ ok tt
    → (finish_upload key c size hash now t).0 ≡ ok d
    → IsCompleted key d size hash (finish_upload key c size hash now t).1
unfolding check_content
finish-IsCompleted key c size hash now t d e f h = elim (finish-cases key c size hash now t) [
  | inl (x, w) ↦ raised w h
  | inr (inl (u, i, w)) ↦
      subst (λ x. IsCompleted key x size hash (finish_upload key c size hash now t).1)
        (returned (ap (λ y. y.0) w) h)
        (subst (λ y. IsCompleted key c size hash y.1) (sym w)
          (record { found = e; done = u; content = i; fits = f }))
  | inr (inr w) ↦
      subst (λ x. IsCompleted key x size hash (finish_upload key c size hash now t).1)
        (returned (ap (λ y. y.0) w) h)
        (subst (λ y. IsCompleted key (completed size hash now c) size hash y.1) (sym w)
          (record {
            found = lookup-update_self key (completed size hash now) t e;
            done = refl;
            content = is_content-completed size hash now c;
            fits = f;
          }))
]

module _ (p : Library) where
  complete-IsKeyed :
      (id : String) (size : ℕ) (sha256 : String) (now : ℕ) (t : Assets)
      → IsKeyed t
      → IsKeyed (complete_asset_upload p id size sha256 now t).1
  unfolding run_calls run_call
  complete-IsKeyed id size sha256 now t q =
      run_calls-Keeps p (IsKeyed-Kept p) (IsKeyed-KeptByClaim p) (complete id size sha256 now ∷ [])
        t q

  -- What a completion that returned says of its arguments, and of its row.
  abbrev Recorded : String → ℕ → String → AssetTransferCapability → Assets → Type 0
  Recorded id size sha256 c u =
      (key : String) × (hash : String) × (p.uuid id ≡ some key)
      × (validate_sha256 p.lower sha256 ≡ ok hash)
      × IsCompleted key c size hash u

  complete-Recorded :
      (id : String) (size : ℕ) (sha256 : String) (now : ℕ) (t : Assets)
      (c : AssetTransferCapability)
      → (complete_asset_upload p id size sha256 now t).0 ≡ ok c
      → Recorded id size sha256 c (complete_asset_upload p id size sha256 now t).1
  complete-Recorded id size sha256 now t c h = elim (complete-cases p size sha256 now id t) [
    | inl (x, w) ↦ raised (ap (λ y. y.0) w) h
    | inr (key, d, hash, u, e, v, f, w) ↦ (
      key,
      hash,
      u,
      v,
      subst (λ y. IsCompleted key c size hash y.1) (sym w)
          (finish-IsCompleted key d size hash now t c e f (subst (λ y. y.0 ≡ ok c) w h)),
    )
  ]

  -- A completion at a row that is consumed.
  pub finish-done :
      (key : String) (c : AssetTransferCapability) (size : ℕ) (hash : String) (now : ℕ) (t : Assets)
      → is_consumed c.status ≡ true
      → finish_upload key c size hash now t ≡ (
        if is_content c size hash
            then ok c
            else err (value_error "asset upload retry conflicts with the consumed content"),
        t,
      )
  unfolding finish_upload
  finish-done key c size hash now t u = elim (Bool-cases (is_content c size hash)) [
    | inl i ↦ rw (u, i) refl
    | inr i ↦ rw (u, i) refl
  ]

  pub later_row :
      (id : String) (size : ℕ) (sha256 : String) (now : ℕ) (t : Assets)
      (c : AssetTransferCapability)
      → IsKeyed t
      → (complete_asset_upload p id size sha256 now t).0 ≡ ok c
      → (cs : List AssetCall)
      → (key : String) × (hash : String) × (p.uuid id ≡ some key)
        × (validate_sha256 p.lower sha256 ≡ ok hash)
        × IsCompleted key c size hash
            (run_calls p cs (complete_asset_upload p id size sha256 now t).1)
  later_row id size sha256 now t c k h cs =
      let (key, hash, u, v, q) = complete-Recorded id size sha256 now t c h in
      (
        key,
        hash,
        u,
        v,
        record {
          found =
              (run_calls-Keeps p (Frozen-Kept p key c q.done) (Frozen-KeptByClaim p key c q.done) cs
                (complete_asset_upload p id size sha256 now t).1
                (record {
                  found = q.found;
                  unique_keys = complete-IsKeyed id size sha256 now t k;
                })).found;
          done = q.done;
          content = q.content;
          fits = q.fits;
        },
      )
