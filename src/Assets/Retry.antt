-- ===== src/Assets/Retry.antt =====
-- A completion that comes again to `complete_asset_upload` of src/ace_service/repository.py.
use audio_ventura.Base.{
  ℕ, lookup, ◌≡◌, inl, inr, refl, ◌∙◌, true, false, List, [], String, ok, err, Result-cases, nat_eq,
  string_eq, option_eq, some,
}
use audio_ventura.Errors.{Failure, value_error}
use audio_ventura.Paths.{validate_sha256}
use audio_ventura.Assets.Capabilities.{Library, is_content, check_content, complete_asset_upload}
use audio_ventura.Assets.Rows.{AssetTransferCapability, Assets, is_consumed}
use audio_ventura.Assets.Calls.{AssetCall, run_calls}
use audio_ventura.Assets.Completion.{complete-row, complete-passing}
use audio_ventura.Assets.Keeping.{run_calls-Keeps}
use audio_ventura.Assets.Uploads.{IsKeyed-Kept, IsKeyed-KeptByClaim, empty-IsKeyed}
use audio_ventura.Assets.Recorded.{finish-done, later_row}

module _ (p : Library) where
  -- After the completion of an upload returned, in whatever table the calls of `AssetCall` made, and
  -- whatever such calls follow: the same completion returns the same capability and writes nothing.
  pub completed_again :
      (before : List AssetCall) (id : String) (size : ℕ) (sha256 : String) (now : ℕ)
      (c : AssetTransferCapability)
      → (complete_asset_upload p id size sha256 now (run_calls p before [])).0 ≡ ok c
      → (cs : List AssetCall) (later : ℕ)
      → complete_asset_upload p id size sha256 later
          (run_calls p cs (complete_asset_upload p id size sha256 now (run_calls p before [])).1)
        ≡ (
          ok c,
          run_calls p cs (complete_asset_upload p id size sha256 now (run_calls p before [])).1,
        )
  completed_again before id size sha256 now c h cs later =
      let t = run_calls p before [] in
      let k = run_calls-Keeps p (IsKeyed-Kept p) (IsKeyed-KeptByClaim p) before [] empty-IsKeyed in
      let (key, hash, u, v, q) = later_row p id size sha256 now t c k h cs in
      let s = run_calls p cs (complete_asset_upload p id size sha256 now t).1 in
      complete-passing p size sha256 later id s key c hash u q.found v q.fits
      ∙ (finish-done p key c size hash later s q.done ∙ rw q.content refl)

  -- What a completion with other content finds.
  refused_content :
      (key : String) (c : AssetTransferCapability) (size : ℕ) (sha256 hash : String) (now : ℕ)
      (t : Assets) (id : String)
      → p.uuid id ≡ some key
      → lookup key t ≡ some c
      → is_consumed c.status ≡ true
      → validate_sha256 p.lower sha256 ≡ ok hash
      → is_content c size hash ≡ false
      → (x : Failure) × (complete_asset_upload p id size sha256 now t ≡ (err x, t))
  refused_content key c size sha256 hash now t id u e b v n =
      elim (Result-cases (check_content c size hash)) [
        | inl (_, d) ↦ (
          value_error "asset upload retry conflicts with the consumed content",
          complete-passing p size sha256 now id t key c hash u e v d
              ∙ (finish-done p key c size hash now t b ∙ rw n refl),
        )
        | inr (x, d) ↦ (x, complete-row p size sha256 now id t key c u e ∙ rw (v, d) refl)
      ]

  -- After the completion of an upload returned, in whatever table the calls of `AssetCall` made, and
  -- whatever such calls follow: a completion of that capability with a valid hash but other content than
  -- it holds raises and writes nothing.
  pub completed_conflict :
      (before : List AssetCall) (id : String) (size : ℕ) (sha256 : String) (now : ℕ)
      (c : AssetTransferCapability)
      → (complete_asset_upload p id size sha256 now (run_calls p before [])).0 ≡ ok c
      → (cs : List AssetCall) (later other_size : ℕ) (other_sha256 hash : String)
      → validate_sha256 p.lower other_sha256 ≡ ok hash
      → is_content c other_size hash ≡ false
      → (x : Failure) × (complete_asset_upload p id other_size other_sha256 later
            (run_calls p cs (complete_asset_upload p id size sha256 now (run_calls p before [])).1)
          ≡ (
            err x,
            run_calls p cs (complete_asset_upload p id size sha256 now (run_calls p before [])).1,
          ))
  completed_conflict before id size sha256 now c h cs later other_size other_sha256 hash v n =
      let t = run_calls p before [] in
      let k = run_calls-Keeps p (IsKeyed-Kept p) (IsKeyed-KeptByClaim p) before [] empty-IsKeyed in
      let (key, own, u, w, q) = later_row p id size sha256 now t c k h cs in
      let s = run_calls p cs (complete_asset_upload p id size sha256 now t).1 in
      refused_content key c other_size other_sha256 hash later s id u q.found q.done v n
