-- ===== src/Assets/Uploads.antt =====
-- Uploads of src/ace_service/repository.py whose completion was recorded.
use audio_ventura.Base.{
  ℕ, ◌≡◌, inl, inr, refl, ap, subst, sym, ◌∙◌, Bool, true, false, ◌||◌, Option, none, some, [],
  String, ◌==◌, nat_eq, string_eq, option_eq, is_some, lookup, update, insert, lookup-update,
  lookup-insert, lookup-map_rows, unique, unique-update, unique-insert, unique-map_rows, Keeps,
  Bool-cases,
}
use audio_ventura.Assets.Policy.{AssetTransferStatus}
use audio_ventura.Assets.Capabilities.{completed, revoke_row, Library}
use audio_ventura.Assets.Rows.{
  AssetTransferCapability, Assets, is_issued, is_consumed, is_taken, add_capability,
}
use audio_ventura.Assets.Calls.{Kept, KeptByClaim}

abbrev pub IsKeyed : Assets → Type 0
IsKeyed t = unique t ≡ true

no_row : (o : Option AssetTransferCapability) (b : Bool) → (is_some o || b) ≡ false → o ≡ none
no_row none b h = refl
no_row (some c) b h = cc

pub unique-insert_free :
    (k : String) (c : AssetTransferCapability) (t : Assets)
    → is_taken k c.token_sha256 t ≡ false
    → IsKeyed t
    → IsKeyed (insert k c t)
unique-insert_free k c t b q = unique-insert k c t q (no_row (lookup k t) _ b)

pub empty-IsKeyed : IsKeyed []
unfolding unique
empty-IsKeyed = refl

add-IsKeyed : (k : String) (c : AssetTransferCapability) → Keeps IsKeyed (add_capability k c)
unfolding add_capability
add-IsKeyed k c = record {
  kept = λ t q. elim (Bool-cases (is_taken k c.token_sha256 t)) [
    | inl b ↦ rw b q
    | inr b ↦ rw b (unique-insert_free k c t b q)
  ];
}

pub IsKeyed-Kept : (p : Library) → Kept p IsKeyed
IsKeyed-Kept p = record {
  keyed = λ t q. q;
  by_expiry = λ id c t e b q. unique-update id _ t ∙ q;
  by_completion = λ id c size hash now t e b q. unique-update id (completed size hash now) t ∙ q;
  by_revocation = λ test now t q. unique-map_rows (revoke_row test now) t ∙ q;
  by_adding = add-IsKeyed;
}

pub IsKeyed-KeptByClaim : (p : Library) → KeptByClaim p IsKeyed
IsKeyed-KeptByClaim p = record { by_claim = λ id c t e b q. unique-update id _ t ∙ q }

issued_is_open : (s : AssetTransferStatus) → is_consumed s ≡ true → is_issued s ≡ false
issued_is_open AssetTransferStatus.issued h = cc
issued_is_open AssetTransferStatus.consumed h = refl
issued_is_open AssetTransferStatus.expired h = refl
issued_is_open AssetTransferStatus.revoked h = refl

same_row :
    {o : Option AssetTransferCapability} {c d : AssetTransferCapability}
    → o ≡ some c
    → o ≡ some d
    → c ≡ d
same_row e f = cc

clash : {b : Bool} {B : Type 0} → b ≡ true → b ≡ false → B
clash h k = cc

module _ (p : Library) (key : String) (row : AssetTransferCapability)
    (done : is_consumed row.status ≡ true) where
  pub record Frozen (t : Assets) : Type 0 where
    pub found : lookup key t ≡ some row
    pub unique_keys : IsKeyed t

  write-Frozen :
      (id : String) (c : AssetTransferCapability)
      (f : AssetTransferCapability → AssetTransferCapability) (t : Assets)
      → lookup id t ≡ some c
      → is_issued c.status ≡ true
      → Frozen t
      → Frozen (update id f t)
  write-Frozen id c f t e b q = record {
    found = elim (Bool-cases (key == id)) [
      | inr n ↦ lookup-update id key f t ∙ rw n q.found
      | inl s ↦ clash b (
          subst (λ x. is_issued x.status ≡ false)
            (same_row q.found
              (subst (λ j. lookup j t ≡ some c) (sym ((string_eq.same_iff key id).0 s)) e))
            (issued_is_open row.status done))
    ];
    unique_keys = unique-update id f t ∙ q.unique_keys;
  }

  revoke_row-done :
      (test : AssetTransferCapability → Bool) (now : ℕ) → revoke_row test now row ≡ row
  revoke_row-done test now = rw (issued_is_open row.status done) refl

  add-Frozen : (k : String) (c : AssetTransferCapability) → Keeps Frozen (add_capability k c)
  unfolding add_capability
  add-Frozen k c = record {
    kept = λ t q. elim (Bool-cases (is_taken k c.token_sha256 t)) [
      | inl b ↦ rw b q
      | inr b ↦ rw b (record {
        found = lookup-insert k key c t ∙ rw q.found refl;
        unique_keys = unique-insert_free k c t b q.unique_keys;
      })
    ];
  }

  pub Frozen-Kept : Kept p Frozen
  Frozen-Kept = record {
    keyed = λ t q. q.unique_keys;
    by_expiry = λ id c t e b q. write-Frozen id c _ t e b q;
    by_completion =
        λ id c size hash now t e b q. write-Frozen id c (completed size hash now) t e b q;
    by_revocation = λ test now t q. record {
      found =
          lookup-map_rows (revoke_row test now) key t
          ∙ (rw q.found refl ∙ ap some (revoke_row-done test now));
      unique_keys = unique-map_rows (revoke_row test now) t ∙ q.unique_keys;
    };
    by_adding = add-Frozen;
  }

  pub Frozen-KeptByClaim : KeptByClaim p Frozen
  Frozen-KeptByClaim = record { by_claim = λ id c t e b q. write-Frozen id c _ t e b q }
