-- ===== src/Assets/Counting.antt =====
-- The count of opens of a download capability of src/ace_service/repository.py: who writes it, and what
-- a claim comes to.
use audio_ventura.Base.{
  ℕ, ◌+◌, ◌≡◌, ◌≤◌, inl, inr, refl, ap, subst, sym, ◌∙◌, Bool, true, false, Option, none, some,
  String, ◌==◌, nat_eq, string_eq, leb, if◌then◌else◌, Result, ok, err, lookup, update, map_row,
  find_row, find_row-lookup, lookup-update_self, viewed, viewed-update, viewed-update_other,
  viewed-insert, unique-update, arith, Keeps, Bool-cases, after,
}
use audio_ventura.Errors.{Failure}
use audio_ventura.Assets.Policy.{expired}
use audio_ventura.Assets.Capabilities.{claimed, revoke_row}
use audio_ventura.Assets.Rows.{
  AssetTransferCapability, Assets, Entry, is_upload, is_taken, add_capability, active_or_expired,
}
use audio_ventura.Assets.Completion.{active_or_expired-cases}
use audio_ventura.Assets.Uploads.{IsKeyed, unique-insert_free}

-- Whether the answer of a claim is this capability.
abbrev pub opened_by : String → Result Failure (Option Entry) → ℕ
opened_by id (ok (some (k, c))) = if k == id then 1 else 0
opened_by id (ok none) = 0
opened_by id (err x) = 0

abbrev pub count_of : AssetTransferCapability → ℕ
count_of c = c.access_count

module _ (id : String) where
  -- The count of the capability, over unique keys.
  pub record Counted (k : ℕ) (t : Assets) : Type 0 where
    pub shown : viewed count_of (lookup id t) ≡ some k
    pub keys : IsKeyed t

  pub write-Counted :
      (k : ℕ) (j : String) (f : AssetTransferCapability → AssetTransferCapability) (t : Assets)
      → ((c : AssetTransferCapability) → (f c).access_count ≡ c.access_count)
      → Counted k t
      → Counted k (update j f t)
  write-Counted k j f t h q = record {
    shown = viewed-update count_of j id f t h ∙ q.shown;
    keys = unique-update j f t ∙ q.keys;
  }

  revoke_row-count :
      (test : AssetTransferCapability → Bool) (now : ℕ) (c : AssetTransferCapability)
      → (revoke_row test now c).access_count ≡ c.access_count
  revoke_row-count test now c = ground arith

  pub viewed-revoked :
      (test : AssetTransferCapability → Bool) (now : ℕ) (o : Option AssetTransferCapability)
      → viewed count_of (map_row (revoke_row test now) o) ≡ viewed count_of o
  viewed-revoked test now none = refl
  viewed-revoked test now (some c) = ap some (revoke_row-count test now c)

  pub add-Counted :
      (k : ℕ) (j : String) (c : AssetTransferCapability) → Keeps (Counted k) (add_capability j c)
  unfolding add_capability
  add-Counted k j c = record {
    kept = λ t q. elim (Bool-cases (is_taken j c.token_sha256 t)) [
      | inl b ↦ rw b q
      | inr b ↦ rw b (record {
        shown = viewed-insert count_of j id c t q.shown;
        keys = unique-insert_free j c t b q.keys;
      })
    ];
  }

  -- What a claim comes to: the count goes up by one where the answer is this capability, and then it was
  -- below what the claim allows.
  pub record Claimed (max_opens k : ℕ) (y : Result Failure (Option Entry) × Assets) : Type 0 where
    pub counted : Counted (k + opened_by id y.0) y.1
    pub room : (bound : ℕ) → max_opens ≤ bound → k ≤ bound → k + opened_by id y.0 ≤ bound

  pub not_opened :
      (max_opens k : ℕ) (r : Result Failure (Option Entry)) (t : Assets)
      → opened_by id r ≡ 0
      → Counted k t
      → Claimed max_opens k (r, t)
  not_opened max_opens k r t z q = record {
    counted = subst (λ n. Counted n t) (omega (arith, z)) q;
    room = λ bound h l. omega (arith, z, l);
  }

  shown_count :
      {o : Option AssetTransferCapability} {c : AssetTransferCapability} {k : ℕ}
      → o ≡ some c
      → viewed count_of o ≡ some k
      → c.access_count ≡ k
  shown_count e h = cc

  same_id : (id == id) ≡ true
  same_id = (string_eq.same_iff id id).1 refl

  opened_room :
      (max_opens k bound n : ℕ)
      → n ≡ k
      → leb max_opens n ≡ false
      → max_opens ≤ bound
      → k + 1 ≤ bound
  opened_room max_opens k bound n e l h = ground (arith, e, l, h)

  other_way : (j : String) → (j == id) ≡ false → (id == j) ≡ false
  other_way j n = ground (arith, string_eq.same_iff j id, string_eq.same_iff id j)

  opening :
      (max_opens k : ℕ) (c : AssetTransferCapability) (t : Assets)
      → lookup id t ≡ some c
      → leb max_opens c.access_count ≡ false
      → Counted k t
      → Claimed max_opens k (
        ok (some (id, record c { access_count = c.access_count + 1 })),
        update id (λ d. record d { access_count = c.access_count + 1 }) t,
      )
  opening max_opens k c t e l q = record {
    counted = record {
      shown =
          rw
            (
              lookup-update_self id (λ d. record d { access_count = c.access_count + 1 }) t e,
              same_id,
            )
            (ap some (omega (arith, shown_count e q.shown)));
      keys = unique-update id _ t ∙ q.keys;
    };
    room = λ bound h m.
        rw same_id (opened_room max_opens k bound c.access_count (shown_count e q.shown) l h);
  }

  abbrev counted_up : AssetTransferCapability → AssetTransferCapability
  counted_up c = record c { access_count = c.access_count + 1 }

  -- The claim of another capability.
  other_opening :
      (max_opens k : ℕ) (j : String) (c : AssetTransferCapability) (t : Assets)
      → (j == id) ≡ false
      → Counted k t
      → Claimed max_opens k (
        ok (some (j, counted_up c)),
        update j (λ d. record d { access_count = c.access_count + 1 }) t,
      )
  other_opening max_opens k j c t n q =
      not_opened max_opens k (ok (some (j, counted_up c)))
        (update j (λ d. record d { access_count = c.access_count + 1 }) t) (rw n refl)
        (record {
          shown = viewed-update_other count_of j id _ t (other_way j n) ∙ q.shown;
          keys = unique-update j _ t ∙ q.keys;
        })

  any_opening :
      (max_opens k : ℕ) (j : String) (c : AssetTransferCapability) (t : Assets)
      → lookup j t ≡ some c
      → leb max_opens c.access_count ≡ false
      → Counted k t
      → Claimed max_opens k (
        ok (some (j, counted_up c)),
        update j (λ d. record d { access_count = c.access_count + 1 }) t,
      )
  any_opening max_opens k j c t e l q = elim (Bool-cases (j == id)) [
    | inr n ↦ other_opening max_opens k j c t n q
    | inl s ↦
        let w = (string_eq.same_iff j id).0 s in
        subst
          (λ x. Claimed max_opens k (
            ok (some (x, counted_up c)),
            update x (λ d. record d { access_count = c.access_count + 1 }) t,
          ))
          (sym w) (opening max_opens k c t (subst (λ x. lookup x t ≡ some c) w e) l q)
  ]

  claimed-Claimed :
      (max_opens k : ℕ) (j : String) (c : AssetTransferCapability) (t : Assets)
      → lookup j t ≡ some c
      → Counted k t
      → Claimed max_opens k (claimed max_opens (some (j, c)) t)
  unfolding claimed
  claimed-Claimed max_opens k j c t e q = elim (Bool-cases (is_upload c.direction)) [
    | inl u ↦ rw u (not_opened max_opens k (ok none) t refl q)
    | inr u ↦ elim (Bool-cases (leb max_opens c.access_count)) [
      | inl l ↦
          rw (u, l)
            (not_opened max_opens k (ok none) (update j (λ c. record c { status = expired }) t) refl
              (write-Counted k j (λ c. record c { status = expired }) t (λ d. refl) q))
      | inr l ↦ rw (u, l) (any_opening max_opens k j c t e l q)
    ]
  ]

  pub look_and_claim-Claimed :
      (max_opens k now : ℕ) (g : AssetTransferCapability → Bool) (t : Assets)
      → Counted k t
      → Claimed max_opens k (after (claimed max_opens) (active_or_expired now (find_row g t) t))
  unfolding claimed
  look_and_claim-Claimed max_opens k now g t q =
      elim (active_or_expired-cases now (find_row g t) t) [
        | inl w ↦
            subst (λ y. Claimed max_opens k (after (claimed max_opens) y)) (sym w)
              (not_opened max_opens k (ok none) t refl q)
        | inr (inl (j, c, e, b, w)) ↦
            subst (λ y. Claimed max_opens k (after (claimed max_opens) y)) (sym w)
              (not_opened max_opens k (ok none) (update j (λ c. record c { status = expired }) t)
                refl (write-Counted k j (λ c. record c { status = expired }) t (λ d. refl) q))
        | inr (inr (j, c, e, b, w)) ↦
            subst (λ y. Claimed max_opens k (after (claimed max_opens) y)) (sym w)
              (claimed-Claimed max_opens k j c t (find_row-lookup g t j c q.keys e) q)
      ]
