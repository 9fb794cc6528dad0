-- ===== src/Node/Privacy.antt =====
-- What `_validate_durable_result` of src/ace_node/db.py means for the parts of a value at any depth.
use audio_ventura.Base.{
  ℕ, suc, ◌+◌, ◌≤◌, ◌≡◌, refl, Bool, true, false, not, String, ok, err, Result, ltb, longer_than,
  arith, subst,
}
use audio_ventura.Node.Values.{
  NodeFailure, Key, text_key, other_key, Value, null, boolean, integer, float, text, array, object,
  other, Items, item, Members, member, is_sensitive, is_finite, items_size, also, reject_if,
  private_state, is_private_text, validate_key, at_depth, validate_durable_result, validate_items,
  validate_members,
}

pub data IsItem (v : Value) : Items → Type 0 where
  this_item : {vs : Items} → IsItem v (item v vs)
  next_item : {w : Value} {vs : Items} → IsItem v vs → IsItem v (item w vs)

pub data IsMember (k : Key) (v : Value) : Members → Type 0 where
  this_member : {ms : Members} → IsMember k v (member k v ms)
  next_member :
      {j : Key} {w : Value} {ms : Members} → IsMember k v ms → IsMember k v (member j w ms)

-- A value that stands inside another, and how many containers are around it there.
pub data Within (w : Value) : ℕ → Value → Type 0 where
  itself : Within w 0 w
  in_array :
      {n : ℕ} {v : Value} {vs : Items} → IsItem v vs → Within w n v → Within w (suc n) (array vs)
  in_object :
      {n : ℕ} {k : Key} {v : Value} {ms : Members}
      → IsMember k v ms
      → Within w n v
      → Within w (suc n) (object ms)

also_left : (r s : Result NodeFailure Unit) → also r s ≡ ok tt → r ≡ ok tt
also_left (ok tt) s h = refl
also_left (err e) s h = cc

also_right : (r s : Result NodeFailure Unit) → also r s ≡ ok tt → s ≡ ok tt
also_right (ok tt) s h = h
also_right (err e) s h = cc

not_rejected : (b : Bool) (message : String) → reject_if b message ≡ ok tt → b ≡ false
not_rejected false message h = refl
not_rejected true message h = cc

module _ (lower : String → String) where
  -- What a key, and a value by its form, may be.
  abbrev pub IsPlainKey : Key → Type 0
  IsPlainKey k =
      (s : String) × (k ≡ text_key s)
      × (longer_than s 128 ≡ false)
      × (is_sensitive (lower s) ≡ false)

  abbrev pub IsPlain : Value → Type 0
  IsPlain (object ms) = (k : Key) (v : Value) → IsMember k v ms → IsPlainKey k
  IsPlain (array vs) = items_size vs ≤ 128
  IsPlain (text s) = is_private_text s ≡ false
  IsPlain (float bits) = is_finite bits ≡ true
  IsPlain other = ⊥
  IsPlain _ = Unit

  within_depth :
      (d : ℕ) (r : Result NodeFailure Unit) → at_depth lower d r ≡ ok tt → (d ≤ 6) × (r ≡ ok tt)
  within_depth d r h =
      let b =
        not_rejected (ltb 6 d) "node result metadata is too deeply nested"
          (also_left (reject_if (ltb 6 d) "node result metadata is too deeply nested") r h) in
      (
        ground (arith, b),
        also_right (reject_if (ltb 6 d) "node result metadata is too deeply nested") r h,
      )

  validate-item :
      (d : ℕ) {v : Value} {vs : Items}
      → IsItem v vs
      → validate_items lower d vs ≡ ok tt
      → validate_durable_result lower (suc d) v ≡ ok tt
  unfolding validate_durable_result
  validate-item d {v} (this_item {vs = us}) h =
      also_left (validate_durable_result lower (suc d) v) (validate_items lower d us) h
  validate-item d (next_item {w = w} {vs = us} m) h =
      validate-item d m
        (also_right (validate_durable_result lower (suc d) w) (validate_items lower d us) h)

  validate-member :
      (d : ℕ) {k : Key} {v : Value} {ms : Members}
      → IsMember k v ms
      → validate_members lower d ms ≡ ok tt
      → (validate_key lower k ≡ ok tt) × (validate_durable_result lower (suc d) v ≡ ok tt)
  unfolding validate_durable_result
  validate-member d {k} {v} (this_member {ms = ns}) h =
      let r = also (validate_durable_result lower (suc d) v) (validate_members lower d ns) in
      (
        also_left (validate_key lower k) r h,
        also_left (validate_durable_result lower (suc d) v) (validate_members lower d ns)
            (also_right (validate_key lower k) r h),
      )
  validate-member d (next_member {j = j} {w = w} {ms = ns} m) h =
      let r = also (validate_durable_result lower (suc d) w) (validate_members lower d ns) in
      validate-member d m (
        also_right (validate_durable_result lower (suc d) w) (validate_members lower d ns)
          (also_right (validate_key lower j) r h))

  deeper :
      (d n : ℕ) (w : Value)
      → validate_durable_result lower (suc d + n) w ≡ ok tt
      → validate_durable_result lower (d + suc n) w ≡ ok tt
  deeper d n w h = subst (λ k. validate_durable_result lower k w ≡ ok tt) (omega arith) h

  validate-Within :
      {w : Value} {n : ℕ} {v : Value} (d : ℕ)
      → Within w n v
      → validate_durable_result lower d v ≡ ok tt
      → validate_durable_result lower (d + n) w ≡ ok tt
  unfolding validate_durable_result
  validate-Within {w = w} d itself h =
      subst (λ k. validate_durable_result lower k w ≡ ok tt) (omega arith) h
  validate-Within {w = w} d (in_array {n = n} {v = u} {vs = us} m i) h = deeper d n w (
      validate-Within (suc d) i (
        validate-item d m (
          also_right (reject_if (ltb 128 (items_size us)) "node result metadata list is too large")
            (validate_items lower d us) (within_depth d _ h).1)))
  validate-Within {w = w} d (in_object {n = n} {ms = ms} m i) h =
      deeper d n w (validate-Within (suc d) i (validate-member d m (within_depth d _ h).1).1)

  plain_key : (k : Key) → validate_key lower k ≡ ok tt → IsPlainKey k
  unfolding validate_key
  plain_key other_key h = cc
  plain_key (text_key s) h = (
    s,
    refl,
    not_rejected (longer_than s 128) "node result metadata has an invalid key" (
        also_left (reject_if (longer_than s 128) "node result metadata has an invalid key")
          (reject_if (is_sensitive (lower s)) private_state) h),
    not_rejected (is_sensitive (lower s)) private_state (
        also_right (reject_if (longer_than s 128) "node result metadata has an invalid key")
          (reject_if (is_sensitive (lower s)) private_state) h),
  )

  validated-IsPlain :
      (d : ℕ) (w : Value) → validate_durable_result lower d w ≡ ok tt → (d ≤ 6) × IsPlain w
  unfolding validate_durable_result
  validated-IsPlain d (object ms) h =
      let (l, r) = within_depth d _ h in (l, λ k v m. plain_key k (validate-member d m r).0)
  validated-IsPlain d (array vs) h =
      let (l, r) = within_depth d _ h in
      let b = not_rejected (ltb 128 (items_size vs)) "node result metadata list is too large" (
        also_left (reject_if (ltb 128 (items_size vs)) "node result metadata list is too large")
          (validate_items lower d vs) r) in
      (l, ground (arith, b))
  validated-IsPlain d (text s) h =
      let (l, r) = within_depth d _ h in (l, not_rejected (is_private_text s) private_state r)
  validated-IsPlain d null h = ((within_depth d _ h).0, tt)
  validated-IsPlain d (boolean b) h = ((within_depth d _ h).0, tt)
  validated-IsPlain d (integer b n) h = ((within_depth d _ h).0, tt)
  validated-IsPlain d (float bits) h =
      let (l, r) = within_depth d _ h in
      let b = not_rejected (not (is_finite bits)) "node result metadata is not JSON-safe" r in
      (l, ground (arith, b))
  validated-IsPlain d other h = let (l, r) = within_depth d _ h in cc

  -- Every value inside one that `_validate_durable_result` accepts is at most six containers deep, and
  -- of a plain form: an object has short text keys that are not sensitive in lower case, a list has at
  -- most 128 items, a text is no address and not too long, a float is finite, and nothing is outside
  -- JSON.
  pub validated-Within-IsPlain :
      {n : ℕ} {v w : Value}
      → validate_durable_result lower 0 v ≡ ok tt
      → Within w n v
      → (n ≤ 6) × IsPlain w
  validated-Within-IsPlain {n = n} {w = w} h i =
      validated-IsPlain n w (
        subst (λ k. validate_durable_result lower k w ≡ ok tt) (omega arith)
          (validate-Within 0 i h))
