-- ===== src/Node/Values.antt =====
-- The values that src/ace_node/db.py stores as JSON, and `_validate_durable_result`. A float is the bits
-- of its IEEE 754 double, and `other` stands for an object that JSON has no form for.
use audio_ventura.Base.{
  ℕ, suc, true, false, ◌/◌, ◌%◌, ◌^◌, Bool, not, ◌||◌, List, [], ◌∷◌, String, ◌==◌, nat_eq,
  string_eq, ltb, longer_than, has_prefix, contains, Result, ok, err,
}

pub data NodeFailure : Type 0 where
  submission_conflict : String → NodeFailure
  node_database_error : String → NodeFailure

pub data Key : Type 0 where
  text_key : String → Key
  other_key : Key

mutual
  pub data Value : Type 0 where
    null : Value
    boolean : Bool → Value
    integer : Bool → ℕ → Value
    float : ℕ → Value
    text : String → Value
    array : Items → Value
    object : Members → Value
    other : Value

  pub data Items : Type 0 where
    no_items : Items
    item : Value → Items → Items

  pub data Members : Type 0 where
    no_members : Members
    member : Key → Value → Members → Members

-- `any(part in text for part in parts)` and `text in set`
unfoldable pub contains_any : List String → String → Bool
contains_any [] s = false
contains_any (p ∷ ps) s = contains s p || contains_any ps s

unfoldable pub one_of : List String → String → Bool
one_of [] s = false
one_of (p ∷ ps) s = s == p || one_of ps s

abbrev pub durable_sensitive_keys : List String
durable_sensitive_keys =
    "prompt" ∷ "lyrics" ∷ "caption" ∷ "input" ∷ "source" ∷ "result_upload" ∷ "url" ∷ "path"
    ∷ "token" ∷ "secret" ∷ "capability" ∷ "audio_bytes" ∷ "audio" ∷ []

abbrev pub sensitive_parts : List String
sensitive_parts = "url" ∷ "path" ∷ "token" ∷ "secret" ∷ "capability" ∷ []

unfoldable pub is_sensitive : String → Bool
unfolding contains_any one_of
is_sensitive key = one_of durable_sensitive_keys key || contains_any sensitive_parts key

-- A double whose exponent is not all ones.
abbrev pub is_finite : ℕ → Bool
is_finite bits = not (bits / 2 ^ 52 % 2 ^ 11 == 2047)

unfoldable pub items_size : Items → ℕ
items_size no_items = 0
items_size (item v vs) = suc (items_size vs)

-- One check behind another.
abbrev pub also : Result NodeFailure Unit → Result NodeFailure Unit → Result NodeFailure Unit
also (ok u) r = r
also (err e) r = err e

abbrev pub reject_if : Bool → String → Result NodeFailure Unit
reject_if true message = err (node_database_error message)
reject_if false message = ok tt

abbrev pub private_state : String
private_state = "node result metadata contains private state"

unfoldable pub is_private_text : String → Bool
is_private_text s =
    longer_than s 16384
    || has_prefix s "http://"
    || has_prefix s "https://"
    || contains s "/transfer/v1/"

-- `lower` is the method of `str`.
module _ (lower : String → String) where
  unfoldable pub validate_key : Key → Result NodeFailure Unit
  validate_key other_key = err (node_database_error "node result metadata has an invalid key")
  validate_key (text_key s) =
      also (reject_if (longer_than s 128) "node result metadata has an invalid key")
        (reject_if (is_sensitive (lower s)) private_state)

  abbrev pub at_depth : ℕ → Result NodeFailure Unit → Result NodeFailure Unit
  at_depth depth r = also (reject_if (ltb 6 depth) "node result metadata is too deeply nested") r

  unfoldable mutual
    unfolding validate_key is_private_text items_size

    pub validate_durable_result : ℕ → Value → Result NodeFailure Unit
    validate_durable_result depth (object ms) = at_depth depth (validate_members depth ms)
    validate_durable_result depth (array vs) = at_depth depth (
        also (reject_if (ltb 128 (items_size vs)) "node result metadata list is too large")
          (validate_items depth vs))
    validate_durable_result depth (text s) =
        at_depth depth (reject_if (is_private_text s) private_state)
    validate_durable_result depth null = at_depth depth (ok tt)
    validate_durable_result depth (boolean b) = at_depth depth (ok tt)
    validate_durable_result depth (integer negative n) = at_depth depth (ok tt)
    validate_durable_result depth (float bits) =
        at_depth depth (reject_if (not (is_finite bits)) "node result metadata is not JSON-safe")
    validate_durable_result depth other =
        at_depth depth (err (node_database_error "node result metadata is not JSON-safe"))

    pub validate_items : ℕ → Items → Result NodeFailure Unit
    validate_items depth no_items = ok tt
    validate_items depth (item v vs) =
        also (validate_durable_result (suc depth) v) (validate_items depth vs)

    pub validate_members : ℕ → Members → Result NodeFailure Unit
    validate_members depth no_members = ok tt
    validate_members depth (member k v ms) =
        also (validate_key k)
          (also (validate_durable_result (suc depth) v) (validate_members depth ms))
