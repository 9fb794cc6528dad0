-- ===== src/Node/Bound.antt =====
-- The row on which a submission nonce stands in the table of src/ace_node/db.py.
use audio_ventura.Base.{
  ℕ, ◌≡◌, inl, inr, refl, subst, sym, ◌∙◌, Bool, true, false, ◌||◌, Option, none, some, [], ◌∷◌,
  String, arith, Keeps, lookup, update, insert, ◌==◌, string_eq, nat_eq, if◌then◌else◌, Bool-cases,
  unique, is_none-map_row, unique-update, unique-insert, is_some, is_none,
}
use audio_ventura.Node.Database.{
  NodeState, NodeRow, NodeJobs, Runtime, recover, recovered, recovered_row, insert_row,
  breaks_constraint, find_nonce,
}
use audio_ventura.Node.Calls.{IsStep, Kept, update_where-cases}
use audio_ventura.Node.Settled.{lookup-recovered}

abbrev map_found :
    (String → NodeRow → NodeRow) → Option (String × NodeRow) → Option (String × NodeRow)
map_found f none = none
map_found f (some (id, row)) = some (id, f id row)

find_nonce-update :
    (n k : String) (f : NodeRow → NodeRow) (t : NodeJobs)
    → ((row : NodeRow) → (f row).submission_nonce ≡ row.submission_nonce)
    → find_nonce n (update k f t)
      ≡ map_found (λ id row. if id == k then f row else row) (find_nonce n t)
unfolding find_nonce update
find_nonce-update n k f [] h = refl
find_nonce-update n k f ((j, row) ∷ t) h = ground (arith, find_nonce-update n k f t h, h row)

find_nonce-recovered :
    (n : String) (now : ℕ) (t : NodeJobs)
    → find_nonce n (recovered now t) ≡ map_found (λ id row. recovered_row now row) (find_nonce n t)
unfolding find_nonce recovered
find_nonce-recovered n now [] = refl
find_nonce-recovered n now ((j, row) ∷ t) = ground (arith, find_nonce-recovered n now t)

find_nonce-insert :
    (n k : String) (r : NodeRow) (t : NodeJobs) (x : String × NodeRow)
    → find_nonce n t ≡ some x
    → find_nonce n (insert k r t) ≡ some x
unfolding find_nonce insert
find_nonce-insert n k r [] x h = cc
find_nonce-insert n k r ((j, row) ∷ t) x h = ground (arith, find_nonce-insert n k r t x, h)

pub find_nonce-insert_new :
    (k : String) (r : NodeRow) (t : NodeJobs)
    → find_nonce r.submission_nonce t ≡ none
    → find_nonce r.submission_nonce (insert k r t) ≡ some (k, r)
unfolding find_nonce insert
find_nonce-insert_new k r [] h =
    ground (arith, string_eq.same_iff r.submission_nonce r.submission_nonce)
find_nonce-insert_new k r ((j, row) ∷ t) h = ground (arith, find_nonce-insert_new k r t, h)

pub find_nonce-lookup :
    (n : String) (t : NodeJobs) (id : String) (row : NodeRow)
    → unique t ≡ true
    → find_nonce n t ≡ some (id, row)
    → lookup id t ≡ some row
unfolding find_nonce lookup unique
find_nonce-lookup n [] id row u h = cc
find_nonce-lookup n ((j, r) ∷ t) id row u h =
    ground (arith, find_nonce-lookup n t id row, string_eq.same_iff j id)

lookup-recovered_none :
    (id : String) (now : ℕ) (t : NodeJobs)
    → is_none (lookup id (recovered now t)) ≡ is_none (lookup id t)
lookup-recovered_none id now t =
    rw (lookup-recovered id now t) (is_none-map_row (recovered_row now) (lookup id t))

unique-recovered : (now : ℕ) (t : NodeJobs) → unique (recovered now t) ≡ unique t
unfolding unique recovered
unique-recovered now [] = refl
unique-recovered now ((j, row) ∷ t) =
    rw (lookup-recovered_none j now t, unique-recovered now t) refl

recovered_application :
    (now : ℕ) (row : NodeRow) → (recovered_row now row).application_job_id ≡ row.application_job_id
recovered_application now row = ground arith

recovered_index :
    (now : ℕ) (row : NodeRow) → (recovered_row now row).variation_index ≡ row.variation_index
recovered_index now row = ground arith

-- The nonce stands on the row of this job, with this identity, and the keys are unique.
pub record IsBound (n id a : String) (i : ℕ) (t : NodeJobs) : Type 0 where
  pub row : NodeRow
  pub found : find_nonce n t ≡ some (id, row)
  pub application : row.application_job_id ≡ a
  pub index : row.variation_index ≡ i
  pub keyed : unique t ≡ true

abbrev pub IsKeyed : NodeJobs → Type 0
IsKeyed t = unique t ≡ true

pub no_row : (o : Option NodeRow) (b : Bool) → (is_some o || b) ≡ false → o ≡ none
no_row none b h = refl
no_row (some c) b h = cc

insert_row-IsKeyed : (k : String) (r : NodeRow) → Keeps IsKeyed (insert_row k r)
unfolding insert_row
insert_row-IsKeyed k r = record {
  kept = λ t q. elim (Bool-cases (breaks_constraint k r.variation_index t)) [
    | inl b ↦ rw b q
    | inr b ↦ rw b (unique-insert k r t q (no_row (lookup k t) _ b))
  ];
}

column_if :
    {A : Type 0} (g : NodeRow → A) (b : Bool) (row r : NodeRow)
    → g r ≡ g row
    → g (if b then r else row) ≡ g row
column_if g true row r h = h
column_if g false row r h = refl

module _ (p : Runtime) where
  pub IsKeyed-Kept : Kept p IsKeyed
  unfolding recover
  IsKeyed-Kept = record {
    by_update = λ k test f h. record {
      kept = λ t q. elim (update_where-cases k test f t) [
        | inl w ↦ subst (λ y. IsKeyed y.1) (sym w) q
        | inr (r, e, b, w) ↦ subst (λ y. IsKeyed y.1) (sym w) (unique-update k f t ∙ q)
      ];
    };
    by_recovery = λ now. record { kept = λ t q. unique-recovered now t ∙ q };
    by_insert = λ k r h. insert_row-IsKeyed k r;
  }

  module _ (n id a : String) (i : ℕ) where
    update-IsBound :
        (k : String) (test : NodeState → Bool) (f : NodeRow → NodeRow) (t : NodeJobs)
        → IsStep p test f
        → IsBound n id a i t
        → IsBound n id a i (update k f t)
    update-IsBound k test f t h q = record {
      row = if id == k then f q.row else q.row;
      found = find_nonce-update n k f t h.same_nonce ∙ rw q.found refl;
      application =
          column_if (λ r. r.application_job_id) (id == k) q.row (f q.row) (h.same_application q.row)
          ∙ q.application;
      index =
          column_if (λ r. r.variation_index) (id == k) q.row (f q.row) (h.same_index q.row)
          ∙ q.index;
      keyed = unique-update k f t ∙ q.keyed;
    }

    insert-IsBound : (k : String) (r : NodeRow) → Keeps (IsBound n id a i) (insert_row k r)
    unfolding insert_row
    insert-IsBound k r = record {
      kept = λ t q. elim (Bool-cases (breaks_constraint k r.variation_index t)) [
        | inl b ↦ rw b q
        | inr b ↦ rw b (record {
          row = q.row;
          found = find_nonce-insert n k r t (id, q.row) q.found;
          application = q.application;
          index = q.index;
          keyed = unique-insert k r t q.keyed (no_row (lookup k t) _ b);
        })
      ];
    }

    pub IsBound-Kept : Kept p (IsBound n id a i)
    unfolding recover
    IsBound-Kept = record {
      by_update = λ k test f h. record {
        kept = λ t q. elim (update_where-cases k test f t) [
          | inl w ↦ subst (λ y. IsBound n id a i y.1) (sym w) q
          | inr (r, e, b, w) ↦
              subst (λ y. IsBound n id a i y.1) (sym w) (update-IsBound k test f t h q)
        ];
      };
      by_recovery = λ now. record {
        kept = λ t q. record {
          row = recovered_row now q.row;
          found = find_nonce-recovered n now t ∙ rw q.found refl;
          application = recovered_application now q.row ∙ q.application;
          index = recovered_index now q.row ∙ q.index;
          keyed = unique-recovered now t ∙ q.keyed;
        };
      };
      by_insert = λ k r h. insert-IsBound k r;
    }
