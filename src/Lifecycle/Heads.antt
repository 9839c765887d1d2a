-- ===== src/Lifecycle/Heads.antt =====
-- The heads of the producers of src/msos_autobuilder/lifecycle_evidence.py: `_replace_head` and
-- `_validate_head_update`, on the decoded head files by path. `validate_producer_head`, which a head
-- file passes before it is updated, is a parameter.
pub mod Log
use msos_autobuilder.Prelude.{
  ℕ, ◌+◌, Bool, true, false, ◌&&◌, ◌||◌, Option, none, some, List, [], ◌∷◌, Text, codes, Dict,
  lookup, insert, Result, ok, err, nat_eq, ltb, all, if◌then◌else◌,
}
use msos_autobuilder.Json.{
  Json, null, boolean, integer, string, array, object, Fields, get, json_eq,
}

pub data HeadError : Type 0 where
  malformed_head ownership_conflict malformed_sequence unhashable_status : HeadError
  closed_stream_mutated sequence_regression same_sequence_conflict sequence_gap : HeadError

-- A head file: its decoded contents, if it is JSON.
abbrev pub HeadFile : Type 0
HeadFile = Option Json

abbrev pub ownership_fields : List Text
ownership_fields =
    codes "head_schema_version"
    ∷ codes "attempt_identity"
    ∷ codes "identity_digest"
    ∷ codes "evidence_kind"
    ∷ codes "producer"
    ∷ []

abbrev pub head_compare_fields : List Text
head_compare_fields =
    codes "producer_sequence"
    ∷ codes "evidence_id"
    ∷ codes "envelope_path"
    ∷ codes "envelope_sha256"
    ∷ codes "final"
    ∷ codes "closed_status"
    ∷ []

-- `all(current.get(field) == new.get(field) for field in fields)`
unfoldable pub agree_on : List Text → Fields → Fields → Bool
agree_on [] current new = true
agree_on (name ∷ names) current new =
    json_eq (get name current) (get name new) && agree_on names current new

-- Lists and dictionaries cannot be looked up in a set.
abbrev pub is_unhashable : Json → Bool
is_unhashable (array xs) = true
is_unhashable (object fs) = true
is_unhashable _ = false

unfoldable pub is_closed_status : Json → Bool
unfolding json_eq
is_closed_status status =
    json_eq status (string (codes "final")) || json_eq status (string (codes "not_applicable"))

unfoldable pub unless_mutated : HeadError → Fields → Fields → Result HeadError (Unit {0})
unfolding agree_on
unless_mutated error current new =
    if agree_on head_compare_fields current new then ok tt else err error

unfoldable pub judge_update : ℕ → ℕ → Fields → Fields → Result HeadError (Unit {0})
unfolding unless_mutated is_closed_status
judge_update current_sequence new_sequence current new =
    let status = get (codes "closed_status") current in
    if is_unhashable status
    then err unhashable_status
    else if is_closed_status status
    then unless_mutated closed_stream_mutated current new
    else if ltb new_sequence current_sequence
    then err sequence_regression
    else if nat_eq new_sequence current_sequence
    then unless_mutated same_sequence_conflict current new
    else if ltb (current_sequence + 1) new_sequence
    then err sequence_gap
    else ok tt

unfoldable pub judge_sequences : Json → Json → Fields → Fields → Result HeadError (Unit {0})
unfolding judge_update
judge_sequences (integer m) (integer n) current new = judge_update m n current new
judge_sequences _ _ current new = err malformed_sequence

-- `_validate_head_update(current, new)`
unfoldable pub validate_head_update : Fields → Fields → Result HeadError (Unit {0})
unfolding judge_sequences
validate_head_update current new =
    if agree_on ownership_fields current new
    then judge_sequences (get (codes "producer_sequence") current)
        (get (codes "producer_sequence") new) current new
    else err ownership_conflict

unfoldable pub write_head :
    Text
    → Fields
    → Dict HeadFile
    → Result HeadError (Unit {0})
    → Result HeadError (Unit {0}) × Dict HeadFile
write_head path head heads (err error) = (err error, heads)
write_head path head heads (ok allowed) = (ok allowed, insert path (some (object head)) heads)

module _ (validate_producer_head : Fields → Result HeadError (Unit {0})) where
  unfoldable pub may_replace : Option HeadFile → Fields → Result HeadError (Unit {0})
  unfolding validate_head_update
  may_replace none head =
      if json_eq (get (codes "producer_sequence") head) (integer 1) then ok tt else err sequence_gap
  may_replace (some (some (object current))) head = elim (validate_producer_head current) [
    | err error ↦ err error
    | ok valid ↦ validate_head_update current head
  ]
  may_replace (some found) head = err malformed_head

  -- `_replace_head(path, head)`
  unfoldable pub replace_head :
      Text → Fields → Dict HeadFile → Result HeadError (Unit {0}) × Dict HeadFile
  unfolding may_replace write_head
  replace_head path head heads = write_head path head heads (may_replace (lookup path heads) head)
