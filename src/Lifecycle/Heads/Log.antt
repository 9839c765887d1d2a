-- ===== src/Lifecycle/Heads/Log.antt =====
-- What the heads of src/msos_autobuilder/lifecycle_evidence.py stand for: a log of evidence that is
-- only appended to, and not at all once it is closed. `_replace_head` implements it.
use msos_autobuilder.Prelude.{
  ℕ, ◌+◌, ◌≡◌, refl, sym, subst, inl, inr, Bool-cases, Bool, true, false, ◌||◌, Option, none, some,
  List, [], ◌∷◌, length, Text, codes, ◌==◌, ==_iff, Dict, lookup, insert, lookup-insert_same,
  Result, ok, err, nat_eq, arith,
}
use msos_autobuilder.Json.{Json, integer, string, object, Fields, get, json_eq}
use msos_autobuilder.Lifecycle.Heads.{
  HeadError, HeadFile, agree_on, head_compare_fields, ownership_fields, judge_update,
  judge_sequences, validate_head_update, may_replace, replace_head, closed_stream_mutated,
  same_sequence_conflict, unless_mutated, is_closed_status, write_head,
}

-- The identifiers of the evidence, the newest first, and the closed status of the newest.
pub data Log : Type 0 where
  empty : Log
  log : Text → List Text → Text → Log

abbrev pub is_closed : Text → Bool
is_closed status = status == codes "final" || status == codes "not_applicable"

pub data Appends : Log → Log → Type 0 where
  kept : (before : Log) → Appends before before
  started : (id status : Text) → Appends empty (log id [] status)
  appended :
      (id : Text) (older : List Text) (status new_id new_status : Text)
      → is_closed status ≡ false
      → Appends (log id older status) (log new_id (id ∷ older) new_status)

abbrev pub IsHead : ℕ → Text → Text → Fields → Type 0
IsHead sequence id status head =
    (get (codes "producer_sequence") head ≡ integer sequence)
    × (get (codes "evidence_id") head ≡ string id)
    × (get (codes "closed_status") head ≡ string status)

-- The sequence of the head is the length of the log.
abbrev pub Represents : Log → Option HeadFile → Type 0
Represents empty found = found ≡ none
Represents (log id older status) found =
    (head : Fields) × (found ≡ some (some (object head))) × IsHead (length older + 1) id status head

json_eq-integer :
    (x y : Json) (m n : ℕ) → x ≡ integer m → y ≡ integer n → json_eq x y ≡ true → m ≡ n
unfolding json_eq
json_eq-integer x y m n e f h = let k = rw f at (rw e at h) in ground arith

json_eq-string :
    (x y : Json) (s t : Text) → x ≡ string s → y ≡ string t → json_eq x y ≡ true → s ≡ t
unfolding json_eq
json_eq-string x y s t e f h = (==_iff s t).0 (rw f at (rw e at h))

agree_on-parts :
    (name : Text) (names : List Text) (current new : Fields)
    → agree_on (name ∷ names) current new ≡ true
    → (json_eq (get name current) (get name new) ≡ true) × (agree_on names current new ≡ true)
unfolding agree_on
agree_on-parts name names current new h = (ground arith, ground arith)

agree_on-IsHead :
    (m n : ℕ) (id new_id status new_status : Text) (current new : Fields)
    → IsHead m id status current
    → IsHead n new_id new_status new
    → agree_on head_compare_fields current new ≡ true
    → (m ≡ n) × (id ≡ new_id) × (status ≡ new_status)
agree_on-IsHead m n id new_id status new_status current new (s, i, c) (s1, i1, c1) h =
    let (h1, t1) = agree_on-parts _ _ current new h in
    let (h2, t2) = agree_on-parts _ _ current new t1 in
    let (h3, t3) = agree_on-parts _ _ current new t2 in
    let (h4, t4) = agree_on-parts _ _ current new t3 in
    let (h5, t5) = agree_on-parts _ _ current new t4 in
    let (h6, t6) = agree_on-parts _ _ current new t5 in
    (
      json_eq-integer _ _ m n s s1 h1,
      json_eq-string _ _ id new_id i i1 h2,
      json_eq-string _ _ status new_status c c1 h6,
    )

unless_mutated-agree :
    (error : HeadError) (current new : Fields)
    → unless_mutated error current new ≡ ok tt
    → agree_on head_compare_fields current new ≡ true
unfolding unless_mutated
unless_mutated-agree error current new h =
    elim (Bool-cases (agree_on head_compare_fields current new)) [
      | inl same ↦ same
      | inr other ↦ absurd (ground arith)
    ]

module _ (current new : Fields) (n : ℕ) (id : Text) (older : List Text)
    (status new_id new_status : Text) (is : IsHead (length older + 1) id status current)
    (is_new : IsHead n new_id new_status new) where
  Next : Type 0
  Next =
      (next : Log) × (Appends (log id older status) next
        × Represents next (some (some (object new))))

  agree_on-Next : agree_on head_compare_fields current new ≡ true → Next
  unfolding Next
  agree_on-Next h =
      let (m, i, c) = agree_on-IsHead _ _ _ _ _ _ current new is is_new h in
      (log id older status, (kept _, (new, refl, rw m (rw i (rw c is_new)))))

  judge_update-Next : judge_update (length older + 1) n current new ≡ ok tt → Next
  unfolding judge_update is_closed_status json_eq Next
  judge_update-Next h =
      let (s, i, c) = is in
      let k = rw c at h in
      elim (Bool-cases (is_closed status)) [
        | inl closed ↦
            agree_on-Next (unless_mutated-agree closed_stream_mutated current new (ground arith))
        | inr open_log ↦ elim (Bool-cases (nat_eq n (length older + 1))) [
          | inl same ↦
              agree_on-Next (unless_mutated-agree same_sequence_conflict current new (ground arith))
          | inr other ↦
              let next : n ≡ length (id ∷ older) + 1 = ground arith in
              (
                log new_id (id ∷ older) new_status,
                (
                  appended id older status new_id new_status open_log,
                  (new, refl, subst (λ k. IsHead k new_id new_status new) next is_new),
                ),
              )
        ]
      ]

  validate_head_update-Next : validate_head_update current new ≡ ok tt → Next
  unfolding validate_head_update judge_sequences
  validate_head_update-Next h =
      judge_update-Next (elim (Bool-cases (agree_on ownership_fields current new)) [
        | inl same ↦ rw (is_new.0) at (rw (is.0) at (rw same at h))
        | inr other ↦ absurd (ground arith)
      ])

-- What a replacement of a head may do to a log that the head stands for.
unfoldable pub Refines :
    Log → Text → Fields → Dict HeadFile → Result HeadError (Unit {0}) × Dict HeadFile → Type 0
Refines before path head heads (err error, after) = after ≡ heads
Refines before path head heads (ok done, after) =
    (after ≡ insert path (some (object head)) heads)
    × ((next : Log) × (Appends before next × Represents next (lookup path after)))

module _ (validate_producer_head : Fields → Result HeadError (Unit {0})) where
  may_replace-Represents :
      (found : Option HeadFile) (before : Log) (head : Fields) (n : ℕ) (id status : Text)
      → Represents before found
      → IsHead n id status head
      → may_replace validate_producer_head found head ≡ ok tt
      → (next : Log) × (Appends before next × Represents next (some (some (object head))))
  unfolding may_replace json_eq Next
  may_replace-Represents found empty head n id status shown (s, i, c) h =
      let first : n ≡ 1 = let k = rw s at (rw shown at h) in ground arith in
      (
        log id [] status,
        (started id status, (head, refl, subst (λ k. IsHead k id status head) first (s, i, c))),
      )
  may_replace-Represents found (log newest older old_status) head n id status (current, e, is)
        is_head h =
      some_head (validate_producer_head current) (rw e at h)
    where
      some_head :
          (valid : Result HeadError (Unit {0}))
          → elim valid [ err error ↦ err error | ok done ↦ validate_head_update current head ]
            ≡ ok tt
          → (next : Log) × (Appends (log newest older old_status) next
              × Represents next (some (some (object head))))
      some_head (err error) k = absurd cc
      some_head (ok done) k =
          validate_head_update-Next current head n newest older old_status id status is is_head k

  -- If the head file at a path stands for a log (no file for the empty log; else a head whose sequence
  -- is the length of the log, with the newest evidence identifier and its closed status), and the new
  -- head has an integer sequence and texts as identifier and closed status, then a replacement that
  -- raises leaves all head files as they were, and one that returns writes the new head at the path
  -- and changes nothing else, and the file then stands for the same log or for that log with one
  -- entry more, the latter only if the log was not closed (final or not applicable). This holds for
  -- any check of the head that stands in the file.
  pub replace_head-Refines :
      (path : Text) (heads : Dict HeadFile) (before : Log) (head : Fields) (n : ℕ)
      (id status : Text)
      → Represents before (lookup path heads)
      → IsHead n id status head
      → Refines before path head heads (replace_head validate_producer_head path head heads)
  unfolding replace_head write_head Refines
  replace_head-Refines path heads before head n id status shown is_head =
      by_answer (may_replace validate_producer_head (lookup path heads) head) refl
    where
      by_answer :
          (answer : Result HeadError (Unit {0}))
          → may_replace validate_producer_head (lookup path heads) head ≡ answer
          → Refines before path head heads (write_head path head heads answer)
      by_answer (err error) e = refl
      by_answer (ok done) e =
          let (next, (appends, represents)) =
            may_replace-Represents _ before head n id status shown is_head e in
          (
            refl,
            (
              next,
              (
                appends,
                subst (Represents next) (sym (lookup-insert_same path (some (object head)) heads))
                    represents,
              ),
            ),
          )
