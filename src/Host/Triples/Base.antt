-- ===== src/Host/Triples/Base.antt =====
-- What holds after an action of the host, by its answer: one condition where it returns, another
-- where it raises or the host is killed. The rules follow the ways in which actions are put together.
use msos_autobuilder.Prelude.{
  ℕ, zero, suc, Option, none, some, Text, Result, ok, err, Bool, true, false, ◌≡◌, refl,
}
use msos_autobuilder.Host.Jobs.{HostError}
use msos_autobuilder.Host.Store.{
  HostStore, Process, Answer, returned, raised, crashed, Action, return, raise, pure_call,
  refuse_if, with_store, answer, operation,
}
use msos_autobuilder.Host.Files.{Change, commit, file_operation, token_hex}
use msos_autobuilder.Host.Tools.{outside, call}

-- A condition on the store.
abbrev pub Cond : Type 0 → Type 1
Cond M = HostStore M → Type 0

abbrev pub Post : {M A : Type 0} → (A → Cond M) → Cond M → Answer A × Process M → Type 0
Post Q E (returned value, process) = Q value process.store
Post Q E (raised e, process) = E process.store
Post Q E (crashed, process) = E process.store

pub record Triple {M A : Type 0} (P : Cond M) (action : Action M A) (Q : A → Cond M) (E : Cond M)
    : Type 0 where
  pub holds : (process : Process M) → P process.store → Post Q E (action process)

-- The same condition before and after, whatever the answer.
abbrev pub Keeps : {M A : Type 0} → Cond M → Action M A → Type 0
Keeps P action = Triple P action (λ value. P) P

abbrev pub Effect :
    {M A : Type 0} → (A → Cond M) → Cond M → Result HostError A × HostStore M → Type 0
Effect Q E (ok value, store) = Q value store
Effect Q E (err e, store) = E store

module _ {M A : Type 0} {P : Cond M} {Q : A → Cond M} {E : Cond M} where
  pub Triple-return :
      (value : A) → ((s : HostStore M) → P s → Q value s) → Triple P (return value) Q E
  Triple-return value h = record { holds = λ process p. h process.store p }

  pub Triple-raise : (e : HostError) → ((s : HostStore M) → P s → E s) → Triple P (raise e) Q E
  Triple-raise e h = record { holds = λ process p. h process.store p }

  pub Triple-pure_call :
      (r : Result HostError A)
      → ((value : A) (s : HostStore M) → r ≡ ok value → P s → Q value s)
      → ((s : HostStore M) → P s → E s)
      → Triple P (pure_call r) Q E
  unfolding pure_call
  Triple-pure_call (ok value) h k = record { holds = λ process p. h value process.store refl p }
  Triple-pure_call (err e) h k = record { holds = λ process p. k process.store p }

  pub Triple-with_store :
      {next : HostStore M → Action M A}
      → ((s : HostStore M) → Triple (λ t. (t ≡ s) × P t) (next s) Q E)
      → Triple P (with_store next) Q E
  unfolding with_store
  Triple-with_store h = record { holds = λ process p. (h process.store).holds process (refl, p) }

answer-Post :
    {M A : Type 0} (Q : A → Cond M) (E : Cond M) (r : Result HostError A × HostStore M)
    (left : Option ℕ)
    → Effect Q E r
    → Post Q E (answer r left)
answer-Post Q E (ok value, store) left h = h
answer-Post Q E (err e, store) left h = h

operation-Post :
    {M A : Type 0} (Q : A → Cond M) (E : Cond M)
    (act : HostStore M → Result HostError A × HostStore M) (left : Option ℕ) (s : HostStore M)
    → E s
    → Effect Q E (act s)
    → Post Q E (operation act (record { store = s; crash_in = left }))
unfolding operation
operation-Post Q E act none s k h = answer-Post Q E (act s) none h
operation-Post Q E act (some zero) s k h = k
operation-Post Q E act (some (suc left)) s k h = answer-Post Q E (act s) (some left) h

-- What a change that does not raise leads to.
abbrev pub Settles : {M : Type 0} → Cond M → Result HostError (HostStore M) → Type 0
Settles Q (ok changed) = Q changed
Settles Q (err e) = Unit {0}

commit-Effect :
    {M : Type 0} (Q E : Cond M) (store : HostStore M) (r : Result HostError (HostStore M))
    → E store
    → Settles Q r
    → Effect (λ u. Q) E (commit store r)
commit-Effect Q E store (ok changed) k h = h
commit-Effect Q E store (err e) k h = k

pub Triple-file_operation :
    {M : Type 0} {P Q E : Cond M}
    → (change : Change M) → ((s : HostStore M) → P s → E s)
    → ((s : HostStore M) → P s → Settles Q (change s))
    → Triple P (file_operation change) (λ u. Q) E
unfolding file_operation
Triple-file_operation {Q} {E} change k h = record {
  holds = λ process p.
      operation-Post (λ u. Q) E (λ store. commit store (change store)) process.crash_in
        process.store (k process.store p)
        (commit-Effect Q E process.store (change process.store) (k process.store p)
          (h process.store p));
}

pub Settles-weaken :
    {M : Type 0} {Q R : Cond M} (r : Result HostError (HostStore M))
    → ((s : HostStore M) → Q s → R s)
    → Settles Q r
    → Settles R r
Settles-weaken (ok changed) h q = h changed q
Settles-weaken (err e) h q = tt

pub Settles-both :
    {M : Type 0} (Q R : Cond M) (r : Result HostError (HostStore M))
    → Settles Q r
    → Settles R r
    → Settles (λ s. Q s × R s) r
Settles-both Q R (ok changed) h k = (h, k)
Settles-both Q R (err e) h k = tt

outside-Post :
    {M A : Type 0} (Q : A → Cond M) (E : Cond M) (r : Result Text A × M) (process : Process M)
    → ((value : A) (machine : M) → Q value (record process.store { machine = machine }))
    → ((machine : M) → E (record process.store { machine = machine }))
    → Post Q E (outside r process)
unfolding outside
outside-Post Q E (ok value, machine) process h k = h value machine
outside-Post Q E (err message, machine) process h k = k machine

module _ {M A : Type 0} {P : Cond M} {Q : A → Cond M} {E : Cond M} where
  pub Triple-operation :
      (act : HostStore M → Result HostError A × HostStore M)
      → ((s : HostStore M) → P s → E s)
      → ((s : HostStore M) → P s → Effect Q E (act s))
      → Triple P (operation act) Q E
  Triple-operation act k h = record {
    holds = λ process p.
        operation-Post Q E act process.crash_in process.store (k process.store p)
          (h process.store p);
  }

  -- A call that changes only what is outside.
  pub Triple-call :
      (act : M → Result Text A × M)
      → ((value : A) (s : HostStore M) (machine : M)
          → P s
          → Q value (record s { machine = machine }))
      → ((s : HostStore M) (machine : M) → P s → E (record s { machine = machine }))
      → Triple P (call act) Q E
  unfolding call
  Triple-call act h k = record {
    holds = λ process p.
        outside-Post Q E (act process.store.machine) process
          (λ value machine. h value process.store machine p) (λ machine. k process.store machine p);
  }

pub Triple-token_hex :
    {M : Type 0} {P : Cond M} {Q : Text → Cond M} {E : Cond M}
    → (token : ℕ → Text)
    → ((value : Text) (s : HostStore M) (n : ℕ) → P s → Q value (record s { drawn = n }))
    → Triple P (token_hex token) Q E
unfolding token_hex
Triple-token_hex token h = record { holds = λ process p. h _ process.store _ p }

pub Triple-refuse_if :
    {M : Type 0} {P Q E : Cond M}
    → (test : Bool) → (e : HostError) → ((s : HostStore M) → test ≡ false → P s → Q s)
    → ((s : HostStore M) → P s → E s)
    → Triple P (refuse_if test e) (λ u. Q) E
unfolding refuse_if
Triple-refuse_if true e h k = record { holds = λ process p. k process.store p }
Triple-refuse_if false e h k = record { holds = λ process p. h process.store refl p }
