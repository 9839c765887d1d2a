-- ===== src/Host/Triples/Rules.antt =====
-- The rules for conditionals, sequences and handlers, and those that change conditions.
use msos_autobuilder.Prelude.{Bool, true, false, if◌then◌else◌, ◌≡◌, refl}
use msos_autobuilder.Host.Jobs.{HostError}
use msos_autobuilder.Host.Store.{
  HostStore, Process, Answer, returned, raised, crashed, Action, after, ◌>>=◌, handle, try_except,
}
use msos_autobuilder.Host.Triples.Base.{Cond, Post, Triple}

pub Triple-if :
    {M A : Type 0} {P : Cond M} {Q : A → Cond M} {E : Cond M} {first second : Action M A}
    → (test : Bool) → (test ≡ true → Triple P first Q E)
    → (test ≡ false → Triple P second Q E)
    → Triple P (if test then first else second) Q E
Triple-if true h k = h refl
Triple-if false h k = k refl

after-Post :
    {M A B : Type 0} (Q : A → Cond M) (R : B → Cond M) (E : Cond M) (r : Answer A × Process M)
    (next : A → Action M B)
    → Post Q E r
    → ((value : A) → Triple (Q value) (next value) R E)
    → Post R E (after r next)
unfolding after
after-Post Q R E (returned value, process) next h k = (k value).holds process h
after-Post Q R E (raised e, process) next h k = h
after-Post Q R E (crashed, process) next h k = h

pub Triple->>= :
    {M A B : Type 0} {P : Cond M} {Q : A → Cond M} {R : B → Cond M} {E : Cond M}
    {action : Action M A} {next : A → Action M B}
    → Triple P action Q E
    → ((value : A) → Triple (Q value) (next value) R E)
    → Triple P (action >>= next) R E
unfolding ◌>>=◌
Triple->>= {Q} {R} {E} {action} {next} h k = record {
  holds = λ process p. after-Post Q R E (action process) next (h.holds process p) k;
}

handle-Post :
    {M A : Type 0} (Q : A → Cond M) (D E : Cond M) (r : Answer A × Process M)
    (handler : HostError → Action M A)
    → Post Q D r
    → ((s : HostStore M) → D s → E s)
    → ((e : HostError) → Triple D (handler e) Q E)
    → Post Q E (handle r handler)
unfolding handle
handle-Post Q D E (returned value, process) handler h d k = h
handle-Post Q D E (raised e, process) handler h d k = (k e).holds process h
handle-Post Q D E (crashed, process) handler h d k = d process.store h

pub Triple-try_except :
    {M A : Type 0} {P : Cond M} {Q : A → Cond M} {D E : Cond M} {body : Action M A}
    {handler : HostError → Action M A}
    → Triple P body Q D
    → ((s : HostStore M) → D s → E s)
    → ((e : HostError) → Triple D (handler e) Q E)
    → Triple P (try_except body handler) Q E
unfolding try_except
Triple-try_except {Q} {D} {E} {body} {handler} h d k = record {
  holds = λ process p. handle-Post Q D E (body process) handler (h.holds process p) d k;
}

Post-weaken :
    {M A : Type 0} (Q Q' : A → Cond M) (E E' : Cond M) (r : Answer A × Process M)
    → ((value : A) (s : HostStore M) → Q value s → Q' value s)
    → ((s : HostStore M) → E s → E' s)
    → Post Q E r
    → Post Q' E' r
Post-weaken Q Q' E E' (returned value, process) q e g = q value process.store g
Post-weaken Q Q' E E' (raised error, process) q e g = e process.store g
Post-weaken Q Q' E E' (crashed, process) q e g = e process.store g

-- Conditions may be strengthened before and weakened after.
pub Triple-weaken :
    {M A : Type 0} {P P' : Cond M} {Q Q' : A → Cond M} {E E' : Cond M} {action : Action M A}
    → Triple P action Q E
    → ((s : HostStore M) → P' s → P s)
    → ((value : A) (s : HostStore M) → Q value s → Q' value s)
    → ((s : HostStore M) → E s → E' s)
    → Triple P' action Q' E'
Triple-weaken {Q} {Q'} {E} {E'} {action} h p q e = record {
  holds = λ process given.
      Post-weaken Q Q' E E' (action process) q e (h.holds process (p process.store given));
}

Post-both :
    {M A : Type 0} (Q Q' : A → Cond M) (E E' : Cond M) (r : Answer A × Process M)
    → Post Q E r
    → Post Q' E' r
    → Post (λ value s. Q value s × Q' value s) (λ s. E s × E' s) r
Post-both Q Q' E E' (returned value, process) g h = (g, h)
Post-both Q Q' E E' (raised error, process) g h = (g, h)
Post-both Q Q' E E' (crashed, process) g h = (g, h)

-- Nothing is claimed.
Post-nothing :
    {M A : Type 0} (r : Answer A × Process M) → Post (λ value s. Unit {0}) (λ s. Unit {0}) r
Post-nothing (returned value, process) = tt
Post-nothing (raised e, process) = tt
Post-nothing (crashed, process) = tt

pub Triple-nothing :
    {M A : Type 0} {P : Cond M} {action : Action M A}
    → Triple P action (λ value s. Unit {0}) (λ s. Unit {0})
Triple-nothing {action} = record { holds = λ process p. Post-nothing (action process) }

pub Triple-both :
    {M A : Type 0} {P P' : Cond M} {Q Q' : A → Cond M} {E E' : Cond M} {action : Action M A}
    → Triple P action Q E
    → Triple P' action Q' E'
    → Triple (λ s. P s × P' s) action (λ value s. Q value s × Q' value s) (λ s. E s × E' s)
Triple-both {Q} {Q'} {E} {E'} {action} g h = record {
  holds = λ process given.
      Post-both Q Q' E E' (action process) (g.holds process given.0) (h.holds process given.1);
}

Post-all :
    {M A I : Type 0} (Q : I → A → Cond M) (E : Cond M) (r : Answer A × Process M)
    → ((s : HostStore M) → E s)
    → ((i : I) → Post (Q i) E r)
    → Post (λ value s. (i : I) → Q i value s) E r
Post-all Q E (returned value, process) e g = g
Post-all Q E (raised error, process) e g = e process.store
Post-all Q E (crashed, process) e g = e process.store

pub Triple-all :
    {M A I : Type 0} {P : I → Cond M} {Q : I → A → Cond M} {E : Cond M} {action : Action M A}
    → ((s : HostStore M) → E s)
    → ((i : I) → Triple (P i) action (Q i) E)
    → Triple (λ s. (i : I) → P i s) action (λ value s. (i : I) → Q i value s) E
Triple-all {Q} {E} {action} e h = record {
  holds = λ process given. Post-all Q E (action process) e (λ i. (h i).holds process (given i));
}

-- A condition that does not speak of the store.
pub Triple-given :
    {M A : Type 0} {F : Type 0} {P : Cond M} {Q : A → Cond M} {E : Cond M} {action : Action M A}
    → (F → Triple P action Q E)
    → Triple (λ s. F × P s) action Q E
Triple-given h = record { holds = λ process given. (h given.0).holds process given.1 }
