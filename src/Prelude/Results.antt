-- ===== src/Prelude/Results.antt =====
-- Code that may raise: `ok` is a return, `err` a raised exception of the component's own type.
use mathlib.Core.Path.{◌≡◌, refl}
use mathlib.Core.Bool.{Bool, true, false, not}

pub data Result {ℓ κ} (E : Type ℓ) (A : Type κ) : Type (ℓ ⊔ κ) where
  ok : A → Result E A
  err : E → Result E A

-- `if test: raise e`
abbrev pub raise_if {ℓ} : {E : Type ℓ} → Bool → E → Result E (Unit {0})
raise_if true e = err e
raise_if false e = ok tt

infixl 5 ◌>>=◌
abbrev pub ◌>>=◌ {ℓ κ μ} :
    {E : Type ℓ} {A : Type κ} {B : Type μ} → Result E A → (A → Result E B) → Result E B
ok value >>= next = next value
err raised >>= next = err raised

-- A statement whose value is not used.
infixl 5 ◌>>◌
abbrev pub ◌>>◌ {ℓ κ μ} :
    {E : Type ℓ} {A : Type κ} {B : Type μ} → Result E A → Result E B → Result E B
first >> rest = first >>= λ unused. rest

-- What a chain returned came from a first part that returned.
pub >>=-eq-ok {ℓ κ μ} :
    {E : Type ℓ} {A : Type κ} {B : Type μ} (first : Result E A) (next : A → Result E B)
    {returned : B}
    → (first >>= next) ≡ ok returned
    → (value : A) × (first ≡ ok value) × (next value ≡ ok returned)
>>=-eq-ok (err raised) next chain = cc
>>=-eq-ok (ok value) next chain = (value, refl, chain)

abbrev pub is_ok {ℓ κ} : {E : Type ℓ} {A : Type κ} → Result E A → Bool
is_ok (ok a) = true
is_ok (err e) = false

-- The error of a component as an error of its caller.
abbrev pub map_err {ℓ κ μ} :
    {E : Type ℓ} {F : Type κ} {A : Type μ} → (E → F) → Result E A → Result F A
map_err f (ok a) = ok a
map_err f (err e) = err (f e)

-- A test that did not raise.
pub raise_if-eq-ok {ℓ} :
    {E : Type ℓ} (test : Bool) (e : E) {u : Unit {0}} → raise_if test e ≡ ok u → test ≡ false
raise_if-eq-ok true e h = cc
raise_if-eq-ok false e h = refl

-- `if test: raise e` before the rest of a chain that returned.
pub raise_if->>-eq-ok {ℓ κ} :
    {E : Type ℓ} {A : Type κ} (test : Bool) (e : E) (rest : Result E A) {value : A}
    → (raise_if test e >> rest) ≡ ok value
    → (test ≡ false) × (rest ≡ ok value)
raise_if->>-eq-ok true e rest h = cc
raise_if->>-eq-ok false e rest h = (refl, h)

-- The same with `if not test: raise e`.
pub raise_if-not->>-eq-ok {ℓ κ} :
    {E : Type ℓ} {A : Type κ} (test : Bool) (e : E) (rest : Result E A) {value : A}
    → (raise_if (not test) e >> rest) ≡ ok value
    → (test ≡ true) × (rest ≡ ok value)
raise_if-not->>-eq-ok true e rest h = (refl, h)
raise_if-not->>-eq-ok false e rest h = cc

pub ok_inj {ℓ κ} :
    {E : Type ℓ} {A : Type κ} (a b : A) (returned : Result E A)
    → returned ≡ ok a
    → returned ≡ ok b
    → a ≡ b
ok_inj a b returned h k = cc

pub raise_if-not-eq-ok {ℓ} :
    {E : Type ℓ} (test : Bool) (e : E) {u : Unit {0}} → raise_if (not test) e ≡ ok u → test ≡ true
raise_if-not-eq-ok true e h = refl
raise_if-not-eq-ok false e h = cc
