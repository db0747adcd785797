-- ===== src/Prelude/State.antt =====
-- Go code that changes what it points to: a function from a state to a result and the state after
-- it, which an error and a panic leave as far as it was changed.
use aa_sdk_go.Prelude.{◌≡◌, refl, ap, String}
use aa_sdk_go.Prelude.Outcome.{Result, ok, err, panic, wrapping, wrapping-eq-ok}

abbrev pub Action : Type 0 → Type 0 → Type 0
Action S A = S → Result A × S

-- Go on with a value; stop at an error or a panic.
abbrev pub after : {S A B : Type 0} → Result A × S → (A → Action S B) → Result B × S
after (ok a, t) f = f a t
after (err e, t) f = (err e, t)
after (panic p, t) f = (panic p, t)

infixl 5 ◌>>=◌ ◌>>◌
abbrev pub ◌>>=◌ : {S A B : Type 0} → Action S A → (A → Action S B) → Action S B
◌>>=◌ m f s = after (m s) f

abbrev pub ◌>>◌ : {S B : Type 0} → Action S (Unit {0}) → Action S B → Action S B
m >> k = m >>= λ _. k

abbrev pub pure : {S A : Type 0} → A → Action S A
pure a s = (ok a, s)

-- A call that does not touch the state.
abbrev pub lift : {S A : Type 0} → Result A → Action S A
lift r s = (r, s)

abbrev pub modify : {S : Type 0} → (S → S) → Action S (Unit {0})
modify f s = (ok tt, f s)

abbrev pub read : {S A : Type 0} → (S → A) → Action S A
read f s = (ok (f s), s)

-- `if err != nil { return …, fmt.Errorf("text: %v", err) }`
abbrev pub wrapped : {S A : Type 0} → String → Action S A → Action S A
wrapped text m s = (wrapping text (m s).0, (m s).1)

after-eq-ok :
    {S A B : Type 0} (r : Result A × S) (f : A → Action S B) {u : S} {b : B}
    → after r f ≡ (ok b, u)
    → (a : A) × (t : S) × (r ≡ (ok a, t)) × (f a t ≡ (ok b, u))
after-eq-ok (ok a, t) f e = (a, t, refl, e)
after-eq-ok (err x, t) f e = cc
after-eq-ok (panic p, t) f e = cc

-- A chain that succeeds has a first part that does.
pub >>=-eq-ok :
    {S A B : Type 0} (m : Action S A) (f : A → Action S B) {s u : S} {b : B}
    → (m >>= f) s ≡ (ok b, u)
    → (a : A) × (t : S) × (m s ≡ (ok a, t)) × (f a t ≡ (ok b, u))
>>=-eq-ok m f {s} e = after-eq-ok (m s) f e

pub wrapped-eq-ok :
    {S A : Type 0} (text : String) (m : Action S A) {s t : S} {a : A}
    → wrapped text m s ≡ (ok a, t)
    → m s ≡ (ok a, t)
wrapped-eq-ok text m {s} e = λ i. (wrapping-eq-ok text (m s).0 (ap (λ r. r.0) e) i, (e i).1)

-- A step that only computes.
pub lift-eq-ok :
    {S A B : Type 0} (r : Result A) (s : S) (f : A → Action S B) {u : S} {b : B}
    → after (r, s) f ≡ (ok b, u)
    → (a : A) × (r ≡ ok a) × (f a s ≡ (ok b, u))
lift-eq-ok (ok a) s f e = (a, refl, e)
lift-eq-ok (err x) s f e = cc
lift-eq-ok (panic p) s f e = cc

-- Two returns that are one.
pub same_return :
    {S A : Type 0} {a b : A} {s t : S}
    → ◌≡◌ {A = Result A × S} (ok a, s) (ok b, t)
    → (a ≡ b) × (s ≡ t)
same_return e = (cc, ap (λ r. r.1) e)

-- An action after which `P` holds if it held before, whatever the outcome.
abbrev pub Keeps : {S A : Type 0} → (S → Type 0) → Action S A → Type 0
Keeps {S} P m = (s : S) → P s → P (m s).1

pub Keeps-after :
    {S A B : Type 0} (P : S → Type 0) (r : Result A × S) (f : A → Action S B)
    → P r.1
    → ((a : A) → Keeps P (f a))
    → P (after r f).1
Keeps-after P (ok a, t) f h k = k a t h
Keeps-after P (err e, t) f h k = h
Keeps-after P (panic p, t) f h k = h

pub Keeps-bind :
    {S A B : Type 0} (P : S → Type 0) (m : Action S A) (f : A → Action S B)
    → Keeps P m
    → ((a : A) → Keeps P (f a))
    → Keeps P (m >>= f)
Keeps-bind P m f hm hf s h = Keeps-after P (m s) f (hm s h) hf

-- The same for a step that only computes, at one state.
pub Keeps-lift :
    {S A B : Type 0} (P : S → Type 0) (r : Result A) (s : S) (f : A → Action S B)
    → P s
    → ((a : A) → P (f a s).1)
    → P (after (r, s) f).1
Keeps-lift P (ok a) s f h k = k a
Keeps-lift P (err e) s f h k = h
Keeps-lift P (panic p) s f h k = h
