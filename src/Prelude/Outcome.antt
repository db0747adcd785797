-- ===== src/Prelude/Outcome.antt =====
-- What a Go call can do: return, return an error, or panic. Errors are the chain of messages that
-- fmt.Errorf builds.
use aa_sdk_go.Prelude.{ℕ, List, ◌≡◌, refl, String}

pub data Error : Type 0 where
  message : String → Error
  -- fmt.Errorf("text: %v", err)
  wrap : String → Error → Error
  -- fmt.Errorf of two numbers
  mismatch : String → ℕ → ℕ → Error
  -- fmt.Errorf("text %s", s)
  from_text : String → List ℕ → Error

pub data Fault : Type 0 where
  nil_dereference : Fault
  index_out_of_range : Fault
  divide_by_zero : Fault
  failed_assertion : Fault
  -- panic("text")
  raised : String → Fault
  -- panic(err)
  raised_error : Error → Fault

pub data Result {ℓ} (A : Type ℓ) : Type ℓ where
  ok : A → Result A
  err : Error → Result A
  panic : Fault → Result A

-- The code behind a call runs if the call returns.
infixl 5 ◌>>=◌
abbrev pub ◌>>=◌ {ℓ κ} : {A : Type ℓ} {B : Type κ} (call : Result A) → (A → Result B) → Result B
panic fault >>= rest = panic fault
err error >>= rest = err error
ok a >>= rest = rest a

-- `if err != nil { return …, fmt.Errorf("text: %v", err) }`
abbrev pub wrapping {ℓ} : {A : Type ℓ} → String → Result A → Result A
wrapping text (ok a) = ok a
wrapping text (err e) = err (wrap text e)
wrapping text (panic p) = panic p

pub >>=-eq-ok {ℓ κ} :
    {A : Type ℓ} {B : Type κ} (call : Result A) (rest : A → Result B) {last : B}
    → (call >>= rest) ≡ ok last
    → (first : A) × (call ≡ ok first) × (rest first ≡ ok last)
>>=-eq-ok (panic fault) rest e = cc
>>=-eq-ok (err error) rest e = cc
>>=-eq-ok (ok first) rest e = (first, refl, e)

pub wrapping-eq-ok {ℓ} :
    {A : Type ℓ} (text : String) (m : Result A) {a : A} → wrapping text m ≡ ok a → m ≡ ok a
wrapping-eq-ok text (ok a) h = h
wrapping-eq-ok text (err e) h = cc
wrapping-eq-ok text (panic p) h = cc
