-- ===== src/Bytes/Padding.antt =====
-- Zero padding keeps the value, and a number is read back from its padded bytes.
use aa_sdk_go.Prelude.{
  ℕ, ◌-◌, ◌^◌, ◌≤◌, ◌<◌, ◌≡◌, refl, ◌∙◌, [], ◌∷◌, length, length-append, length-replicate,
  All-append, All-replicate, replicate, take-length, append-nil, ◌↔◌, true, ==_iff, arith,
}
use aa_sdk_go.Prelude.Int.{ℤ, nat_abs}
use aa_sdk_go.Digits.{
  value, AllBelow, value-digits, digits-AllBelow, length-digits, value-replicate, digits,
}
use aa_sdk_go.Bytes.{Bytes, IsArray, big_bytes, copy_into, pad_left, eq_bytes}

length-pad_left : (n : ℕ) (bs : Bytes) → length bs ≤ n → length (pad_left n bs) ≡ n
length-pad_left n bs h = omega (
  arith,
  length-append (replicate (n - length bs) 0) bs,
  length-replicate {A = ℕ} (n - length bs) 0,
)

pub pad_left-IsArray :
    (n : ℕ) (bs : Bytes) → length bs ≤ n → AllBelow 256 bs → IsArray n (pad_left n bs)
pad_left-IsArray n bs h all = (
  length-pad_left n bs h,
  All-append (λ d. d < 256) (replicate (n - length bs) 0) bs
      (All-replicate (λ d. d < 256) (n - length bs) (omega arith)) all,
)

-- A number below 256 ^ w, padded to `w` bytes.
pub big_bytes-IsArray : (w : ℕ) (x : ℤ) → nat_abs x < 256 ^ w → IsArray w (pad_left w (big_bytes x))
unfolding big_bytes
big_bytes-IsArray w x h =
    pad_left-IsArray w (digits 256 (nat_abs x)) (length-digits 256 w (nat_abs x) (omega arith) h)
      (digits-AllBelow 256 (nat_abs x) (omega arith))

pub value-pad_left : (w : ℕ) (x : ℤ) → value 256 (pad_left w (big_bytes x)) ≡ nat_abs x
unfolding big_bytes
value-pad_left w x =
    value-replicate 256 (w - length (digits 256 (nat_abs x))) (digits 256 (nat_abs x))
    ∙ value-digits 256 (nat_abs x) (omega arith)

pub copy_into_exact : (n : ℕ) (bs : Bytes) → length bs ≡ n → copy_into n bs ≡ bs
copy_into_exact n bs h =
    let none_left : n - length bs ≡ 0 = omega arith in
    rw (take-length n bs h, none_left) (append-nil bs)

pub eq_bytes_iff : (as' bs : Bytes) → (eq_bytes as' bs ≡ true) ↔ (as' ≡ bs)
eq_bytes_iff [] [] = (λ _. refl, λ _. refl)
eq_bytes_iff [] (b ∷ bs) = (λ h. cc, λ h. cc)
eq_bytes_iff (a ∷ as') [] = (λ h. cc, λ h. cc)
eq_bytes_iff (a ∷ as') (b ∷ bs) = ground (arith, ==_iff a b, eq_bytes_iff as' bs)
