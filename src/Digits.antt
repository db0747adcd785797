-- ===== src/Digits.antt =====
-- Positional notation, most significant digit first, in any base: what the standard library's
-- big.Int.Bytes, SetBytes and Text, and fmt's %d, compute with.
use aa_sdk_go.Prelude.{
  ℕ, zero, suc, ◌+◌, ◌*◌, ◌/◌, ◌%◌, ◌^◌, ◌≤◌, ◌<◌, ◌≡◌, ◌≢◌, refl, sym, ap, ◌∙◌, List, [], ◌∷◌,
  ◌++◌, length, length-append, All, All-append, replicate, ◌==◌, if◌then◌else◌, dec_lt, Bool-cases,
  inl, inr, arith,
}
use native.Mathlib.Nat.{
  pow-zero, pow-suc, pow-le-pow_right, pow-succ', mul_assoc, mul-le-mul_right, add_left_cancel,
  mul-add-div_right, div-eq_of_lt, div-add-mod', mod-lt, div-lt_self, div-lt_iff_lt-mul, zero-mul,
}

-- The digits of `n`, none for zero; `fuel` is at least the number of digits.
digits_loop : ℕ → ℕ → ℕ → List ℕ
digits_loop b zero n = []
digits_loop b (suc fuel) n =
    let more = digits_loop b fuel (n / b) ++ (n % b ∷ []) in if n == 0 then [] else more

-- A number has at most as many digits as its value, so `n` rounds are enough.
unfoldable pub digits : ℕ → ℕ → List ℕ
unfolding digits_loop
digits b n = digits_loop b n n

unfoldable pub value_from : ℕ → ℕ → List ℕ → ℕ
value_from b acc [] = acc
value_from b acc (d ∷ ds) = value_from b (acc * b + d) ds

unfoldable pub value : ℕ → List ℕ → ℕ
unfolding value_from
value b ds = value_from b 0 ds

abbrev pub AllBelow : ℕ → List ℕ → Type 0
AllBelow b ds = All (λ d. d < b) ds

bytes_300 : digits 256 300 ≡ 1 ∷ 44 ∷ []
unfolding digits
bytes_300 = refl

value_from-append :
    (b acc : ℕ) (xs ys : List ℕ)
    → value_from b acc (xs ++ ys) ≡ value_from b (value_from b acc xs) ys
unfolding value_from
value_from-append b acc [] ys = refl
value_from-append b acc (x ∷ xs) ys = value_from-append b (acc * b + x) xs ys

pub value-snoc : (b : ℕ) (xs : List ℕ) (d : ℕ) → value b (xs ++ (d ∷ [])) ≡ value b xs * b + d
unfolding value
value-snoc b xs d = value_from-append b 0 xs (d ∷ [])

div_smaller : (b n f : ℕ) → 1 < b → n ≢ 0 → n ≤ suc f → n / b ≤ f
div_smaller b n f hb hn h = omega (arith, div-lt_self {n = n} {k = b} (omega arith) hb)

value-digits_loop : (b f n : ℕ) → 1 < b → n ≤ f → value b (digits_loop b f n) ≡ n
unfolding digits_loop
value-digits_loop b zero n hb h = unfold value in omega arith
value-digits_loop b (suc f) n hb h = elim (Bool-cases (n == 0)) [
  | inl e ↦ rw e (unfold value in ground arith)
  | inr e ↦
      rw (e, value-snoc, value-digits_loop b f (n / b) hb (div_smaller b n f hb (ground arith) h))
        (div-add-mod' n b)
]

-- The digits of a number have its value.
pub value-digits : (b n : ℕ) → 1 < b → value b (digits b n) ≡ n
unfolding digits
value-digits b n hb = value-digits_loop b n n hb (omega arith)

digits_loop-AllBelow : (b f n : ℕ) → 1 < b → AllBelow b (digits_loop b f n)
unfolding digits_loop
digits_loop-AllBelow b zero n hb = tt
digits_loop-AllBelow b (suc f) n hb = elim (Bool-cases (n == 0)) [
  | inl e ↦ rw e tt
  | inr e ↦ rw e (
      All-append (λ d. d < b) (digits_loop b f (n / b)) (n % b ∷ [])
        (digits_loop-AllBelow b f (n / b) hb) (mod-lt n (omega arith), tt))
]

pub digits-AllBelow : (b n : ℕ) → 1 < b → AllBelow b (digits b n)
unfolding digits
digits-AllBelow b n hb = digits_loop-AllBelow b n n hb

length-digits_loop : (b k f n : ℕ) → 1 < b → n < b ^ k → length (digits_loop b f n) ≤ k
unfolding digits_loop
length-digits_loop b k zero n hb h = omega arith
length-digits_loop b zero (suc f) n hb h = ground (arith, pow-zero b)
length-digits_loop b (suc k) (suc f) n hb h = elim (Bool-cases (n == 0)) [
  | inl e ↦ rw e (omega arith)
  | inr e ↦
      rw (e, length-append)
        (omega (
          arith,
          length-digits_loop b k f (n / b) hb
              ((div-lt_iff_lt-mul (omega arith)).1 (rw (pow-suc b k) at h)),
        ))
]

-- A number below `b ^ k` has at most `k` digits.
pub length-digits : (b k n : ℕ) → 1 < b → n < b ^ k → length (digits b n) ≤ k
unfolding digits
length-digits b k n hb h = length-digits_loop b k n n hb h

-- Leading zeros do not count.
pub value-replicate : (b k : ℕ) (ds : List ℕ) → value b (replicate k 0 ++ ds) ≡ value b ds
unfolding value
value-replicate b zero ds = refl
value-replicate b (suc k) ds =
    ap (λ t. value_from b (t + 0) (replicate k 0 ++ ds)) (zero-mul b) ∙ value-replicate b k ds

value_from-lt :
    (b acc : ℕ) (ds : List ℕ) → AllBelow b ds → value_from b acc ds < (acc + 1) * b ^ length ds
unfolding value_from
value_from-lt b acc [] h = rw pow-zero (omega arith)
value_from-lt b acc (d ∷ ds) h =
    let step : (acc * b + d + 1) * b ^ length ds ≤ (acc + 1) * b ^ suc (length ds) =
      rw (pow-succ' b (length ds), ← mul_assoc (acc + 1) b (b ^ length ds))
        (mul-le-mul_right (b ^ length ds) (grind arith)) in
    omega (arith, value_from-lt b (acc * b + d) ds h.1, step)

-- `k` digits make a number below `b ^ k`.
pub value-lt : (b : ℕ) (ds : List ℕ) → AllBelow b ds → value b ds < b ^ length ds
unfolding value
value-lt b ds h = omega (arith, value_from-lt b 0 ds h)

high_digit : (b q d : ℕ) → d < b → (q * b + d) / b ≡ q
high_digit b q d h =
    mul-add-div_right {m = b} (omega arith) q d ∙ omega (arith, div-eq_of_lt {n = d} {m = b} h)

digit_injective : (b q r d e : ℕ) → d < b → e < b → q * b + d ≡ r * b + e → (q ≡ r) × (d ≡ e)
digit_injective b q r d e hd he h =
    let same : q ≡ r = sym (high_digit b q d hd) ∙ ap (λ t. t / b) h ∙ high_digit b r e he in
    (same, add_left_cancel (q * b) (h ∙ ap (λ t. t * b + e) (sym same)))

value_from_injective :
    (b p q : ℕ) (xs ys : List ℕ)
    → AllBelow b xs
    → AllBelow b ys
    → length xs ≡ length ys
    → value_from b p xs ≡ value_from b q ys
    → (p ≡ q) × (xs ≡ ys)
unfolding value_from
value_from_injective b p q [] [] hx hy l e = (e, refl)
value_from_injective b p q [] (y ∷ ys) hx hy l e = absurd (omega arith)
value_from_injective b p q (x ∷ xs) [] hx hy l e = absurd (omega arith)
value_from_injective b p q (x ∷ xs) (y ∷ ys) hx hy l e =
    let (front, back) =
      value_from_injective b (p * b + x) (q * b + y) xs ys hx.1 hy.1 (omega arith) e in
    let (high, low) = digit_injective b p q x y hx.0 hy.0 front in (high, cc)

-- Digit lists of one length are told apart by their values.
pub value_injective :
    (b : ℕ) (xs ys : List ℕ)
    → AllBelow b xs
    → AllBelow b ys
    → length xs ≡ length ys
    → value b xs ≡ value b ys
    → xs ≡ ys
unfolding value
value_injective b xs ys hx hy l e = (value_from_injective b 0 0 xs ys hx hy l e).1

-- A number from `b ^ k` on has more than `k` digits.
pub length-digits_gt : (b k n : ℕ) → 1 < b → b ^ k ≤ n → k < length (digits b n)
length-digits_gt b k n hb h = elim (dec_lt k (length (digits b n))) [
  | yes more ↦ more
  | no few ↦
      let small : n < b ^ length (digits b n) =
        rw (value-digits b n hb) at (value-lt b (digits b n) (digits-AllBelow b n hb)) in
      let powers : b ^ length (digits b n) ≤ b ^ k =
        pow-le-pow_right {n = b} (omega arith) (omega arith) in
      absurd (omega arith)
]
