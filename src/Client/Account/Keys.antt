-- ===== src/Client/Account/Keys.antt =====
-- The keys of the address cache: another owner or another salt has another key.
use aa_sdk_go.Prelude.{
  ℕ, suc, ◌+◌, ◌-◌, ◌<◌, ◌≤◌, ◌≡◌, refl, sym, ap, ◌∙◌, Option, none, some, List, [], ◌∷◌, map, All,
  append-injective, ◌==◌, Bool-cases, inl, inr, arith,
}
use aa_sdk_go.Prelude.Int.{ℤ, pos, negsuc}
use aa_sdk_go.Digits.{digits, value, value-digits, digits-AllBelow, AllBelow}
use aa_sdk_go.Bytes.{Address, IsArray}
use aa_sdk_go.Hex.{Text}
use aa_sdk_go.Ethereum.{Ethereum, IsDocumented}
use aa_sdk_go.Signing.{decimal}
use aa_sdk_go.Client.Account.{salt_text, account_key}

-- The number that a decimal text is of.
read_decimal : Text → ℕ
read_decimal s = value 10 (map (λ c. c - b'0') s)

unshifted : (ds : List ℕ) → map (λ c. c - b'0') (map (λ d. d + b'0') ds) ≡ ds
unshifted [] = refl
unshifted (d ∷ ds) = rw (unshifted ds) (ap (λ e. e ∷ ds) (omega arith))

read_decimal-decimal : (n : ℕ) → read_decimal (decimal n) ≡ n
unfolding read_decimal decimal value
read_decimal-decimal n = elim (Bool-cases (n == 0)) [
  | inl e ↦ rw e (ground arith)
  | inr e ↦ rw (e, unshifted (digits 10 n)) (value-digits 10 n (omega arith))
]

-- A character that is a decimal digit.
abbrev IsDigit : ℕ → Type 0
IsDigit c = (b'0' ≤ c) × (c < b'0' + 10)

shifted-IsDigit : (ds : List ℕ) → AllBelow 10 ds → All IsDigit (map (λ d. d + b'0') ds)
shifted-IsDigit [] h = tt
shifted-IsDigit (d ∷ ds) h = ((omega arith, omega arith), shifted-IsDigit ds h.1)

decimal-IsDigit : (n : ℕ) → All IsDigit (decimal n)
unfolding decimal
decimal-IsDigit n = elim (Bool-cases (n == 0)) [
  | inl e ↦ rw e ((omega arith, omega arith), tt)
  | inr e ↦ rw e (shifted-IsDigit (digits 10 n) (digits-AllBelow 10 n (omega arith)))
]

-- A decimal text does not begin with any other character.
first-IsDigit : (n c : ℕ) (s : Text) → c ∷ s ≡ decimal n → IsDigit c
first-IsDigit n c s e = (rw (sym e) at (decimal-IsDigit n)).0

decimal_injective : (n m : ℕ) → decimal n ≡ decimal m → n ≡ m
decimal_injective n m e = sym (read_decimal-decimal n) ∙ ap read_decimal e ∙ read_decimal-decimal m

salt_text_injective : (x y : Option ℤ) → salt_text x ≡ salt_text y → x ≡ y
unfolding salt_text
salt_text_injective none none e = refl
salt_text_injective none (some (pos m)) e = absurd (omega (arith, first-IsDigit m _ _ e))
salt_text_injective none (some (negsuc m)) e = cc
salt_text_injective (some (pos n)) none e = absurd (omega (arith, first-IsDigit n _ _ (sym e)))
salt_text_injective (some (pos n)) (some (pos m)) e =
    ap (λ k. some (pos k)) (decimal_injective n m e)
salt_text_injective (some (pos n)) (some (negsuc m)) e =
    absurd (omega (arith, first-IsDigit n _ _ (sym e)))
salt_text_injective (some (negsuc n)) none e = cc
salt_text_injective (some (negsuc n)) (some (pos m)) e =
    absurd (omega (arith, first-IsDigit m _ _ e))
salt_text_injective (some (negsuc n)) (some (negsuc m)) e =
    let same : suc n ≡ suc m = decimal_injective (suc n) (suc m) (cc) in
    let inner : n ≡ m = omega arith in ap (λ k. some (negsuc k)) inner

module _ {Key Abi : Type 0} (g : Ethereum Key Abi) where
  pub account_key_injective :
      IsDocumented g
      → (a b : Address) (x y : Option ℤ) → IsArray 20 a
      → IsArray 20 b
      → account_key g a x ≡ account_key g b y
      → (a ≡ b) × (x ≡ y)
  unfolding account_key
  account_key_injective doc a b x y ha hb e =
      let (owners, rest) =
        append-injective (g.address_hex a) (g.address_hex b)
          (doc.length-address_hex a ha ∙ sym (doc.length-address_hex b hb)) e in
      (doc.address_hex_injective a b ha hb owners, salt_text_injective x y (cc rest))
