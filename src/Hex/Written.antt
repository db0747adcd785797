-- ===== src/Hex/Written.antt =====
-- Text(16) tells the number that it is written for.
use aa_sdk_go.Prelude.{
  ℕ, suc, ◌≡◌, ◌≢◌, refl, sym, ap, ◌∙◌, List, [], ◌∷◌, map, arith, Bool-cases, inl, inr, ◌==◌,
  if◌then◌else◌,
}
use aa_sdk_go.Prelude.Int.{ℤ, pos, negsuc}
use aa_sdk_go.Digits.{digits, value, AllBelow, value-digits, digits-AllBelow}
use aa_sdk_go.Hex.{Text, hex_char, text_of, text_16}
use aa_sdk_go.Hex.Laws.{hex_char_injective}

-- The digits that are written: one zero for zero.
text_digits : ℕ → List ℕ
text_digits n = if n == 0 then 0 ∷ [] else digits 16 n

text_of-text_digits : (n : ℕ) → text_of n ≡ map hex_char (text_digits n)
unfolding text_of text_digits
text_of-text_digits n = elim (Bool-cases (n == 0)) [
  | inl e ↦ rw e (unfold hex_char in refl)
  | inr e ↦ rw e refl
]

value-text_digits : (n : ℕ) → value 16 (text_digits n) ≡ n
unfolding text_digits
value-text_digits n = elim (Bool-cases (n == 0)) [
  | inl e ↦ rw e (unfold value in ground arith)
  | inr e ↦ rw e (value-digits 16 n (omega arith))
]

text_digits-AllBelow : (n : ℕ) → AllBelow 16 (text_digits n)
unfolding text_digits
text_digits-AllBelow n = elim (Bool-cases (n == 0)) [
  | inl e ↦ rw e (omega arith)
  | inr e ↦ rw e (digits-AllBelow 16 n (omega arith))
]

map-hex_char_injective :
    (ds es : List ℕ) → AllBelow 16 ds → AllBelow 16 es → map hex_char ds ≡ map hex_char es → ds ≡ es
map-hex_char_injective [] [] hd he e = refl
map-hex_char_injective [] (y ∷ es) hd he e = cc
map-hex_char_injective (d ∷ ds) [] hd he e = cc
map-hex_char_injective (d ∷ ds) (x ∷ es) hd he e =
    cc (hex_char_injective d x hd.0 he.0 (cc), map-hex_char_injective ds es hd.1 he.1 (cc))

text_of_injective : (n m : ℕ) → text_of n ≡ text_of m → n ≡ m
text_of_injective n m e =
    sym (value-text_digits n)
    ∙ ap (value 16) (
        map-hex_char_injective (text_digits n) (text_digits m) (text_digits-AllBelow n)
          (text_digits-AllBelow m) (sym (text_of-text_digits n) ∙ e ∙ text_of-text_digits m))
    ∙ value-text_digits m

no_sign : (ds : List ℕ) (t : Text) → map hex_char ds ≢ b'-' ∷ t
unfolding hex_char
no_sign [] t e = cc
no_sign (d ∷ ds) t e = ground arith

-- Two integers with one text are equal.
pub text_16_injective : (x y : ℤ) → text_16 x ≡ text_16 y → x ≡ y
unfolding text_16
text_16_injective (pos n) (pos m) e = ap pos (text_of_injective n m e)
text_16_injective (pos n) (negsuc m) e =
    absurd (no_sign (text_digits n) _ (sym (text_of-text_digits n) ∙ e))
text_16_injective (negsuc n) (pos m) e =
    absurd (no_sign (text_digits m) _ (sym (text_of-text_digits m) ∙ sym e))
text_16_injective (negsuc n) (negsuc m) e = ground (arith, text_of_injective (suc n) (suc m) (cc))
