-- ===== src/Hex/Laws.antt =====
-- Reading back what is written in hexadecimal.
use aa_sdk_go.Prelude.{
  ℕ, ◌+◌, ◌*◌, ◌/◌, ◌%◌, ◌<◌, ◌≡◌, refl, sym, ap, ◌∙◌, some, List, [], ◌∷◌, ◌++◌, map, length,
  arith,
}
use mathlib.Core.Path.{subst}
use aa_sdk_go.Digits.{
  digits, value, value_from, AllBelow, value-digits, digits-AllBelow, value-snoc,
}
use aa_sdk_go.Bytes.{Bytes}
use aa_sdk_go.Hex.{Text, hex_char, encode_to_string, hex_value, decode_string}

hex_value-hex_char : (d : ℕ) → d < 16 → hex_value (hex_char d) ≡ some d
unfolding hex_value hex_char
hex_value-hex_char d h = ground arith

pub hex_char_injective : (d e : ℕ) → d < 16 → e < 16 → hex_char d ≡ hex_char e → d ≡ e
hex_char_injective d e hd he h = cc (hex_value-hex_char d hd, hex_value-hex_char e he)

decode_string-pair :
    (d e : ℕ) (s : Text)
    → d < 16
    → e < 16
    → decode_string (hex_char d ∷ hex_char e ∷ s) ≡ (d * 16 + e) ∷ decode_string s
unfolding decode_string
decode_string-pair d e s hd he = ground (arith, hex_value-hex_char d hd, hex_value-hex_char e he)

-- DecodeString gives back what EncodeToString was given.
pub decode_string-encode_to_string :
    (bs : Bytes) → AllBelow 256 bs → decode_string (encode_to_string bs) ≡ bs
unfolding encode_to_string decode_string
decode_string-encode_to_string [] h = refl
decode_string-encode_to_string (b ∷ bs) h = ground (
  arith,
  hex_value-hex_char (b / 16) (omega arith),
  hex_value-hex_char (b % 16) (omega arith),
  decode_string-encode_to_string bs h.1,
)

pub encode_to_string_injective :
    (as' bs : Bytes)
    → AllBelow 256 as'
    → AllBelow 256 bs
    → encode_to_string as' ≡ encode_to_string bs
    → as' ≡ bs
encode_to_string_injective as' bs ha hb e =
    sym (decode_string-encode_to_string as' ha)
    ∙ ap decode_string e
    ∙ decode_string-encode_to_string bs hb

-- The digits up to the last one that has a partner.
whole_pairs : List ℕ → List ℕ
whole_pairs [] = []
whole_pairs (d ∷ []) = []
whole_pairs (d ∷ e ∷ ds) = d ∷ e ∷ whole_pairs ds

value-decode_string_from :
    (acc : ℕ) (ds : List ℕ)
    → AllBelow 16 ds
    → value_from 256 acc (decode_string (map hex_char ds)) ≡ value_from 16 acc (whole_pairs ds)
unfolding value_from decode_string whole_pairs
value-decode_string_from acc [] h = refl
value-decode_string_from acc (d ∷ []) h = refl
value-decode_string_from acc (d ∷ e ∷ ds) h =
    ap (value_from 256 acc) (decode_string-pair d e (map hex_char ds) h.0 h.1.0)
    ∙ ap (λ a. value_from 256 a (decode_string (map hex_char ds))) (omega arith)
    ∙ value-decode_string_from ((acc * 16 + d) * 16 + e) ds h.1.1

whole_pairs_even : (ds : List ℕ) → length ds % 2 ≡ 0 → whole_pairs ds ≡ ds
unfolding whole_pairs
whole_pairs_even [] h = refl
whole_pairs_even (d ∷ []) h = absurd (omega arith)
whole_pairs_even (d ∷ e ∷ ds) h = ap (λ t. d ∷ e ∷ t) (whole_pairs_even ds (omega arith))

whole_pairs_odd :
    (ds : List ℕ) → length ds % 2 ≡ 1 → (last : ℕ) × (ds ≡ whole_pairs ds ++ (last ∷ []))
unfolding whole_pairs
whole_pairs_odd [] h = absurd (omega arith)
whole_pairs_odd (d ∷ []) h = (d, refl)
whole_pairs_odd (d ∷ e ∷ ds) h =
    let (last, same) = whole_pairs_odd ds (omega arith) in (last, ap (λ t. d ∷ e ∷ t) same)

All-last : (xs : List ℕ) (last : ℕ) → AllBelow 16 (xs ++ (last ∷ [])) → last < 16
All-last [] last h = h.0
All-last (x ∷ xs) last h = All-last xs last h.1

value-decode_string :
    (n : ℕ)
    → value 256 (decode_string (map hex_char (digits 16 n))) ≡ value 16 (whole_pairs (digits 16 n))
unfolding value
value-decode_string n =
    value-decode_string_from 0 (digits 16 n) (digits-AllBelow 16 n (omega arith))

-- An even number of hexadecimal digits is read as the number.
pub value-decode_string_even :
    (n : ℕ)
    → length (digits 16 n) % 2 ≡ 0
    → value 256 (decode_string (map hex_char (digits 16 n))) ≡ n
value-decode_string_even n h =
    value-decode_string n
    ∙ ap (value 16) (whole_pairs_even (digits 16 n) h)
    ∙ value-digits 16 n (omega arith)

-- Of an odd number of hexadecimal digits the last is lost.
pub value-decode_string_odd :
    (n : ℕ)
    → length (digits 16 n) % 2 ≡ 1
    → value 256 (decode_string (map hex_char (digits 16 n))) ≡ n / 16
value-decode_string_odd n h =
    let (last, e) = whole_pairs_odd (digits 16 n) h in
    let small : last < 16 =
      All-last (whole_pairs (digits 16 n)) last
        (subst (AllBelow 16) e (digits-AllBelow 16 n (omega arith))) in
    let whole : n ≡ value 16 (whole_pairs (digits 16 n)) * 16 + last =
      sym (value-digits 16 n (omega arith))
      ∙ ap (value 16) e
      ∙ value-snoc 16 (whole_pairs (digits 16 n)) last in
    value-decode_string n ∙ omega arith
