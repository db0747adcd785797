-- ===== src/Hex.antt =====
-- Hexadecimal text as the SDK writes and reads it: big.Int.Text(16), and EncodeToString and
-- DecodeString of encoding/hex. A text is the list of its bytes.
pub mod Laws
pub mod Written
use aa_sdk_go.Prelude.{
  ℕ, ◌+◌, ◌-◌, ◌*◌, ◌/◌, ◌%◌, Option, none, some, List, [], ◌∷◌, ◌++◌, map, ltb, leb, ◌==◌, ◌&&◌,
  if◌then◌else◌,
}
use aa_sdk_go.Prelude.Int.{ℤ, pos, negsuc}
use aa_sdk_go.Digits.{digits}
use aa_sdk_go.Bytes.{Bytes}
use Prim.Native.Nat.{suc}

abbrev pub Text : Type 0
Text = List ℕ

unfoldable pub hex_char : ℕ → ℕ
hex_char d = if ltb d 10 then d + b'0' else d + 87

unfoldable pub text_of : ℕ → Text
text_of n = if n == 0 then b'0' ∷ [] else map hex_char (digits 16 n)

-- x.Text(16)
unfoldable pub text_16 : ℤ → Text
text_16 (pos n) = text_of n
text_16 (negsuc n) = b'-' ∷ text_of (suc n)

-- hex.EncodeToString: two digits for each byte.
unfoldable pub encode_to_string : Bytes → Text
encode_to_string [] = []
encode_to_string (b ∷ bs) = hex_char (b / 16) ∷ hex_char (b % 16) ∷ encode_to_string bs

unfoldable pub hex_value : ℕ → Option ℕ
hex_value c =
    if leb b'0' c && leb c b'9'
    then some (c - b'0')
    else (if leb b'a' c && leb c b'f'
        then some (c - 87)
        else (if leb b'A' c && leb c b'F' then some (c - 55) else none))

-- The bytes that hex.DecodeString returns, together with its error or without one: "if the input is
-- malformed, DecodeString returns the bytes decoded before the error".
unfoldable pub decode_string : Text → Bytes
decode_string [] = []
decode_string (c ∷ []) = []
decode_string (c ∷ d ∷ s) =
    let rest = decode_string s in
    elim (hex_value c) [
      | none ↦ []
      | some h ↦ elim (hex_value d) [ none ↦ [] | some l ↦ (h * 16 + l) ∷ rest ]
    ]
