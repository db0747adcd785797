-- ===== src/Quantity.antt =====
-- HexToBigInt of utils.go, by which the SDK reads the gas numbers that a bundler answers with.
use aa_sdk_go.Prelude.{
  ℕ, ◌/◌, ◌%◌, ◌≡◌, ◌≢◌, refl, ap, [], ◌∷◌, map, length, drop, Bool, false, ◌&&◌, ◌==◌,
  if◌then◌else◌, arith, Bool-cases, inl, inr,
}
use aa_sdk_go.Prelude.Int.{ℤ, pos}
use aa_sdk_go.Digits.{digits, AllBelow}
use aa_sdk_go.Bytes.{Bytes, set_bytes}
use aa_sdk_go.Hex.{Text, text_of, text_16, hex_char, encode_to_string, decode_string}
use aa_sdk_go.Hex.Laws.{value-decode_string_even, value-decode_string_odd}
use aa_sdk_go.Ethereum.{Ethereum, IsDocumented}

-- strings.HasPrefix(hex, "0x")
abbrev has_prefix_0x : Text → Bool
has_prefix_0x [] = false
has_prefix_0x (c ∷ []) = false
has_prefix_0x (c ∷ d ∷ s) = (c == b'0') && (d == b'x')

-- "0x" + s
abbrev pub with_0x : Text → Text
with_0x s = b'0' ∷ b'x' ∷ s

module _ {Key Abi : Type 0} (g : Ethereum Key Abi) where
  unfoldable pub hex_to_big_int : Text → ℤ
  hex_to_big_int hex =
      if has_prefix_0x hex
      then set_bytes (g.hex_to_bytes (drop 2 hex))
      else set_bytes (g.hex_to_bytes hex)

  -- HexToBigInt reads the hexadecimal digits of bytes as the big-endian number of these bytes, behind
  -- "0x".
  hex_to_big_int-encode_to_string :
      IsDocumented g
      → (bs : Bytes) → AllBelow 256 bs
      → hex_to_big_int (with_0x (encode_to_string bs)) ≡ set_bytes bs
  unfolding hex_to_big_int
  hex_to_big_int-encode_to_string doc bs h = ap set_bytes (doc.hex_to_bytes_lem bs h)

  -- Hex2Bytes drops the error of hex.DecodeString and keeps the bytes before it.
  abbrev pub IgnoresError : Type 0
  IgnoresError = (s : Text) → g.hex_to_bytes s ≡ decode_string s

  text_of-digits : (n : ℕ) → n ≢ 0 → text_of n ≡ map hex_char (digits 16 n)
  unfolding text_of
  text_of-digits n h = elim (Bool-cases (n == 0)) [
    | inl e ↦ absurd (h (ground arith))
    | inr e ↦ rw e refl
  ]

  -- HexToBigInt of "0x" and Text(16) of a number other than 0 is the number if its hexadecimal digits
  -- are even in number; if they are odd in number the last digit is lost.
  pub hex_to_big_int-text_16 :
      IgnoresError
      → (n : ℕ) → n ≢ 0
      → hex_to_big_int (with_0x (text_16 (pos n)))
        ≡ (if length (digits 16 n) % 2 == 0 then pos n else pos (n / 16))
  unfolding hex_to_big_int text_16 set_bytes
  hex_to_big_int-text_16 ignores n h = elim (Bool-cases (length (digits 16 n) % 2 == 0)) [
    | inl even ↦
        rw (text_of-digits n h, ignores (map hex_char (digits 16 n)), even)
          (ap pos (value-decode_string_even n (ground arith)))
    | inr odd ↦
        rw (text_of-digits n h, ignores (map hex_char (digits 16 n)), odd)
          (ap pos (value-decode_string_odd n (ground arith)))
  ]
