-- ===== src/Bytes.antt =====
-- Byte strings, and the fixed arrays and big integers that package aasdk builds them from: Go's
-- []byte, common.Address ([20]byte), common.Hash ([32]byte), and *big.Int with Bytes and SetBytes.
pub mod Padding
use aa_sdk_go.Prelude.{
  ℕ, ◌-◌, ◌≡◌, List, [], ◌∷◌, ◌++◌, length, take, replicate, Bool, true, false, ◌&&◌, ◌==◌,
}
use aa_sdk_go.Prelude.Int.{ℤ, pos, nat_abs}
use aa_sdk_go.Digits.{digits, value, AllBelow}

abbrev pub Bytes : Type 0
Bytes = List ℕ

abbrev pub Address : Type 0
Address = Bytes

abbrev pub Hash : Type 0
Hash = Bytes

-- What Go's array types say by themselves.
abbrev pub IsArray : ℕ → Bytes → Type 0
IsArray n bs = (length bs ≡ n) × AllBelow 256 bs

abbrev pub zero_address : Address
zero_address = replicate 20 0

abbrev pub zero_hash : Hash
zero_hash = replicate 32 0

-- `==` of two arrays of bytes
abbrev pub eq_bytes : Bytes → Bytes → Bool
eq_bytes [] [] = true
eq_bytes [] (b ∷ bs) = false
eq_bytes (a ∷ as') [] = false
eq_bytes (a ∷ as') (b ∷ bs) = (a == b) && eq_bytes as' bs

-- x.Bytes(): the absolute value, big-endian, with no leading zero.
unfoldable pub big_bytes : ℤ → Bytes
unfolding digits
big_bytes x = digits 256 (nat_abs x)

-- new(big.Int).SetBytes(bs)
unfoldable pub set_bytes : Bytes → ℤ
unfolding value
set_bytes bs = pos (value 256 bs)

-- copy(result[:], src) into a zero array of `n` bytes
abbrev pub copy_into : ℕ → Bytes → Bytes
copy_into n src = take n src ++ replicate (n - length src) 0

-- `bs` behind the zeros that make it `n` long; `bs` itself, if it is longer.
abbrev pub pad_left : ℕ → Bytes → Bytes
pad_left n bs = replicate (n - length bs) 0 ++ bs
