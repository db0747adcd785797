-- ===== src/Ethereum.antt =====
-- The functions of go-ethereum that package aasdk calls, as an interface: hashing and signing
-- (crypto), padding and addresses (common), and the ABI encoder (accounts/abi). `IsDocumented`
-- holds what their documentation promises and the SDK relies on.
pub mod Words
use aa_sdk_go.Prelude.{
  ℕ, ◌^◌, ◌<◌, ◌≡◌, ◌⊎◌, List, [], ◌∷◌, ◌++◌, length, Option, some, none, drop, String,
}
use aa_sdk_go.Prelude.Int.{ℤ, pos, negsuc}
use aa_sdk_go.Prelude.Outcome.{Result, ok}
use aa_sdk_go.Digits.{AllBelow}
use aa_sdk_go.Bytes.{Bytes, Address, Hash, IsArray, pad_left, big_bytes}
use aa_sdk_go.Hex.{Text, encode_to_string}

-- An abi.Type, as the literals of package aasdk build it: `T`, with its `Size`.
pub data AbiType : Type 0 where
  address_ty : AbiType
  uint_ty : ℕ → AbiType
  fixed_bytes_ty : ℕ → AbiType

-- A value that Arguments.Pack is given, by its Go type: a common.Address, a *big.Int, and a
-- common.Hash or [32]byte.
pub data StaticValue : Type 0 where
  address : Address → StaticValue
  integer : Option ℤ → StaticValue
  bytes32 : Hash → StaticValue

-- A value that a call of a contract's method is packed from.
pub data AbiValue : Type 0 where
  address : Address → AbiValue
  big : Option ℤ → AbiValue
  bytes : Bytes → AbiValue
  addresses : List Address → AbiValue
  bigs : List (Option ℤ) → AbiValue
  bytes_list : List Bytes → AbiValue

-- `Key` is the type of private keys; a *ecdsa.PrivateKey is an optional key. `Abi` is that of
-- parsed contract ABIs.
pub record Ethereum (Key Abi : Type 0) : Type 0 where
  -- common.LeftPadBytes
  pub left_pad_bytes : Bytes → ℕ → Bytes
  -- common.BytesToAddress
  pub bytes_to_address : Bytes → Address
  -- common.Hex2Bytes
  pub hex_to_bytes : Text → Bytes
  -- Address.Hex
  pub address_hex : Address → Text
  -- crypto.Keccak256Hash of one byte string
  pub keccak256_hash : Bytes → Hash
  -- crypto.Sign
  pub sign : Hash → Option Key → Result Bytes
  -- crypto.PubkeyToAddress of a key's public half
  pub pubkey_to_address : Key → Address
  -- abi.Arguments.Pack: the arguments' types, and the values it is called with
  pub pack : List AbiType → List StaticValue → Result Bytes
  -- ABI.Pack of a method's name and its arguments
  pub pack_call : Abi → String → List AbiValue → Result Bytes

-- The numbers of a *big.Int that are given for a uint of so many bits. The package has the two sizes;
-- at 8, 16, 32 and 64 bits Pack wants a Go integer of the size.
abbrev pub IsUint : ℕ → Option ℤ → Type 0
IsUint bits (some (pos n)) = (n < 2 ^ bits) × ((bits ≡ 48) ⊎ (bits ≡ 256))
IsUint bits (some (negsuc n)) = ⊥
IsUint bits none = ⊥

-- The Go values that stand for a value of an ABI type: the standard encodes these. A value of another
-- Go type than the ABI type's is not one.
abbrev pub Holds : AbiType → StaticValue → Type 0
Holds address_ty (address a) = IsArray 20 a
Holds address_ty (integer x) = ⊥
Holds address_ty (bytes32 h) = ⊥
Holds (uint_ty bits) (integer x) = IsUint bits x
Holds (uint_ty bits) (address a) = ⊥
Holds (uint_ty bits) (bytes32 h) = ⊥
Holds (fixed_bytes_ty size) (bytes32 h) = (size ≡ 32) × IsArray 32 h
Holds (fixed_bytes_ty size) (address a) = ⊥
Holds (fixed_bytes_ty size) (integer x) = ⊥

-- As many values as types, each of its type.
abbrev pub AllHold : List AbiType → List StaticValue → Type 0
AllHold [] [] = Unit
AllHold [] (v ∷ vs) = ⊥
AllHold (t ∷ ts) [] = ⊥
AllHold (t ∷ ts) (v ∷ vs) = Holds t v × AllHold ts vs

-- The 32-byte word by which the contract ABI standard encodes a value.
abbrev pub word : StaticValue → Bytes
word (address a) = pad_left 32 a
word (integer none) = pad_left 32 []
word (integer (some x)) = pad_left 32 (big_bytes x)
word (bytes32 h) = h

abbrev pub words : List StaticValue → Bytes
words [] = []
words (v ∷ vs) = word v ++ words vs

module _ {Key Abi : Type 0} where
  pub record IsDocumented (g : Ethereum Key Abi) : Type 0 where
    -- "LeftPadBytes zero-pads slice to the left up to length l"; a longer slice is returned as is.
    pub left_pad_bytes_lem : (bs : Bytes) (n : ℕ) → g.left_pad_bytes bs n ≡ pad_left n bs
    -- "BytesToAddress returns Address with value b", if b has an address's length.
    pub bytes_to_address_lem : (bs : Bytes) → length bs ≡ 20 → g.bytes_to_address bs ≡ bs
    -- "Hex2Bytes returns the bytes represented by the hexadecimal string str."
    pub hex_to_bytes_lem :
        (bs : Bytes) → AllBelow 256 bs → g.hex_to_bytes (encode_to_string bs) ≡ bs
    -- "Hex returns an EIP55-compliant hex string representation of the address": another address
    -- has another one.
    pub address_hex_injective :
        (a b : Address) → IsArray 20 a → IsArray 20 b → g.address_hex a ≡ g.address_hex b → a ≡ b
    -- It is "0x" and forty hexadecimal digits.
    pub length-address_hex : (a : Address) → IsArray 20 a → length (g.address_hex a) ≡ 42
    -- A Keccak-256 digest is 32 bytes.
    pub keccak256_hash-IsArray : (bs : Bytes) → IsArray 32 (g.keccak256_hash bs)
    -- "The produced signature is in the [R || S || V] format where V is 0 or 1."
    pub sign_shape :
        (h : Hash) (k : Option Key) (s : Bytes)
        → g.sign h k ≡ ok s
        → IsArray 65 s × AllBelow 2 (drop 64 s)
    -- Static values of the arguments' types are encoded in the contract ABI standard's head, a word
    -- each.
    pub pack_words :
        (ts : List AbiType) (vs : List StaticValue) → AllHold ts vs → g.pack ts vs ≡ ok (words vs)
