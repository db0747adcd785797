-- ===== src/Tests/Sample.antt =====
-- A small implementation of the go-ethereum interface, which meets what is asked of it, and sample
-- data.
use aa_sdk_go.Prelude.{
  ℕ, suc, ◌+◌, ◌%◌, ◌^◌, ◌<◌, ◌≡◌, refl, sym, Option, none, some, [], ◌∷◌, ◌++◌, length, drop,
  replicate, All-append, All-replicate, length-append, length-replicate, drop-length-append, arith,
}
use aa_sdk_go.Prelude.Int.{pos}
use aa_sdk_go.Prelude.Outcome.{Result, ok, panic, nil_dereference}
use aa_sdk_go.Digits.{value, AllBelow}
use aa_sdk_go.Bytes.{Bytes, Hash, IsArray, pad_left, big_bytes}
use aa_sdk_go.Bytes.Padding.{big_bytes-IsArray}
use aa_sdk_go.Hex.{encode_to_string, decode_string}
use aa_sdk_go.Hex.Laws.{encode_to_string_injective, decode_string-encode_to_string}
use aa_sdk_go.Quantity.{with_0x}
use aa_sdk_go.Client.{Node}
use aa_sdk_go.UserOperation.{PackedUserOperation}
use aa_sdk_go.Ethereum.{Ethereum, IsDocumented, words}
use native.Mathlib.Nat.{mod-lt}
use mathlib.Core.Path.{subst}

-- A key is a number, and there is one ABI. The digest is the number that the bytes make, modulo
-- 2^256.
unfoldable pub digest : Bytes → Hash
digest bs = pad_left 32 (big_bytes (pos (value 256 bs % 256 ^ 32)))

digest-IsArray : (bs : Bytes) → IsArray 32 (digest bs)
unfolding digest
digest-IsArray bs =
    big_bytes-IsArray 32 (pos (value 256 bs % 256 ^ 32)) (mod-lt (value 256 bs) (omega arith))

abbrev pub raw_signature : Hash → ℕ → Bytes
raw_signature h k = (digest h ++ replicate 32 (k % 256)) ++ (1 ∷ [])

unfoldable pub sample_sign : Hash → Option ℕ → Result Bytes
sample_sign h none = panic nil_dereference
sample_sign h (some k) = ok (raw_signature h k)

abbrev pub sample : Ethereum ℕ (Unit {0})
sample = record {
  left_pad_bytes = λ bs n. pad_left n bs;
  bytes_to_address = λ bs. bs;
  hex_to_bytes = decode_string;
  address_hex = λ a. with_0x (encode_to_string a);
  keccak256_hash = digest;
  sign = sample_sign;
  pubkey_to_address = λ k. replicate 20 (k % 256);
  pack = λ ts vs. ok (words vs);
  pack_call = λ _ _ _. ok (1 ∷ 2 ∷ 3 ∷ 4 ∷ []);
}

shape-raw_signature :
    (h : Hash) (k : ℕ) → IsArray 65 (raw_signature h k) × AllBelow 2 (drop 64 (raw_signature h k))
shape-raw_signature h k = (
  (
    omega (arith, length-append (digest h ++ replicate 32 (k % 256)) (1 ∷ []), length-front),
    All-append (λ d. d < 256) (digest h ++ replicate 32 (k % 256)) (1 ∷ [])
        (All-append (λ d. d < 256) (digest h) (replicate 32 (k % 256)) (digest-IsArray h).1
          (All-replicate (λ d. d < 256) 32 (mod-lt k (omega arith))))
        (omega arith, tt),
  ),
  subst (λ t. AllBelow 2 t) (sym dropped) (omega arith, tt),
)
  where
    length-front : length (digest h ++ replicate 32 (k % 256)) ≡ 64
    length-front = omega (
      arith,
      length-append (digest h) (replicate 32 (k % 256)),
      (digest-IsArray h).0,
      length-replicate {A = ℕ} 32 (k % 256),
    )

    dropped : drop 64 (raw_signature h k) ≡ 1 ∷ []
    dropped = drop-length-append 64 (digest h ++ replicate 32 (k % 256)) (1 ∷ []) length-front

ok_injective : {a b : Bytes} → ◌≡◌ {A = Result Bytes} (ok a) (ok b) → a ≡ b
ok_injective e = cc

sample_sign_shape :
    (h : Hash) (k : Option ℕ) (s : Bytes)
    → sample_sign h k ≡ ok s
    → IsArray 65 s × AllBelow 2 (drop 64 s)
unfolding sample_sign
sample_sign_shape h none s e = cc
sample_sign_shape h (some k) s e =
    subst (λ t. IsArray 65 t × AllBelow 2 (drop 64 t)) (ok_injective e) (shape-raw_signature h k)

length-encode_to_string : (bs : Bytes) → length (encode_to_string bs) ≡ length bs + length bs
unfolding encode_to_string
length-encode_to_string [] = omega arith
length-encode_to_string (b ∷ bs) = omega (arith, length-encode_to_string bs)

pub sample-IsDocumented : IsDocumented sample
sample-IsDocumented = record {
  left_pad_bytes_lem = λ bs n. refl;
  bytes_to_address_lem = λ bs h. refl;
  hex_to_bytes_lem = decode_string-encode_to_string;
  address_hex_injective = λ a b ha hb e. encode_to_string_injective a b ha.1 hb.1 (cc e);
  length-address_hex = λ a h. omega (arith, length-encode_to_string a, h.0);
  keccak256_hash-IsArray = digest-IsArray;
  sign_shape = sample_sign_shape;
  pack_words = λ ts vs h. refl;
}

-- A chain without accounts, that counts the calls.
abbrev pub node : Node ℕ
node = record {
  code_at = λ a n. (ok [], suc n);
  balance_at = λ a n. (ok (some (pos 0)), suc n);
  get_nonce = λ a k n. (ok (some (pos 0)), suc n);
  get_address = λ a k n. (ok a, suc n);
}

-- An operation and its like with another signature.
abbrev pub packed : Bytes → PackedUserOperation
packed sig = record {
  sender = replicate 20 17;
  nonce = some (pos 5);
  init_code = [];
  call_data = 1 ∷ 2 ∷ [];
  account_gas_limits = replicate 32 1;
  pre_verification_gas = some (pos 21000);
  gas_fees = replicate 32 2;
  paymaster_and_data = replicate 20 3;
  signature = sig;
}
