-- ===== src/Hashing/Preimage.antt =====
-- The bytes that GetUserOpHash and GetPaymasterHash take the digest of, as the contracts write them:
-- the entrypoint's getUserOpHash and the verifying paymaster's getHash.
use aa_sdk_go.Prelude.{
  ℕ, zero, suc, ◌-◌, ◌/◌, ◌%◌, ◌^◌, ◌<◌, ◌≡◌, refl, sym, ap, ◌∙◌, Option, some, none, List, [], ◌∷◌,
  ◌++◌, take, drop, length-append, All-append, replicate, arith,
}
use native.Mathlib.Nat.{pow-suc, pow-zero, div-add-mod', mod-lt, div-lt_iff_lt-mul}
use aa_sdk_go.Prelude.Int.{ℤ, pos, negsuc}
use aa_sdk_go.Prelude.Outcome.{ok}
use aa_sdk_go.Digits.{value, value-snoc, value_injective}
use aa_sdk_go.Bytes.{Bytes, Address, IsArray, pad_left, big_bytes, set_bytes}
use aa_sdk_go.Bytes.Padding.{big_bytes-IsArray, value-pad_left}
use aa_sdk_go.UserOperation.{PackedUserOperation}
use aa_sdk_go.Ethereum.{Ethereum, IsDocumented, IsUint, address, integer, word, words}
use aa_sdk_go.Ethereum.Words.{fits_word}
use aa_sdk_go.Hashing.{user_op_values, get_user_op_hash, get_paymaster_hash}
use aa_sdk_go.Hashing.Binding.{IsPacked, IsDomain, get_user_op_hash-words}
use aa_sdk_go.Hashing.Sponsor.{
  IsSponsored, IsWindow, address_part, gas_part, set_bytes-IsUint, address_argument,
  get_paymaster_hash-words,
}

-- The `w` bytes of a number, the most significant first.
pub big_endian : ℕ → ℕ → Bytes
big_endian zero n = []
big_endian (suc w) n = big_endian w (n / 256) ++ (n % 256 ∷ [])

-- An address in abi.encode: twelve zero bytes and the address.
abbrev address_word : Address → Bytes
address_word a = replicate 12 0 ++ a

-- A uint in abi.encode: 32 bytes.
abbrev uint_word : Option ℤ → Bytes
uint_word (some (pos n)) = big_endian 32 n
uint_word (some (negsuc n)) = []
uint_word none = []

abbrev joined : List Bytes → Bytes
joined [] = []
joined (b ∷ bs) = b ++ joined bs

big_endian-IsArray : (w n : ℕ) → IsArray w (big_endian w n)
unfolding big_endian
big_endian-IsArray zero n = (refl, tt)
big_endian-IsArray (suc w) n =
    let (l, all) = big_endian-IsArray w (n / 256) in
    (
      omega (arith, length-append (big_endian w (n / 256)) (n % 256 ∷ []), l),
      All-append (λ d. d < 256) (big_endian w (n / 256)) (n % 256 ∷ []) all
          (mod-lt n (omega arith), tt),
    )

value-big_endian : (w n : ℕ) → n < 256 ^ w → value 256 (big_endian w n) ≡ n
unfolding big_endian
value-big_endian zero n h = unfold value in omega (arith, pow-zero 256)
value-big_endian (suc w) n h =
    let above : n / 256 < 256 ^ w = (div-lt_iff_lt-mul (omega arith)).1 (rw (pow-suc 256 w) at h) in
    rw (value-snoc, value-big_endian w (n / 256) above) (div-add-mod' n 256)

address_word_lem : (a : Address) → IsArray 20 a → word (address a) ≡ address_word a
address_word_lem a h = ap (λ n. replicate (32 - n) 0 ++ a) h.0

-- Two words of one value.
same_word : (x y : Bytes) → IsArray 32 x → IsArray 32 y → value 256 x ≡ value 256 y → x ≡ y
same_word x y hx hy e = value_injective 256 x y hx.1 hy.1 (hx.0 ∙ sym hy.0) e

uint_word_lem : (bits : ℕ) (x : Option ℤ) → IsUint bits x → word (integer x) ≡ uint_word x
uint_word_lem bits (some (pos n)) h =
    let fits = fits_word bits n h.0 h.1 in
    same_word (pad_left 32 (big_bytes (pos n))) (big_endian 32 n)
      (big_bytes-IsArray 32 (pos n) fits) (big_endian-IsArray 32 n)
      (value-pad_left 32 (pos n) ∙ sym (value-big_endian 32 n fits))
uint_word_lem bits (some (negsuc n)) h = absurd h
uint_word_lem bits none h = absurd h

-- A number that was read from 32 bytes is encoded as them.
word-set_bytes : (bs : Bytes) → IsArray 32 bs → word (integer (some (set_bytes bs))) ≡ bs
unfolding set_bytes
word-set_bytes bs h =
    same_word (pad_left 32 (big_bytes (pos (value 256 bs)))) bs
      (big_bytes-IsArray 32 (pos (value 256 bs)) (set_bytes-IsUint bs h).0) h
      (value-pad_left 32 (pos (value 256 bs)))

module _ {Key Abi : Type 0} (g : Ethereum Key Abi) where
  -- abi.encode(sender, nonce, keccak256(initCode), keccak256(callData), accountGasLimits,
  -- preVerificationGas, gasFees, keccak256(paymasterAndData))
  abbrev op_preimage : PackedUserOperation → Bytes
  op_preimage op = joined (
      address_word op.sender
      ∷ uint_word op.nonce
      ∷ g.keccak256_hash op.init_code
      ∷ g.keccak256_hash op.call_data
      ∷ op.account_gas_limits
      ∷ uint_word op.pre_verification_gas
      ∷ op.gas_fees
      ∷ g.keccak256_hash op.paymaster_and_data
      ∷ [])

  -- abi.encode(userOp.hash(), address(this), block.chainid)
  abbrev pub hash_preimage : PackedUserOperation → Address → Option ℤ → Bytes
  hash_preimage op entrypoint chain_id =
      joined (g.keccak256_hash (op_preimage op) ∷ address_word entrypoint ∷ uint_word chain_id ∷ [])

  -- abi.encode(sender, nonce, keccak256(initCode), keccak256(callData), accountGasLimits,
  -- uint256(bytes32(paymasterAndData[20:52])), preVerificationGas, gasFees, block.chainid,
  -- address(this), validUntil, validAfter)
  abbrev pub sponsor_preimage : PackedUserOperation → Option ℤ → Option ℤ → Option ℤ → Bytes
  sponsor_preimage op chain_id valid_until valid_after = joined (
      address_word op.sender
      ∷ uint_word op.nonce
      ∷ g.keccak256_hash op.init_code
      ∷ g.keccak256_hash op.call_data
      ∷ op.account_gas_limits
      ∷ take 32 (drop 20 op.paymaster_and_data)
      ∷ uint_word op.pre_verification_gas
      ∷ op.gas_fees
      ∷ uint_word chain_id
      ∷ address_word (take 20 op.paymaster_and_data)
      ∷ uint_word valid_until
      ∷ uint_word valid_after
      ∷ [])

  user_op_words :
      (op : PackedUserOperation) → IsPacked op → words (user_op_values g op) ≡ op_preimage op
  user_op_words op p = λ i. joined (
      address_word_lem op.sender p.sender i
      ∷ uint_word_lem 256 op.nonce p.nonce i
      ∷ g.keccak256_hash op.init_code
      ∷ g.keccak256_hash op.call_data
      ∷ op.account_gas_limits
      ∷ uint_word_lem 256 op.pre_verification_gas p.pre_verification_gas i
      ∷ op.gas_fees
      ∷ g.keccak256_hash op.paymaster_and_data
      ∷ [])

module _ {Key Abi : Type 0} (g : Ethereum Key Abi) (doc : IsDocumented g) where
  -- On a packed operation whose sender and words have their lengths and whose numbers are of 256 bits,
  -- an entrypoint's address and a chain id of 256 bits, GetUserOpHash returns the hash of the entrypoint
  -- contract: the digest of the operation's digest, the entrypoint and the chain id, each in its 32-byte
  -- word, where the operation's digest is that of its eight words, the nonce and the gas in big-endian
  -- bytes and the three byte strings by their digests.
  pub get_user_op_hash-preimage :
      (op : PackedUserOperation) (entrypoint : Address) (chain_id : Option ℤ)
      → IsPacked op
      → IsDomain g doc entrypoint chain_id
      → get_user_op_hash g op entrypoint chain_id
        ≡ ok (g.keccak256_hash (hash_preimage g op entrypoint chain_id))
  get_user_op_hash-preimage op entrypoint chain_id p d =
      get_user_op_hash-words g doc op entrypoint chain_id p d ∙ λ i. ok (
        g.keccak256_hash (
          joined (
            g.keccak256_hash (user_op_words g op p i)
            ∷ address_word_lem entrypoint d.0 i
            ∷ uint_word_lem 256 chain_id d.1 i
            ∷ [])))

  -- On an operation whose sender and words have their lengths, whose numbers are of 256 bits and whose
  -- paymasterAndData has at least 52 bytes, a chain id of 256 bits and a window of 48-bit times,
  -- GetPaymasterHash returns the hash of the verifying paymaster contract: the digest of twelve 32-byte
  -- words, the paymaster's gas limits being the bytes from 20 to 52 of paymasterAndData as they stand,
  -- and the paymaster its first 20 bytes.
  pub get_paymaster_hash-preimage :
      (op : PackedUserOperation) (chain_id valid_until valid_after : Option ℤ)
      → IsSponsored op
      → IsWindow chain_id valid_until valid_after
      → get_paymaster_hash g op chain_id valid_until valid_after
        ≡ ok (g.keccak256_hash (sponsor_preimage g op chain_id valid_until valid_after))
  get_paymaster_hash-preimage op chain_id valid_until valid_after s w =
      get_paymaster_hash-words g doc op chain_id valid_until valid_after s w ∙ λ i. ok (
        g.keccak256_hash (
          joined (
            address_word_lem op.sender s.packed.sender i
            ∷ uint_word_lem 256 op.nonce s.packed.nonce i
            ∷ g.keccak256_hash op.init_code
            ∷ g.keccak256_hash op.call_data
            ∷ op.account_gas_limits
            ∷ word-set_bytes (take 32 (drop 20 op.paymaster_and_data)) (gas_part op s) i
            ∷ uint_word_lem 256 op.pre_verification_gas s.packed.pre_verification_gas i
            ∷ op.gas_fees
            ∷ uint_word_lem 256 chain_id w.0 i
            ∷ (ap word (ap address (address_argument g doc op s))
                  ∙ address_word_lem (take 20 op.paymaster_and_data) (address_part op s))
                i
            ∷ uint_word_lem 48 valid_until w.1 i
            ∷ uint_word_lem 48 valid_after w.2 i
            ∷ [])))
