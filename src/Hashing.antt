-- ===== src/Hashing.antt =====
-- HashedUserOp and GetUserOpHash of utils.go, and GetPaymasterHash of paymaster.go: which fields of
-- a packed operation go into the digests that are signed.
pub mod Binding
pub mod Paymaster
pub mod Sponsor
pub mod Preimage
use aa_sdk_go.Prelude.{
  ℕ, ◌⊎◌, ◌≡◌, ◌≢◌, Option, List, [], ◌∷◌, ◌++◌, take, drop, length, ltb, if◌then◌else◌,
}
use aa_sdk_go.Prelude.Int.{ℤ}
use aa_sdk_go.Prelude.Outcome.{Result, ok, err, Error, message, ◌>>=◌, wrapping}
use aa_sdk_go.Bytes.{Bytes, Address, Hash, set_bytes}
use aa_sdk_go.UserOperation.{PackedUserOperation}
use aa_sdk_go.Ethereum.{
  Ethereum, AbiType, address_ty, uint_ty, fixed_bytes_ty, StaticValue, address, integer, bytes32,
}
use aa_sdk_go.Packing.{paymaster_validation_gas_offset, paymaster_data_offset}

-- `arguments` of HashedUserOp.
abbrev pub user_op_types : List AbiType
user_op_types =
    address_ty
    ∷ uint_ty 256
    ∷ fixed_bytes_ty 32
    ∷ fixed_bytes_ty 32
    ∷ fixed_bytes_ty 32
    ∷ uint_ty 256
    ∷ fixed_bytes_ty 32
    ∷ fixed_bytes_ty 32
    ∷ []

-- `hashArgs` of GetUserOpHash.
abbrev pub hash_types : List AbiType
hash_types = fixed_bytes_ty 32 ∷ address_ty ∷ uint_ty 256 ∷ []

-- `args` of GetPaymasterHash.
abbrev pub paymaster_types : List AbiType
paymaster_types =
    address_ty
    ∷ uint_ty 256
    ∷ fixed_bytes_ty 32
    ∷ fixed_bytes_ty 32
    ∷ fixed_bytes_ty 32
    ∷ uint_ty 256
    ∷ uint_ty 256
    ∷ fixed_bytes_ty 32
    ∷ uint_ty 256
    ∷ address_ty
    ∷ uint_ty 48
    ∷ uint_ty 48
    ∷ []

module _ {Key Abi : Type 0} (g : Ethereum Key Abi) where
  -- What `arguments.Pack` of HashedUserOp is called with.
  abbrev pub user_op_values : PackedUserOperation → List StaticValue
  user_op_values op =
      address op.sender
      ∷ integer op.nonce
      ∷ bytes32 (g.keccak256_hash op.init_code)
      ∷ bytes32 (g.keccak256_hash op.call_data)
      ∷ bytes32 op.account_gas_limits
      ∷ integer op.pre_verification_gas
      ∷ bytes32 op.gas_fees
      ∷ bytes32 (g.keccak256_hash op.paymaster_and_data)
      ∷ []

  unfoldable pub hashed_user_op : PackedUserOperation → Result Hash
  hashed_user_op op = do
    packed ← g.pack user_op_types (user_op_values op)
    ok (g.keccak256_hash packed)

  -- What `hashArgs.Pack` of GetUserOpHash is called with.
  abbrev pub hash_values : Hash → Address → Option ℤ → List StaticValue
  hash_values hashed entrypoint chain_id =
      bytes32 hashed ∷ address entrypoint ∷ integer chain_id ∷ []

  unfoldable pub get_user_op_hash : PackedUserOperation → Address → Option ℤ → Result Hash
  get_user_op_hash packed entrypoint chain_id = do
    hashed ← hashed_user_op packed
    packed_hash ← g.pack hash_types (hash_values hashed entrypoint chain_id)
    ok (g.keccak256_hash packed_hash)

  -- What `args.Pack` of GetPaymasterHash is called with.
  abbrev pub paymaster_values :
      PackedUserOperation → Option ℤ → Option ℤ → Option ℤ → List StaticValue
  paymaster_values op chain_id valid_until valid_after =
      address op.sender
      ∷ integer op.nonce
      ∷ bytes32 (g.keccak256_hash op.init_code)
      ∷ bytes32 (g.keccak256_hash op.call_data)
      ∷ bytes32 op.account_gas_limits
      ∷ integer (
          Option.some
            (set_bytes (take 32 (drop paymaster_validation_gas_offset op.paymaster_and_data))))
      ∷ integer op.pre_verification_gas
      ∷ bytes32 op.gas_fees
      ∷ integer chain_id
      ∷ address (g.bytes_to_address (take paymaster_validation_gas_offset op.paymaster_and_data))
      ∷ integer valid_until
      ∷ integer valid_after
      ∷ []

  unfoldable pub get_paymaster_hash :
      PackedUserOperation → Option ℤ → Option ℤ → Option ℤ → Result Hash
  get_paymaster_hash op chain_id valid_until valid_after =
      if ltb (length op.paymaster_and_data) paymaster_data_offset
      then err (message "PaymasterAndData too short")
      else (do
        packed ←
            wrapping "pack error in GetPaymasterHash"
              (g.pack paymaster_types (paymaster_values op chain_id valid_until valid_after))
        ok (g.keccak256_hash packed))

  -- The loop of HandleOps: `for _, op := range ops { … opHashes = append(opHashes, hashed) }`
  unfoldable pub hash_loop : List Hash → List PackedUserOperation → Result (List Hash)
  hash_loop op_hashes [] = ok op_hashes
  hash_loop op_hashes (op ∷ ops) = do
    hashed ← wrapping "error hashing user operation" (hashed_user_op op)
    hash_loop (op_hashes ++ (hashed ∷ [])) ops

  -- Two byte strings that break the hash function.
  abbrev pub Collides : Bytes → Bytes → Type 0
  Collides x y = (x ≢ y) × (g.keccak256_hash x ≡ g.keccak256_hash y)

  -- One of these pairs breaks it.
  abbrev pub Collision : List (Bytes × Bytes) → Type 0
  Collision [] = ⊥
  Collision ((x, y) ∷ pairs) = Collides x y ⊎ Collision pairs
