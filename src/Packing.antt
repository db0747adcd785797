-- ===== src/Packing.antt =====
-- PackInt and PackUserOperation of utils.go, and PackPaymasterAndData and EncodePaymasterData of
-- paymaster.go: the byte layouts that the entrypoint and paymaster contracts read.
pub mod Layout
pub mod Parts
pub mod Faults
use aa_sdk_go.Prelude.{ℕ, ◌++◌, Option, some, none, length, replicate, List, [], ◌∷◌}
use aa_sdk_go.Prelude.Int.{ℤ}
use aa_sdk_go.Prelude.Outcome.{Result, ok, panic, raised, nil_dereference, ◌>>=◌}
use aa_sdk_go.Bytes.{Bytes, Address, Hash, big_bytes, copy_into}
use aa_sdk_go.UserOperation.{UserOperation, PackedUserOperation}
use aa_sdk_go.Ethereum.{Ethereum, AbiType, uint_ty, integer}

abbrev pub paymaster_validation_gas_offset : ℕ
paymaster_validation_gas_offset = 20

abbrev pub paymaster_post_op_gas_offset : ℕ
paymaster_post_op_gas_offset = 36

abbrev pub paymaster_data_offset : ℕ
paymaster_data_offset = 52

abbrev pub empty_signature : Bytes
empty_signature = replicate 65 0

-- The literal of PackUserOperation, from its three packed parts.
abbrev pub packed_of : UserOperation → Hash → Hash → Bytes → PackedUserOperation
packed_of op account_gas_limits gas_fees paymaster_and_data = record {
  sender = op.sender;
  nonce = op.nonce;
  init_code = op.init_code;
  call_data = op.call_data;
  account_gas_limits = account_gas_limits;
  pre_verification_gas = op.pre_verification_gas;
  gas_fees = gas_fees;
  paymaster_and_data = paymaster_and_data;
  signature = op.signature;
}

-- The `abi.Arguments` of EncodePaymasterData.
abbrev pub window_types : List AbiType
window_types = uint_ty 48 ∷ uint_ty 48 ∷ []

module _ {Key Abi : Type 0} (g : Ethereum Key Abi) where
  unfoldable pub pack_int : Option ℤ → Option ℤ → Result Hash
  pack_int none b = panic (raised "nil data")
  pack_int (some a) none = panic (raised "nil data")
  pack_int (some a) (some b) =
      ok (copy_into 32 (g.left_pad_bytes (big_bytes a) 16 ++ g.left_pad_bytes (big_bytes b) 16))

  -- `x.Bytes()` of a nil *big.Int is a fault of the runtime.
  unfoldable bytes_of : Option ℤ → Result Bytes
  bytes_of none = panic nil_dereference
  bytes_of (some x) = ok (big_bytes x)

  unfoldable pub pack_paymaster_and_data : Address → Option ℤ → Option ℤ → Bytes → Result Bytes
  unfolding bytes_of
  pack_paymaster_and_data paymaster ver_gas_limit post_op_gas_limit data' = do
    ver_gas ← bytes_of ver_gas_limit
    post_op_gas ← bytes_of post_op_gas_limit
    ok (paymaster ++ (g.left_pad_bytes ver_gas 16 ++ (g.left_pad_bytes post_op_gas 16 ++ data')))

  unfoldable pub encode_paymaster_data : Option ℤ → Option ℤ → Bytes → Result Bytes
  encode_paymaster_data valid_until valid_after signature = do
    encoded ← g.pack window_types (integer valid_until ∷ integer valid_after ∷ [])
    ok (encoded ++ signature)

  -- The fields of the literal, in the order in which it calls.
  unfoldable pub pack_user_operation : Option UserOperation → Result PackedUserOperation
  unfolding pack_int pack_paymaster_and_data
  pack_user_operation none = panic (raised "nil user operation")
  pack_user_operation (some op) = do
    account_gas_limits ← pack_int op.verification_gas_limit op.call_gas_limit
    gas_fees ← pack_int op.max_priority_fee_per_gas op.max_fee_per_gas
    paymaster_and_data ←
        pack_paymaster_and_data op.paymaster op.paymaster_verification_gas_limit
          op.paymaster_post_op_gas_limit op.paymaster_data
    ok (packed_of op account_gas_limits gas_fees paymaster_and_data)

  -- The literal that FillAndSign has the paymaster sign, with its data and no signature.
  unfoldable pub packed_for_paymaster : UserOperation → Bytes → Result PackedUserOperation
  unfolding pack_int pack_paymaster_and_data
  packed_for_paymaster op data' = do
    account_gas_limits ← pack_int op.verification_gas_limit op.call_gas_limit
    gas_fees ← pack_int op.max_priority_fee_per_gas op.max_fee_per_gas
    paymaster_and_data ←
        pack_paymaster_and_data op.paymaster op.paymaster_verification_gas_limit
          op.paymaster_post_op_gas_limit data'
    ok (packed_of (record op { signature = [] }) account_gas_limits gas_fees paymaster_and_data)
