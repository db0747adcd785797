-- ===== src/UserOperation.antt =====
-- The data of types.go: UserOperation with its defaults, and the PackedUserOperation of the
-- entrypoint bindings. A *big.Int is an optional integer, `none` for nil; a slice that is nil and
-- an empty one are the same list, which the code nowhere tells apart.
pub mod Body
use aa_sdk_go.Prelude.{ℕ, Option, none, some, []}
use aa_sdk_go.Prelude.Int.{ℤ, pos}
use aa_sdk_go.Bytes.{Bytes, Address, Hash, zero_address}

pub record UserOperation : Type 0 where
  pub sender : Address
  pub nonce : Option ℤ
  pub call_data : Bytes
  pub call_gas_limit : Option ℤ
  pub verification_gas_limit : Option ℤ
  pub pre_verification_gas : Option ℤ
  pub max_fee_per_gas : Option ℤ
  pub max_priority_fee_per_gas : Option ℤ
  pub signature : Bytes
  pub paymaster : Address
  pub paymaster_data : Bytes
  pub paymaster_verification_gas_limit : Option ℤ
  pub paymaster_post_op_gas_limit : Option ℤ
  pub factory : Address
  pub factory_data : Bytes
  pub init_code : Bytes
  pub salt : Option ℤ

pub record PackedUserOperation : Type 0 where
  pub sender : Address
  pub nonce : Option ℤ
  pub init_code : Bytes
  pub call_data : Bytes
  pub account_gas_limits : Hash
  pub pre_verification_gas : Option ℤ
  pub gas_fees : Hash
  pub paymaster_and_data : Bytes
  pub signature : Bytes

abbrev default_call_gas_limit : ℕ
default_call_gas_limit = 2000000

abbrev default_verification_gas_limit : ℕ
default_verification_gas_limit = 200000

abbrev default_pre_verification_gas : ℕ
default_pre_verification_gas = 20000

abbrev default_max_fee_per_gas : ℕ
default_max_fee_per_gas = 25000000000

abbrev default_max_priority_fee_per_gas : ℕ
default_max_priority_fee_per_gas = 1000000

abbrev default_paymaster_verification_gas_limit : ℕ
default_paymaster_verification_gas_limit = 300000

abbrev default_paymaster_post_op_gas_limit : ℕ
default_paymaster_post_op_gas_limit = 100

-- The fields that the Go literal does not name have their zero values.
unfoldable pub new_user_op_with_default : Address → Bytes → Option ℤ → UserOperation
new_user_op_with_default sender calldata salt = record {
  sender = sender;
  nonce = none;
  call_data = calldata;
  call_gas_limit = some (pos default_call_gas_limit);
  verification_gas_limit = some (pos default_verification_gas_limit);
  pre_verification_gas = some (pos default_pre_verification_gas);
  max_fee_per_gas = some (pos default_max_fee_per_gas);
  max_priority_fee_per_gas = some (pos default_max_priority_fee_per_gas);
  signature = [];
  paymaster = zero_address;
  paymaster_data = [];
  paymaster_verification_gas_limit = some (pos default_paymaster_verification_gas_limit);
  paymaster_post_op_gas_limit = some (pos default_paymaster_post_op_gas_limit);
  factory = zero_address;
  factory_data = [];
  init_code = [];
  salt = salt;
}
