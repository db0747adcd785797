-- ===== src/Bindings.antt =====
-- The contract bindings of bindings/, generated by abigen: calls, transactions and event logs of the
-- three contracts and the factory. go-ethereum's packages bind and abi are parameters of them.
pub mod Bind
pub mod Events
pub mod EntryPoint
pub mod SimpleAccount
pub mod SimpleAccountFactory
pub mod VerifyingPaymaster
use aa_sdk_go.Prelude.{ℕ, zero, suc, Option, List, [], ◌∷◌, String, Bool}
use aa_sdk_go.Prelude.Int.{ℤ}
use aa_sdk_go.Prelude.Outcome.{Result, ok, panic, index_out_of_range}
use aa_sdk_go.Prelude.Outcome
use aa_sdk_go.Prelude.State.{Action, ◌>>=◌, lift}
use aa_sdk_go.Bytes.{Bytes, Address, Hash}
use aa_sdk_go.UserOperation.{PackedUserOperation}

-- The structs of the contracts' methods.
pub record MemoryUserOp : Type 0 where
  pub sender : Address
  pub nonce : Option ℤ
  pub verification_gas_limit : Option ℤ
  pub call_gas_limit : Option ℤ
  pub paymaster_verification_gas_limit : Option ℤ
  pub paymaster_post_op_gas_limit : Option ℤ
  pub pre_verification_gas : Option ℤ
  pub paymaster : Address
  pub max_fee_per_gas : Option ℤ
  pub max_priority_fee_per_gas : Option ℤ

pub record UserOpInfo : Type 0 where
  pub m_user_op : MemoryUserOp
  pub user_op_hash : Hash
  pub prefund : Option ℤ
  pub context_offset : Option ℤ
  pub pre_op_gas : Option ℤ

pub record UserOpsPerAggregator : Type 0 where
  pub user_ops : List PackedUserOperation
  pub aggregator : Address
  pub signature : Bytes

pub record DepositInfo : Type 0 where
  pub deposit : Option ℤ
  pub staked : Bool
  pub stake : Option ℤ
  pub unstake_delay_sec : ℕ
  pub withdraw_time : Option ℤ

-- What an interface{} of the bindings holds: an argument of a method, a topic of an event's filter,
-- or a result of a call.
pub data Value : Type 0 where
  address : Address → Value
  -- [32]byte
  bytes32 : Hash → Value
  -- [4]byte
  bytes4 : Bytes → Value
  bytes : Bytes → Value
  big : Option ℤ → Value
  boolean : Bool → Value
  uint8 : ℕ → Value
  uint32 : ℕ → Value
  text : String → Value
  addresses : List Address → Value
  bigs : List (Option ℤ) → Value
  byte_slices : List Bytes → Value
  packed_op : PackedUserOperation → Value
  packed_ops : List PackedUserOperation → Value
  aggregated_ops : List UserOpsPerAggregator → Value
  user_op_info : UserOpInfo → Value
  deposit_info : DepositInfo → Value

-- bind.BoundContract: a contract's address, its ABI and the backend, which the network answers.
-- FilterLogs and WatchLogs also open a channel of logs and a subscription, which the iterators and
-- goroutines of Bindings/Events own.
pub record Contract (CallOpts Opts FilterOpts WatchOpts Tx Net : Type 0) : Type 0 where
  pub call : CallOpts → String → List Value → Action Net (List Value)
  pub transact : Opts → String → List Value → Action Net Tx
  -- with nil call data
  pub raw_transact : Opts → Action Net Tx
  pub transfer : Opts → Action Net Tx
  pub filter_logs : FilterOpts → String → List (List Value) → Action Net (Unit {0})
  pub watch_logs : WatchOpts → String → List (List Value) → Action Net (Unit {0})

-- abi.ConvertType to a type, with the type assertion behind it: a panic if it is of another type.
pub record Convert : Type 0 where
  pub to_big : Value → Result (Option ℤ)
  pub to_bool : Value → Result Bool
  pub to_uint32 : Value → Result ℕ
  pub to_address : Value → Result Address
  pub to_bytes : Value → Result Bytes
  pub to_bytes32 : Value → Result Hash
  pub to_bytes4 : Value → Result Bytes
  pub to_text : Value → Result String
  pub to_deposit_info : Value → Result DepositInfo

-- `out[i]`
abbrev pub item : List Value → ℕ → Result Value
item [] i = panic index_out_of_range
item (v ∷ vs) zero = ok v
item (v ∷ vs) (suc i) = item vs i

-- `*abi.ConvertType(out[i], …).(…)`
abbrev pub out_at : {A : Type 0} → (Value → Result A) → List Value → ℕ → Result A
out_at convert out i = Outcome.◌>>=◌ (item out i) convert

-- The end of a method that returns `out[0]`, from its call.
abbrev pub first_out :
    {Net A : Type 0} → (Value → Result A) → Action Net (List Value) → Action Net A
first_out convert called = do out ← called; lift (out_at convert out 0)
