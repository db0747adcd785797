-- ===== src/Bindings/EntryPoint.antt =====
-- The contract EntryPoint of bindings/entrypoint/entrypoint.go: the methods that call it and those
-- that
-- send it a transaction, and in the child modules its events.
pub mod AccountDeployed
pub mod BeforeExecution
pub mod Deposited
pub mod PostOpRevertReason
pub mod SignatureAggregatorChanged
pub mod StakeLocked
pub mod StakeUnlocked
pub mod StakeWithdrawn
pub mod UserOperationEvent
pub mod UserOperationPrefundTooLow
pub mod UserOperationRevertReason
pub mod Withdrawn
pub mod Session
pub mod CallerSession
pub mod TransactorSession
pub mod Raw
use aa_sdk_go.Prelude.{ℕ, zero, suc, Option, none, some, List, [], ◌∷◌, String, Bool, true, false}
use aa_sdk_go.Prelude.Int.{ℤ}
use aa_sdk_go.Prelude.Outcome.{Result, ok, Error}
use aa_sdk_go.Prelude.State.{Action, ◌>>=◌, pure, lift}
use aa_sdk_go.Bytes.{Bytes, Address, Hash, zero_address, zero_hash}
use aa_sdk_go.UserOperation.{PackedUserOperation}
use aa_sdk_go.Bindings.{
  Contract, Convert, UserOpsPerAggregator, UserOpInfo, DepositInfo, first_out, out_at, address,
  addresses, aggregated_ops, big, bigs, boolean, byte_slices, bytes, bytes32, bytes4, packed_op,
  packed_ops, text, uint32, uint8, user_op_info,
}
use aa_sdk_go.Bindings.Bind
use aa_sdk_go.Bindings.Bind.{Binding, Metadata}

module _ {CallOpts Opts FilterOpts WatchOpts Tx Net Abi Backend : Type 0}
    (metadata : Metadata CallOpts Opts FilterOpts WatchOpts Tx Net Abi Backend) where
  abbrev bind_entry_point :
      Address
      → Option Backend
      → Option Backend
      → Option Backend
      → Result (Contract CallOpts Opts FilterOpts WatchOpts Tx Net)
  bind_entry_point = Bind.bind metadata

  abbrev pub new_entry_point :
      Address → Option Backend → Result (Binding CallOpts Opts FilterOpts WatchOpts Tx Net)
  new_entry_point = Bind.new_binding metadata

  abbrev new_entry_point_caller :
      Address → Option Backend → Result (Contract CallOpts Opts FilterOpts WatchOpts Tx Net)
  new_entry_point_caller = Bind.new_caller metadata

  abbrev new_entry_point_transactor :
      Address → Option Backend → Result (Contract CallOpts Opts FilterOpts WatchOpts Tx Net)
  new_entry_point_transactor = Bind.new_transactor metadata

  abbrev new_entry_point_filterer :
      Address → Option Backend → Result (Contract CallOpts Opts FilterOpts WatchOpts Tx Net)
  new_entry_point_filterer = Bind.new_filterer metadata

module _ (convert : Convert) {CallOpts Opts FilterOpts WatchOpts Tx Net : Type 0}
    (contract : Contract CallOpts Opts FilterOpts WatchOpts Tx Net) where
  abbrev pub balance_of : CallOpts → Address → Action Net (Option ℤ)
  balance_of opts account =
      first_out convert.to_big (contract.call opts "balanceOf" (address account ∷ []))

  abbrev pub get_deposit_info : CallOpts → Address → Action Net DepositInfo
  get_deposit_info opts account =
      first_out convert.to_deposit_info (contract.call opts "getDepositInfo" (address account ∷ []))

  abbrev pub get_nonce : CallOpts → Address → Option ℤ → Action Net (Option ℤ)
  get_nonce opts sender key =
      first_out convert.to_big (contract.call opts "getNonce" (address sender ∷ big key ∷ []))

  abbrev pub get_user_op_hash : CallOpts → PackedUserOperation → Action Net Hash
  get_user_op_hash opts user_op =
      first_out convert.to_bytes32 (contract.call opts "getUserOpHash" (packed_op user_op ∷ []))

  abbrev pub nonce_sequence_number : CallOpts → Address → Option ℤ → Action Net (Option ℤ)
  nonce_sequence_number opts arg0 arg1 =
      first_out convert.to_big
        (contract.call opts "nonceSequenceNumber" (address arg0 ∷ big arg1 ∷ []))

  abbrev pub supports_interface : CallOpts → Bytes → Action Net Bool
  supports_interface opts interface_id =
      first_out convert.to_bool (contract.call opts "supportsInterface" (bytes4 interface_id ∷ []))

  -- The struct that it returns has the fields of DepositInfo.
  abbrev pub deposits : CallOpts → Address → Action Net DepositInfo
  deposits opts arg0 = do
    out ← contract.call opts "deposits" (address arg0 ∷ [])
    deposit ← lift (out_at convert.to_big out 0)
    staked ← lift (out_at convert.to_bool out 1)
    stake ← lift (out_at convert.to_big out 2)
    unstake_delay_sec ← lift (out_at convert.to_uint32 out 3)
    withdraw_time ← lift (out_at convert.to_big out 4)
    pure (record {
      deposit = deposit;
      staked = staked;
      stake = stake;
      unstake_delay_sec = unstake_delay_sec;
      withdraw_time = withdraw_time;
    })

module _ {CallOpts Opts FilterOpts WatchOpts Tx Net : Type 0}
    (contract : Contract CallOpts Opts FilterOpts WatchOpts Tx Net) where
  abbrev pub add_stake : Opts → ℕ → Action Net Tx
  add_stake opts unstake_delay_sec =
      contract.transact opts "addStake" (uint32 unstake_delay_sec ∷ [])

  abbrev pub delegate_and_revert : Opts → Address → Bytes → Action Net Tx
  delegate_and_revert opts target data' =
      contract.transact opts "delegateAndRevert" (address target ∷ bytes data' ∷ [])

  abbrev pub deposit_to : Opts → Address → Action Net Tx
  deposit_to opts account = contract.transact opts "depositTo" (address account ∷ [])

  abbrev pub get_sender_address : Opts → Bytes → Action Net Tx
  get_sender_address opts init_code =
      contract.transact opts "getSenderAddress" (bytes init_code ∷ [])

  abbrev pub handle_aggregated_ops : Opts → List UserOpsPerAggregator → Address → Action Net Tx
  handle_aggregated_ops opts ops_per_aggregator beneficiary =
      contract.transact opts "handleAggregatedOps"
        (aggregated_ops ops_per_aggregator ∷ address beneficiary ∷ [])

  abbrev pub handle_atomic_ops : Opts → List PackedUserOperation → Address → Action Net Tx
  handle_atomic_ops opts ops beneficiary =
      contract.transact opts "handleAtomicOps" (packed_ops ops ∷ address beneficiary ∷ [])

  abbrev pub handle_ops : Opts → List PackedUserOperation → Address → Action Net Tx
  handle_ops opts ops beneficiary =
      contract.transact opts "handleOps" (packed_ops ops ∷ address beneficiary ∷ [])

  abbrev pub increment_nonce : Opts → Option ℤ → Action Net Tx
  increment_nonce opts key = contract.transact opts "incrementNonce" (big key ∷ [])

  abbrev pub inner_handle_op : Opts → Bytes → UserOpInfo → Bytes → Action Net Tx
  inner_handle_op opts call_data op_info context =
      contract.transact opts "innerHandleOp"
        (bytes call_data ∷ user_op_info op_info ∷ bytes context ∷ [])

  abbrev pub inner_handle_op_atomic : Opts → Bytes → UserOpInfo → Bytes → Action Net Tx
  inner_handle_op_atomic opts call_data op_info context =
      contract.transact opts "innerHandleOpAtomic"
        (bytes call_data ∷ user_op_info op_info ∷ bytes context ∷ [])

  abbrev pub unlock_stake : Opts → Action Net Tx
  unlock_stake opts = contract.transact opts "unlockStake" []

  abbrev pub withdraw_stake : Opts → Address → Action Net Tx
  withdraw_stake opts withdraw_address =
      contract.transact opts "withdrawStake" (address withdraw_address ∷ [])

  abbrev pub withdraw_to : Opts → Address → Option ℤ → Action Net Tx
  withdraw_to opts withdraw_address withdraw_amount =
      contract.transact opts "withdrawTo" (address withdraw_address ∷ big withdraw_amount ∷ [])

  abbrev pub receive : Opts → Action Net Tx
  receive opts = contract.raw_transact opts
