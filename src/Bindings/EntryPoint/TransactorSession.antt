-- ===== src/Bindings/EntryPoint/TransactorSession.antt =====
-- EntryPointTransactorSession of bindings/entrypoint/entrypoint.go: the methods with the options
-- that the session stores.
use aa_sdk_go.Prelude.{ℕ, Option, List}
use aa_sdk_go.Prelude.Int.{ℤ}
use aa_sdk_go.Prelude.State.{Action}
use aa_sdk_go.Bytes.{Bytes, Address}
use aa_sdk_go.UserOperation.{PackedUserOperation}
use aa_sdk_go.Bindings.{UserOpsPerAggregator, UserOpInfo}
use aa_sdk_go.Bindings.Bind.{TransactorSession}
use aa_sdk_go.Bindings.EntryPoint

module _ {CallOpts Opts FilterOpts WatchOpts Tx Net : Type 0}
    (session : TransactorSession CallOpts Opts FilterOpts WatchOpts Tx Net) where
  abbrev add_stake : ℕ → Action Net Tx
  add_stake unstake_delay_sec =
      EntryPoint.add_stake session.contract session.transact_opts unstake_delay_sec

  abbrev delegate_and_revert : Address → Bytes → Action Net Tx
  delegate_and_revert target data' =
      EntryPoint.delegate_and_revert session.contract session.transact_opts target data'

  abbrev deposit_to : Address → Action Net Tx
  deposit_to account = EntryPoint.deposit_to session.contract session.transact_opts account

  abbrev get_sender_address : Bytes → Action Net Tx
  get_sender_address init_code =
      EntryPoint.get_sender_address session.contract session.transact_opts init_code

  abbrev handle_aggregated_ops : List UserOpsPerAggregator → Address → Action Net Tx
  handle_aggregated_ops ops_per_aggregator beneficiary =
      EntryPoint.handle_aggregated_ops session.contract session.transact_opts ops_per_aggregator
        beneficiary

  abbrev handle_atomic_ops : List PackedUserOperation → Address → Action Net Tx
  handle_atomic_ops ops beneficiary =
      EntryPoint.handle_atomic_ops session.contract session.transact_opts ops beneficiary

  abbrev handle_ops : List PackedUserOperation → Address → Action Net Tx
  handle_ops ops beneficiary =
      EntryPoint.handle_ops session.contract session.transact_opts ops beneficiary

  abbrev increment_nonce : Option ℤ → Action Net Tx
  increment_nonce key = EntryPoint.increment_nonce session.contract session.transact_opts key

  abbrev inner_handle_op : Bytes → UserOpInfo → Bytes → Action Net Tx
  inner_handle_op call_data op_info context =
      EntryPoint.inner_handle_op session.contract session.transact_opts call_data op_info context

  abbrev inner_handle_op_atomic : Bytes → UserOpInfo → Bytes → Action Net Tx
  inner_handle_op_atomic call_data op_info context =
      EntryPoint.inner_handle_op_atomic session.contract session.transact_opts call_data op_info
        context

  abbrev unlock_stake : Action Net Tx
  unlock_stake = EntryPoint.unlock_stake session.contract session.transact_opts

  abbrev withdraw_stake : Address → Action Net Tx
  withdraw_stake withdraw_address =
      EntryPoint.withdraw_stake session.contract session.transact_opts withdraw_address

  abbrev withdraw_to : Address → Option ℤ → Action Net Tx
  withdraw_to withdraw_address withdraw_amount =
      EntryPoint.withdraw_to session.contract session.transact_opts withdraw_address withdraw_amount

  abbrev receive : Action Net Tx
  receive = EntryPoint.receive session.contract session.transact_opts
