-- ===== src/Bindings/EntryPoint/Session.antt =====
-- EntryPointSession of bindings/entrypoint/entrypoint.go: the methods with the options that the
-- session stores.
use aa_sdk_go.Prelude.{ℕ, Option, List, Bool}
use aa_sdk_go.Prelude.Int.{ℤ}
use aa_sdk_go.Prelude.State.{Action}
use aa_sdk_go.Bytes.{Bytes, Address, Hash}
use aa_sdk_go.UserOperation.{PackedUserOperation}
use aa_sdk_go.Bindings.{Convert, UserOpsPerAggregator, UserOpInfo, DepositInfo}
use aa_sdk_go.Bindings.Bind.{Session}
use aa_sdk_go.Bindings.EntryPoint

module _ (convert : Convert) {CallOpts Opts FilterOpts WatchOpts Tx Net : Type 0}
    (session : Session CallOpts Opts FilterOpts WatchOpts Tx Net) where
  abbrev balance_of : Address → Action Net (Option ℤ)
  balance_of account =
      EntryPoint.balance_of convert session.contract.caller session.call_opts account

  abbrev deposits : Address → Action Net DepositInfo
  deposits arg0 = EntryPoint.deposits convert session.contract.caller session.call_opts arg0

  abbrev get_deposit_info : Address → Action Net DepositInfo
  get_deposit_info account =
      EntryPoint.get_deposit_info convert session.contract.caller session.call_opts account

  abbrev get_nonce : Address → Option ℤ → Action Net (Option ℤ)
  get_nonce sender key =
      EntryPoint.get_nonce convert session.contract.caller session.call_opts sender key

  abbrev get_user_op_hash : PackedUserOperation → Action Net Hash
  get_user_op_hash user_op =
      EntryPoint.get_user_op_hash convert session.contract.caller session.call_opts user_op

  abbrev nonce_sequence_number : Address → Option ℤ → Action Net (Option ℤ)
  nonce_sequence_number arg0 arg1 =
      EntryPoint.nonce_sequence_number convert session.contract.caller session.call_opts arg0 arg1

  abbrev supports_interface : Bytes → Action Net Bool
  supports_interface interface_id =
      EntryPoint.supports_interface convert session.contract.caller session.call_opts interface_id

module _ {CallOpts Opts FilterOpts WatchOpts Tx Net : Type 0}
    (session : Session CallOpts Opts FilterOpts WatchOpts Tx Net) where
  abbrev add_stake : ℕ → Action Net Tx
  add_stake unstake_delay_sec =
      EntryPoint.add_stake session.contract.transactor session.transact_opts unstake_delay_sec

  abbrev delegate_and_revert : Address → Bytes → Action Net Tx
  delegate_and_revert target data' =
      EntryPoint.delegate_and_revert session.contract.transactor session.transact_opts target data'

  abbrev deposit_to : Address → Action Net Tx
  deposit_to account =
      EntryPoint.deposit_to session.contract.transactor session.transact_opts account

  abbrev get_sender_address : Bytes → Action Net Tx
  get_sender_address init_code =
      EntryPoint.get_sender_address session.contract.transactor session.transact_opts init_code

  abbrev handle_aggregated_ops : List UserOpsPerAggregator → Address → Action Net Tx
  handle_aggregated_ops ops_per_aggregator beneficiary =
      EntryPoint.handle_aggregated_ops session.contract.transactor session.transact_opts
        ops_per_aggregator beneficiary

  abbrev handle_atomic_ops : List PackedUserOperation → Address → Action Net Tx
  handle_atomic_ops ops beneficiary =
      EntryPoint.handle_atomic_ops session.contract.transactor session.transact_opts ops beneficiary

  abbrev handle_ops : List PackedUserOperation → Address → Action Net Tx
  handle_ops ops beneficiary =
      EntryPoint.handle_ops session.contract.transactor session.transact_opts ops beneficiary

  abbrev increment_nonce : Option ℤ → Action Net Tx
  increment_nonce key =
      EntryPoint.increment_nonce session.contract.transactor session.transact_opts key

  abbrev inner_handle_op : Bytes → UserOpInfo → Bytes → Action Net Tx
  inner_handle_op call_data op_info context =
      EntryPoint.inner_handle_op session.contract.transactor session.transact_opts call_data op_info
        context

  abbrev inner_handle_op_atomic : Bytes → UserOpInfo → Bytes → Action Net Tx
  inner_handle_op_atomic call_data op_info context =
      EntryPoint.inner_handle_op_atomic session.contract.transactor session.transact_opts call_data
        op_info context

  abbrev unlock_stake : Action Net Tx
  unlock_stake = EntryPoint.unlock_stake session.contract.transactor session.transact_opts

  abbrev withdraw_stake : Address → Action Net Tx
  withdraw_stake withdraw_address =
      EntryPoint.withdraw_stake session.contract.transactor session.transact_opts withdraw_address

  abbrev withdraw_to : Address → Option ℤ → Action Net Tx
  withdraw_to withdraw_address withdraw_amount =
      EntryPoint.withdraw_to session.contract.transactor session.transact_opts withdraw_address
        withdraw_amount

  abbrev receive : Action Net Tx
  receive = EntryPoint.receive session.contract.transactor session.transact_opts
