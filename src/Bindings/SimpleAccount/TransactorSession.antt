-- ===== src/Bindings/SimpleAccount/TransactorSession.antt =====
-- SimpleAccountTransactorSession of bindings/account/simple_account.go: the methods with the
-- options that the session stores.
use aa_sdk_go.Prelude.{Option, List}
use aa_sdk_go.Prelude.Int.{ℤ}
use aa_sdk_go.Prelude.State.{Action}
use aa_sdk_go.Bytes.{Bytes, Address, Hash}
use aa_sdk_go.UserOperation.{PackedUserOperation}
use aa_sdk_go.Bindings.Bind.{TransactorSession}
use aa_sdk_go.Bindings.SimpleAccount

module _ {CallOpts Opts FilterOpts WatchOpts Tx Net : Type 0}
    (session : TransactorSession CallOpts Opts FilterOpts WatchOpts Tx Net) where
  abbrev add_deposit : Action Net Tx
  add_deposit = SimpleAccount.add_deposit session.contract session.transact_opts

  abbrev execute : Address → Option ℤ → Bytes → Action Net Tx
  execute dest value arg2 =
      SimpleAccount.execute session.contract session.transact_opts dest value arg2

  abbrev execute_batch : List Address → List (Option ℤ) → List Bytes → Action Net Tx
  execute_batch dest value arg2 =
      SimpleAccount.execute_batch session.contract session.transact_opts dest value arg2

  abbrev initialize : Address → Action Net Tx
  initialize an_owner = SimpleAccount.initialize session.contract session.transact_opts an_owner

  abbrev upgrade_to_and_call : Address → Bytes → Action Net Tx
  upgrade_to_and_call new_implementation data' =
      SimpleAccount.upgrade_to_and_call session.contract session.transact_opts new_implementation
        data'

  abbrev validate_user_op : PackedUserOperation → Hash → Option ℤ → Action Net Tx
  validate_user_op user_op user_op_hash missing_account_funds =
      SimpleAccount.validate_user_op session.contract session.transact_opts user_op user_op_hash
        missing_account_funds

  abbrev withdraw_deposit_to : Address → Option ℤ → Action Net Tx
  withdraw_deposit_to withdraw_address amount =
      SimpleAccount.withdraw_deposit_to session.contract session.transact_opts withdraw_address
        amount

  abbrev receive : Action Net Tx
  receive = SimpleAccount.receive session.contract session.transact_opts
