-- ===== src/Bindings/VerifyingPaymaster/TransactorSession.antt =====
-- VerifyingPaymasterTransactorSession of bindings/paymaster/verifying_paymaster.go: the methods
-- with the options that the session stores.
use aa_sdk_go.Prelude.{ℕ, Option}
use aa_sdk_go.Prelude.Int.{ℤ}
use aa_sdk_go.Prelude.State.{Action}
use aa_sdk_go.Bytes.{Bytes, Address, Hash}
use aa_sdk_go.UserOperation.{PackedUserOperation}
use aa_sdk_go.Bindings.Bind.{TransactorSession}
use aa_sdk_go.Bindings.VerifyingPaymaster
use aa_sdk_go.Bindings.VerifyingPaymaster.{PaymasterAndData}

module _ {CallOpts Opts FilterOpts WatchOpts Tx Net : Type 0}
    (session : TransactorSession CallOpts Opts FilterOpts WatchOpts Tx Net) where
  abbrev add_stake : ℕ → Action Net Tx
  add_stake unstake_delay_sec =
      VerifyingPaymaster.add_stake session.contract session.transact_opts unstake_delay_sec

  abbrev deposit : Action Net Tx
  deposit = VerifyingPaymaster.deposit session.contract session.transact_opts

  abbrev post_op : ℕ → Bytes → Option ℤ → Option ℤ → Action Net Tx
  post_op mode context actual_gas_cost actual_user_op_fee_per_gas =
      VerifyingPaymaster.post_op session.contract session.transact_opts mode context actual_gas_cost
        actual_user_op_fee_per_gas

  abbrev renounce_ownership : Action Net Tx
  renounce_ownership = VerifyingPaymaster.renounce_ownership session.contract session.transact_opts

  abbrev transfer_ownership : Address → Action Net Tx
  transfer_ownership new_owner =
      VerifyingPaymaster.transfer_ownership session.contract session.transact_opts new_owner

  abbrev unlock_stake : Action Net Tx
  unlock_stake = VerifyingPaymaster.unlock_stake session.contract session.transact_opts

  abbrev validate_paymaster_user_op : PackedUserOperation → Hash → Option ℤ → Action Net Tx
  validate_paymaster_user_op user_op user_op_hash max_cost =
      VerifyingPaymaster.validate_paymaster_user_op session.contract session.transact_opts user_op
        user_op_hash max_cost

  abbrev withdraw_stake : Address → Action Net Tx
  withdraw_stake withdraw_address =
      VerifyingPaymaster.withdraw_stake session.contract session.transact_opts withdraw_address

  abbrev withdraw_to : Address → Option ℤ → Action Net Tx
  withdraw_to withdraw_address amount =
      VerifyingPaymaster.withdraw_to session.contract session.transact_opts withdraw_address amount
