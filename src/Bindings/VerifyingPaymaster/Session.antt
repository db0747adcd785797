-- ===== src/Bindings/VerifyingPaymaster/Session.antt =====
-- VerifyingPaymasterSession of bindings/paymaster/verifying_paymaster.go: the methods with the
-- options that the session stores.
use aa_sdk_go.Prelude.{ℕ, Option}
use aa_sdk_go.Prelude.Int.{ℤ}
use aa_sdk_go.Prelude.State.{Action}
use aa_sdk_go.Bytes.{Bytes, Address, Hash}
use aa_sdk_go.UserOperation.{PackedUserOperation}
use aa_sdk_go.Bindings.{Convert}
use aa_sdk_go.Bindings.Bind.{Session}
use aa_sdk_go.Bindings.VerifyingPaymaster
use aa_sdk_go.Bindings.VerifyingPaymaster.{PaymasterAndData}

module _ (convert : Convert) {CallOpts Opts FilterOpts WatchOpts Tx Net : Type 0}
    (session : Session CallOpts Opts FilterOpts WatchOpts Tx Net) where
  abbrev entry_point : Action Net Address
  entry_point = VerifyingPaymaster.entry_point convert session.contract.caller session.call_opts

  abbrev get_deposit : Action Net (Option ℤ)
  get_deposit = VerifyingPaymaster.get_deposit convert session.contract.caller session.call_opts

  abbrev get_hash : PackedUserOperation → Option ℤ → Option ℤ → Action Net Hash
  get_hash user_op valid_until valid_after =
      VerifyingPaymaster.get_hash convert session.contract.caller session.call_opts user_op
        valid_until valid_after

  abbrev owner : Action Net Address
  owner = VerifyingPaymaster.owner convert session.contract.caller session.call_opts

  abbrev parse_paymaster_and_data : Bytes → Action Net PaymasterAndData
  parse_paymaster_and_data paymaster_and_data =
      VerifyingPaymaster.parse_paymaster_and_data convert session.contract.caller session.call_opts
        paymaster_and_data

  abbrev verifying_signer : Action Net Address
  verifying_signer =
      VerifyingPaymaster.verifying_signer convert session.contract.caller session.call_opts

module _ {CallOpts Opts FilterOpts WatchOpts Tx Net : Type 0}
    (session : Session CallOpts Opts FilterOpts WatchOpts Tx Net) where
  abbrev add_stake : ℕ → Action Net Tx
  add_stake unstake_delay_sec =
      VerifyingPaymaster.add_stake session.contract.transactor session.transact_opts
        unstake_delay_sec

  abbrev deposit : Action Net Tx
  deposit = VerifyingPaymaster.deposit session.contract.transactor session.transact_opts

  abbrev post_op : ℕ → Bytes → Option ℤ → Option ℤ → Action Net Tx
  post_op mode context actual_gas_cost actual_user_op_fee_per_gas =
      VerifyingPaymaster.post_op session.contract.transactor session.transact_opts mode context
        actual_gas_cost actual_user_op_fee_per_gas

  abbrev renounce_ownership : Action Net Tx
  renounce_ownership =
      VerifyingPaymaster.renounce_ownership session.contract.transactor session.transact_opts

  abbrev transfer_ownership : Address → Action Net Tx
  transfer_ownership new_owner =
      VerifyingPaymaster.transfer_ownership session.contract.transactor session.transact_opts
        new_owner

  abbrev unlock_stake : Action Net Tx
  unlock_stake = VerifyingPaymaster.unlock_stake session.contract.transactor session.transact_opts

  abbrev validate_paymaster_user_op : PackedUserOperation → Hash → Option ℤ → Action Net Tx
  validate_paymaster_user_op user_op user_op_hash max_cost =
      VerifyingPaymaster.validate_paymaster_user_op session.contract.transactor
        session.transact_opts user_op user_op_hash max_cost

  abbrev withdraw_stake : Address → Action Net Tx
  withdraw_stake withdraw_address =
      VerifyingPaymaster.withdraw_stake session.contract.transactor session.transact_opts
        withdraw_address

  abbrev withdraw_to : Address → Option ℤ → Action Net Tx
  withdraw_to withdraw_address amount =
      VerifyingPaymaster.withdraw_to session.contract.transactor session.transact_opts
        withdraw_address amount
