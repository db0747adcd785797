-- ===== src/Bindings/EntryPoint/CallerSession.antt =====
-- EntryPointCallerSession of bindings/entrypoint/entrypoint.go: the methods with the options that
-- the session stores.
use aa_sdk_go.Prelude.{Option, Bool}
use aa_sdk_go.Prelude.Int.{ℤ}
use aa_sdk_go.Prelude.State.{Action}
use aa_sdk_go.Bytes.{Bytes, Address, Hash}
use aa_sdk_go.UserOperation.{PackedUserOperation}
use aa_sdk_go.Bindings.{Convert, DepositInfo}
use aa_sdk_go.Bindings.Bind.{CallerSession}
use aa_sdk_go.Bindings.EntryPoint

module _ (convert : Convert) {CallOpts Opts FilterOpts WatchOpts Tx Net : Type 0}
    (session : CallerSession CallOpts Opts FilterOpts WatchOpts Tx Net) where
  abbrev balance_of : Address → Action Net (Option ℤ)
  balance_of account = EntryPoint.balance_of convert session.contract session.call_opts account

  abbrev deposits : Address → Action Net DepositInfo
  deposits arg0 = EntryPoint.deposits convert session.contract session.call_opts arg0

  abbrev get_deposit_info : Address → Action Net DepositInfo
  get_deposit_info account =
      EntryPoint.get_deposit_info convert session.contract session.call_opts account

  abbrev get_nonce : Address → Option ℤ → Action Net (Option ℤ)
  get_nonce sender key = EntryPoint.get_nonce convert session.contract session.call_opts sender key

  abbrev get_user_op_hash : PackedUserOperation → Action Net Hash
  get_user_op_hash user_op =
      EntryPoint.get_user_op_hash convert session.contract session.call_opts user_op

  abbrev nonce_sequence_number : Address → Option ℤ → Action Net (Option ℤ)
  nonce_sequence_number arg0 arg1 =
      EntryPoint.nonce_sequence_number convert session.contract session.call_opts arg0 arg1

  abbrev supports_interface : Bytes → Action Net Bool
  supports_interface interface_id =
      EntryPoint.supports_interface convert session.contract session.call_opts interface_id
