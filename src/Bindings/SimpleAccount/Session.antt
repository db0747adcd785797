-- ===== src/Bindings/SimpleAccount/Session.antt =====
-- SimpleAccountSession of bindings/account/simple_account.go: the methods with the options that
-- the session stores.
use aa_sdk_go.Prelude.{Option, List, String, Bool}
use aa_sdk_go.Prelude.Int.{ℤ}
use aa_sdk_go.Prelude.State.{Action}
use aa_sdk_go.Bytes.{Bytes, Address, Hash}
use aa_sdk_go.UserOperation.{PackedUserOperation}
use aa_sdk_go.Bindings.{Convert}
use aa_sdk_go.Bindings.Bind.{Session}
use aa_sdk_go.Bindings.SimpleAccount

module _ (convert : Convert) {CallOpts Opts FilterOpts WatchOpts Tx Net : Type 0}
    (session : Session CallOpts Opts FilterOpts WatchOpts Tx Net) where
  abbrev upgrade_interface_version : Action Net String
  upgrade_interface_version =
      SimpleAccount.upgrade_interface_version convert session.contract.caller session.call_opts

  abbrev entry_point : Action Net Address
  entry_point = SimpleAccount.entry_point convert session.contract.caller session.call_opts

  abbrev get_deposit : Action Net (Option ℤ)
  get_deposit = SimpleAccount.get_deposit convert session.contract.caller session.call_opts

  abbrev get_nonce : Action Net (Option ℤ)
  get_nonce = SimpleAccount.get_nonce convert session.contract.caller session.call_opts

  abbrev on_erc1155_batch_received :
      Address → Address → List (Option ℤ) → List (Option ℤ) → Bytes → Action Net Bytes
  on_erc1155_batch_received arg0 arg1 arg2 arg3 arg4 =
      SimpleAccount.on_erc1155_batch_received convert session.contract.caller session.call_opts arg0
        arg1 arg2 arg3 arg4

  abbrev on_erc1155_received : Address → Address → Option ℤ → Option ℤ → Bytes → Action Net Bytes
  on_erc1155_received arg0 arg1 arg2 arg3 arg4 =
      SimpleAccount.on_erc1155_received convert session.contract.caller session.call_opts arg0 arg1
        arg2 arg3 arg4

  abbrev on_erc721_received : Address → Address → Option ℤ → Bytes → Action Net Bytes
  on_erc721_received arg0 arg1 arg2 arg3 =
      SimpleAccount.on_erc721_received convert session.contract.caller session.call_opts arg0 arg1
        arg2 arg3

  abbrev owner : Action Net Address
  owner = SimpleAccount.owner convert session.contract.caller session.call_opts

  abbrev proxiable_uuid : Action Net Hash
  proxiable_uuid = SimpleAccount.proxiable_uuid convert session.contract.caller session.call_opts

  abbrev supports_interface : Bytes → Action Net Bool
  supports_interface interface_id =
      SimpleAccount.supports_interface convert session.contract.caller session.call_opts
        interface_id

module _ {CallOpts Opts FilterOpts WatchOpts Tx Net : Type 0}
    (session : Session CallOpts Opts FilterOpts WatchOpts Tx Net) where
  abbrev add_deposit : Action Net Tx
  add_deposit = SimpleAccount.add_deposit session.contract.transactor session.transact_opts

  abbrev execute : Address → Option ℤ → Bytes → Action Net Tx
  execute dest value arg2 =
      SimpleAccount.execute session.contract.transactor session.transact_opts dest value arg2

  abbrev execute_batch : List Address → List (Option ℤ) → List Bytes → Action Net Tx
  execute_batch dest value arg2 =
      SimpleAccount.execute_batch session.contract.transactor session.transact_opts dest value arg2

  abbrev initialize : Address → Action Net Tx
  initialize an_owner =
      SimpleAccount.initialize session.contract.transactor session.transact_opts an_owner

  abbrev upgrade_to_and_call : Address → Bytes → Action Net Tx
  upgrade_to_and_call new_implementation data' =
      SimpleAccount.upgrade_to_and_call session.contract.transactor session.transact_opts
        new_implementation data'

  abbrev validate_user_op : PackedUserOperation → Hash → Option ℤ → Action Net Tx
  validate_user_op user_op user_op_hash missing_account_funds =
      SimpleAccount.validate_user_op session.contract.transactor session.transact_opts user_op
        user_op_hash missing_account_funds

  abbrev withdraw_deposit_to : Address → Option ℤ → Action Net Tx
  withdraw_deposit_to withdraw_address amount =
      SimpleAccount.withdraw_deposit_to session.contract.transactor session.transact_opts
        withdraw_address amount

  abbrev receive : Action Net Tx
  receive = SimpleAccount.receive session.contract.transactor session.transact_opts
