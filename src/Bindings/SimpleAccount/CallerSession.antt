-- ===== src/Bindings/SimpleAccount/CallerSession.antt =====
-- SimpleAccountCallerSession of bindings/account/simple_account.go: the methods with the options
-- that the session stores.
use aa_sdk_go.Prelude.{Option, List, String, Bool}
use aa_sdk_go.Prelude.Int.{ℤ}
use aa_sdk_go.Prelude.State.{Action}
use aa_sdk_go.Bytes.{Bytes, Address, Hash}
use aa_sdk_go.Bindings.{Convert}
use aa_sdk_go.Bindings.Bind.{CallerSession}
use aa_sdk_go.Bindings.SimpleAccount

module _ (convert : Convert) {CallOpts Opts FilterOpts WatchOpts Tx Net : Type 0}
    (session : CallerSession CallOpts Opts FilterOpts WatchOpts Tx Net) where
  abbrev upgrade_interface_version : Action Net String
  upgrade_interface_version =
      SimpleAccount.upgrade_interface_version convert session.contract session.call_opts

  abbrev entry_point : Action Net Address
  entry_point = SimpleAccount.entry_point convert session.contract session.call_opts

  abbrev get_deposit : Action Net (Option ℤ)
  get_deposit = SimpleAccount.get_deposit convert session.contract session.call_opts

  abbrev get_nonce : Action Net (Option ℤ)
  get_nonce = SimpleAccount.get_nonce convert session.contract session.call_opts

  abbrev on_erc1155_batch_received :
      Address → Address → List (Option ℤ) → List (Option ℤ) → Bytes → Action Net Bytes
  on_erc1155_batch_received arg0 arg1 arg2 arg3 arg4 =
      SimpleAccount.on_erc1155_batch_received convert session.contract session.call_opts arg0 arg1
        arg2 arg3 arg4

  abbrev on_erc1155_received : Address → Address → Option ℤ → Option ℤ → Bytes → Action Net Bytes
  on_erc1155_received arg0 arg1 arg2 arg3 arg4 =
      SimpleAccount.on_erc1155_received convert session.contract session.call_opts arg0 arg1 arg2
        arg3 arg4

  abbrev on_erc721_received : Address → Address → Option ℤ → Bytes → Action Net Bytes
  on_erc721_received arg0 arg1 arg2 arg3 =
      SimpleAccount.on_erc721_received convert session.contract session.call_opts arg0 arg1 arg2
        arg3

  abbrev owner : Action Net Address
  owner = SimpleAccount.owner convert session.contract session.call_opts

  abbrev proxiable_uuid : Action Net Hash
  proxiable_uuid = SimpleAccount.proxiable_uuid convert session.contract session.call_opts

  abbrev supports_interface : Bytes → Action Net Bool
  supports_interface interface_id =
      SimpleAccount.supports_interface convert session.contract session.call_opts interface_id
