-- ===== src/Bindings/SimpleAccountFactory/Session.antt =====
-- SimpleAccountFactorySession of bindings/account/simple_account_factory.go: the methods with the
-- options that the session stores.
use aa_sdk_go.Prelude.{Option}
use aa_sdk_go.Prelude.Int.{ℤ}
use aa_sdk_go.Prelude.State.{Action}
use aa_sdk_go.Bytes.{Address}
use aa_sdk_go.Bindings.{Convert}
use aa_sdk_go.Bindings.Bind.{Session}
use aa_sdk_go.Bindings.SimpleAccountFactory

module _ (convert : Convert) {CallOpts Opts FilterOpts WatchOpts Tx Net : Type 0}
    (session : Session CallOpts Opts FilterOpts WatchOpts Tx Net) where
  abbrev account_implementation : Action Net Address
  account_implementation =
      SimpleAccountFactory.account_implementation convert session.contract.caller session.call_opts

  abbrev get_address : Address → Option ℤ → Action Net Address
  get_address owner salt =
      SimpleAccountFactory.get_address convert session.contract.caller session.call_opts owner salt

module _ {CallOpts Opts FilterOpts WatchOpts Tx Net : Type 0}
    (session : Session CallOpts Opts FilterOpts WatchOpts Tx Net) where
  abbrev create_account : Address → Option ℤ → Action Net Tx
  create_account owner salt =
      SimpleAccountFactory.create_account session.contract.transactor session.transact_opts owner
        salt
