-- ===== src/Bindings/SimpleAccountFactory/TransactorSession.antt =====
-- SimpleAccountFactoryTransactorSession of bindings/account/simple_account_factory.go: the methods
-- with the options that the session stores.
use aa_sdk_go.Prelude.{Option}
use aa_sdk_go.Prelude.Int.{ℤ}
use aa_sdk_go.Prelude.State.{Action}
use aa_sdk_go.Bytes.{Address}
use aa_sdk_go.Bindings.Bind.{TransactorSession}
use aa_sdk_go.Bindings.SimpleAccountFactory

module _ {CallOpts Opts FilterOpts WatchOpts Tx Net : Type 0}
    (session : TransactorSession CallOpts Opts FilterOpts WatchOpts Tx Net) where
  abbrev create_account : Address → Option ℤ → Action Net Tx
  create_account owner salt =
      SimpleAccountFactory.create_account session.contract session.transact_opts owner salt
