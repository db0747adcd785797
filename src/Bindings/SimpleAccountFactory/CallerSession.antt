-- ===== src/Bindings/SimpleAccountFactory/CallerSession.antt =====
-- SimpleAccountFactoryCallerSession of bindings/account/simple_account_factory.go: the methods
-- with the options that the session stores.
use aa_sdk_go.Prelude.{Option}
use aa_sdk_go.Prelude.Int.{ℤ}
use aa_sdk_go.Prelude.State.{Action}
use aa_sdk_go.Bytes.{Address}
use aa_sdk_go.Bindings.{Convert}
use aa_sdk_go.Bindings.Bind.{CallerSession}
use aa_sdk_go.Bindings.SimpleAccountFactory

module _ (convert : Convert) {CallOpts Opts FilterOpts WatchOpts Tx Net : Type 0}
    (session : CallerSession CallOpts Opts FilterOpts WatchOpts Tx Net) where
  abbrev account_implementation : Action Net Address
  account_implementation =
      SimpleAccountFactory.account_implementation convert session.contract session.call_opts

  abbrev get_address : Address → Option ℤ → Action Net Address
  get_address owner salt =
      SimpleAccountFactory.get_address convert session.contract session.call_opts owner salt
