-- ===== src/Bindings/SimpleAccount/Raw.antt =====
-- SimpleAccountRaw, SimpleAccountCallerRaw and SimpleAccountTransactorRaw of
-- bindings/account/simple_account.go: any method of the contract.
use aa_sdk_go.Prelude.{List, String}
use aa_sdk_go.Prelude.State.{Action}
use aa_sdk_go.Bindings.{Contract, Value}
use aa_sdk_go.Bindings.Bind.{Binding}

module _ {CallOpts Opts FilterOpts WatchOpts Tx Net : Type 0}
    (raw : Binding CallOpts Opts FilterOpts WatchOpts Tx Net) where
  abbrev raw_call : CallOpts → String → List Value → Action Net (List Value)
  raw_call opts method params = raw.caller.call opts method params

  abbrev raw_transfer : Opts → Action Net Tx
  raw_transfer opts = raw.transactor.transfer opts

  abbrev raw_transact : Opts → String → List Value → Action Net Tx
  raw_transact opts method params = raw.transactor.transact opts method params

module _ {CallOpts Opts FilterOpts WatchOpts Tx Net : Type 0}
    (contract : Contract CallOpts Opts FilterOpts WatchOpts Tx Net) where
  abbrev caller_raw_call : CallOpts → String → List Value → Action Net (List Value)
  caller_raw_call opts method params = contract.call opts method params

  abbrev transactor_raw_transfer : Opts → Action Net Tx
  transactor_raw_transfer opts = contract.transfer opts

  abbrev transactor_raw_transact : Opts → String → List Value → Action Net Tx
  transactor_raw_transact opts method params = contract.transact opts method params
