-- ===== src/Bindings/Bind.antt =====
-- What abigen generates to bind a contract at an address: the same for every contract, up to the
-- metadata that holds its ABI.
use aa_sdk_go.Prelude.{Option, none}
use aa_sdk_go.Prelude.Outcome.{Result, ok, ◌>>=◌}
use aa_sdk_go.Bytes.{Address}
use aa_sdk_go.Bindings.{Contract}

-- The structs of a contract's caller, transactor and filterer, each with its contract.
pub record Binding (CallOpts Opts FilterOpts WatchOpts Tx Net : Type 0) : Type 0 where
  pub caller : Contract CallOpts Opts FilterOpts WatchOpts Tx Net
  pub transactor : Contract CallOpts Opts FilterOpts WatchOpts Tx Net
  pub filterer : Contract CallOpts Opts FilterOpts WatchOpts Tx Net

-- A binding, a caller or a transactor with the options of its calls and transactions.
pub record Session (CallOpts Opts FilterOpts WatchOpts Tx Net : Type 0) : Type 0 where
  pub contract : Binding CallOpts Opts FilterOpts WatchOpts Tx Net
  pub call_opts : CallOpts
  pub transact_opts : Opts

pub record CallerSession (CallOpts Opts FilterOpts WatchOpts Tx Net : Type 0) : Type 0 where
  pub contract : Contract CallOpts Opts FilterOpts WatchOpts Tx Net
  pub call_opts : CallOpts

pub record TransactorSession (CallOpts Opts FilterOpts WatchOpts Tx Net : Type 0) : Type 0 where
  pub contract : Contract CallOpts Opts FilterOpts WatchOpts Tx Net
  pub transact_opts : Opts

-- bind.MetaData's GetAbi, and bind.NewBoundContract with the backends that a caller, a transactor and
-- a filterer use, which may be nil.
pub record Metadata (CallOpts Opts FilterOpts WatchOpts Tx Net Abi Backend : Type 0) : Type 0 where
  pub get_abi : Result Abi
  pub new_bound_contract :
      Address
      → Abi
      → Option Backend
      → Option Backend
      → Option Backend
      → Contract CallOpts Opts FilterOpts WatchOpts Tx Net

module _ {CallOpts Opts FilterOpts WatchOpts Tx Net Abi Backend : Type 0}
    (metadata : Metadata CallOpts Opts FilterOpts WatchOpts Tx Net Abi Backend) where
  unfoldable pub bind :
      Address
      → Option Backend
      → Option Backend
      → Option Backend
      → Result (Contract CallOpts Opts FilterOpts WatchOpts Tx Net)
  bind address caller transactor filterer = do
    parsed ← metadata.get_abi
    ok (metadata.new_bound_contract address parsed caller transactor filterer)

  unfoldable pub new_binding :
      Address → Option Backend → Result (Binding CallOpts Opts FilterOpts WatchOpts Tx Net)
  unfolding bind
  new_binding address backend = do
    contract ← bind address backend backend backend
    ok (record { caller = contract; transactor = contract; filterer = contract })

  unfoldable pub new_caller :
      Address → Option Backend → Result (Contract CallOpts Opts FilterOpts WatchOpts Tx Net)
  unfolding bind
  new_caller address caller = bind address caller none none

  unfoldable pub new_transactor :
      Address → Option Backend → Result (Contract CallOpts Opts FilterOpts WatchOpts Tx Net)
  unfolding bind
  new_transactor address transactor = bind address none transactor none

  unfoldable pub new_filterer :
      Address → Option Backend → Result (Contract CallOpts Opts FilterOpts WatchOpts Tx Net)
  unfolding bind
  new_filterer address filterer = bind address none none filterer
