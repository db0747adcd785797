-- ===== src/Bindings/SimpleAccountFactory.antt =====
-- The contract SimpleAccountFactory of bindings/account/simple_account_factory.go: the methods
-- that call it and those that
-- send it a transaction.
pub mod Session
pub mod CallerSession
pub mod TransactorSession
pub mod Raw
use aa_sdk_go.Prelude.{ℕ, zero, suc, Option, none, some, List, [], ◌∷◌, String, Bool, true, false}
use aa_sdk_go.Prelude.Int.{ℤ}
use aa_sdk_go.Prelude.Outcome.{Result, ok, Error}
use aa_sdk_go.Prelude.State.{Action, ◌>>=◌, pure, lift}
use aa_sdk_go.Bytes.{Bytes, Address, Hash, zero_address, zero_hash}
use aa_sdk_go.UserOperation.{PackedUserOperation}
use aa_sdk_go.Bindings.{
  Contract, Convert, UserOpsPerAggregator, UserOpInfo, DepositInfo, first_out, out_at, address,
  addresses, aggregated_ops, big, bigs, boolean, byte_slices, bytes, bytes32, bytes4, packed_op,
  packed_ops, text, uint32, uint8, user_op_info,
}
use aa_sdk_go.Bindings.Bind
use aa_sdk_go.Bindings.Bind.{Binding, Metadata}

module _ {CallOpts Opts FilterOpts WatchOpts Tx Net Abi Backend : Type 0}
    (metadata : Metadata CallOpts Opts FilterOpts WatchOpts Tx Net Abi Backend) where
  abbrev bind_simple_account_factory :
      Address
      → Option Backend
      → Option Backend
      → Option Backend
      → Result (Contract CallOpts Opts FilterOpts WatchOpts Tx Net)
  bind_simple_account_factory = Bind.bind metadata

  abbrev pub new_simple_account_factory :
      Address → Option Backend → Result (Binding CallOpts Opts FilterOpts WatchOpts Tx Net)
  new_simple_account_factory = Bind.new_binding metadata

  abbrev new_simple_account_factory_caller :
      Address → Option Backend → Result (Contract CallOpts Opts FilterOpts WatchOpts Tx Net)
  new_simple_account_factory_caller = Bind.new_caller metadata

  abbrev new_simple_account_factory_transactor :
      Address → Option Backend → Result (Contract CallOpts Opts FilterOpts WatchOpts Tx Net)
  new_simple_account_factory_transactor = Bind.new_transactor metadata

  abbrev new_simple_account_factory_filterer :
      Address → Option Backend → Result (Contract CallOpts Opts FilterOpts WatchOpts Tx Net)
  new_simple_account_factory_filterer = Bind.new_filterer metadata

module _ (convert : Convert) {CallOpts Opts FilterOpts WatchOpts Tx Net : Type 0}
    (contract : Contract CallOpts Opts FilterOpts WatchOpts Tx Net) where
  abbrev pub account_implementation : CallOpts → Action Net Address
  account_implementation opts =
      first_out convert.to_address (contract.call opts "accountImplementation" [])

  abbrev pub get_address : CallOpts → Address → Option ℤ → Action Net Address
  get_address opts owner salt =
      first_out convert.to_address (contract.call opts "getAddress" (address owner ∷ big salt ∷ []))

module _ {CallOpts Opts FilterOpts WatchOpts Tx Net : Type 0}
    (contract : Contract CallOpts Opts FilterOpts WatchOpts Tx Net) where
  abbrev pub create_account : Opts → Address → Option ℤ → Action Net Tx
  create_account opts owner salt =
      contract.transact opts "createAccount" (address owner ∷ big salt ∷ [])
