-- ===== src/Bindings/SimpleAccount.antt =====
-- The contract SimpleAccount of bindings/account/simple_account.go: the methods that call it and
-- those that
-- send it a transaction, and in the child modules its events.
pub mod Initialized
pub mod SimpleAccountInitialized
pub mod Upgraded
pub mod Session
pub mod CallerSession
pub mod TransactorSession
pub mod Raw
use aa_sdk_go.Prelude.{ℕ, zero, suc, Option, none, some, List, [], ◌∷◌, String, Bool, true, false}
use aa_sdk_go.Prelude.Int.{ℤ}
use aa_sdk_go.Prelude.Outcome.{Result, ok, Error}
use aa_sdk_go.Prelude.State.{Action, ◌>>=◌, pure, lift}
use aa_sdk_go.Bytes.{Bytes, Address, Hash, zero_address, zero_hash}
use aa_sdk_go.UserOperation.{PackedUserOperation}
use aa_sdk_go.Bindings.{
  Contract, Convert, UserOpsPerAggregator, UserOpInfo, DepositInfo, first_out, out_at, address,
  addresses, aggregated_ops, big, bigs, boolean, byte_slices, bytes, bytes32, bytes4, packed_op,
  packed_ops, text, uint32, uint8, user_op_info,
}
use aa_sdk_go.Bindings.Bind
use aa_sdk_go.Bindings.Bind.{Binding, Metadata}

module _ {CallOpts Opts FilterOpts WatchOpts Tx Net Abi Backend : Type 0}
    (metadata : Metadata CallOpts Opts FilterOpts WatchOpts Tx Net Abi Backend) where
  abbrev bind_simple_account :
      Address
      → Option Backend
      → Option Backend
      → Option Backend
      → Result (Contract CallOpts Opts FilterOpts WatchOpts Tx Net)
  bind_simple_account = Bind.bind metadata

  abbrev new_simple_account :
      Address → Option Backend → Result (Binding CallOpts Opts FilterOpts WatchOpts Tx Net)
  new_simple_account = Bind.new_binding metadata

  abbrev new_simple_account_caller :
      Address → Option Backend → Result (Contract CallOpts Opts FilterOpts WatchOpts Tx Net)
  new_simple_account_caller = Bind.new_caller metadata

  abbrev new_simple_account_transactor :
      Address → Option Backend → Result (Contract CallOpts Opts FilterOpts WatchOpts Tx Net)
  new_simple_account_transactor = Bind.new_transactor metadata

  abbrev new_simple_account_filterer :
      Address → Option Backend → Result (Contract CallOpts Opts FilterOpts WatchOpts Tx Net)
  new_simple_account_filterer = Bind.new_filterer metadata

module _ (convert : Convert) {CallOpts Opts FilterOpts WatchOpts Tx Net : Type 0}
    (contract : Contract CallOpts Opts FilterOpts WatchOpts Tx Net) where
  abbrev pub upgrade_interface_version : CallOpts → Action Net String
  upgrade_interface_version opts =
      first_out convert.to_text (contract.call opts "UPGRADE_INTERFACE_VERSION" [])

  abbrev pub entry_point : CallOpts → Action Net Address
  entry_point opts = first_out convert.to_address (contract.call opts "entryPoint" [])

  abbrev pub get_deposit : CallOpts → Action Net (Option ℤ)
  get_deposit opts = first_out convert.to_big (contract.call opts "getDeposit" [])

  abbrev pub get_nonce : CallOpts → Action Net (Option ℤ)
  get_nonce opts = first_out convert.to_big (contract.call opts "getNonce" [])

  abbrev pub on_erc1155_batch_received :
      CallOpts → Address → Address → List (Option ℤ) → List (Option ℤ) → Bytes → Action Net Bytes
  on_erc1155_batch_received opts arg0 arg1 arg2 arg3 arg4 = first_out convert.to_bytes4 (
      contract.call opts "onERC1155BatchReceived"
        (address arg0 ∷ address arg1 ∷ bigs arg2 ∷ bigs arg3 ∷ bytes arg4 ∷ []))

  abbrev pub on_erc1155_received :
      CallOpts → Address → Address → Option ℤ → Option ℤ → Bytes → Action Net Bytes
  on_erc1155_received opts arg0 arg1 arg2 arg3 arg4 = first_out convert.to_bytes4 (
      contract.call opts "onERC1155Received"
        (address arg0 ∷ address arg1 ∷ big arg2 ∷ big arg3 ∷ bytes arg4 ∷ []))

  abbrev pub on_erc721_received : CallOpts → Address → Address → Option ℤ → Bytes → Action Net Bytes
  on_erc721_received opts arg0 arg1 arg2 arg3 = first_out convert.to_bytes4 (
      contract.call opts "onERC721Received"
        (address arg0 ∷ address arg1 ∷ big arg2 ∷ bytes arg3 ∷ []))

  abbrev pub owner : CallOpts → Action Net Address
  owner opts = first_out convert.to_address (contract.call opts "owner" [])

  abbrev pub proxiable_uuid : CallOpts → Action Net Hash
  proxiable_uuid opts = first_out convert.to_bytes32 (contract.call opts "proxiableUUID" [])

  abbrev pub supports_interface : CallOpts → Bytes → Action Net Bool
  supports_interface opts interface_id =
      first_out convert.to_bool (contract.call opts "supportsInterface" (bytes4 interface_id ∷ []))

module _ {CallOpts Opts FilterOpts WatchOpts Tx Net : Type 0}
    (contract : Contract CallOpts Opts FilterOpts WatchOpts Tx Net) where
  abbrev pub add_deposit : Opts → Action Net Tx
  add_deposit opts = contract.transact opts "addDeposit" []

  abbrev pub execute : Opts → Address → Option ℤ → Bytes → Action Net Tx
  execute opts dest value arg2 =
      contract.transact opts "execute" (address dest ∷ big value ∷ bytes arg2 ∷ [])

  abbrev pub execute_batch : Opts → List Address → List (Option ℤ) → List Bytes → Action Net Tx
  execute_batch opts dest value arg2 =
      contract.transact opts "executeBatch" (addresses dest ∷ bigs value ∷ byte_slices arg2 ∷ [])

  abbrev pub initialize : Opts → Address → Action Net Tx
  initialize opts an_owner = contract.transact opts "initialize" (address an_owner ∷ [])

  abbrev pub upgrade_to_and_call : Opts → Address → Bytes → Action Net Tx
  upgrade_to_and_call opts new_implementation data' =
      contract.transact opts "upgradeToAndCall" (address new_implementation ∷ bytes data' ∷ [])

  abbrev pub validate_user_op : Opts → PackedUserOperation → Hash → Option ℤ → Action Net Tx
  validate_user_op opts user_op user_op_hash missing_account_funds =
      contract.transact opts "validateUserOp"
        (packed_op user_op ∷ bytes32 user_op_hash ∷ big missing_account_funds ∷ [])

  abbrev pub withdraw_deposit_to : Opts → Address → Option ℤ → Action Net Tx
  withdraw_deposit_to opts withdraw_address amount =
      contract.transact opts "withdrawDepositTo" (address withdraw_address ∷ big amount ∷ [])

  abbrev pub receive : Opts → Action Net Tx
  receive opts = contract.raw_transact opts
