-- ===== src/Bindings/VerifyingPaymaster.antt =====
-- The contract VerifyingPaymaster of bindings/paymaster/verifying_paymaster.go: the methods that
-- call it and those that
-- send it a transaction, and in the child modules its events.
pub mod OwnershipTransferred
pub mod Session
pub mod CallerSession
pub mod TransactorSession
pub mod Raw
use aa_sdk_go.Prelude.{ℕ, zero, suc, Option, none, some, List, [], ◌∷◌, String, Bool, true, false}
use aa_sdk_go.Prelude.Int.{ℤ}
use aa_sdk_go.Prelude.Outcome.{Result, ok, Error}
use aa_sdk_go.Prelude.State.{Action, ◌>>=◌, pure, lift}
use aa_sdk_go.Bytes.{Bytes, Address, Hash, zero_address, zero_hash}
use aa_sdk_go.UserOperation.{PackedUserOperation}
use aa_sdk_go.Bindings.{
  Contract, Convert, UserOpsPerAggregator, UserOpInfo, DepositInfo, first_out, out_at, address,
  addresses, aggregated_ops, big, bigs, boolean, byte_slices, bytes, bytes32, bytes4, packed_op,
  packed_ops, text, uint32, uint8, user_op_info,
}
use aa_sdk_go.Bindings.Bind
use aa_sdk_go.Bindings.Bind.{Binding, Metadata}

-- The results of ParsePaymasterAndData.
pub record PaymasterAndData : Type 0 where
  pub valid_until : Option ℤ
  pub valid_after : Option ℤ
  pub signature : Bytes

module _ {CallOpts Opts FilterOpts WatchOpts Tx Net Abi Backend : Type 0}
    (metadata : Metadata CallOpts Opts FilterOpts WatchOpts Tx Net Abi Backend) where
  abbrev bind_verifying_paymaster :
      Address
      → Option Backend
      → Option Backend
      → Option Backend
      → Result (Contract CallOpts Opts FilterOpts WatchOpts Tx Net)
  bind_verifying_paymaster = Bind.bind metadata

  abbrev new_verifying_paymaster :
      Address → Option Backend → Result (Binding CallOpts Opts FilterOpts WatchOpts Tx Net)
  new_verifying_paymaster = Bind.new_binding metadata

  abbrev new_verifying_paymaster_caller :
      Address → Option Backend → Result (Contract CallOpts Opts FilterOpts WatchOpts Tx Net)
  new_verifying_paymaster_caller = Bind.new_caller metadata

  abbrev new_verifying_paymaster_transactor :
      Address → Option Backend → Result (Contract CallOpts Opts FilterOpts WatchOpts Tx Net)
  new_verifying_paymaster_transactor = Bind.new_transactor metadata

  abbrev new_verifying_paymaster_filterer :
      Address → Option Backend → Result (Contract CallOpts Opts FilterOpts WatchOpts Tx Net)
  new_verifying_paymaster_filterer = Bind.new_filterer metadata

module _ (convert : Convert) {CallOpts Opts FilterOpts WatchOpts Tx Net : Type 0}
    (contract : Contract CallOpts Opts FilterOpts WatchOpts Tx Net) where
  abbrev pub entry_point : CallOpts → Action Net Address
  entry_point opts = first_out convert.to_address (contract.call opts "entryPoint" [])

  abbrev pub get_deposit : CallOpts → Action Net (Option ℤ)
  get_deposit opts = first_out convert.to_big (contract.call opts "getDeposit" [])

  abbrev pub get_hash : CallOpts → PackedUserOperation → Option ℤ → Option ℤ → Action Net Hash
  get_hash opts user_op valid_until valid_after =
      first_out convert.to_bytes32
        (contract.call opts "getHash" (packed_op user_op ∷ big valid_until ∷ big valid_after ∷ []))

  abbrev pub owner : CallOpts → Action Net Address
  owner opts = first_out convert.to_address (contract.call opts "owner" [])

  abbrev pub verifying_signer : CallOpts → Action Net Address
  verifying_signer opts = first_out convert.to_address (contract.call opts "verifyingSigner" [])

  abbrev pub parse_paymaster_and_data : CallOpts → Bytes → Action Net PaymasterAndData
  parse_paymaster_and_data opts paymaster_and_data = do
    out ← contract.call opts "parsePaymasterAndData" (bytes paymaster_and_data ∷ [])
    valid_until ← lift (out_at convert.to_big out 0)
    valid_after ← lift (out_at convert.to_big out 1)
    signature ← lift (out_at convert.to_bytes out 2)
    pure (record { valid_until = valid_until; valid_after = valid_after; signature = signature })

module _ {CallOpts Opts FilterOpts WatchOpts Tx Net : Type 0}
    (contract : Contract CallOpts Opts FilterOpts WatchOpts Tx Net) where
  abbrev pub add_stake : Opts → ℕ → Action Net Tx
  add_stake opts unstake_delay_sec =
      contract.transact opts "addStake" (uint32 unstake_delay_sec ∷ [])

  abbrev pub deposit : Opts → Action Net Tx
  deposit opts = contract.transact opts "deposit" []

  abbrev pub post_op : Opts → ℕ → Bytes → Option ℤ → Option ℤ → Action Net Tx
  post_op opts mode context actual_gas_cost actual_user_op_fee_per_gas =
      contract.transact opts "postOp"
        (uint8 mode ∷ bytes context ∷ big actual_gas_cost ∷ big actual_user_op_fee_per_gas ∷ [])

  abbrev pub renounce_ownership : Opts → Action Net Tx
  renounce_ownership opts = contract.transact opts "renounceOwnership" []

  abbrev pub transfer_ownership : Opts → Address → Action Net Tx
  transfer_ownership opts new_owner =
      contract.transact opts "transferOwnership" (address new_owner ∷ [])

  abbrev pub unlock_stake : Opts → Action Net Tx
  unlock_stake opts = contract.transact opts "unlockStake" []

  abbrev pub validate_paymaster_user_op :
      Opts → PackedUserOperation → Hash → Option ℤ → Action Net Tx
  validate_paymaster_user_op opts user_op user_op_hash max_cost =
      contract.transact opts "validatePaymasterUserOp"
        (packed_op user_op ∷ bytes32 user_op_hash ∷ big max_cost ∷ [])

  abbrev pub withdraw_stake : Opts → Address → Action Net Tx
  withdraw_stake opts withdraw_address =
      contract.transact opts "withdrawStake" (address withdraw_address ∷ [])

  abbrev pub withdraw_to : Opts → Address → Option ℤ → Action Net Tx
  withdraw_to opts withdraw_address amount =
      contract.transact opts "withdrawTo" (address withdraw_address ∷ big amount ∷ [])
