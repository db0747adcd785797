-- ===== src/Transfer.antt =====
-- PackTransferData and PackBatchTransferData of utils.go: the call data by which an account sends
-- value. A nil ABI is a fault of the runtime.
use aa_sdk_go.Prelude.{
  Option, none, some, List, [], ◌∷◌, String, length, replicate, ◌==◌, if◌then◌else◌,
}
use aa_sdk_go.Prelude.Int.{ℤ}
use aa_sdk_go.Prelude.Outcome.{Result, err, panic, mismatch, nil_dereference}
use aa_sdk_go.Bytes.{Bytes, Address}
use aa_sdk_go.Ethereum.{Ethereum, AbiValue, big, bytes, addresses, bigs, bytes_list}

module _ {Key Abi : Type 0} (g : Ethereum Key Abi) where
  abbrev pack_with : Option Abi → String → List AbiValue → Result Bytes
  pack_with none method values = panic nil_dereference
  pack_with (some account_abi) method values = g.pack_call account_abi method values

  unfoldable pack_transfer_data : Option Abi → Address → Option ℤ → Result Bytes
  pack_transfer_data account_abi target value =
      pack_with account_abi "execute" (AbiValue.address target ∷ big value ∷ bytes [] ∷ [])

  unfoldable pack_batch_transfer_data : Option Abi → List Address → List (Option ℤ) → Result Bytes
  pack_batch_transfer_data account_abi dest value =
      if length dest == length value
      then pack_with account_abi "executeBatch"
          (addresses dest ∷ bigs value ∷ bytes_list (replicate (length dest) []) ∷ [])
      else err (mismatch "dest and value length mismatch" (length dest) (length value))
