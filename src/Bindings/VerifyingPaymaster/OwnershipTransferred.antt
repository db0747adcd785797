-- ===== src/Bindings/VerifyingPaymaster/OwnershipTransferred.antt =====
-- The event OwnershipTransferred of bindings/paymaster/verifying_paymaster.go.
use aa_sdk_go.Prelude.{Option, List, [], ◌∷◌, Bool}
use aa_sdk_go.Prelude.Outcome.{Result, Error}
use aa_sdk_go.Prelude.State.{Action}
use aa_sdk_go.Bytes.{Address, zero_address}
use aa_sdk_go.Bindings.{Contract, address}
use aa_sdk_go.Bindings.Events
use aa_sdk_go.Bindings.Events.{EventKind, Unpack, Iterator, Ready, Watching, Forwarding, rule_of}

record OwnershipTransferred (Log : Type 0) : Type 0 where
  pub previous_owner : Address
  pub new_owner : Address
  pub raw : Log

abbrev OwnershipTransferredIterator : Type 0 → Type 0
OwnershipTransferredIterator Log = Iterator (OwnershipTransferred Log) Log

-- `zero_log` is the types.Log of a struct that is new.
abbrev kind : {Log : Type 0} → Log → EventKind (OwnershipTransferred Log) Log
kind zero_log = record {
  name = "OwnershipTransferred";
  blank = record { previous_owner = zero_address; new_owner = zero_address; raw = zero_log };
  set_raw = λ log event. record event { raw = log };
}

module _ {Log : Type 0} (zero_log : Log) (unpack : Unpack (OwnershipTransferred Log) Log) where
  abbrev next :
      Ready → OwnershipTransferredIterator Log → Option Bool × OwnershipTransferredIterator Log
  next = Events.next (kind zero_log) unpack

  abbrev parse : Log → Result (OwnershipTransferred Log)
  parse = Events.parse (kind zero_log) unpack

module _ {Log : Type 0} where
  abbrev error : OwnershipTransferredIterator Log → Option Error
  error it = it.fail

  abbrev close : OwnershipTransferredIterator Log → Option Error × OwnershipTransferredIterator Log
  close = Events.close

module _ {Log : Type 0} {CallOpts Opts FilterOpts WatchOpts Tx Net : Type 0}
    (contract : Contract CallOpts Opts FilterOpts WatchOpts Tx Net) (zero_log : Log) where
  abbrev filter :
      FilterOpts → List Address → List Address → Action Net (OwnershipTransferredIterator Log)
  filter opts previous_owner new_owner =
      Events.filter contract (kind zero_log) opts
        (rule_of address previous_owner ∷ rule_of address new_owner ∷ [])

  abbrev watch :
      Unpack (OwnershipTransferred Log) Log
      → WatchOpts
      → List Address
      → List Address
      → Action Net (List (Watching Log) → Forwarding (OwnershipTransferred Log))
  watch unpack opts previous_owner new_owner =
      Events.watch contract (kind zero_log) unpack opts
        (rule_of address previous_owner ∷ rule_of address new_owner ∷ [])
