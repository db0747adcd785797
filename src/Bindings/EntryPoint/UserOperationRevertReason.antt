-- ===== src/Bindings/EntryPoint/UserOperationRevertReason.antt =====
-- The event UserOperationRevertReason of bindings/entrypoint/entrypoint.go.
use aa_sdk_go.Prelude.{Option, none, List, [], ◌∷◌, Bool}
use aa_sdk_go.Prelude.Int.{ℤ}
use aa_sdk_go.Prelude.Outcome.{Result, Error}
use aa_sdk_go.Prelude.State.{Action}
use aa_sdk_go.Bytes.{Bytes, Address, Hash, zero_address, zero_hash}
use aa_sdk_go.Bindings.{Contract, address, bytes32}
use aa_sdk_go.Bindings.Events
use aa_sdk_go.Bindings.Events.{EventKind, Unpack, Iterator, Ready, Watching, Forwarding, rule_of}

record UserOperationRevertReason (Log : Type 0) : Type 0 where
  pub user_op_hash : Hash
  pub sender : Address
  pub nonce : Option ℤ
  pub revert_reason : Bytes
  pub raw : Log

abbrev UserOperationRevertReasonIterator : Type 0 → Type 0
UserOperationRevertReasonIterator Log = Iterator (UserOperationRevertReason Log) Log

-- `zero_log` is the types.Log of a struct that is new.
abbrev kind : {Log : Type 0} → Log → EventKind (UserOperationRevertReason Log) Log
kind zero_log = record {
  name = "UserOperationRevertReason";
  blank = record {
    user_op_hash = zero_hash;
    sender = zero_address;
    nonce = none;
    revert_reason = [];
    raw = zero_log;
  };
  set_raw = λ log event. record event { raw = log };
}

module _ {Log : Type 0} (zero_log : Log) (unpack : Unpack (UserOperationRevertReason Log) Log) where
  abbrev next :
      Ready
      → UserOperationRevertReasonIterator Log
      → Option Bool × UserOperationRevertReasonIterator Log
  next = Events.next (kind zero_log) unpack

  abbrev parse : Log → Result (UserOperationRevertReason Log)
  parse = Events.parse (kind zero_log) unpack

module _ {Log : Type 0} where
  abbrev error : UserOperationRevertReasonIterator Log → Option Error
  error it = it.fail

  abbrev close :
      UserOperationRevertReasonIterator Log → Option Error × UserOperationRevertReasonIterator Log
  close = Events.close

module _ {Log : Type 0} {CallOpts Opts FilterOpts WatchOpts Tx Net : Type 0}
    (contract : Contract CallOpts Opts FilterOpts WatchOpts Tx Net) (zero_log : Log) where
  abbrev filter :
      FilterOpts → List Hash → List Address → Action Net (UserOperationRevertReasonIterator Log)
  filter opts user_op_hash sender =
      Events.filter contract (kind zero_log) opts
        (rule_of bytes32 user_op_hash ∷ rule_of address sender ∷ [])

  abbrev watch :
      Unpack (UserOperationRevertReason Log) Log
      → WatchOpts
      → List Hash
      → List Address
      → Action Net (List (Watching Log) → Forwarding (UserOperationRevertReason Log))
  watch unpack opts user_op_hash sender =
      Events.watch contract (kind zero_log) unpack opts
        (rule_of bytes32 user_op_hash ∷ rule_of address sender ∷ [])
