-- ===== src/Bindings/EntryPoint/UserOperationEvent.antt =====
-- The event UserOperationEvent of bindings/entrypoint/entrypoint.go.
use aa_sdk_go.Prelude.{Option, none, List, [], ◌∷◌, Bool, false}
use aa_sdk_go.Prelude.Int.{ℤ}
use aa_sdk_go.Prelude.Outcome.{Result, Error}
use aa_sdk_go.Prelude.State.{Action}
use aa_sdk_go.Bytes.{Address, Hash, zero_address, zero_hash}
use aa_sdk_go.Bindings.{Contract, address, bytes32}
use aa_sdk_go.Bindings.Events
use aa_sdk_go.Bindings.Events.{EventKind, Unpack, Iterator, Ready, Watching, Forwarding, rule_of}

record UserOperationEvent (Log : Type 0) : Type 0 where
  pub user_op_hash : Hash
  pub sender : Address
  pub paymaster : Address
  pub nonce : Option ℤ
  pub success : Bool
  pub actual_gas_cost : Option ℤ
  pub actual_gas_used : Option ℤ
  pub raw : Log

abbrev UserOperationEventIterator : Type 0 → Type 0
UserOperationEventIterator Log = Iterator (UserOperationEvent Log) Log

-- `zero_log` is the types.Log of a struct that is new.
abbrev kind : {Log : Type 0} → Log → EventKind (UserOperationEvent Log) Log
kind zero_log = record {
  name = "UserOperationEvent";
  blank = record {
    user_op_hash = zero_hash;
    sender = zero_address;
    paymaster = zero_address;
    nonce = none;
    success = false;
    actual_gas_cost = none;
    actual_gas_used = none;
    raw = zero_log;
  };
  set_raw = λ log event. record event { raw = log };
}

module _ {Log : Type 0} (zero_log : Log) (unpack : Unpack (UserOperationEvent Log) Log) where
  abbrev next :
      Ready → UserOperationEventIterator Log → Option Bool × UserOperationEventIterator Log
  next = Events.next (kind zero_log) unpack

  abbrev parse : Log → Result (UserOperationEvent Log)
  parse = Events.parse (kind zero_log) unpack

module _ {Log : Type 0} where
  abbrev error : UserOperationEventIterator Log → Option Error
  error it = it.fail

  abbrev close : UserOperationEventIterator Log → Option Error × UserOperationEventIterator Log
  close = Events.close

module _ {Log : Type 0} {CallOpts Opts FilterOpts WatchOpts Tx Net : Type 0}
    (contract : Contract CallOpts Opts FilterOpts WatchOpts Tx Net) (zero_log : Log) where
  abbrev filter :
      FilterOpts
      → List Hash
      → List Address
      → List Address
      → Action Net (UserOperationEventIterator Log)
  filter opts user_op_hash sender paymaster =
      Events.filter contract (kind zero_log) opts
        (rule_of bytes32 user_op_hash ∷ rule_of address sender ∷ rule_of address paymaster ∷ [])

  abbrev watch :
      Unpack (UserOperationEvent Log) Log
      → WatchOpts
      → List Hash
      → List Address
      → List Address
      → Action Net (List (Watching Log) → Forwarding (UserOperationEvent Log))
  watch unpack opts user_op_hash sender paymaster =
      Events.watch contract (kind zero_log) unpack opts
        (rule_of bytes32 user_op_hash ∷ rule_of address sender ∷ rule_of address paymaster ∷ [])
