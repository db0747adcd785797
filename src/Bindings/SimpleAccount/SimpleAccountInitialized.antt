-- ===== src/Bindings/SimpleAccount/SimpleAccountInitialized.antt =====
-- The event SimpleAccountInitialized of bindings/account/simple_account.go.
use aa_sdk_go.Prelude.{Option, List, [], ◌∷◌, Bool}
use aa_sdk_go.Prelude.Outcome.{Result, Error}
use aa_sdk_go.Prelude.State.{Action}
use aa_sdk_go.Bytes.{Address, zero_address}
use aa_sdk_go.Bindings.{Contract, address}
use aa_sdk_go.Bindings.Events
use aa_sdk_go.Bindings.Events.{EventKind, Unpack, Iterator, Ready, Watching, Forwarding, rule_of}

record SimpleAccountInitialized (Log : Type 0) : Type 0 where
  pub entry_point : Address
  pub owner : Address
  pub raw : Log

abbrev SimpleAccountInitializedIterator : Type 0 → Type 0
SimpleAccountInitializedIterator Log = Iterator (SimpleAccountInitialized Log) Log

-- `zero_log` is the types.Log of a struct that is new.
abbrev kind : {Log : Type 0} → Log → EventKind (SimpleAccountInitialized Log) Log
kind zero_log = record {
  name = "SimpleAccountInitialized";
  blank = record { entry_point = zero_address; owner = zero_address; raw = zero_log };
  set_raw = λ log event. record event { raw = log };
}

module _ {Log : Type 0} (zero_log : Log) (unpack : Unpack (SimpleAccountInitialized Log) Log) where
  abbrev next :
      Ready
      → SimpleAccountInitializedIterator Log
      → Option Bool × SimpleAccountInitializedIterator Log
  next = Events.next (kind zero_log) unpack

  abbrev parse : Log → Result (SimpleAccountInitialized Log)
  parse = Events.parse (kind zero_log) unpack

module _ {Log : Type 0} where
  abbrev error : SimpleAccountInitializedIterator Log → Option Error
  error it = it.fail

  abbrev close :
      SimpleAccountInitializedIterator Log → Option Error × SimpleAccountInitializedIterator Log
  close = Events.close

module _ {Log : Type 0} {CallOpts Opts FilterOpts WatchOpts Tx Net : Type 0}
    (contract : Contract CallOpts Opts FilterOpts WatchOpts Tx Net) (zero_log : Log) where
  abbrev filter :
      FilterOpts → List Address → List Address → Action Net (SimpleAccountInitializedIterator Log)
  filter opts entry_point owner =
      Events.filter contract (kind zero_log) opts
        (rule_of address entry_point ∷ rule_of address owner ∷ [])

  abbrev watch :
      Unpack (SimpleAccountInitialized Log) Log
      → WatchOpts
      → List Address
      → List Address
      → Action Net (List (Watching Log) → Forwarding (SimpleAccountInitialized Log))
  watch unpack opts entry_point owner =
      Events.watch contract (kind zero_log) unpack opts
        (rule_of address entry_point ∷ rule_of address owner ∷ [])
