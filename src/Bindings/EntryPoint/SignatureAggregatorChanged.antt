-- ===== src/Bindings/EntryPoint/SignatureAggregatorChanged.antt =====
-- The event SignatureAggregatorChanged of bindings/entrypoint/entrypoint.go.
use aa_sdk_go.Prelude.{Option, List, [], ◌∷◌, Bool}
use aa_sdk_go.Prelude.Outcome.{Result, Error}
use aa_sdk_go.Prelude.State.{Action}
use aa_sdk_go.Bytes.{Address, zero_address}
use aa_sdk_go.Bindings.{Contract, address}
use aa_sdk_go.Bindings.Events
use aa_sdk_go.Bindings.Events.{EventKind, Unpack, Iterator, Ready, Watching, Forwarding, rule_of}

record SignatureAggregatorChanged (Log : Type 0) : Type 0 where
  pub aggregator : Address
  pub raw : Log

abbrev SignatureAggregatorChangedIterator : Type 0 → Type 0
SignatureAggregatorChangedIterator Log = Iterator (SignatureAggregatorChanged Log) Log

-- `zero_log` is the types.Log of a struct that is new.
abbrev kind : {Log : Type 0} → Log → EventKind (SignatureAggregatorChanged Log) Log
kind zero_log = record {
  name = "SignatureAggregatorChanged";
  blank = record { aggregator = zero_address; raw = zero_log };
  set_raw = λ log event. record event { raw = log };
}

module _ {Log : Type 0} (zero_log : Log)
    (unpack : Unpack (SignatureAggregatorChanged Log) Log) where
  abbrev next :
      Ready
      → SignatureAggregatorChangedIterator Log
      → Option Bool × SignatureAggregatorChangedIterator Log
  next = Events.next (kind zero_log) unpack

  abbrev parse : Log → Result (SignatureAggregatorChanged Log)
  parse = Events.parse (kind zero_log) unpack

module _ {Log : Type 0} where
  abbrev error : SignatureAggregatorChangedIterator Log → Option Error
  error it = it.fail

  abbrev close :
      SignatureAggregatorChangedIterator Log → Option Error × SignatureAggregatorChangedIterator Log
  close = Events.close

module _ {Log : Type 0} {CallOpts Opts FilterOpts WatchOpts Tx Net : Type 0}
    (contract : Contract CallOpts Opts FilterOpts WatchOpts Tx Net) (zero_log : Log) where
  abbrev filter : FilterOpts → List Address → Action Net (SignatureAggregatorChangedIterator Log)
  filter opts aggregator =
      Events.filter contract (kind zero_log) opts (rule_of address aggregator ∷ [])

  abbrev watch :
      Unpack (SignatureAggregatorChanged Log) Log
      → WatchOpts
      → List Address
      → Action Net (List (Watching Log) → Forwarding (SignatureAggregatorChanged Log))
  watch unpack opts aggregator =
      Events.watch contract (kind zero_log) unpack opts (rule_of address aggregator ∷ [])
