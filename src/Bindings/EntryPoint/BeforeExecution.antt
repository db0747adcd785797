-- ===== src/Bindings/EntryPoint/BeforeExecution.antt =====
-- The event BeforeExecution of bindings/entrypoint/entrypoint.go.
use aa_sdk_go.Prelude.{Option, List, [], Bool}
use aa_sdk_go.Prelude.Outcome.{Result, Error}
use aa_sdk_go.Prelude.State.{Action}
use aa_sdk_go.Bindings.{Contract}
use aa_sdk_go.Bindings.Events
use aa_sdk_go.Bindings.Events.{EventKind, Unpack, Iterator, Ready, Watching, Forwarding, rule_of}

record BeforeExecution (Log : Type 0) : Type 0 where
  pub raw : Log

abbrev BeforeExecutionIterator : Type 0 → Type 0
BeforeExecutionIterator Log = Iterator (BeforeExecution Log) Log

-- `zero_log` is the types.Log of a struct that is new.
abbrev kind : {Log : Type 0} → Log → EventKind (BeforeExecution Log) Log
kind zero_log = record {
  name = "BeforeExecution";
  blank = record { raw = zero_log };
  set_raw = λ log event. record event { raw = log };
}

module _ {Log : Type 0} (zero_log : Log) (unpack : Unpack (BeforeExecution Log) Log) where
  abbrev next : Ready → BeforeExecutionIterator Log → Option Bool × BeforeExecutionIterator Log
  next = Events.next (kind zero_log) unpack

  abbrev parse : Log → Result (BeforeExecution Log)
  parse = Events.parse (kind zero_log) unpack

module _ {Log : Type 0} where
  abbrev error : BeforeExecutionIterator Log → Option Error
  error it = it.fail

  abbrev close : BeforeExecutionIterator Log → Option Error × BeforeExecutionIterator Log
  close = Events.close

module _ {Log : Type 0} {CallOpts Opts FilterOpts WatchOpts Tx Net : Type 0}
    (contract : Contract CallOpts Opts FilterOpts WatchOpts Tx Net) (zero_log : Log) where
  abbrev filter : FilterOpts → Action Net (BeforeExecutionIterator Log)
  filter opts = Events.filter contract (kind zero_log) opts []

  abbrev watch :
      Unpack (BeforeExecution Log) Log
      → WatchOpts
      → Action Net (List (Watching Log) → Forwarding (BeforeExecution Log))
  watch unpack opts = Events.watch contract (kind zero_log) unpack opts []
