-- ===== src/Bindings/SimpleAccount/Initialized.antt =====
-- The event Initialized of bindings/account/simple_account.go.
use aa_sdk_go.Prelude.{ℕ, Option, List, [], Bool}
use aa_sdk_go.Prelude.Outcome.{Result, Error}
use aa_sdk_go.Prelude.State.{Action}
use aa_sdk_go.Bindings.{Contract}
use aa_sdk_go.Bindings.Events
use aa_sdk_go.Bindings.Events.{EventKind, Unpack, Iterator, Ready, Watching, Forwarding, rule_of}

record Initialized (Log : Type 0) : Type 0 where
  pub version : ℕ
  pub raw : Log

abbrev InitializedIterator : Type 0 → Type 0
InitializedIterator Log = Iterator (Initialized Log) Log

-- `zero_log` is the types.Log of a struct that is new.
abbrev kind : {Log : Type 0} → Log → EventKind (Initialized Log) Log
kind zero_log = record {
  name = "Initialized";
  blank = record { version = 0; raw = zero_log };
  set_raw = λ log event. record event { raw = log };
}

module _ {Log : Type 0} (zero_log : Log) (unpack : Unpack (Initialized Log) Log) where
  abbrev next : Ready → InitializedIterator Log → Option Bool × InitializedIterator Log
  next = Events.next (kind zero_log) unpack

  abbrev parse : Log → Result (Initialized Log)
  parse = Events.parse (kind zero_log) unpack

module _ {Log : Type 0} where
  abbrev error : InitializedIterator Log → Option Error
  error it = it.fail

  abbrev close : InitializedIterator Log → Option Error × InitializedIterator Log
  close = Events.close

module _ {Log : Type 0} {CallOpts Opts FilterOpts WatchOpts Tx Net : Type 0}
    (contract : Contract CallOpts Opts FilterOpts WatchOpts Tx Net) (zero_log : Log) where
  abbrev filter : FilterOpts → Action Net (InitializedIterator Log)
  filter opts = Events.filter contract (kind zero_log) opts []

  abbrev watch :
      Unpack (Initialized Log) Log
      → WatchOpts
      → Action Net (List (Watching Log) → Forwarding (Initialized Log))
  watch unpack opts = Events.watch contract (kind zero_log) unpack opts []
