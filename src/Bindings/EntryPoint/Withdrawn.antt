-- ===== src/Bindings/EntryPoint/Withdrawn.antt =====
-- The event Withdrawn of bindings/entrypoint/entrypoint.go.
use aa_sdk_go.Prelude.{Option, none, List, [], ◌∷◌, Bool}
use aa_sdk_go.Prelude.Int.{ℤ}
use aa_sdk_go.Prelude.Outcome.{Result, Error}
use aa_sdk_go.Prelude.State.{Action}
use aa_sdk_go.Bytes.{Address, zero_address}
use aa_sdk_go.Bindings.{Contract, address}
use aa_sdk_go.Bindings.Events
use aa_sdk_go.Bindings.Events.{EventKind, Unpack, Iterator, Ready, Watching, Forwarding, rule_of}

record Withdrawn (Log : Type 0) : Type 0 where
  pub account : Address
  pub withdraw_address : Address
  pub amount : Option ℤ
  pub raw : Log

abbrev WithdrawnIterator : Type 0 → Type 0
WithdrawnIterator Log = Iterator (Withdrawn Log) Log

-- `zero_log` is the types.Log of a struct that is new.
abbrev kind : {Log : Type 0} → Log → EventKind (Withdrawn Log) Log
kind zero_log = record {
  name = "Withdrawn";
  blank = record {
    account = zero_address;
    withdraw_address = zero_address;
    amount = none;
    raw = zero_log;
  };
  set_raw = λ log event. record event { raw = log };
}

module _ {Log : Type 0} (zero_log : Log) (unpack : Unpack (Withdrawn Log) Log) where
  abbrev next : Ready → WithdrawnIterator Log → Option Bool × WithdrawnIterator Log
  next = Events.next (kind zero_log) unpack

  abbrev parse : Log → Result (Withdrawn Log)
  parse = Events.parse (kind zero_log) unpack

module _ {Log : Type 0} where
  abbrev error : WithdrawnIterator Log → Option Error
  error it = it.fail

  abbrev close : WithdrawnIterator Log → Option Error × WithdrawnIterator Log
  close = Events.close

module _ {Log : Type 0} {CallOpts Opts FilterOpts WatchOpts Tx Net : Type 0}
    (contract : Contract CallOpts Opts FilterOpts WatchOpts Tx Net) (zero_log : Log) where
  abbrev filter : FilterOpts → List Address → Action Net (WithdrawnIterator Log)
  filter opts account = Events.filter contract (kind zero_log) opts (rule_of address account ∷ [])

  abbrev watch :
      Unpack (Withdrawn Log) Log
      → WatchOpts
      → List Address
      → Action Net (List (Watching Log) → Forwarding (Withdrawn Log))
  watch unpack opts account =
      Events.watch contract (kind zero_log) unpack opts (rule_of address account ∷ [])
