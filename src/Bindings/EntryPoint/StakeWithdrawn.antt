-- ===== src/Bindings/EntryPoint/StakeWithdrawn.antt =====
-- The event StakeWithdrawn of bindings/entrypoint/entrypoint.go.
use aa_sdk_go.Prelude.{Option, none, List, [], ◌∷◌, Bool}
use aa_sdk_go.Prelude.Int.{ℤ}
use aa_sdk_go.Prelude.Outcome.{Result, Error}
use aa_sdk_go.Prelude.State.{Action}
use aa_sdk_go.Bytes.{Address, zero_address}
use aa_sdk_go.Bindings.{Contract, address}
use aa_sdk_go.Bindings.Events
use aa_sdk_go.Bindings.Events.{EventKind, Unpack, Iterator, Ready, Watching, Forwarding, rule_of}

record StakeWithdrawn (Log : Type 0) : Type 0 where
  pub account : Address
  pub withdraw_address : Address
  pub amount : Option ℤ
  pub raw : Log

abbrev StakeWithdrawnIterator : Type 0 → Type 0
StakeWithdrawnIterator Log = Iterator (StakeWithdrawn Log) Log

-- `zero_log` is the types.Log of a struct that is new.
abbrev kind : {Log : Type 0} → Log → EventKind (StakeWithdrawn Log) Log
kind zero_log = record {
  name = "StakeWithdrawn";
  blank = record {
    account = zero_address;
    withdraw_address = zero_address;
    amount = none;
    raw = zero_log;
  };
  set_raw = λ log event. record event { raw = log };
}

module _ {Log : Type 0} (zero_log : Log) (unpack : Unpack (StakeWithdrawn Log) Log) where
  abbrev next : Ready → StakeWithdrawnIterator Log → Option Bool × StakeWithdrawnIterator Log
  next = Events.next (kind zero_log) unpack

  abbrev parse : Log → Result (StakeWithdrawn Log)
  parse = Events.parse (kind zero_log) unpack

module _ {Log : Type 0} where
  abbrev error : StakeWithdrawnIterator Log → Option Error
  error it = it.fail

  abbrev close : StakeWithdrawnIterator Log → Option Error × StakeWithdrawnIterator Log
  close = Events.close

module _ {Log : Type 0} {CallOpts Opts FilterOpts WatchOpts Tx Net : Type 0}
    (contract : Contract CallOpts Opts FilterOpts WatchOpts Tx Net) (zero_log : Log) where
  abbrev filter : FilterOpts → List Address → Action Net (StakeWithdrawnIterator Log)
  filter opts account = Events.filter contract (kind zero_log) opts (rule_of address account ∷ [])

  abbrev watch :
      Unpack (StakeWithdrawn Log) Log
      → WatchOpts
      → List Address
      → Action Net (List (Watching Log) → Forwarding (StakeWithdrawn Log))
  watch unpack opts account =
      Events.watch contract (kind zero_log) unpack opts (rule_of address account ∷ [])
