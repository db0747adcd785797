-- ===== src/Bindings/EntryPoint/Deposited.antt =====
-- The event Deposited of bindings/entrypoint/entrypoint.go.
use aa_sdk_go.Prelude.{Option, none, List, [], ◌∷◌, Bool}
use aa_sdk_go.Prelude.Int.{ℤ}
use aa_sdk_go.Prelude.Outcome.{Result, Error}
use aa_sdk_go.Prelude.State.{Action}
use aa_sdk_go.Bytes.{Address, zero_address}
use aa_sdk_go.Bindings.{Contract, address}
use aa_sdk_go.Bindings.Events
use aa_sdk_go.Bindings.Events.{EventKind, Unpack, Iterator, Ready, Watching, Forwarding, rule_of}

pub record Deposited (Log : Type 0) : Type 0 where
  pub account : Address
  pub total_deposit : Option ℤ
  pub raw : Log

abbrev DepositedIterator : Type 0 → Type 0
DepositedIterator Log = Iterator (Deposited Log) Log

-- `zero_log` is the types.Log of a struct that is new.
abbrev pub kind : {Log : Type 0} → Log → EventKind (Deposited Log) Log
kind zero_log = record {
  name = "Deposited";
  blank = record { account = zero_address; total_deposit = none; raw = zero_log };
  set_raw = λ log event. record event { raw = log };
}

module _ {Log : Type 0} (zero_log : Log) (unpack : Unpack (Deposited Log) Log) where
  abbrev next : Ready → DepositedIterator Log → Option Bool × DepositedIterator Log
  next = Events.next (kind zero_log) unpack

  abbrev parse : Log → Result (Deposited Log)
  parse = Events.parse (kind zero_log) unpack

module _ {Log : Type 0} where
  abbrev error : DepositedIterator Log → Option Error
  error it = it.fail

  abbrev close : DepositedIterator Log → Option Error × DepositedIterator Log
  close = Events.close

module _ {Log : Type 0} {CallOpts Opts FilterOpts WatchOpts Tx Net : Type 0}
    (contract : Contract CallOpts Opts FilterOpts WatchOpts Tx Net) (zero_log : Log) where
  abbrev filter : FilterOpts → List Address → Action Net (DepositedIterator Log)
  filter opts account = Events.filter contract (kind zero_log) opts (rule_of address account ∷ [])

  abbrev watch :
      Unpack (Deposited Log) Log
      → WatchOpts
      → List Address
      → Action Net (List (Watching Log) → Forwarding (Deposited Log))
  watch unpack opts account =
      Events.watch contract (kind zero_log) unpack opts (rule_of address account ∷ [])
