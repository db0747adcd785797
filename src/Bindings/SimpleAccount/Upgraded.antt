-- ===== src/Bindings/SimpleAccount/Upgraded.antt =====
-- The event Upgraded of bindings/account/simple_account.go.
use aa_sdk_go.Prelude.{Option, List, [], ◌∷◌, Bool}
use aa_sdk_go.Prelude.Outcome.{Result, Error}
use aa_sdk_go.Prelude.State.{Action}
use aa_sdk_go.Bytes.{Address, zero_address}
use aa_sdk_go.Bindings.{Contract, address}
use aa_sdk_go.Bindings.Events
use aa_sdk_go.Bindings.Events.{EventKind, Unpack, Iterator, Ready, Watching, Forwarding, rule_of}

record Upgraded (Log : Type 0) : Type 0 where
  pub implementation : Address
  pub raw : Log

abbrev UpgradedIterator : Type 0 → Type 0
UpgradedIterator Log = Iterator (Upgraded Log) Log

-- `zero_log` is the types.Log of a struct that is new.
abbrev kind : {Log : Type 0} → Log → EventKind (Upgraded Log) Log
kind zero_log = record {
  name = "Upgraded";
  blank = record { implementation = zero_address; raw = zero_log };
  set_raw = λ log event. record event { raw = log };
}

module _ {Log : Type 0} (zero_log : Log) (unpack : Unpack (Upgraded Log) Log) where
  abbrev next : Ready → UpgradedIterator Log → Option Bool × UpgradedIterator Log
  next = Events.next (kind zero_log) unpack

  abbrev parse : Log → Result (Upgraded Log)
  parse = Events.parse (kind zero_log) unpack

module _ {Log : Type 0} where
  abbrev error : UpgradedIterator Log → Option Error
  error it = it.fail

  abbrev close : UpgradedIterator Log → Option Error × UpgradedIterator Log
  close = Events.close

module _ {Log : Type 0} {CallOpts Opts FilterOpts WatchOpts Tx Net : Type 0}
    (contract : Contract CallOpts Opts FilterOpts WatchOpts Tx Net) (zero_log : Log) where
  abbrev filter : FilterOpts → List Address → Action Net (UpgradedIterator Log)
  filter opts implementation =
      Events.filter contract (kind zero_log) opts (rule_of address implementation ∷ [])

  abbrev watch :
      Unpack (Upgraded Log) Log
      → WatchOpts
      → List Address
      → Action Net (List (Watching Log) → Forwarding (Upgraded Log))
  watch unpack opts implementation =
      Events.watch contract (kind zero_log) unpack opts (rule_of address implementation ∷ [])
