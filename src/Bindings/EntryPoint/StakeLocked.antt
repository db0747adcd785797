-- ===== src/Bindings/EntryPoint/StakeLocked.antt =====
-- The event StakeLocked of bindings/entrypoint/entrypoint.go.
use aa_sdk_go.Prelude.{Option, none, List, [], ◌∷◌, Bool}
use aa_sdk_go.Prelude.Int.{ℤ}
use aa_sdk_go.Prelude.Outcome.{Result, Error}
use aa_sdk_go.Prelude.State.{Action}
use aa_sdk_go.Bytes.{Address, zero_address}
use aa_sdk_go.Bindings.{Contract, address}
use aa_sdk_go.Bindings.Events
use aa_sdk_go.Bindings.Events.{EventKind, Unpack, Iterator, Ready, Watching, Forwarding, rule_of}

record StakeLocked (Log : Type 0) : Type 0 where
  pub account : Address
  pub total_staked : Option ℤ
  pub unstake_delay_sec : Option ℤ
  pub raw : Log

abbrev StakeLockedIterator : Type 0 → Type 0
StakeLockedIterator Log = Iterator (StakeLocked Log) Log

-- `zero_log` is the types.Log of a struct that is new.
abbrev kind : {Log : Type 0} → Log → EventKind (StakeLocked Log) Log
kind zero_log = record {
  name = "StakeLocked";
  blank = record {
    account = zero_address;
    total_staked = none;
    unstake_delay_sec = none;
    raw = zero_log;
  };
  set_raw = λ log event. record event { raw = log };
}

module _ {Log : Type 0} (zero_log : Log) (unpack : Unpack (StakeLocked Log) Log) where
  abbrev next : Ready → StakeLockedIterator Log → Option Bool × StakeLockedIterator Log
  next = Events.next (kind zero_log) unpack

  abbrev parse : Log → Result (StakeLocked Log)
  parse = Events.parse (kind zero_log) unpack

module _ {Log : Type 0} where
  abbrev error : StakeLockedIterator Log → Option Error
  error it = it.fail

  abbrev close : StakeLockedIterator Log → Option Error × StakeLockedIterator Log
  close = Events.close

module _ {Log : Type 0} {CallOpts Opts FilterOpts WatchOpts Tx Net : Type 0}
    (contract : Contract CallOpts Opts FilterOpts WatchOpts Tx Net) (zero_log : Log) where
  abbrev filter : FilterOpts → List Address → Action Net (StakeLockedIterator Log)
  filter opts account = Events.filter contract (kind zero_log) opts (rule_of address account ∷ [])

  abbrev watch :
      Unpack (StakeLocked Log) Log
      → WatchOpts
      → List Address
      → Action Net (List (Watching Log) → Forwarding (StakeLocked Log))
  watch unpack opts account =
      Events.watch contract (kind zero_log) unpack opts (rule_of address account ∷ [])
