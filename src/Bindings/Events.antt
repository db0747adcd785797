-- ===== src/Bindings/Events.antt =====
-- What abigen generates for each event: an iterator over the logs of FilterLogs, the goroutine that
-- forwards the logs of WatchLogs, and a parser of one log. The code is the same for every event, up to
-- the event's struct, name and indexed arguments, so it stands here once and the events of the
-- contracts apply it.
pub mod Run
pub mod Tracks
pub mod Order
pub mod Ends
pub mod Watched
use aa_sdk_go.Prelude.{Option, none, some, List, [], ◌∷◌, ◌++◌, String, Bool, true, false}
use aa_sdk_go.Prelude.Outcome.{Result, ok, err, Error}
use aa_sdk_go.Prelude.State.{Action, ◌>>=◌, pure}
use aa_sdk_go.Bindings.{Contract, Value}

-- An event's name, its struct when it is new, and the assignment of its field Raw.
pub record EventKind (E Log : Type 0) : Type 0 where
  pub name : String
  pub blank : E
  pub set_raw : Log → E → E

-- BoundContract.UnpackLog, which fills in the struct it is given as far as it gets.
abbrev pub Unpack : Type 0 → Type 0 → Type 0
Unpack E Log = E → String → Log → E × Option Error

-- The iterator of an event. `available` are the logs that wait in its channel, and `subscribed` tells
-- whether its subscription goes on; its contract is the parameter `unpack` of the methods.
pub record Iterator (E Log : Type 0) : Type 0 where
  pub event : Option E
  pub name : String
  pub available : List Log
  pub subscribed : Bool
  pub done : Bool
  pub fail : Option Error

-- Which case of Next's `select` is ready: a log, or the subscription's error, nil where it just ends.
pub data Ready : Type 0 where
  log_ready : Ready
  err_ready : Option Error → Ready

-- `for _, item := range items { rule = append(rule, item) }`
unfoldable rule_loop : {A : Type 0} → (A → Value) → List Value → List A → List Value
rule_loop value rule [] = rule
rule_loop value rule (item ∷ items) = rule_loop value (rule ++ (value item ∷ [])) items

unfoldable pub rule_of : {A : Type 0} → (A → Value) → List A → List Value
unfolding rule_loop
rule_of value items = rule_loop value [] items

module _ {E Log : Type 0} where
  -- The literal of FilterX.
  unfoldable pub new_iterator : String → Iterator E Log
  new_iterator name = record {
    event = none;
    name = name;
    available = [];
    subscribed = true;
    done = false;
    fail = none;
  }

  -- The method Error.
  abbrev pub error : Iterator E Log → Option Error
  error it = it.fail

  -- The method Close, which returns nil.
  unfoldable pub close : Iterator E Log → Option Error × Iterator E Log
  close it = (none, record it { subscribed = false })

module _ {E Log : Type 0} (kind : EventKind E Log) (unpack : Unpack E Log) where
  -- `if err := it.contract.UnpackLog(it.Event, it.event, log); err != nil { … }` and what follows it
  unfoldable pub unpacked : Log → E × Option Error → Iterator E Log → Bool × Iterator E Log
  unpacked log (e, some problem) it = (false, record it { event = some e; fail = some problem })
  unpacked log (e, none) it = (true, record it { event = some (kind.set_raw log e) })

  -- What Next does with a log from the channel.
  unfoldable pub take_log : Log → Iterator E Log → Bool × Iterator E Log
  unfolding unpacked
  take_log log it = unpacked log (unpack kind.blank it.name log) it

  -- The `select` of an iterator that is done: a log, or the default.
  unfoldable pub take_available : List Log → Iterator E Log → Bool × Iterator E Log
  unfolding take_log
  take_available [] it = (false, it)
  take_available (log ∷ logs) it = take_log log (record it { available = logs })

  -- The `select` of one in progress, where a log is ready; `none` if there is none, and Next waits.
  unfoldable pub await_log : List Log → Iterator E Log → Option Bool × Iterator E Log
  unfolding take_log
  await_log [] it = (none, it)
  await_log (log ∷ logs) it =
      let r = take_log log (record it { available = logs }) in (some r.0, r.1)

  -- Next of an iterator that is done, by its field `fail`.
  unfoldable pub next_done : Option Error → Iterator E Log → Bool × Iterator E Log
  unfolding take_available
  next_done (some e) it = (false, it)
  next_done none it = take_available it.available it

  -- Next, by its fields `fail` and `done`. The call of itself is of an iterator that is done.
  unfoldable pub next_by :
      Option Error → Bool → Ready → Iterator E Log → Option Bool × Iterator E Log
  unfolding next_done await_log
  next_by (some e) done ready it = (some false, it)
  next_by none true ready it = let r = next_done none it in (some r.0, r.1)
  next_by none false log_ready it = await_log it.available it
  next_by none false (err_ready e) it =
      let r = next_done e (record it { done = true; fail = e }) in (some r.0, r.1)

  unfoldable pub next : Ready → Iterator E Log → Option Bool × Iterator E Log
  unfolding next_by
  next ready it = next_by it.fail it.done ready it

  -- What ParseX returns.
  unfoldable pub parsed : Log → E × Option Error → Result E
  parsed log (e, some problem) = err problem
  parsed log (e, none) = ok (kind.set_raw log e)

  unfoldable pub parse : Log → Result E
  unfolding parsed
  parse log = parsed log (unpack kind.blank kind.name log)

-- The sink's `select` in the goroutine of WatchX: the event is taken, or the subscription or the
-- caller ends it.
pub data Sink : Type 0 where
  accepted : Sink
  sink_err : Option Error → Sink
  sink_quit : Sink

-- What the goroutine's outer `select` finds ready, with what the inner one finds after a log.
pub data Watching (Log : Type 0) : Type 0 where
  new_log : Log → Sink → Watching Log
  sub_err : Option Error → Watching Log
  quit : Watching Log

-- The goroutine as far as it got: the events it sent, what it returned, if it did, and whether its
-- subscription goes on, which the deferred Unsubscribe ends.
pub record Forwarding (E : Type 0) : Type 0 where
  pub sent : List E
  pub returned : Option (Option Error)
  pub subscribed : Bool

module _ {E : Type 0} where
  abbrev waiting : Forwarding E
  waiting = record { sent = []; returned = none; subscribed = true }

  abbrev return_with : Option Error → Forwarding E
  return_with problem = record { sent = []; returned = some problem; subscribed = false }

module _ {E Log : Type 0} (kind : EventKind E Log) (unpack : Unpack E Log) where
  -- What the goroutine does with a log, and `rest` behind an event that the sink takes.
  unfoldable pub forward : Log → Sink → E × Option Error → Forwarding E → Forwarding E
  forward log sink (e, some problem) rest = return_with (some problem)
  forward log accepted (e, none) rest = record rest { sent = kind.set_raw log e ∷ rest.sent }
  forward log (sink_err problem) (e, none) rest = return_with problem
  forward log sink_quit (e, none) rest = return_with none

  unfoldable pub watch_loop : List (Watching Log) → Forwarding E
  unfolding forward
  watch_loop [] = waiting
  watch_loop (new_log log sink ∷ happened) =
      forward log sink (unpack kind.blank kind.name log) (watch_loop happened)
  watch_loop (sub_err problem ∷ happened) = return_with problem
  watch_loop (quit ∷ happened) = return_with none

module _ {CallOpts Opts FilterOpts WatchOpts Tx Net : Type 0}
    (contract : Contract CallOpts Opts FilterOpts WatchOpts Tx Net) where
  -- FilterX, from the rules of its indexed arguments.
  unfoldable pub filter :
      {E Log : Type 0}
      → EventKind E Log
      → FilterOpts
      → List (List Value)
      → Action Net (Iterator E Log)
  unfolding new_iterator
  filter kind opts rules = do
    _ ← contract.filter_logs opts kind.name rules
    pure (new_iterator kind.name)

  -- WatchX: the subscription is the goroutine, which answers what happens to it.
  unfoldable pub watch :
      {E Log : Type 0}
      → EventKind E Log
      → Unpack E Log
      → WatchOpts
      → List (List Value)
      → Action Net (List (Watching Log) → Forwarding E)
  unfolding watch_loop
  watch kind unpack opts rules = do
    _ ← contract.watch_logs opts kind.name rules
    pure (watch_loop kind unpack)
