-- ===== src/Bindings/Events/Run.antt =====
-- An iterator in use: logs arrive in its channel, the caller calls Next and reads the field Event
-- when
-- it returns true, in any order; and the caller's loop `for it.Next() { … }` once it is done.
use aa_sdk_go.Prelude.{
  ℕ, zero, suc, Option, none, some, map_option, List, [], ◌∷◌, ◌++◌, Bool, true, false,
}
use aa_sdk_go.Bindings.Events.{EventKind, Unpack, Iterator, Ready, log_ready, next}

pub data Happening (Log : Type 0) : Type 0 where
  arrives : Log → Happening Log
  calls : Ready → Happening Log

-- The logs that arrived, in their order.
unfoldable pub arrivals : {Log : Type 0} → List (Happening Log) → List Log
arrivals [] = []
arrivals (arrives log ∷ happened) = log ∷ arrivals happened
arrivals (calls ready ∷ happened) = arrivals happened

abbrev pub optional : {A : Type 0} → Option A → List A
optional none = []
optional (some a) = a ∷ []

-- The iterator, and the events that the caller has read.
pub record Reading (E Log : Type 0) : Type 0 where
  pub it : Iterator E Log
  pub seen : List E

module _ {E Log : Type 0} where
  -- After a call of Next, from what it returned.
  abbrev pub read_after : List E → Option Bool × Iterator E Log → Reading E Log
  read_after seen (some true, it) = record { it = it; seen = seen ++ optional it.event }
  read_after seen (some false, it) = record { it = it; seen = seen }
  read_after seen (none, it) = record { it = it; seen = seen }

  -- A pass of the caller's loop, and `rest` behind it.
  abbrev pub looped :
      Option Bool × Iterator E Log
      → Option (List E × Iterator E Log)
      → Option (List E × Iterator E Log)
  looped (some true, it) rest = map_option (λ r. (optional it.event ++ r.0, r.1)) rest
  looped (some false, it) rest = some ([], it)
  looped (none, it) rest = none

module _ {E Log : Type 0} (kind : EventKind E Log) (unpack : Unpack E Log) where
  unfoldable pub step : Happening Log → Reading E Log → Reading E Log
  step (arrives log) r = record r { it = record r.it { available = r.it.available ++ (log ∷ []) } }
  step (calls ready) r = read_after r.seen (next kind unpack ready r.it)

  unfoldable pub run : List (Happening Log) → Reading E Log → Reading E Log
  run [] r = r
  run (h ∷ happened) r = run happened (step h r)

  -- The loop on fuel: the events it reads, and the iterator behind it.
  unfoldable pub for_next : ℕ → Iterator E Log → Option (List E × Iterator E Log)
  for_next zero it = none
  for_next (suc fuel) it = let r = next kind unpack log_ready it in looped r (for_next fuel r.1)
