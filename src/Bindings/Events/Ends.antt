-- ===== src/Bindings/Events/Ends.antt =====
-- The caller's loop over an iterator that is done, against the goroutine of WatchX over the same
-- logs.
use mathlib.Core.Path.{subst}
use aa_sdk_go.Prelude.{
  ℕ, zero, suc, ◌<◌, ◌≡◌, refl, sym, Option, none, some, map_option, List, [], ◌∷◌, map, length,
  Bool, true, arith,
}
use aa_sdk_go.Prelude.Outcome.{Error}
use aa_sdk_go.Bindings.Events.{
  EventKind, Unpack, Iterator, unpacked, take_log, take_available, next_done, next_by, next,
  Watching, new_log, accepted, Forwarding, forward, watch_loop,
}
use aa_sdk_go.Bindings.Events.Run.{for_next, looped}

-- The goroutine meets these logs, and the sink takes every event.
abbrev pub all_accepted : {Log : Type 0} → List Log → List (Watching Log)
all_accepted logs = map (λ log. new_log log accepted) logs

-- The loop ends, with the events that the goroutine sent, and with its error if it returned one.
abbrev pub EndsAs : {E Log : Type 0} → Forwarding E → Option (List E × Iterator E Log) → Type 0
EndsAs {E} {Log} f result =
    (r : List E × Iterator E Log) × (result ≡ some r)
    × (r.0 ≡ f.sent)
    × (map_option some r.1.fail ≡ f.returned)

module _ {E Log : Type 0} (kind : EventKind E Log) (unpack : Unpack E Log) where
  abbrev ended : Option E → Bool → List Log → Iterator E Log
  ended event subscribed logs = record {
    event = event;
    name = kind.name;
    available = logs;
    subscribed = subscribed;
    done = true;
    fail = none;
  }

  -- A log that is taken, and the loop behind it.
  looped-EndsAs :
      (log : Log) (logs : List Log) (event : Option E) (subscribed : Bool) (fuel : ℕ)
      (f : Forwarding E)
      → ((e : Option E) → EndsAs f (for_next kind unpack fuel (ended e subscribed logs)))
      → (u : E × Option Error)
      → (let r = unpacked kind unpack log u (ended event subscribed logs) in
          EndsAs
            (forward kind unpack log accepted u f)
            (looped (some r.0, r.1) (for_next kind unpack fuel r.1)))
  unfolding unpacked forward
  looped-EndsAs log logs event subscribed fuel f behind (e, some x) = (([], _), refl, refl, refl)
  looped-EndsAs log logs event subscribed fuel f behind (e, none) =
      let b = behind (some (kind.set_raw log e)) in
      ((kind.set_raw log e ∷ b.0.0, b.0.1), rw b.1, rw b.2, b.3)

  for_next-ended :
      (logs : List Log) (event : Option E) (subscribed : Bool) (fuel : ℕ)
      → length logs < fuel
      → EndsAs
          (watch_loop kind unpack (all_accepted logs))
          (for_next kind unpack fuel (ended event subscribed logs))
  unfolding for_next next next_by next_done take_available take_log watch_loop
  for_next-ended logs event subscribed zero h = absurd (omega arith)
  for_next-ended [] event subscribed (suc fuel) h =
      (([], ended event subscribed []), refl, refl, refl)
  for_next-ended (log ∷ logs) event subscribed (suc fuel) h =
      looped-EndsAs log logs event subscribed fuel (watch_loop kind unpack (all_accepted logs))
        (λ e. for_next-ended logs e subscribed fuel (omega arith)) (unpack kind.blank kind.name log)

  -- An iterator of FilterX that is done, without an error: the loop `for it.Next()` ends, after one
  -- call more than the logs that wait at most, and it reads the events that the goroutine of WatchX
  -- would send for these logs, and ends with the same error.
  pub for_next-watch_loop :
      (it : Iterator E Log) (fuel : ℕ)
      → it.name ≡ kind.name
      → it.done ≡ true
      → it.fail ≡ none
      → length it.available < fuel
      → EndsAs (watch_loop kind unpack (all_accepted it.available)) (for_next kind unpack fuel it)
  for_next-watch_loop it fuel named is_done unfailed enough =
      subst
        (λ x.
          EndsAs (watch_loop kind unpack (all_accepted it.available)) (for_next kind unpack fuel x))
        (sym same) (for_next-ended it.available it.event it.subscribed fuel enough)
    where
      same : it ≡ ended it.event it.subscribed it.available
      same i = record {
        event = it.event;
        name = named i;
        available = it.available;
        subscribed = it.subscribed;
        done = is_done i;
        fail = unfailed i;
      }
