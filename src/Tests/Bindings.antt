-- ===== src/Tests/Bindings.antt =====
-- Deposited events of a contract whose logs are numbers: 0 is a log that cannot be unpacked.
use aa_sdk_go.Prelude.{
  ℕ, suc, ◌≡◌, refl, none, some, List, [], ◌∷◌, ◌++◌, map, true, false, ◌==◌, if◌then◌else◌, arith,
}
use aa_sdk_go.Prelude.Int.{pos}
use aa_sdk_go.Prelude.Outcome.{Result, ok, message}
use aa_sdk_go.Bytes.{zero_address}
use aa_sdk_go.Bindings.{Contract}
use aa_sdk_go.Bindings.Events.{
  Unpack, Iterator, log_ready, err_ready, new_iterator, filter, next, parse, watch_loop, new_log,
  accepted, sink_quit,
}
use aa_sdk_go.Bindings.Events.Run.{Happening, arrives, calls, arrivals, run, step, for_next}
use aa_sdk_go.Bindings.Events.Order.{run-in_order, next_complete}
use aa_sdk_go.Bindings.Events.Ends.{EndsAs, all_accepted, for_next-watch_loop}
use aa_sdk_go.Bindings.Events.Watched.{Forwards, met, watch_loop-Forwards}
use aa_sdk_go.Bindings.EntryPoint.Deposited.{Deposited, kind}

-- The network counts the requests for logs.
abbrev contract : Contract (Unit {0}) (Unit {0}) (Unit {0}) (Unit {0}) ℕ ℕ
contract = record {
  call = λ opts method args n. (ok [], n);
  transact = λ opts method args n. (ok n, n);
  raw_transact = λ opts n. (ok n, n);
  transfer = λ opts n. (ok n, n);
  filter_logs = λ opts name rules n. (ok tt, suc n);
  watch_logs = λ opts name rules n. (ok tt, suc n);
}

abbrev unpack : Unpack (Deposited ℕ) ℕ
unpack event name log =
    if log == 0
    then (event, some (message "no event"))
    else (record event { total_deposit = some (pos log) }, none)

abbrev first : Iterator (Deposited ℕ) ℕ
first = record {
  event = none;
  name = "Deposited";
  available = [];
  subscribed = true;
  done = false;
  fail = none;
}

abbrev happened : List (Happening ℕ)
happened = arrives 4 ∷ arrives 5 ∷ calls log_ready ∷ calls log_ready ∷ []

abbrev deposited : ℕ → Deposited ℕ
deposited n = record { account = zero_address; total_deposit = some (pos n); raw = n }

filtered : filter contract (kind 0) tt [] 0 ≡ (ok first, 1)
unfolding filter new_iterator
filtered = refl

next_complete_example :
    map (parse (kind 0) unpack) (4 ∷ 5 ∷ []) ≡ map ok (deposited 4 ∷ deposited 5 ∷ [])
unfolding next run step arrivals
next_complete_example =
    next_complete (kind 0) unpack contract tt [] 0 1 first filtered happened (err_ready none) refl
      refl

run-in_order_example :
    (rest : List (Result (Deposited ℕ))) × (map (parse (kind 0) unpack) (4 ∷ 5 ∷ 0 ∷ [])
      ≡ map ok (deposited 4 ∷ deposited 5 ∷ []) ++ rest)
unfolding next run step arrivals
run-in_order_example =
    run-in_order (kind 0) unpack contract tt [] 0 1 first filtered
      (arrives 4 ∷ arrives 5 ∷ arrives 0 ∷ calls log_ready ∷ calls log_ready ∷ calls log_ready ∷ [])

abbrev left : Iterator (Deposited ℕ) ℕ
left = record first { available = 4 ∷ 0 ∷ 5 ∷ []; done = true }

for_next-watch_loop_example :
    EndsAs
      (watch_loop (kind 0) unpack (all_accepted (4 ∷ 0 ∷ 5 ∷ [])))
      (for_next (kind 0) unpack 4 left)
for_next-watch_loop_example =
    for_next-watch_loop (kind 0) unpack left 4 refl refl refl (omega arith)

watch_loop-Forwards_example :
    Forwards (kind 0) unpack (map (parse (kind 0) unpack) (4 ∷ 5 ∷ 6 ∷ [])) (
      watch_loop
        (kind 0)
        unpack
        (new_log 4 accepted ∷ new_log 5 accepted ∷ new_log 6 sink_quit ∷ []))
unfolding met
watch_loop-Forwards_example =
    watch_loop-Forwards (kind 0) unpack
      (new_log 4 accepted ∷ new_log 5 accepted ∷ new_log 6 sink_quit ∷ [])
