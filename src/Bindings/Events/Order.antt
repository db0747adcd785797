-- ===== src/Bindings/Events/Order.antt =====
-- What the caller of an iterator reads, against the logs that arrived and the parser of one log.
use aa_sdk_go.Prelude.{
  ◌≡◌, refl, Option, none, some, List, [], ◌∷◌, ◌++◌, map, map-append, append-nil, Bool, true,
  false,
}
use aa_sdk_go.Prelude.Outcome.{Result, ok, Error}
use mathlib.Core.Path.{subst}
use aa_sdk_go.Prelude.State.{>>=-eq-ok, same_return}
use aa_sdk_go.Bindings.{Contract, Value}
use aa_sdk_go.Bindings.Events.{
  EventKind, Unpack, Iterator, Ready, log_ready, err_ready, unpacked, take_log, take_available,
  await_log, next_done, next_by, next, parse, new_iterator, error, filter,
}
use aa_sdk_go.Bindings.Events.Run.{Happening, arrivals, Reading, read_after, run}
use aa_sdk_go.Bindings.Events.Tracks.{Tracks, kept, next_by-Tracks, run-Tracks}

module _ {E Log : Type 0} (kind : EventKind E Log) (unpack : Unpack E Log) where
  -- The iterator that FilterX returns, of which nothing has been read.
  abbrev unread : Iterator E Log → Reading E Log
  unread it = record { it = it; seen = [] }

  unpacked-fails :
      (log : Log) (u : E × Option Error) (it : Iterator E Log)
      → (unpacked kind unpack log u it).0 ≡ false
      → (unpacked kind unpack log u it).1.fail ≡ none
      → ⊥
  unfolding unpacked
  unpacked-fails log (e, none) it r h = cc
  unpacked-fails log (e, some x) it r h = cc

  some_bool : {a b : Bool} → some a ≡ some b → a ≡ b
  some_bool e = cc

  -- Next returns false without an error only when no log waits.
  drained :
      (available : List Log) (it : Iterator E Log)
      → it.available ≡ available
      → (let n = take_available kind unpack available it in
          n.0 ≡ false → n.1.fail ≡ none → n.1.available ≡ [])
        × (let n = await_log kind unpack available it in
            n.0 ≡ some false → n.1.fail ≡ none → n.1.available ≡ [])
  unfolding take_available await_log take_log
  drained [] it a = (λ _ _. a, λ q. cc)
  drained (log ∷ rest) it a = (
    λ r h.
        absurd
          (unpacked-fails log (unpack kind.blank it.name log) (record it { available = rest }) r h),
    λ r h. absurd (
        unpacked-fails log (unpack kind.blank it.name log) (record it { available = rest })
          (some_bool r) h),
  )

  next_by-drained :
      (fail : Option Error) (done : Bool) (ready : Ready) (it : Iterator E Log)
      → it.fail ≡ fail
      → (let n = next_by kind unpack fail done ready it in
          n.0 ≡ some false → n.1.fail ≡ none → n.1.available ≡ [])
  unfolding next_by next_done
  next_by-drained (some x) done ready it q = λ _ h. cc
  next_by-drained none true ready it q = λ r h. (drained it.available it refl).0 (some_bool r) h
  next_by-drained none false log_ready it q = (drained it.available it refl).1
  next_by-drained none false (err_ready none) it q =
      λ r h. (drained it.available (record it { done = true; fail = none }) refl).0 (some_bool r) h
  next_by-drained none false (err_ready (some x)) it q = λ r h. cc

  completed :
      (logs : List Log) (seen : List E) (n : Option Bool × Iterator E Log)
      → Tracks kind unpack logs (read_after seen n)
      → n.0 ≡ some false
      → n.1.fail ≡ none
      → n.1.available ≡ []
      → map (parse kind unpack) logs ≡ map ok seen
  completed logs seen (some true, it) t r h a = absurd cc
  completed logs seen (some false, it) t r h a = rw (
    kept kind unpack logs (record { it = it; seen = seen }) t h,
    a,
    append-nil t.taken,
    t.parsed_taken,
  )
  completed logs seen (none, it) t r h a = absurd cc

  module _ {CallOpts Opts FilterOpts WatchOpts Tx Net : Type 0}
      (contract : Contract CallOpts Opts FilterOpts WatchOpts Tx Net) (opts : FilterOpts)
      (rules : List (List Value)) (n n' : Net) (it : Iterator E Log)
      (filtered : filter contract kind opts rules n ≡ (ok it, n')) where
    new : new_iterator kind.name ≡ it
    unfolding filter
    new =
        let (_, _, _, e) = >>=-eq-ok (contract.filter_logs opts kind.name rules) _ filtered in
        (same_return e).0

    Tracks-unread :
        (happened : List (Happening Log))
        → Tracks kind unpack (arrivals happened) (run kind unpack happened (unread it))
    unfolding new_iterator
    Tracks-unread happened =
        run-Tracks kind unpack happened [] (unread it)
          (subst (λ x. Tracks kind unpack [] (unread x)) new start)
      where
        start : Tracks kind unpack [] (unread (new_iterator kind.name))
        start = record {
          taken = [];
          lost = [];
          split = refl;
          parsed_taken = refl;
          named = refl;
          whole = λ _. refl;
        }

    -- Whatever arrived for an iterator of FilterX and however Next was called: the events that were read
    -- are those of the first logs that arrived, one of each, in order.
    pub run-in_order :
        (happened : List (Happening Log))
        → (rest : List (Result E)) × (map (parse kind unpack) (arrivals happened)
            ≡ map ok (run kind unpack happened (unread it)).seen ++ rest)
    run-in_order happened = (
      map (parse kind unpack) (t.lost ++ r.it.available),
      rw (
        t.split,
        map-append (parse kind unpack) t.taken (t.lost ++ r.it.available),
        t.parsed_taken,
      ),
    )
      where
        r : Reading E Log
        r = run kind unpack happened (unread it)

        t : Tracks kind unpack (arrivals happened) r
        t = Tracks-unread happened

    -- Where Next of an iterator of FilterX returns false and Error nil, the events that were read are
    -- those that ParseX returns for the logs that arrived, for every log, in order.
    pub next_complete :
        (happened : List (Happening Log)) (ready : Ready)
        → (next kind unpack ready (run kind unpack happened (unread it)).it).0 ≡ some false
        → error (next kind unpack ready (run kind unpack happened (unread it)).it).1 ≡ none
        → map (parse kind unpack) (arrivals happened)
          ≡ map ok (run kind unpack happened (unread it)).seen
    unfolding next
    next_complete happened ready stopped unfailed =
        completed (arrivals happened) r.seen (next kind unpack ready r.it)
          (next_by-Tracks kind unpack (arrivals happened) r r.it.fail r.it.done ready refl
            (Tracks-unread happened))
          stopped unfailed (next_by-drained r.it.fail r.it.done ready r.it refl stopped unfailed)
      where
        r : Reading E Log
        r = run kind unpack happened (unread it)
