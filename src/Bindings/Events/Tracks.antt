-- ===== src/Bindings/Events/Tracks.antt =====
-- What an iterator keeps, however it is used: where each log that arrived has gone.
use aa_sdk_go.Prelude.{
  ◌≡◌, refl, sym, ap, ◌∙◌, Option, none, some, List, [], ◌∷◌, ◌++◌, map, map-append, append-nil,
  append_assoc, Bool, true, false,
}
use aa_sdk_go.Prelude.Outcome.{Result, ok, Error}
use aa_sdk_go.Bindings.Events.{
  EventKind, Unpack, Iterator, Ready, log_ready, err_ready, unpacked, take_log, take_available,
  await_log, next_done, next_by, next, parsed, parse,
}
use aa_sdk_go.Bindings.Events.Run.{
  Happening, arrives, calls, arrivals, Reading, read_after, step, run,
}

module _ {E Log : Type 0} (kind : EventKind E Log) (unpack : Unpack E Log) where
  -- The logs that arrived are those whose events were read, in order, one that was lost to an error,
  -- and those that wait.
  pub record Tracks (logs : List Log) (r : Reading E Log) : Type 0 where
    pub taken : List Log
    pub lost : List Log
    pub split : logs ≡ taken ++ (lost ++ r.it.available)
    pub parsed_taken : map (parse kind unpack) taken ≡ map ok r.seen
    pub named : r.it.name ≡ kind.name
    pub whole : r.it.fail ≡ none → lost ≡ []

  parsed_snoc :
      (taken : List Log) (seen : List E) (log : Log) {e : E}
      → map (parse kind unpack) taken ≡ map ok seen
      → parse kind unpack log ≡ ok e
      → map (parse kind unpack) (taken ++ log ∷ []) ≡ map ok (seen ++ e ∷ [])
  parsed_snoc taken seen log {e} h p = rw (
    map-append (parse kind unpack) taken (log ∷ []),
    map-append {B = Result E} ok seen (e ∷ []),
    h,
    p,
  )

  -- A log that Next takes, from what UnpackLog makes of it.
  unpacked-Tracks :
      (logs rest taken : List Log) (log : Log) (it : Iterator E Log) (seen : List E)
      → it.name ≡ kind.name
      → logs ≡ taken ++ log ∷ rest
      → map (parse kind unpack) taken ≡ map ok seen
      → (u : E × Option Error) → parse kind unpack log ≡ parsed kind unpack log u
      → (let r = unpacked kind unpack log u (record it { available = rest }) in
          Tracks logs (read_after seen (some r.0, r.1)))
  unfolding unpacked parsed
  unpacked-Tracks logs rest taken log it seen named split h (e, none) p = record {
    taken = taken ++ (log ∷ []);
    lost = [];
    split = split ∙ sym (append_assoc taken (log ∷ []) rest);
    parsed_taken = parsed_snoc taken seen log h p;
    named = named;
    whole = λ _. refl;
  }
  unpacked-Tracks logs rest taken log it seen named split h (e, some x) p = record {
    taken = taken;
    lost = log ∷ [];
    split = split;
    parsed_taken = h;
    named = named;
    whole = λ q. cc;
  }

  take_log-Tracks :
      (logs rest taken : List Log) (log : Log) (it : Iterator E Log) (seen : List E)
      → it.name ≡ kind.name
      → logs ≡ taken ++ log ∷ rest
      → map (parse kind unpack) taken ≡ map ok seen
      → (let r = take_log kind unpack log (record it { available = rest }) in
          Tracks logs (read_after seen (some r.0, r.1)))
  unfolding take_log parse
  take_log-Tracks logs rest taken log it seen named split h =
      unpacked-Tracks logs rest taken log it seen named split h (unpack kind.blank it.name log)
        (ap (λ n. parsed kind unpack log (unpack kind.blank n log)) (sym named))

  -- What an iterator that has not failed keeps: nothing is lost, and what waits is still to come.
  pub kept :
      (logs : List Log) (r : Reading E Log) (t : Tracks logs r)
      → r.it.fail ≡ none
      → logs ≡ t.taken ++ r.it.available
  kept logs r t q = t.split ∙ ap (λ l. t.taken ++ (l ++ r.it.available)) (t.whole q)

  -- The logs that wait, taken by the `select` of an iterator that is done or in progress.
  available-Tracks :
      (logs available : List Log) (r : Reading E Log) (t : Tracks logs r)
      → r.it.fail ≡ none
      → r.it.available ≡ available
      → (let n = take_available kind unpack available r.it in
          Tracks logs (read_after r.seen (some n.0, n.1)))
        × Tracks logs (read_after r.seen (await_log kind unpack available r.it))
  unfolding take_available await_log
  available-Tracks logs [] r t q a = (t, t)
  available-Tracks logs (log ∷ rest) r t q a = (taken_now, taken_now)
    where
      taken_now :
          (let n = take_log kind unpack log (record r.it { available = rest }) in
            Tracks logs (read_after r.seen (some n.0, n.1)))
      taken_now =
          take_log-Tracks logs rest t.taken log r.it r.seen t.named
            (kept logs r t q ∙ ap (λ l. t.taken ++ l) a) t.parsed_taken

  pub next_by-Tracks :
      (logs : List Log) (r : Reading E Log) (fail : Option Error) (done : Bool) (ready : Ready)
      → r.it.fail ≡ fail
      → Tracks logs r
      → Tracks logs (read_after r.seen (next_by kind unpack fail done ready r.it))
  unfolding next_by next_done take_available await_log
  next_by-Tracks logs r (some x) done ready q t = record {
    taken = t.taken;
    lost = t.lost;
    split = t.split;
    parsed_taken = t.parsed_taken;
    named = t.named;
    whole = t.whole;
  }
  next_by-Tracks logs r none true ready q t = (available-Tracks logs r.it.available r t q refl).0
  next_by-Tracks logs r none false log_ready q t =
      (available-Tracks logs r.it.available r t q refl).1
  next_by-Tracks logs r none false (err_ready e) q t = ended e
    where
      stopped : Option Error → Reading E Log
      stopped problem = record r { it = record r.it { done = true; fail = problem } }

      tracked : (problem : Option Error) → Tracks logs (stopped problem)
      tracked problem = record {
        taken = t.taken;
        lost = t.lost;
        split = t.split;
        parsed_taken = t.parsed_taken;
        named = t.named;
        whole = λ _. t.whole q;
      }

      ended :
          (problem : Option Error)
          → (let n = next_done kind unpack problem (record r.it { done = true; fail = problem }) in
              Tracks logs (read_after r.seen (some n.0, n.1)))
      ended none = (available-Tracks logs r.it.available (stopped none) (tracked none) refl refl).0
      ended (some x) = tracked (some x)

  step-Tracks :
      (h : Happening Log) (logs : List Log) (r : Reading E Log)
      → Tracks logs r
      → Tracks (logs ++ arrivals (h ∷ [])) (step kind unpack h r)
  unfolding step arrivals next
  step-Tracks (arrives log) logs r t = record {
    taken = t.taken;
    lost = t.lost;
    split = rw (
      t.split,
      append_assoc t.taken (t.lost ++ r.it.available) (log ∷ []),
      append_assoc t.lost r.it.available (log ∷ []),
    );
    parsed_taken = t.parsed_taken;
    named = t.named;
    whole = t.whole;
  }
  step-Tracks (calls ready) logs r t =
      rw (append-nil logs) (next_by-Tracks logs r r.it.fail r.it.done ready refl t)

  arrivals-cons :
      (h : Happening Log) (happened : List (Happening Log))
      → arrivals (h ∷ happened) ≡ arrivals (h ∷ []) ++ arrivals happened
  unfolding arrivals
  arrivals-cons (arrives log) happened = refl
  arrivals-cons (calls ready) happened = refl

  pub run-Tracks :
      (happened : List (Happening Log)) (logs : List Log) (r : Reading E Log)
      → Tracks logs r
      → Tracks (logs ++ arrivals happened) (run kind unpack happened r)
  unfolding run arrivals
  run-Tracks [] logs r t = rw (append-nil logs) t
  run-Tracks (h ∷ happened) logs r t =
      rw (arrivals-cons h happened, ← append_assoc logs (arrivals (h ∷ [])) (arrivals happened))
        (run-Tracks happened (logs ++ arrivals (h ∷ [])) (step kind unpack h r)
          (step-Tracks h logs r t))
