-- ===== src/Bindings/Events/Watched.antt =====
-- The goroutine of WatchX, against the parser of one log.
use aa_sdk_go.Prelude.{
  ◌≡◌, refl, ap, ◌↔◌, ◌≢◌, ◌⊎◌, inl, inr, Option, none, some, List, [], ◌∷◌, ◌++◌, map, true,
}
use aa_sdk_go.Prelude.Outcome.{Result, ok, Error}
use aa_sdk_go.Bindings.Events.{
  EventKind, Unpack, Sink, accepted, sink_err, sink_quit, Watching, new_log, sub_err, quit,
  Forwarding, forward, watch_loop, parsed, parse,
}

-- The logs that the goroutine found in its channel.
unfoldable pub met : {Log : Type 0} → List (Watching Log) → List Log
met [] = []
met (new_log log sink ∷ happened) = log ∷ met happened
met (sub_err problem ∷ happened) = met happened
met (quit ∷ happened) = met happened

module _ {E Log : Type 0} (kind : EventKind E Log) (unpack : Unpack E Log) where
  -- What was sent are the events of the first logs, in order; of all while the goroutine runs, which
  -- is as long as its subscription goes on.
  abbrev pub Forwards : List (Result E) → Forwarding E → Type 0
  Forwards results f =
      (rest : List (Result E)) × (results ≡ map ok f.sent ++ rest)
      × ((rest ≡ []) ⊎ (f.returned ≢ none))
      × ((f.subscribed ≡ true) ↔ (f.returned ≡ none))

  forward-Forwards :
      (log : Log) (sink : Sink) (results : List (Result E)) (f : Forwarding E)
      → Forwards results f
      → (u : E × Option Error)
      → Forwards (parsed kind unpack log u ∷ results) (forward kind unpack log sink u f)
  unfolding forward parsed
  forward-Forwards log sink results f h (e, some x) = (_, refl, inr (λ q. cc), (λ q. cc, λ q. cc))
  forward-Forwards log accepted results f h (e, none) =
      (h.0, ap (λ rs. ok (kind.set_raw log e) ∷ rs) h.1, h.2, h.3)
  forward-Forwards log (sink_err problem) results f h (e, none) =
      (_, refl, inr (λ q. cc), (λ q. cc, λ q. cc))
  forward-Forwards log sink_quit results f h (e, none) =
      (_, refl, inr (λ q. cc), (λ q. cc, λ q. cc))

  -- Whatever happens to the goroutine of WatchX: it sent the events of the first logs that it met, one
  -- of each, in order; and all of them as long as it has not returned, which is when its subscription
  -- ends.
  pub watch_loop-Forwards :
      (happened : List (Watching Log))
      → Forwards (map (parse kind unpack) (met happened)) (watch_loop kind unpack happened)
  unfolding watch_loop met parse
  watch_loop-Forwards [] = ([], refl, inl refl, (λ _. refl, λ _. refl))
  watch_loop-Forwards (new_log log sink ∷ happened) =
      forward-Forwards log sink _ _ (watch_loop-Forwards happened) (unpack kind.blank kind.name log)
  watch_loop-Forwards (sub_err problem ∷ happened) = (_, refl, inr (λ q. cc), (λ q. cc, λ q. cc))
  watch_loop-Forwards (quit ∷ happened) = (_, refl, inr (λ q. cc), (λ q. cc, λ q. cc))
