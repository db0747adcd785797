-- ===== src/Rotator/Threads/Safe.antt =====
-- That the provider's methods do not panic, whoever calls them.
use mathlib.Core.Path.{subst}
use aa_sdk_go.Prelude.{
  ◌+◌, ◌^◌, ◌<◌, ◌≤◌, ◌≡◌, ap, inl, inr, Option, none, List, [], ◌∷◌, All, length, length-append,
  arith,
}
use aa_sdk_go.Prelude.Outcome.{ok}
use aa_sdk_go.Rotator.{RoundRobin, new_round_robin, next, add, count, IsValid}
use aa_sdk_go.Rotator.Laws.{next_cases, next-IsValid, add-IsValid, new_round_robin-IsValid}
use aa_sdk_go.Rotator.Threads.{
  Call, next_call, add_call, count_call, next_answer, add_answer, count_answer, Entry, System,
  Reach,
}
use aa_sdk_go.Rotator.Threads.Alone.{perform, Explains}
use aa_sdk_go.Rotator.Threads.Serial.{Reach-Explains}

module _ {Key : Type 0} where
  -- The call returned: Next returned a signer or nil, and did not panic.
  abbrev pub Returned : Entry Key → Type 0
  Returned (call, next_answer r) = (k : Option Key) × (r ≡ ok k)
  Returned (call, add_answer) = Unit
  Returned (call, count_answer n) = Unit

  next-Returned :
      (p : RoundRobin Key)
      → IsValid p
      → Returned (next_call, (perform next_call p).0)
        × (length (next p).1.signers ≡ length p.signers)
  next-Returned p v = elim (next_cases p v) [
    | inl (_, e) ↦ ((none, ap (λ r. r.0) e), ap (λ r. length r.1.signers) e)
    | inr (k, _, e) ↦ ((k, ap (λ r. r.0) e), ap (λ r. length r.1.signers) e)
  ]

  perform-Returned :
      (call : Call Key) (p : RoundRobin Key)
      → IsValid p
      → length p.signers + 1 < 2 ^ 32
      → IsValid (perform call p).1
        × (length (perform call p).1.signers ≤ length p.signers + 1)
        × Returned (call, (perform call p).0)
  unfolding add count
  perform-Returned next_call p v room =
      let (r, same) = next-Returned p v in (next-IsValid p v, omega (arith, same), r)
  perform-Returned (add_call signer) p v room =
      (add-IsValid signer p v room, omega (arith, length-append p.signers (signer ∷ [])), tt)
  perform-Returned count_call p v room = (v, omega arith, tt)

  Explains-Returned :
      (p : RoundRobin Key) (history : List (Entry Key)) (q : RoundRobin Key)
      → Explains p history q
      → IsValid p
      → length p.signers + length history < 2 ^ 32
      → All Returned history
  Explains-Returned p [] q e v room = tt
  Explains-Returned p ((call, answer) ∷ history) q (same, e) v room =
      let (valid, longer, returned) = perform-Returned call p v (omega arith) in
      (
        subst (λ a. Returned (call, a)) same returned,
        Explains-Returned (perform call p).1 history q e valid (omega (arith, longer)),
      )

  -- Whatever goroutines call Next, Add and Count of a new provider and however they interleave: no call
  -- of Next panics, as long as the provider's first signers and the calls that returned are fewer than
  -- 2^32.
  pub Reach-Returned :
      (signers : List (Option Key)) (s : System Key)
      → Reach (new_round_robin signers) s
      → length signers + length s.history < 2 ^ 32
      → All Returned s.history
  unfolding new_round_robin
  Reach-Returned signers s r room =
      let (q, e, _) = Reach-Explains (new_round_robin signers) s r in
      Explains-Returned (new_round_robin signers) s.history q e
        (new_round_robin-IsValid signers (omega arith)) room
