-- ===== src/Tests/Threads.antt =====
-- Two goroutines at one provider: one takes a signer while the other waits to add one.
use aa_sdk_go.Prelude.{ℕ, All, arith, ◌≡◌, refl, ◌⊎◌, some, List, [], ◌∷◌, ◌++◌}
use aa_sdk_go.Prelude.Outcome.{ok}
use aa_sdk_go.Rotator.{RoundRobin, new_round_robin, signer_at}
use aa_sdk_go.Rotator.Threads.{
  next_call, add_call, next_answer, Pc, idle, calling, next_locked, loaded, stored, next_done,
  Entry, System, update, section, outside, writes, invoke, next_load, next_store, next_read,
  next_unlock, enter_next, moves, locks, Reach, start, later,
}
use aa_sdk_go.Rotator.Threads.Alone.{Explains, update-all}
use aa_sdk_go.Rotator.Threads.Safe.{Returned, Reach-Returned}
use aa_sdk_go.Rotator.Threads.Serial.{Reach-Explains}

abbrev first : RoundRobin ℕ
first = record { signers = some 5 ∷ some 7 ∷ []; index = 0 }

abbrev turned : RoundRobin ℕ
turned = record { signers = some 5 ∷ some 7 ∷ []; index = 1 }

abbrev behind : System ℕ → ℕ → RoundRobin ℕ → Pc ℕ → List (Entry ℕ) → System ℕ
behind s i m p returned = record { mem = m; pc = update s.pc i p; history = s.history ++ returned }

abbrev beginning : System ℕ
beginning = record { mem = first; pc = λ i. idle; history = [] }

-- Both have called, and none is in.
abbrev called : System ℕ
called =
    behind (behind beginning 0 first (calling next_call) []) 1 first (calling (add_call (some 9)))
      []

abbrev inside : System ℕ
inside =
    behind (behind (behind called 0 first next_locked []) 0 first (loaded 0) []) 0 turned (stored 0)
      []

abbrev final : System ℕ
final =
    behind (behind inside 0 turned (next_done (ok (some 5))) []) 0 turned idle
      ((next_call, next_answer (ok (some 5))) ∷ [])

reached : Reach first final
unfolding signer_at
reached =
    later
      (later
        (later
          (later
            (later
              (later (later start (moves 0 (invoke next_call)))
                (moves 1 (invoke (add_call (some 9)))))
              (locks 0 refl enter_next (
                update-all (λ j q. section q ≡ outside)
                  (behind beginning 0 first (calling next_call) []).pc 1
                  (calling (add_call (some 9))) refl
                  (λ j _.
                    update-all (λ k q. section q ≡ outside) beginning.pc 0 (calling next_call) refl
                      (λ k _. refl) j))))
            (moves 0 (next_load refl)))
          (moves 0 (next_store refl)))
        (moves 0 next_read))
      (moves 0 next_unlock)

Reach-Explains_example :
    (base : RoundRobin ℕ) × Explains first ((next_call, next_answer (ok (some 5))) ∷ []) base
    × (((i : ℕ) × (section (final.pc i) ≡ writes)) ⊎ (turned ≡ base))
Reach-Explains_example = Reach-Explains first final reached

Reach-Returned_example : All (Returned {Key = ℕ}) ((next_call, next_answer (ok (some 5))) ∷ [])
unfolding new_round_robin
Reach-Returned_example = Reach-Returned (some 5 ∷ some 7 ∷ []) final reached (omega arith)
