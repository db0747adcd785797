-- ===== src/Bundler/Wait.antt =====
-- WaitForUserOperation: a loop over what `select` finds ready, the ticker or the end of the context.
-- The order in which they come is an argument, a list of events, and so is whether a poll's request is
-- ever answered: it is sent without the context and without a timeout.
use aa_sdk_go.Prelude.{
  ℕ, zero, suc, ◌≡◌, refl, ap, ◌∙◌, Option, none, some, List, [], ◌∷◌, ◌++◌, replicate, All,
}
use aa_sdk_go.Prelude.Int.{ℤ, pos, negsuc}
use aa_sdk_go.Prelude.Outcome.{Result, ok, err, panic, from_text, raised, wrap}
use aa_sdk_go.Prelude.State.{Action}
use aa_sdk_go.Bytes.{Hash}
use aa_sdk_go.Hex.{Text}
use aa_sdk_go.Ethereum.{Ethereum}
use aa_sdk_go.Client.{Client, Node}
use aa_sdk_go.Bundler.{Http, Calling}
use aa_sdk_go.Bundler.Methods.{Json, get_user_op_receipt}

pub data Event : Type 0 where
  -- A tick of the ticker, whose GetUserOpReceipt returns.
  tick : Event
  -- A tick of the ticker, whose GetUserOpReceipt never returns.
  hang : Event
  -- The context's end: the timeout of 30 seconds or the caller's.
  done : Event

-- The poll of this event returns, if it is one.
abbrev Returns : Event → Type 0
Returns tick = Unit
Returns hang = ⊥
Returns done = Unit

module _ {Receipt Net : Type 0} (hash_hex : Hash → Text)
    (receipt_of : Hash → Action (Calling Net) (Option Receipt)) (hash : Hash) where
  -- What the loop does with GetUserOpReceipt's answer; `rest` is what it does if it goes on. `none`: it
  -- has not returned.
  abbrev polled :
      Result (Option Receipt) × Calling Net
      → Option (Result Receipt) × Calling Net
      → Option (Result Receipt) × Calling Net
  polled (ok none, t) rest = rest
  polled (ok (some receipt), t) rest = (some (ok receipt), t)
  polled (err e, t) rest = (some (err (wrap "error getting user operation receipt" e)), t)
  polled (panic p, t) rest = (some (panic p), t)

  -- With `none`, the state is the one behind the last poll that returned.
  unfoldable wait_loop : List Event → Calling Net → Option (Result Receipt) × Calling Net
  wait_loop [] s = (none, s)
  wait_loop (done ∷ events) s =
      (some (err (from_text "no receipt found for user operation " (hash_hex hash))), s)
  wait_loop (hang ∷ events) s = (none, s)
  wait_loop (tick ∷ events) s = polled (receipt_of hash s) (wait_loop events (receipt_of hash s).1)

  -- time.NewTicker panics on an interval that is not positive.
  unfoldable wait_with : ℤ → List Event → Calling Net → Option (Result Receipt) × Calling Net
  unfolding wait_loop
  wait_with (negsuc n) events s = (some (panic (raised "non-positive interval for NewTicker")), s)
  wait_with (pos zero) events s = (some (panic (raised "non-positive interval for NewTicker")), s)
  wait_with (pos (suc n)) events s = wait_loop events s

  -- So many polls in a row that find no receipt.
  pub data Unanswered : ℕ → Calling Net → Calling Net → Type 0 where
    no_poll : (s : Calling Net) → Unanswered zero s s
    poll :
        (n : ℕ) (s t u : Calling Net)
        → receipt_of hash s ≡ (ok none, t)
        → Unanswered n t u
        → Unanswered (suc n) s u

  -- How a receipt is found.
  pub record Found (events : List Event) (s : Calling Net) (receipt : Receipt) (t : Calling Net)
      : Type 0 where
    pub polls : ℕ
    pub rest : List Event
    pub came : events ≡ replicate polls tick ++ (tick ∷ rest)
    pub before : Calling Net
    pub unanswered : Unanswered polls s before
    pub answer : receipt_of hash before ≡ (ok (some receipt), t)

  wait_loop-Found :
      (events : List Event) (s t : Calling Net) (receipt : Receipt)
      → wait_loop events s ≡ (some (ok receipt), t)
      → Found events s receipt t
  unfolding wait_loop
  wait_loop-Found [] s t receipt e = cc
  wait_loop-Found (done ∷ events) s t receipt e = cc
  wait_loop-Found (hang ∷ events) s t receipt e = cc
  wait_loop-Found (tick ∷ events) s t receipt e =
      by_answer (λ u h. wait_loop-Found events u t receipt h) (receipt_of hash s) refl e
    where
      by_answer :
          ((u : Calling Net)
            → wait_loop events u ≡ (some (ok receipt), t)
            → Found events u receipt t)
          → (r : Result (Option Receipt) × Calling Net) → receipt_of hash s ≡ r
          → polled r (wait_loop events r.1) ≡ (some (ok receipt), t)
          → Found (tick ∷ events) s receipt t
      by_answer later (ok none, u) answer h =
          let f = later u h in
          record {
            polls = suc f.polls;
            rest = f.rest;
            came = ap (λ es. tick ∷ es) f.came;
            before = f.before;
            unanswered = poll f.polls s u f.before answer f.unanswered;
            answer = f.answer;
          }
      by_answer later (ok (some found), u) answer h = record {
        polls = 0;
        rest = events;
        came = refl;
        before = s;
        unanswered = no_poll s;
        answer = answer ∙ (λ i. (ok (some (receipt_is h i)), (h i).1));
      }
        where
          receipt_is :
              {a b : Receipt} {v w : Calling Net}
              → ◌≡◌ {A = Option (Result Receipt) × Calling Net} (some (ok a), v) (some (ok b), w)
              → a ≡ b
          receipt_is e = cc
      by_answer later (err x, u) answer h = cc
      by_answer later (panic p, u) answer h = cc

  -- Polls that find no receipt lead to what comes after them.
  wait_loop-Unanswered :
      (n : ℕ) (events : List Event) (s t : Calling Net)
      → Unanswered n s t
      → wait_loop (replicate n tick ++ events) s ≡ wait_loop events t
  unfolding wait_loop
  wait_loop-Unanswered zero events s t (no_poll _) = refl
  wait_loop-Unanswered (suc n) events s u (poll _ _ t _ answer later) =
      rw answer (wait_loop-Unanswered n events t u later)

  wait_loop-ends :
      (before after : List Event) (s : Calling Net)
      → All Returns before
      → (r : Result Receipt) × ((wait_loop (before ++ (done ∷ after)) s).0 ≡ some r)
  unfolding wait_loop
  wait_loop-ends [] after s h = (_, refl)
  wait_loop-ends (done ∷ before) after s h = (_, refl)
  wait_loop-ends (hang ∷ before) after s h = absurd h.0
  wait_loop-ends (tick ∷ before) after s h =
      by_answer (λ u. wait_loop-ends before after u h.1) (receipt_of hash s)
    where
      by_answer :
          ((u : Calling Net)
            → (q : Result Receipt) × ((wait_loop (before ++ (done ∷ after)) u).0 ≡ some q))
          → (r : Result (Option Receipt) × Calling Net)
          → (q : Result Receipt) × ((polled r (wait_loop (before ++ (done ∷ after)) r.1)).0
              ≡ some q)
      by_answer later (ok none, u) = later u
      by_answer later (ok (some found), u) = (_, refl)
      by_answer later (err x, u) = (_, refl)
      by_answer later (panic p, u) = (_, refl)

module _ {Key Abi Rotator Req Res Receipt Net : Type 0} (g : Ethereum Key Abi) (node : Node Net)
    (http : Http Req Res Net) (json : Json Receipt) (hash_hex : Hash → Text)
    (c : Client Key Abi Rotator) where
  -- `hash_hex` is common.Hash's Hex.
  unfoldable pub wait_for_user_operation :
      Hash → List Event → Calling Net → Option (Result Receipt) × Calling Net
  unfolding wait_with get_user_op_receipt
  wait_for_user_operation hash events s =
      wait_with hash_hex (get_user_op_receipt g node http json c) hash
        c.config.wait_receipt_interval events s

  positive-Found :
      (interval : ℤ) (hash : Hash) (events : List Event) (s t : Calling Net) (receipt : Receipt)
      → wait_with hash_hex (get_user_op_receipt g node http json c) hash interval events s
        ≡ (some (ok receipt), t)
      → Found hash_hex (get_user_op_receipt g node http json c) hash events s receipt t
  unfolding wait_with
  positive-Found (negsuc n) hash events s t receipt e = cc
  positive-Found (pos zero) hash events s t receipt e = cc
  positive-Found (pos (suc n)) hash events s t receipt e =
      wait_loop-Found hash_hex (get_user_op_receipt g node http json c) hash events s t receipt e

  -- Where WaitForUserOperation returns a receipt, only ticks came before: at each of them but the
  -- last GetUserOpReceipt found none, and at the last one it found this receipt.
  pub wait_for_user_operation-Found :
      (hash : Hash) (events : List Event) (s t : Calling Net) (receipt : Receipt)
      → wait_for_user_operation hash events s ≡ (some (ok receipt), t)
      → Found hash_hex (get_user_op_receipt g node http json c) hash events s receipt t
  unfolding wait_for_user_operation
  wait_for_user_operation-Found hash events s t receipt e =
      positive-Found c.config.wait_receipt_interval hash events s t receipt e

  ends_with :
      (interval : ℤ) (hash : Hash) (before after : List Event) (s : Calling Net)
      → All Returns before
      → (r : Result Receipt) × ((wait_with hash_hex
            (get_user_op_receipt g node http json c)
            hash
            interval
            (before ++ (done ∷ after))
            s).0
          ≡ some r)
  unfolding wait_with
  ends_with (negsuc n) hash before after s h = (_, refl)
  ends_with (pos zero) hash before after s h = (_, refl)
  ends_with (pos (suc n)) hash before after s h =
      wait_loop-ends hash_hex (get_user_op_receipt g node http json c) hash before after s h

  -- WaitForUserOperation ends, with a receipt, an error or a panic, once the context is done, if every
  -- poll before returned, whatever it answered.
  pub wait_for_user_operation-ends :
      (hash : Hash) (before after : List Event) (s : Calling Net)
      → All Returns before
      → (r : Result Receipt) × ((wait_for_user_operation hash (before ++ (done ∷ after)) s).0
          ≡ some r)
  unfolding wait_for_user_operation
  wait_for_user_operation-ends hash before after s h =
      ends_with c.config.wait_receipt_interval hash before after s h

  -- With a positive interval, and after polls that found no receipt: if the context ends, then
  -- WaitForUserOperation returns the error that names the operation's hash, and leaves the counter of
  -- requests and the network as these polls left them; if a poll comes that never returns, then
  -- WaitForUserOperation does not return either, whatever comes after, the context's end included.
  pub wait_for_user_operation-gives_up :
      (hash : Hash) (n : ℕ) (after : List Event) (s t : Calling Net) (interval : ℕ)
      → c.config.wait_receipt_interval ≡ pos (suc interval)
      → Unanswered hash_hex (get_user_op_receipt g node http json c) hash n s t
      → (wait_for_user_operation hash (replicate n tick ++ (done ∷ after)) s
          ≡ (some (err (from_text "no receipt found for user operation " (hash_hex hash))), t))
        × ((wait_for_user_operation hash (replicate n tick ++ (hang ∷ after)) s).0 ≡ none)
  unfolding wait_for_user_operation wait_with
  wait_for_user_operation-gives_up hash n after s t interval positive polls =
      let f = wait_loop-Unanswered hash_hex (get_user_op_receipt g node http json c) hash n in
      rw positive (f (done ∷ after) s t polls, ap (λ r. r.0) (f (hang ∷ after) s t polls))
