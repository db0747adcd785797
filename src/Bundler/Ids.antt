-- ===== src/Bundler/Ids.antt =====
-- The ids of the requests to the bundler, as they stand in the requests that net/http is given.
use aa_sdk_go.Prelude.{
  ℕ, zero, suc, ◌+◌, ◌^◌, ◌<◌, ◌≤◌, ◌≡◌, ◌≢◌, inl, inr, sym, ap, ◌∙◌, List, [], ◌∷◌, ◌++◌, String,
  some, arith, length, get_elem?, append-nil, append_assoc,
}
use mathlib.Core.Path.{subst}
use aa_sdk_go.Bundler.Log.{Logged, logging, call_many, Carries, call-Adds}
use aa_sdk_go.Bundler.{Http, Calling, Param, u64, call}

module _ {Req Res Net : Type 0} (http : Http Req Res Net) (url : String) where
  -- Requests that carry increasing counts above `low` and up to `high`, around 2^64.
  Counted : ℕ → ℕ → List Req → Type 0
  Counted low high [] = Unit
  Counted low high (req ∷ reqs) =
      (k : ℕ) × (low < k) × (k ≤ high) × Carries http url req (u64 k) × Counted k high reqs

  Counted-from :
      (low low' high : ℕ) (reqs : List Req)
      → low' ≤ low
      → Counted low high reqs
      → Counted low' high reqs
  unfolding Counted
  Counted-from low low' high [] h c = tt
  Counted-from low low' high (req ∷ reqs) h (k, above, below, carries, later) =
      (k, omega arith, below, carries, later)

  -- The calls add to the log requests that carry the counts behind the one before, in order.
  call_many-Counted :
      (calls : List (String × List Param)) (count : ℕ) (s : Calling (Logged Req Net))
      → s.id ≡ u64 count
      → (new : List Req) × ((call_many (logging http) url calls s).net.requests
          ≡ s.net.requests ++ new)
        × Counted count (count + length calls) new
  unfolding call_many Counted
  call_many-Counted [] count s e = ([], sym (append-nil s.net.requests), tt)
  call_many-Counted ((method, params) ∷ calls) count s e =
      let (id, added) = call-Adds http url method params s in
      let (later, there, counted) =
        call_many-Counted calls (count + 1) (call (logging http) url method params s).1
          (id ∙ omega (arith, e)) in
      let within : Counted (count + 1) (count + length ((method, params) ∷ calls)) later =
        subst (λ n. Counted (count + 1) n later) (omega arith) counted in
      elim added [
        | inl nothing ↦ (
          later,
          there ∙ ap (λ rs. rs ++ later) nothing,
          Counted-from (count + 1) count _ later (omega arith) within,
        )
        | inr (req, carries, one) ↦ (
          req ∷ later,
          there ∙ ap (λ rs. rs ++ later) one ∙ append_assoc s.net.requests (req ∷ []) later,
          (
            count + 1,
            omega arith,
            omega arith,
            subst (Carries http url req) (omega (arith, e)) carries,
            within,
          ),
        )
      ]

  Counted-get :
      (low high : ℕ) (reqs : List Req) (i : ℕ) (req : Req)
      → Counted low high reqs
      → get_elem? reqs i ≡ some req
      → (k : ℕ) × (low < k) × (k ≤ high) × Carries http url req (u64 k)
  unfolding Counted
  Counted-get low high [] i req c e = cc
  Counted-get low high (r ∷ reqs) zero req (k, above, below, carries, later) e =
      (k, above, below, subst (λ q. Carries http url q (u64 k)) (cc e) carries)
  Counted-get low high (r ∷ reqs) (suc i) req (k, above, below, carries, later) e =
      let (k', above', below', carries') = Counted-get k high reqs i req later e in
      (k', omega arith, below', carries')

  Counted-apart :
      (low high : ℕ) (reqs : List Req) (i j : ℕ) (a b : Req)
      → Counted low high reqs
      → i < j
      → get_elem? reqs i ≡ some a
      → get_elem? reqs j ≡ some b
      → (k l : ℕ) × (low < k)
        × (k < l)
        × (l ≤ high)
        × Carries http url a (u64 k)
        × Carries http url b (u64 l)
  unfolding Counted
  Counted-apart low high [] i j a b c h ea eb = cc
  Counted-apart low high (r ∷ reqs) i zero a b c h ea eb = absurd (omega arith)
  Counted-apart low high (r ∷ reqs) zero (suc j) a b (k, above, below, carries, later) h ea eb =
      let (l, above', below', carries') = Counted-get k high reqs j b later eb in
      (
        k,
        l,
        above,
        above',
        below',
        subst (λ q. Carries http url q (u64 k)) (cc ea) carries,
        carries',
      )
  Counted-apart low high (r ∷ reqs) (suc i) (suc j) a b (k, above, below, carries, later) h ea eb =
      let (m, l, above', apart, below', first, second) =
        Counted-apart k high reqs i j a b later (omega arith) ea eb in
      (m, l, omega arith, apart, below', first, second)

  -- A client's counter, and a network over which nothing was sent.
  abbrev pub unsent : ℕ → Net → Calling (Logged Req Net)
  unsent id net = record { id = id; net = record { requests = []; net = net } }

  -- Any two requests that net/http sends for at most 2^64 calls in a row, whatever the calls answer, are
  -- posted to the bundler's address as JSON, with payloads that were marshalled with different ids. The
  -- counter is below 2^64, as an atomic.Uint64 is.
  pub call_many-fresh :
      (calls : List (String × List Param)) (id : ℕ) (net : Net) (i j : ℕ) (a b : Req)
      → id < 2 ^ 64
      → length calls ≤ 2 ^ 64
      → i < j
      → get_elem? (call_many (logging http) url calls (unsent id net)).net.requests i ≡ some a
      → get_elem? (call_many (logging http) url calls (unsent id net)).net.requests j ≡ some b
      → (x y : ℕ) × (x ≢ y) × Carries http url a x × Carries http url b y
  call_many-fresh calls id net i j a b below few apart ea eb =
      let (new, log, counted) = call_many-Counted calls id (unsent id net) (omega arith) in
      let (k, l, above, between, within, first, second) =
        Counted-apart id (id + length calls) new i j a b counted apart
          (ap (λ rs. get_elem? rs i) (sym log) ∙ ea) (ap (λ rs. get_elem? rs j) (sym log) ∙ eb) in
      (u64 k, u64 l, λ same. absurd (omega arith), first, second)
