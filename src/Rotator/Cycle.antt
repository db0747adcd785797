-- ===== src/Rotator/Cycle.antt =====
-- Round robin: what a run of calls of Next returns.
use aa_sdk_go.Prelude.{
  ℕ, zero, suc, ◌+◌, ◌%◌, ◌<◌, ◌≡◌, sym, ap, ◌∙◌, Option, some, map_option, List, [], ◌∷◌, length,
  get_elem?, get_elem?-some, inl, arith,
}
use native.Mathlib.Nat.{mod-lt, mod-eq_of_lt, mod-add-mod}
use aa_sdk_go.Prelude.Outcome.{Result, ok}
use aa_sdk_go.Rotator.{RoundRobin, next, IsValid, signer_at}
use aa_sdk_go.Rotator.Laws.{signer_at-some, next-signer, moved}

turn : (i m n : ℕ) → ((i + 1) % m + n) % m ≡ (i + suc n) % m
turn i m n = mod-add-mod (i + 1) m n ∙ ap (λ k. k % m) (omega arith)

module _ {Key : Type 0} where
  -- Several calls of Next, one after the other, by whoever makes them.
  pub next_many : ℕ → RoundRobin Key → List (Result (Option Key)) × RoundRobin Key
  next_many zero p = ([], p)
  next_many (suc n) p = let (k, p₁) = next p in let (ks, p₂) = next_many n p₁ in (k ∷ ks, p₂)

  -- The provider with its index at `i`.
  abbrev pub at : RoundRobin Key → ℕ → RoundRobin Key
  at p i = record p { index = i }

  at-IsValid : (p : RoundRobin Key) (i : ℕ) → IsValid p → i < length p.signers → IsValid (at p i)
  at-IsValid p i v lt = record { few = v.few; within = inl lt }

  next_many_step :
      (n : ℕ) (p : RoundRobin Key) {k : Option Key} {q : RoundRobin Key}
      → next p ≡ (ok k, q)
      → next_many (suc n) p ≡ (ok k ∷ (next_many n q).0, (next_many n q).1)
  unfolding next_many
  next_many_step n p e = rw e

  -- The results of a call and of those that follow it.
  nth :
      (p : RoundRobin Key)
      → IsValid p
      → p.index < length p.signers
      → (n : ℕ) (s : Option Key) → get_elem? p.signers p.index ≡ some s
      → (later : List (Result (Option Key)))
      → ((j : ℕ)
          → j < n
          → get_elem? later j
            ≡ some
                (signer_at p.signers (((p.index + 1) % length p.signers + j) % length p.signers)))
      → (j : ℕ) → j < suc n
      → get_elem? (ok s ∷ later) j ≡ some (signer_at p.signers ((p.index + j) % length p.signers))
  nth p v lt n s at_index later each zero h = ap some (
      sym (signer_at-some p.signers p.index at_index)
      ∙ ap (signer_at p.signers)
          (sym (mod-eq_of_lt lt) ∙ ap (λ i. i % length p.signers) (omega arith)))
  nth p v lt n s at_index later each (suc j) h =
      each j (omega arith)
      ∙ ap (λ i. some (signer_at p.signers i)) (turn p.index (length p.signers) j)

  -- What `n` calls return and leave behind.
  next_many-round_robin :
      (n : ℕ) (p : RoundRobin Key)
      → IsValid p
      → p.index < length p.signers
      → ((next_many n p).1 ≡ at p ((p.index + n) % length p.signers))
        × ((j : ℕ)
            → j < n
            → get_elem? (next_many n p).0 j
              ≡ some (signer_at p.signers ((p.index + j) % length p.signers)))
  next_many-round_robin zero p v lt = (
    unfold next_many in
        ap (at p) (sym (mod-eq_of_lt lt) ∙ ap (λ i. i % length p.signers) (omega arith)),
    λ j h. elim h [ ],
  )
  next_many-round_robin (suc n) p v lt =
      let (s, at_index, e) = next-signer p v lt in
      let inside : (moved p).index < length p.signers = mod-lt (p.index + 1) (omega arith) in
      let (last, each) =
        next_many-round_robin n (moved p) (at-IsValid p (moved p).index v inside) inside in
      (
        ap (λ r. r.1) (next_many_step n p e) ∙ last ∙ ap (at p) (turn p.index (length p.signers) n),
        λ j h.
            ap (λ r. get_elem? r.0 j) (next_many_step n p e)
            ∙ nth p v lt n s at_index (next_many n (moved p)).0 each j h,
      )

  -- On a valid provider that is not empty, the `j`-th of `n` calls of Next returns the signer `j`
  -- places behind the index, around the end, and the `n` calls leave the index `n` places on.
  pub next_many-turn :
      (n : ℕ) (p : RoundRobin Key)
      → IsValid p
      → p.index < length p.signers
      → (j : ℕ) → j < n
      → (get_elem? (next_many n p).0 j
          ≡ map_option ok (get_elem? p.signers ((p.index + j) % length p.signers)))
        × ((next_many n p).1 ≡ at p ((p.index + n) % length p.signers))
  next_many-turn n p v lt j h =
      let (last, each) = next_many-round_robin n p v lt in
      let (k, found) =
        get_elem?-some p.signers ((p.index + j) % length p.signers)
          (mod-lt (p.index + j) (omega arith)) in
      (each j h ∙ ap some (signer_at-some p.signers _ found) ∙ ap (map_option ok) (sym found), last)
