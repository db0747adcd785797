-- ===== src/Rotator/Laws.antt =====
-- One call of Next, Add or Count on a valid provider.
use aa_sdk_go.Prelude.{
  ℕ, ◌+◌, ◌%◌, ◌^◌, ◌<◌, ◌≡◌, ◌≢◌, refl, ap, ◌∙◌, ◌⊎◌, Option, none, some, List, [], ◌∷◌, length,
  get_elem?, length-append, get_elem?-some, get_elem?-lt, inl, inr, ◌==◌, false, arith,
}
use aa_sdk_go.Prelude.Outcome.{ok}
use native.Mathlib.Nat.{mod-lt}
use aa_sdk_go.Rotator.{RoundRobin, u32, new_round_robin, signer_at, next, add, count, IsValid}

module _ {Key : Type 0} where
  pub new_round_robin-IsValid :
      (signers : List (Option Key)) → length signers < 2 ^ 32 → IsValid (new_round_robin signers)
  unfolding new_round_robin
  new_round_robin-IsValid signers h = record { few = h; within = inr refl }

  pos_of_ne : (xs : List (Option Key)) → xs ≢ [] → 0 < length xs
  pos_of_ne [] h = absurd (h refl)
  pos_of_ne (x ∷ xs) h = omega arith

  -- The index of a valid provider that is not empty names a signer.
  index-lt : (p : RoundRobin Key) → IsValid p → p.signers ≢ [] → p.index < length p.signers
  index-lt p v h = omega (arith, pos_of_ne p.signers h)

  -- The index one on, around the end.
  abbrev pub moved : RoundRobin Key → RoundRobin Key
  moved p = record p { index = (p.index + 1) % length p.signers }

  next_lem :
      (p : RoundRobin Key)
      → IsValid p
      → p.signers ≢ []
      → next p ≡ (signer_at p.signers p.index, moved p)
  unfolding next
  next_lem p v h =
      let lt : p.index < length p.signers = index-lt p v h in
      let size : u32 (length p.signers) ≡ length p.signers = omega arith in
      let step : u32 (p.index + 1) ≡ p.index + 1 = omega arith in
      let some_signers : (length p.signers == 0) ≡ false = ground arith in
      rw (size, step, some_signers)

  next-nil : (p : RoundRobin Key) → p.signers ≡ [] → next p ≡ (ok none, p)
  unfolding next
  next-nil p e = ground arith

  pub signer_at-some :
      (signers : List (Option Key)) (i : ℕ) {k : Option Key}
      → get_elem? signers i ≡ some k
      → signer_at signers i ≡ ok k
  unfolding signer_at
  signer_at-some signers i e = ground arith

  -- Next on a valid provider returns the signer that the index names and moves the index one on,
  -- around the end; on an empty one it returns nil and changes nothing.
  pub next_cases :
      (p : RoundRobin Key)
      → IsValid p
      → ((p.signers ≡ []) × (next p ≡ (ok none, p)))
        ⊎ ((k : Option Key) × (get_elem? p.signers p.index ≡ some k) × (next p ≡ (ok k, moved p)))
  next_cases p v = cases p.signers refl
    where
      cases :
          (xs : List (Option Key))
          → p.signers ≡ xs
          → ((p.signers ≡ []) × (next p ≡ (ok none, p)))
            ⊎ ((k : Option Key) × (get_elem? p.signers p.index ≡ some k)
                × (next p ≡ (ok k, moved p)))
      cases [] e = inl (e, next-nil p e)
      cases (x ∷ xs) e =
          let some_signers : p.signers ≢ [] = λ none_left. cc in
          let (k, at) = get_elem?-some p.signers p.index (index-lt p v some_signers) in
          inr (
            k,
            at,
            next_lem p v some_signers
                ∙ ap (λ r. (r, moved p)) (signer_at-some p.signers p.index at),
          )

  -- The call's result where the index is in range.
  pub next-signer :
      (p : RoundRobin Key)
      → IsValid p
      → p.index < length p.signers
      → (k : Option Key) × (get_elem? p.signers p.index ≡ some k) × (next p ≡ (ok k, moved p))
  next-signer p v lt = elim (next_cases p v) [
    | inl (empty, e) ↦ absurd (omega (arith, ap length empty))
    | inr r ↦ r
  ]

  -- Next keeps a provider valid.
  pub next-IsValid : (p : RoundRobin Key) → IsValid p → IsValid (next p).1
  next-IsValid p v = elim (next_cases p v) [
    | inl (empty, e) ↦ rw e v
    | inr (k, at, e) ↦ rw e (record { few = v.few; within = inl (mod-lt (p.index + 1) (size at)) })
  ]
    where
      size : {k : Option Key} → get_elem? p.signers p.index ≡ some k → 0 < length p.signers
      size at = omega (arith, get_elem?-lt p.signers p.index at)

  pub add-IsValid :
      (k : Option Key) (p : RoundRobin Key) → IsValid p → count p + 1 < 2 ^ 32 → IsValid (add k p)
  unfolding add count
  add-IsValid k p v room = ground (arith, length-append p.signers (k ∷ []))
