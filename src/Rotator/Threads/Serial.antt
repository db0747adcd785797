-- ===== src/Rotator/Threads/Serial.antt =====
-- That the provider's goroutines see it as if each call were made on its own.
use mathlib.Core.Path.{subst}
use aa_sdk_go.Prelude.{
  ℕ, ◌+◌, ◌%◌, ◌≡◌, ◌≢◌, refl, sym, ap, ◌∙◌, ◌⊎◌, inl, inr, none, List, [], ◌∷◌, ◌++◌, Bool, length,
  append-nil, ◌==◌,
}
use aa_sdk_go.Prelude.Outcome.{ok, panic, divide_by_zero}
use aa_sdk_go.Rotator.{RoundRobin, u32, signer_at, next, add, count}
use aa_sdk_go.Rotator.Threads.{
  Call, next_call, add_call, count_call, Answer, next_answer, add_answer, count_answer, Pc,
  count_locked, section, Section, outside, reads, writes, Entry, update, System, Move, invoke,
  next_empty, next_load, next_divides, next_store, next_read, next_unlock, add_append, add_unlock,
  count_read, count_unlock, Enters, enter_next, enter_add, Step, moves, locks, read_locks, Reach,
  start, later,
}
use aa_sdk_go.Rotator.Threads.Alone.{
  perform, Explains, Explains-snoc, Agrees, Agrees-outside, Inv, Inv-update, update-same,
  update-other,
}

module _ {Key : Type 0} where
  -- What an access does to a provider that was `base` before the call.
  data Effect (base m : RoundRobin Key) (p : Pc Key) (m' : RoundRobin Key) (p' : Pc Key)
      (returned : List (Entry Key)) : Type 0 where
    writer_goes :
        section p ≡ writes
        → section p' ≡ writes
        → returned ≡ []
        → Agrees base m' p'
        → Effect base m p m' p' returned
    writer_ends :
        (call : Call Key) (answer : Answer Key)
        → section p ≡ writes
        → section p' ≡ outside
        → returned ≡ (call, answer) ∷ []
        → perform call base ≡ (answer, m')
        → Agrees m' m' p'
        → Effect base m p m' p' returned
    others_see :
        section p ≢ writes
        → section p' ≢ writes
        → (section p ≡ outside → section p' ≡ outside)
        → m' ≡ m
        → ((history : List (Entry Key)) (first : RoundRobin Key)
            → Explains first history base
            → Explains first (history ++ returned) base)
        → Agrees base m' p'
        → Effect base m p m' p' returned

  Explains-nil :
      (history : List (Entry Key)) (first base : RoundRobin Key)
      → Explains first history base
      → Explains first (history ++ []) base
  Explains-nil history first base e = rw (append-nil history) e

  empty_at :
      {m base : RoundRobin Key} {b : Bool}
      → m ≡ base
      → (length m.signers == 0) ≡ b
      → (length base.signers == 0) ≡ b
  empty_at {b = b} a e = subst (λ r. (length r.signers == 0) ≡ b) a e

  divides_at :
      {m base : RoundRobin Key} {b : Bool}
      → m ≡ base
      → (u32 (length m.signers) == 0) ≡ b
      → (u32 (length base.signers) == 0) ≡ b
  divides_at {b = b} a e = subst (λ r. (u32 (length r.signers) == 0) ≡ b) a e

  effect :
      {m m' : RoundRobin Key} {p p' : Pc Key} {returned : List (Entry Key)} (base : RoundRobin Key)
      → Move m p m' p' returned
      → Agrees base m p
      → Effect base m p m' p' returned
  unfolding next
  effect {m} base (invoke call) a =
      others_see (λ e. cc) (λ e. cc) (λ e. refl) refl (λ h f e. Explains-nil h f base e) tt
  effect base (next_empty e) a =
      writer_goes refl refl refl (rw (empty_at a e) (ap (λ x. (ok none, x)) (sym a)))
  effect base (next_load e) a = writer_goes refl refl refl (a, ap (λ r. r.index) a, empty_at a e)
  effect base (next_divides e) a =
      writer_goes refl refl refl
        (rw (a.2, divides_at a.0 e) (ap (λ x. (panic divide_by_zero, x)) (sym a.0)))
  effect base (next_store e) a = writer_goes refl refl refl (
    (λ i. record {
      signers = (a.0 i).signers;
      index = u32 (a.1 i + 1) % u32 (length (a.0 i).signers);
    }),
    a.1,
    a.2,
    divides_at a.0 e,
  )
  effect base next_read a = writer_goes refl refl refl (
      rw (a.2, a.3)
        (let q = sym a.0 in let c = sym a.1 in (λ i. (signer_at (q i).signers (c i), q i))))
  effect base (next_unlock {r}) a =
      writer_ends next_call (next_answer r) refl refl refl (ap (λ x. (next_answer x.0, x.1)) a) tt
  effect base (add_append {signer}) a = writer_goes refl refl refl (ap (add signer) a)
  effect base (add_unlock {signer}) a =
      writer_ends (add_call signer) add_answer refl refl refl (ap (λ x. (add_answer, x)) (sym a)) tt
  effect base count_read a =
      others_see (λ e. cc) (λ e. cc) (λ e. cc) refl (λ h f e. Explains-nil h f base e)
        (a, ap count a)
  effect base (count_unlock {n}) a =
      others_see (λ e. cc) (λ e. cc) (λ e. refl) refl
        (λ h f e.
          Explains-snoc f h base base count_call (count_answer n) e
            (ap (λ k. (count_answer k, base)) (sym a.1)))
        tt

  Inv-Effect :
      {first : RoundRobin Key} (s : System Key) (v : Inv first s) (i : ℕ) (m : RoundRobin Key)
      (p : Pc Key) (returned : List (Entry Key))
      → Effect v.base s.mem (s.pc i) m p returned
      → Inv first (record { mem = m; pc = update s.pc i p; history = s.history ++ returned })
  Inv-Effect {first} s v i m p returned (writer_goes w w' r a) =
      Inv-update s v i m v.base p (s.history ++ returned)
        (rw r (Explains-nil s.history first v.base v.explained)) (λ _ j other. v.alone i j other w)
        (inr (λ j other x. cc (v.alone i j other w))) a
        (λ j other. Agrees-outside v.base m (s.pc j) (v.alone i j other w))
        (inl (i, ap section (update-same s.pc i p) ∙ w'))
  Inv-Effect {first} s v i m p returned (writer_ends call answer w w' r e a) =
      Inv-update s v i m m p (s.history ++ returned)
        (rw r (Explains-snoc first s.history v.base m call answer v.explained e)) (λ x. absurd cc)
        (inl w') a (λ j other. Agrees-outside m m (s.pc j) (v.alone i j other w)) (inr refl)
  Inv-Effect {first} s v i m p returned (others_see n n' o same e a) =
      Inv-update s v i m v.base p (s.history ++ returned) (e s.history first v.explained)
        (λ x. absurd (n' x)) (leaves (section (s.pc i)) refl) a
        (λ j other. subst (λ q. Agrees v.base q (s.pc j)) (sym same) (v.held j)) settles
    where
      leaves :
          (q : Section)
          → section (s.pc i) ≡ q
          → (section p ≡ outside) ⊎ ((j : ℕ) → i ≢ j → section (s.pc j) ≢ writes)
      leaves outside at = inl (o at)
      leaves reads at = inr (λ j other w. cc (at, v.alone j i (λ x. other (sym x)) w))
      leaves writes at = absurd (n at)

      settles : ((j : ℕ) × (section (update s.pc i p j) ≡ writes)) ⊎ (m ≡ v.base)
      settles = elim v.settled [
        | inl (j, w) ↦ inl (
          j,
          ap section (update-other s.pc i p j (λ x. n (ap (λ k. section (s.pc k)) x ∙ w))) ∙ w,
        )
        | inr at ↦ inr (same ∙ at)
      ]

  -- Where nobody writes, the provider is as the calls that returned left it.
  quiet :
      {first : RoundRobin Key} (s : System Key) (v : Inv first s)
      → ((j : ℕ) → section (s.pc j) ≢ writes)
      → s.mem ≡ v.base
  quiet s v free = elim v.settled [ inl (j, w) ↦ absurd (free j w) | inr at ↦ at ]

  entered :
      {call : Call Key} {p : Pc Key} {m base : RoundRobin Key}
      → Enters call p
      → m ≡ base
      → Agrees base m p × (section p ≡ writes)
  entered enter_next e = (e, refl)
  entered enter_add e = (e, refl)

  Inv-Step : {first : RoundRobin Key} (s t : System Key) → Inv first s → Step s t → Inv first t
  Inv-Step s t v (moves i move) = Inv-Effect s v i _ _ _ (effect v.base move (v.held i))
  Inv-Step s t v (locks i {p = p} at enters free) =
      Inv-update s v i s.mem v.base p s.history v.explained (λ _ j _. free j)
        (inr (λ j _ w. cc (free j, w))) (entered enters (quiet s v (λ j w. cc (free j, w)))).0
        (λ j _. v.held j)
        (inl (
          i,
          ap section (update-same s.pc i p)
              ∙ (entered enters (quiet s v (λ j w. cc (free j, w)))).1,
        ))
  Inv-Step s t v (read_locks i at free) =
      Inv-update s v i s.mem v.base count_locked s.history v.explained (λ x. absurd cc)
        (inr (λ j _. free j)) (quiet s v free) (λ j _. v.held j) (inr (quiet s v free))

  Inv-Reach : {first : RoundRobin Key} (s : System Key) → Reach first s → Inv first s
  Inv-Reach s start = record {
    base = _;
    explained = refl;
    alone = λ i j ne w. refl;
    held = λ i. tt;
    settled = inr refl;
  }
  Inv-Reach t (later {s = s} r step) = Inv-Step s t (Inv-Reach s r) step

  -- In whatever order goroutines access the provider's fields under its lock: the calls of Next, Add
  -- and Count that returned answered what they answer if each is made on its own, in the order of
  -- their returns; and the provider is as these calls leave it, unless a goroutine holds the lock for
  -- writing.
  pub Reach-Explains :
      (first : RoundRobin Key) (s : System Key)
      → Reach first s
      → (base : RoundRobin Key) × Explains first s.history base
        × (((i : ℕ) × (section (s.pc i) ≡ writes)) ⊎ (s.mem ≡ base))
  Reach-Explains first s r = let v = Inv-Reach s r in (v.base, v.explained, v.settled)
