-- ===== src/Rotator/Threads/Alone.antt =====
-- The provider while its goroutines run: what each of them may rely on.
use mathlib.Core.Path.{subst}
use aa_sdk_go.Prelude.{
  ℕ, ◌+◌, ◌%◌, ◌≡◌, ◌≢◌, refl, ap, ◌∙◌, ◌⊎◌, inl, inr, List, [], ◌∷◌, ◌++◌, false, length, ◌==◌,
  ==_iff, Bool-cases,
}
use aa_sdk_go.Rotator.{RoundRobin, u32, next, add, count}
use aa_sdk_go.Rotator.Threads.{
  Call, next_call, add_call, count_call, Answer, next_answer, add_answer, count_answer, Pc, idle,
  calling, next_locked, loaded, stored, next_done, add_locked, add_done, count_locked, count_done,
  section, outside, writes, Entry, update, System,
}

module _ {Key : Type 0} where
  -- A call on its own.
  abbrev pub perform : Call Key → RoundRobin Key → Answer Key × RoundRobin Key
  perform next_call p = (next_answer (next p).0, (next p).1)
  perform (add_call signer) p = (add_answer, add signer p)
  perform count_call p = (count_answer (count p), p)

  -- The calls, made one after the other from `p` on, return these answers, and leave `q`.
  abbrev pub Explains : RoundRobin Key → List (Entry Key) → RoundRobin Key → Type 0
  Explains p [] q = p ≡ q
  Explains p ((call, answer) ∷ history) q =
      ((perform call p).0 ≡ answer) × Explains (perform call p).1 history q

  pub Explains-snoc :
      (p : RoundRobin Key) (history : List (Entry Key)) (q q' : RoundRobin Key) (call : Call Key)
      (answer : Answer Key)
      → Explains p history q
      → perform call q ≡ (answer, q')
      → Explains p (history ++ (call, answer) ∷ []) q'
  Explains-snoc p [] q q' call answer e step = (
    ap (λ r. (perform call r).0) e ∙ ap (λ r. r.0) step,
    ap (λ r. (perform call r).1) e ∙ ap (λ r. r.1) step,
  )
  Explains-snoc p ((c, a) ∷ history) q q' call answer (same, e) step =
      (same, Explains-snoc (perform c p).1 history q q' call answer e step)

  -- What a goroutine knows of the provider and of `base`, the provider before its call.
  abbrev pub Agrees : RoundRobin Key → RoundRobin Key → Pc Key → Type 0
  Agrees base m idle = Unit
  Agrees base m (calling call) = Unit
  Agrees base m next_locked = m ≡ base
  Agrees base m (loaded current) =
      (m ≡ base) × (current ≡ base.index) × ((length base.signers == 0) ≡ false)
  Agrees base m (stored current) =
      (m ≡ record base { index = u32 (base.index + 1) % u32 (length base.signers) })
      × (current ≡ base.index)
      × ((length base.signers == 0) ≡ false)
      × ((u32 (length base.signers) == 0) ≡ false)
  Agrees base m (next_done r) = next base ≡ (r, m)
  Agrees base m (add_locked signer) = m ≡ base
  Agrees base m (add_done signer) = m ≡ add signer base
  Agrees base m count_locked = m ≡ base
  Agrees base m (count_done n) = (m ≡ base) × (n ≡ count base)

  pub Agrees-outside :
      (base m : RoundRobin Key) (p : Pc Key) → section p ≡ outside → Agrees base m p
  Agrees-outside base m idle e = tt
  Agrees-outside base m (calling call) e = tt
  Agrees-outside base m next_locked e = cc
  Agrees-outside base m (loaded current) e = absurd cc
  Agrees-outside base m (stored current) e = absurd cc
  Agrees-outside base m (next_done r) e = cc
  Agrees-outside base m (add_locked signer) e = cc
  Agrees-outside base m (add_done signer) e = cc
  Agrees-outside base m count_locked e = cc
  Agrees-outside base m (count_done n) e = absurd cc

  -- One writer, or none; and where there is none the provider is as the calls that returned left it.
  pub record Inv (first : RoundRobin Key) (s : System Key) : Type 0 where
    pub base : RoundRobin Key
    pub explained : Explains first s.history base
    pub alone : (i j : ℕ) → i ≢ j → section (s.pc i) ≡ writes → section (s.pc j) ≡ outside
    pub held : (i : ℕ) → Agrees base s.mem (s.pc i)
    pub settled : ((i : ℕ) × (section (s.pc i) ≡ writes)) ⊎ (s.mem ≡ base)

  -- What holds of the goroutine that moved and of the others holds of all.
  pub update-all :
      (P : ℕ → Pc Key → Type 0) (pc : ℕ → Pc Key) (i : ℕ) (p : Pc Key)
      → P i p
      → ((j : ℕ) → i ≢ j → P j (pc j))
      → (j : ℕ) → P j (update pc i p j)
  update-all P pc i p here there j = elim (Bool-cases (i == j)) [
    | inl same ↦ rw same (subst (λ k. P k p) ((==_iff i j).0 same) here)
    | inr other ↦ rw other (there j (λ e. cc ((==_iff i j).1 e)))
  ]

  pub update-other : (pc : ℕ → Pc Key) (i : ℕ) (p : Pc Key) (j : ℕ) → i ≢ j → update pc i p j ≡ pc j
  update-other pc i p j other = elim (Bool-cases (i == j)) [
    | inl same ↦ absurd (other ((==_iff i j).0 same))
    | inr apart ↦ rw apart
  ]

  pub update-same : (pc : ℕ → Pc Key) (i : ℕ) (p : Pc Key) → update pc i p i ≡ p
  update-same pc i p = rw ((==_iff i i).1 refl)

  pub Inv-update :
      {first : RoundRobin Key} (s : System Key) (v : Inv first s) (i : ℕ) (m base' : RoundRobin Key)
      (p : Pc Key) (history : List (Entry Key))
      → Explains first history base'
      → (section p ≡ writes → (j : ℕ) → i ≢ j → section (s.pc j) ≡ outside)
      → (section p ≡ outside) ⊎ ((j : ℕ) → i ≢ j → section (s.pc j) ≢ writes)
      → Agrees base' m p
      → ((j : ℕ) → i ≢ j → Agrees base' m (s.pc j))
      → ((j : ℕ) × (section (update s.pc i p j) ≡ writes)) ⊎ (m ≡ base')
      → Inv first (record { mem = m; pc = update s.pc i p; history = history })
  Inv-update s v i m base' p history explained enters leaves here there settled = record {
    base = base';
    explained = explained;
    alone =
        update-all
          (λ k q. (j : ℕ) → k ≢ j → section q ≡ writes → section (update s.pc i p j) ≡ outside) s.pc
          i p
          (λ j ne w.
            update-all (λ l q. i ≢ l → section q ≡ outside) s.pc i p
              (λ itself. absurd (itself refl)) (λ l other _. enters w l other) j ne)
          (λ k other j ne w.
            update-all (λ l q. k ≢ l → section q ≡ outside) s.pc i p (λ _. left k other w)
              (λ l _ apart. v.alone k l apart w) j ne);
    held = update-all (λ j q. Agrees base' m q) s.pc i p here there;
    settled = settled;
  }
    where
      left : (k : ℕ) → i ≢ k → section (s.pc k) ≡ writes → section p ≡ outside
      left k other w = elim leaves [
        | inl out ↦ out
        | inr none_writes ↦ absurd (none_writes k other w)
      ]
