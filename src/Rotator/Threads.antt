-- ===== src/Rotator/Threads.antt =====
-- RoundRobinSignerProvider of rotator.go under several goroutines, one access of a field at a time. The
-- lock is sync.RWMutex by its documentation: it is held by one writer, or by any number of readers.
pub mod Serial
pub mod Alone
pub mod Safe
use aa_sdk_go.Prelude.{
  ℕ, ◌+◌, ◌%◌, ◌≡◌, ◌≢◌, Option, none, some, List, [], ◌∷◌, ◌++◌, Bool, true, false, length, ◌==◌,
  if◌then◌else◌,
}
use aa_sdk_go.Prelude.Outcome.{Result, ok, panic, divide_by_zero}
use aa_sdk_go.Rotator.{RoundRobin, u32, signer_at, add, count}

pub data Call (Key : Type 0) : Type 0 where
  next_call : Call Key
  add_call : Option Key → Call Key
  count_call : Call Key

pub data Answer (Key : Type 0) : Type 0 where
  next_answer : Result (Option Key) → Answer Key
  add_answer : Answer Key
  count_answer : ℕ → Answer Key

-- Where a goroutine stands in a method, with the local variables that are live there.
pub data Pc (Key : Type 0) : Type 0 where
  idle : Pc Key
  -- before Lock or RLock
  calling : Call Key → Pc Key
  next_locked : Pc Key
  -- `current` is loaded, or the moved index stored as well
  loaded : ℕ → Pc Key
  stored : ℕ → Pc Key
  -- before the deferred Unlock
  next_done : Result (Option Key) → Pc Key
  add_locked : Option Key → Pc Key
  add_done : Option Key → Pc Key
  count_locked : Pc Key
  count_done : ℕ → Pc Key

-- How a goroutine holds the lock.
pub data Section : Type 0 where
  outside : Section
  reads : Section
  writes : Section

abbrev pub section : {Key : Type 0} → Pc Key → Section
section idle = outside
section (calling call) = outside
section next_locked = writes
section (loaded current) = writes
section (stored current) = writes
section (next_done r) = writes
section (add_locked signer) = writes
section (add_done signer) = writes
section count_locked = reads
section (count_done n) = reads

abbrev pub Entry : Type 0 → Type 0
Entry Key = Call Key × Answer Key

-- One access by one goroutine, with the call that returns by it, if one does.
pub data Move {Key : Type 0} (m : RoundRobin Key)
    : Pc Key → RoundRobin Key → Pc Key → List (Entry Key) → Type 0 where
  invoke : (call : Call Key) → Move m idle m (calling call) []
  next_empty : (length m.signers == 0) ≡ true → Move m next_locked m (next_done (ok none)) []
  next_load : (length m.signers == 0) ≡ false → Move m next_locked m (loaded m.index) []
  next_divides :
      {current : ℕ}
      → (u32 (length m.signers) == 0) ≡ true
      → Move m (loaded current) m (next_done (panic divide_by_zero)) []
  next_store :
      {current : ℕ}
      → (u32 (length m.signers) == 0) ≡ false
      → Move m
          (loaded current)
          (record m { index = u32 (current + 1) % u32 (length m.signers) })
          (stored current)
          []
  next_read : {current : ℕ} → Move m (stored current) m (next_done (signer_at m.signers current)) []
  next_unlock :
      {r : Result (Option Key)} → Move m (next_done r) m idle ((next_call, next_answer r) ∷ [])
  add_append :
      {signer : Option Key} → Move m (add_locked signer) (add signer m) (add_done signer) []
  add_unlock :
      {signer : Option Key} → Move m (add_done signer) m idle ((add_call signer, add_answer) ∷ [])
  count_read : Move m count_locked m (count_done (count m)) []
  count_unlock : {n : ℕ} → Move m (count_done n) m idle ((count_call, count_answer n) ∷ [])

-- Behind Lock, and behind RLock.
pub data Enters {Key : Type 0} : Call Key → Pc Key → Type 0 where
  enter_next : Enters next_call next_locked
  enter_add : {signer : Option Key} → Enters (add_call signer) (add_locked signer)

abbrev pub update : {Key : Type 0} → (ℕ → Pc Key) → ℕ → Pc Key → ℕ → Pc Key
update pc i p j = if i == j then p else pc j

-- The provider, the goroutines, and the calls that returned, in the order of their returns.
pub record System (Key : Type 0) : Type 0 where
  pub mem : RoundRobin Key
  pub pc : ℕ → Pc Key
  pub history : List (Entry Key)

pub data Step {Key : Type 0} (s : System Key) : System Key → Type 0 where
  moves :
      (i : ℕ) {m : RoundRobin Key} {p : Pc Key} {returned : List (Entry Key)}
      → Move s.mem (s.pc i) m p returned
      → Step s (record { mem = m; pc = update s.pc i p; history = s.history ++ returned })
  locks :
      (i : ℕ) {call : Call Key} {p : Pc Key}
      → s.pc i ≡ calling call
      → Enters call p
      → ((j : ℕ) → section (s.pc j) ≡ outside)
      → Step s (record s { pc = update s.pc i p })
  read_locks :
      (i : ℕ)
      → s.pc i ≡ calling count_call
      → ((j : ℕ) → section (s.pc j) ≢ writes)
      → Step s (record s { pc = update s.pc i count_locked })

pub data Reach {Key : Type 0} (first : RoundRobin Key) : System Key → Type 0 where
  start : Reach first (record { mem = first; pc = λ i. idle; history = [] })
  later : {s t : System Key} → Reach first s → Step s t → Reach first t
