-- ===== src/Rotator.antt =====
-- RoundRobinSignerProvider of rotator.go: the signers that HandleOps takes in turn. A method runs
-- under the provider's lock from its first access to its last, so here it is one step; Threads has
-- its accesses one by one, and Threads/Serial what allows this.
pub mod Laws
pub mod Cycle
pub mod Threads
use aa_sdk_go.Prelude.{
  ℕ, zero, suc, ◌+◌, ◌%◌, ◌^◌, ◌<◌, ◌≡◌, ◌⊎◌, Option, none, some, List, [], ◌∷◌, ◌++◌, length,
  get_elem?, ◌==◌, if◌then◌else◌,
}
use aa_sdk_go.Prelude.Outcome.{Result, ok, panic, index_out_of_range, divide_by_zero}

-- A *ecdsa.PrivateKey is an optional key, `none` for nil. `index` is an atomic.Uint32.
pub record RoundRobin (Key : Type 0) : Type 0 where
  pub signers : List (Option Key)
  pub index : ℕ

abbrev pub u32 : ℕ → ℕ
u32 n = n % 2 ^ 32

module _ {Key : Type 0} where
  unfoldable pub new_round_robin : List (Option Key) → RoundRobin Key
  new_round_robin signers = record { signers = signers; index = 0 }

  -- `p.signers[current]`
  unfoldable pub signer_at : List (Option Key) → ℕ → Result (Option Key)
  signer_at signers i = elim (get_elem? signers i) [
    | none ↦ panic index_out_of_range
    | some k ↦ ok k
  ]

  unfoldable pub next : RoundRobin Key → Result (Option Key) × RoundRobin Key
  unfolding signer_at
  next p =
      if length p.signers == 0
      then (ok none, p)
      else (if u32 (length p.signers) == 0 then (panic divide_by_zero, p) else (
        signer_at p.signers p.index,
        record p { index = u32 (p.index + 1) % u32 (length p.signers) },
      ))

  unfoldable pub add : Option Key → RoundRobin Key → RoundRobin Key
  add signer r = record r { signers = r.signers ++ (signer ∷ []) }

  unfoldable pub count : RoundRobin Key → ℕ
  count r = length r.signers

  -- The index names a signer, or the first one that will be added; uint32 can count the signers.
  pub record IsValid (p : RoundRobin Key) : Type 0 where
    pub few : length p.signers < 2 ^ 32
    pub within : (p.index < length p.signers) ⊎ (p.index ≡ 0)
