-- ===== src/Tests/Account.antt =====
-- GetAccount with a cache of one entry.
use aa_sdk_go.Prelude.{
  ℕ, ◌<◌, ◌≡◌, refl, inl, inr, Option, none, some, replicate, true, if◌then◌else◌, Bool-cases,
  length-replicate, All-replicate, arith,
}
use aa_sdk_go.Prelude.Int.{pos}
use aa_sdk_go.Prelude.Outcome.{ok}
use aa_sdk_go.Bytes.{Address, eq_bytes}
use aa_sdk_go.Bytes.Padding.{eq_bytes_iff}
use aa_sdk_go.Hex.{Text}
use aa_sdk_go.Client.Account.{Value, an_address, LruCache, Accounts, account_key, get_account}
use aa_sdk_go.Client.Account.Cached.{IsCache, Coherent, get_account-Coherent}
use aa_sdk_go.Tests.Sample.{sample, sample-IsDocumented, node}

-- The last entry, if there is one.
abbrev Entry : Type 0
Entry = Option (Text × Value)

look_up : Text → Entry → Option Value
look_up key none = none
look_up key (some (k, v)) = if eq_bytes key k then some v else none

abbrev one_entry : LruCache Entry
one_entry = record { get = λ key s. (look_up key s, s); set = λ key v s. (true, some (key, v)) }

abbrev Held : Entry → Text → Value → Type 0
Held none key v = ⊥
Held (some (k, w)) key v = (key ≡ k) × (v ≡ w)

look_up-Held : (s : Entry) (key : Text) (v : Value) → look_up key s ≡ some v → Held s key v
unfolding look_up
look_up-Held none key v e = cc
look_up-Held (some (k, w)) key v e = elim (Bool-cases (eq_bytes key k)) [
  | inl same ↦ ((eq_bytes_iff key k).0 same, cc (rw same at e))
  | inr other ↦ cc (rw other at e)
]

one_entry-IsCache : IsCache one_entry Held
one_entry-IsCache = record {
  get-Holds = look_up-Held;
  Holds-get = λ s key k v h. h;
  Holds-set = λ s key w k v h. inl h;
}

abbrev owner : Address
owner = replicate 20 17

abbrev empty : Accounts ℕ Entry
empty = record { net = 0; cache = none }

abbrev filled : Accounts ℕ Entry
filled = record {
  net = 1;
  cache = some (account_key sample owner (some (pos 4)), an_address owner);
}

empty-Coherent :
    Coherent sample sample-IsDocumented node one_entry Held one_entry-IsCache (λ a salt. a) none
empty-Coherent = record { entries = λ o salt v h held. absurd held }

asked_once :
    get_account sample node (some one_entry) owner (some (pos 4)) empty ≡ (ok owner, filled)
unfolding get_account look_up
asked_once = refl

get_account-Coherent_example :
    (owner ≡ owner)
    × Coherent sample sample-IsDocumented node one_entry Held one_entry-IsCache
        (λ a salt. a)
        filled.cache
get_account-Coherent_example =
    get_account-Coherent sample sample-IsDocumented node one_entry Held one_entry-IsCache
      (λ a salt. a) owner (some (pos 4)) empty filled owner
      (length-replicate {A = ℕ} 20 17, All-replicate (λ d. d < 256) 20 (omega arith))
      (λ o salt n m a e. cc e) empty-Coherent asked_once
