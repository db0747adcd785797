-- ===== src/Client/Account/Cached.antt =====
-- That the cache of addresses does not change what GetAccount answers.
use aa_sdk_go.Prelude.{◌≡◌, refl, sym, ap, ◌∙◌, ◌⊎◌, inl, inr, Option, none, some}
use mathlib.Core.Path.{subst}
use aa_sdk_go.Prelude.Int.{ℤ}
use aa_sdk_go.Prelude.Outcome.{ok}
use aa_sdk_go.Prelude.State.{>>=-eq-ok, wrapped, wrapped-eq-ok, same_return}
use aa_sdk_go.Bytes.{Address, IsArray}
use aa_sdk_go.Hex.{Text}
use aa_sdk_go.Ethereum.{Ethereum, IsDocumented}
use aa_sdk_go.Client.{Node}
use aa_sdk_go.Client.Account.{
  Value, an_address, another, LruCache, Accounts, account_key, on_node, cached_or_asked,
  get_account,
}
use aa_sdk_go.Client.Account.Keys.{account_key_injective}

-- What is asked of a cache: Get answers only with what is held and forgets at most, and Set holds
-- the new value, and nothing else that was not held before. It may evict what it likes.
pub record IsCache {S : Type 0} (cache : LruCache S) (Holds : S → Text → Value → Type 0)
    : Type 0 where
  pub get-Holds : (s : S) (key : Text) (v : Value) → (cache.get key s).0 ≡ some v → Holds s key v
  pub Holds-get : (s : S) (key k : Text) (v : Value) → Holds (cache.get key s).1 k v → Holds s k v
  pub Holds-set :
      (s : S) (key : Text) (value : Value) (k : Text) (v : Value)
      → Holds (cache.set key value s).1 k v
      → ((k ≡ key) × (v ≡ value)) ⊎ Holds s k v

module _ {Key Abi Net S : Type 0} (g : Ethereum Key Abi) (doc : IsDocumented g) (node : Node Net)
    (cache : LruCache S) (Holds : S → Text → Value → Type 0) (lru : IsCache cache Holds)
    (account_of : Address → Option ℤ → Address) where
  -- Every entry is the address of the owner and the salt that its key is for.
  pub record Coherent (s : S) : Type 0 where
    pub entries :
        (owner : Address) (salt : Option ℤ) (v : Value)
        → IsArray 20 owner
        → Holds s (account_key g owner salt) v
        → v ≡ an_address (account_of owner salt)

  -- The factory's GetAddress is a view that computes the address: its answers do not change.
  abbrev pub Answers : Type 0
  Answers =
      (owner : Address) (salt : Option ℤ) (n m : Net) (a : Address)
      → node.get_address owner salt n ≡ (ok a, m)
      → a ≡ account_of owner salt

  after_get : (key : Text) (s : S) → Coherent s → Coherent (cache.get key s).1
  after_get key s h = record {
    entries = λ owner salt v ho held.
        h.entries owner salt v ho (lru.Holds-get s key (account_key g owner salt) v held);
  }

  after_set :
      (owner : Address) (salt : Option ℤ) (s : S)
      → IsArray 20 owner
      → Coherent s
      → Coherent (cache.set (account_key g owner salt) (an_address (account_of owner salt)) s).1
  after_set owner salt s ho h = record {
    entries = λ other salt₂ v h₂ held.
        elim (lru.Holds-set s (account_key g owner salt) (an_address (account_of owner salt))
          (account_key g other salt₂) v held) [
            | inr before ↦ h.entries other salt₂ v h₂ before
            | inl (same_key, same_value) ↦
                let (owners, salts) =
                  account_key_injective g doc other owner salt₂ salt h₂ ho same_key in
                same_value ∙ (λ i. an_address (account_of (sym owners i) (sym salts i)))
          ];
  }

  cached-answer :
      (owner : Address) (salt : Option ℤ) (v : Value) (s t : Accounts Net S) (a : Address)
      → Coherent s.cache
      → v ≡ an_address (account_of owner salt)
      → cached_or_asked g node cache owner salt (some v) s ≡ (ok a, t)
      → (a ≡ account_of owner salt) × Coherent t.cache
  unfolding cached_or_asked
  cached-answer owner salt another s t a h same e = cc
  cached-answer owner salt (an_address b) s t a h same e =
      (sym (same_return e).0 ∙ (cc same), subst (λ u. Coherent u.cache) (same_return e).1 h)

  asked-answer :
      (owner : Address) (salt : Option ℤ) (s t : Accounts Net S) (a : Address)
      → IsArray 20 owner
      → Answers
      → Coherent s.cache
      → cached_or_asked g node cache owner salt none s ≡ (ok a, t)
      → (a ≡ account_of owner salt) × Coherent t.cache
  unfolding cached_or_asked
  asked-answer owner salt s t a ho answers h e =
      let (b, u, e₁, r₁) =
        >>=-eq-ok
          (wrapped "error getting account address" (on_node g node (node.get_address owner salt))) _
          e in
      let call =
        wrapped-eq-ok "error getting account address" (on_node g node (node.get_address owner salt))
          e₁ in
      stored b u (answers owner salt s.net u.net b (λ i. ((call i).0, (call i).1.net)))
        (sym (ap (λ r. r.1.cache) call)) (same_return r₁).0 (same_return r₁).1
    where
      stored :
          (b : Address) (u : Accounts Net S)
          → b ≡ account_of owner salt
          → u.cache ≡ s.cache
          → b ≡ a
          → record u { cache = (cache.set (account_key g owner salt) (an_address b) u.cache).1 } ≡ t
          → (a ≡ account_of owner salt) × Coherent t.cache
      stored b u right kept same last = (
        sym same ∙ right,
        subst (λ v. Coherent v.cache) last
            (subst (λ x. Coherent (cache.set (account_key g owner salt) (an_address x) u.cache).1)
              (sym right) (after_set owner salt u.cache ho (subst Coherent (sym kept) h))),
      )

  -- Where GetAccount returns an address, it is the factory's address for the owner and the salt,
  -- whether it comes from the cache or the factory, and every entry of the cache stays the address of
  -- its key's owner and salt. It is asked that this holds of the cache before, that the factory's
  -- answers do not change, and that the owner's address has 20 bytes.
  pub get_account-Coherent :
      (owner : Address) (salt : Option ℤ) (s t : Accounts Net S) (a : Address)
      → IsArray 20 owner
      → Answers
      → Coherent s.cache
      → get_account g node (some cache) owner salt s ≡ (ok a, t)
      → (a ≡ account_of owner salt) × Coherent t.cache
  unfolding get_account
  get_account-Coherent owner salt s t a ho answers h e =
      by_answer (cache.get (account_key g owner salt) s.cache).0 refl e
    where
      by_answer :
          (found : Option Value)
          → (cache.get (account_key g owner salt) s.cache).0 ≡ found
          → cached_or_asked g node cache owner salt found
              (record s { cache = (cache.get (account_key g owner salt) s.cache).1 })
            ≡ (ok a, t)
          → (a ≡ account_of owner salt) × Coherent t.cache
      by_answer none none_there r =
          asked-answer owner salt _ t a ho answers (after_get (account_key g owner salt) s.cache h)
            r
      by_answer (some v) there r =
          cached-answer owner salt v _ t a (after_get (account_key g owner salt) s.cache h)
            (h.entries owner salt v ho (lru.get-Holds s.cache (account_key g owner salt) v there)) r
