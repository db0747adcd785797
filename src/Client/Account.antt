-- ===== src/Client/Account.antt =====
-- GetAccount and GetAccountBalance of client.go, and the cache of addresses of cache.go. The cache
-- is one that the caller gives to NewClient, so here it is an interface.
pub mod Keys
pub mod Cached
use aa_sdk_go.Prelude.{suc, ◌++◌, Option, none, some, List, [], ◌∷◌, Bool, String}
use aa_sdk_go.Prelude.Int.{ℤ, pos, negsuc}
use aa_sdk_go.Prelude.Outcome.{Result, ok, err, panic, Error, raised_error, wrap, failed_assertion}
use aa_sdk_go.Prelude.State.{Action, ◌>>=◌, pure, lift, wrapped}
use aa_sdk_go.Bytes.{Bytes, Address}
use aa_sdk_go.Hex.{Text}
use aa_sdk_go.Ethereum.{Ethereum}
use aa_sdk_go.Signing.{decimal}
use aa_sdk_go.Client.{Node}

-- What a cache holds: an `any`, which may be an address.
pub data Value : Type 0 where
  an_address : Address → Value
  another : Value

-- The methods of LRUCache; Get may change what the cache will evict.
pub record LruCache (S : Type 0) : Type 0 where
  pub get : Text → S → Option Value × S
  pub set : Text → Value → S → Bool × S

-- NewLRUCache, over lru.New: a size that it refuses is a panic.
unfoldable new_lru_cache : {S : Type 0} → (ℤ → Result S) → ℤ → Result S
new_lru_cache lru_new max_size = refused (lru_new max_size)
  where
    refused : {S : Type 0} → Result S → Result S
    refused (ok s) = ok s
    refused (err e) = panic (raised_error (wrap "failed to create LRU cache" e))
    refused (panic p) = panic p

-- The network, and the cache.
pub record Accounts (Net S : Type 0) : Type 0 where
  pub net : Net
  pub cache : S

-- salt.String()
unfoldable pub salt_text : Option ℤ → Text
salt_text none = b'<' ∷ b'n' ∷ b'i' ∷ b'l' ∷ b'>' ∷ []
salt_text (some (pos n)) = decimal n
salt_text (some (negsuc n)) = b'-' ∷ decimal (suc n)

-- `addr.(common.Address)`
abbrev asserted : Value → Result Address
asserted (an_address a) = ok a
asserted another = panic failed_assertion

module _ {Key Abi : Type 0} (g : Ethereum Key Abi) where
  -- fmt.Sprintf("%s-%s", owner.Hex(), salt.String())
  unfoldable pub account_key : Address → Option ℤ → Text
  account_key owner salt = g.address_hex owner ++ (b'-' ∷ salt_text salt)

  module _ {Net S : Type 0} (node : Node Net) where
    abbrev pub on_node : {A : Type 0} → Action Net A → Action (Accounts Net S) A
    on_node call s = ((call s.net).0, record s { net = (call s.net).1 })

    abbrev pub on_cache : {A : Type 0} → (S → A × S) → Action (Accounts Net S) A
    on_cache method s = (ok (method s.cache).0, record s { cache = (method s.cache).1 })

    -- What GetAccount does with the cache's answer.
    unfoldable pub cached_or_asked :
        LruCache S → Address → Option ℤ → Option Value → Action (Accounts Net S) Address
    cached_or_asked cache owner salt (some value) = lift (asserted value)
    cached_or_asked cache owner salt none = do
      addr ← wrapped "error getting account address" (on_node (node.get_address owner salt))
      evicted ← on_cache (cache.set (account_key owner salt) (an_address addr))
      pure addr

    -- Without a cache the factory is asked.
    unfoldable pub get_account :
        Option (LruCache S) → Address → Option ℤ → Action (Accounts Net S) Address
    unfolding cached_or_asked
    get_account none owner salt = on_node (node.get_address owner salt)
    get_account (some cache) owner salt = do
      found ← on_cache (cache.get (account_key owner salt))
      cached_or_asked cache owner salt found

  module _ {Net : Type 0} (node : Node Net) where
    unfoldable pub get_account_balance : Address → Action Net (Option ℤ)
    get_account_balance account = wrapped "error getting account balance" (node.balance_at account)
