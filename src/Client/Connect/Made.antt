-- ===== src/Client/Connect/Made.antt =====
-- What NewClient has done when it returns a client.
use mathlib.Core.Path.{subst}
use aa_sdk_go.Prelude.{Option, some, ◌≡◌, refl, ap, ◌∙◌}
use aa_sdk_go.Prelude.Int.{ℤ}
use aa_sdk_go.Prelude.Outcome.{ok, wrapping, wrapping-eq-ok, >>=-eq-ok as bind-eq-ok}
use aa_sdk_go.Prelude.State.{>>=-eq-ok, wrapped, wrapped-eq-ok, lift-eq-ok, same_return}
use aa_sdk_go.Bytes.{Address}
use aa_sdk_go.Bindings.{Contract}
use aa_sdk_go.Bindings.Bind.{Binding, Metadata, bind, new_binding}
use aa_sdk_go.Bindings.EntryPoint
use aa_sdk_go.Bindings.SimpleAccountFactory
use aa_sdk_go.Client.{Config}
use aa_sdk_go.Client.Connect.{Ethclient, Connected, new_client}

module _ {CallOpts Opts FilterOpts WatchOpts Tx Net Abi Backend : Type 0}
    (metadata : Metadata CallOpts Opts FilterOpts WatchOpts Tx Net Abi Backend) where
  -- A binding's three contracts are one, of the metadata's ABI at the address.
  pub record BoundAt (place : Address) (eth : Backend)
      (binding : Binding CallOpts Opts FilterOpts WatchOpts Tx Net) : Type 0 where
    pub abi : Abi
    pub abi_is : metadata.get_abi ≡ ok abi
    pub contract : Contract CallOpts Opts FilterOpts WatchOpts Tx Net
    pub contract_is :
        contract ≡ metadata.new_bound_contract place abi (some eth) (some eth) (some eth)
    pub binding_is :
        binding ≡ record { caller = contract; transactor = contract; filterer = contract }

  new_binding-BoundAt :
      (place : Address) (eth : Backend)
      {binding : Binding CallOpts Opts FilterOpts WatchOpts Tx Net}
      → new_binding metadata place (some eth) ≡ ok binding
      → BoundAt place eth binding
  unfolding new_binding bind
  new_binding-BoundAt place eth e =
      let (contract, e₁, r₁) =
        bind-eq-ok (bind metadata place (some eth) (some eth) (some eth)) _ e in
      let (abi, e₂, r₂) = bind-eq-ok metadata.get_abi _ e₁ in
      record { abi = abi; abi_is = e₂; contract = contract; contract_is = cc; binding_is = cc }

module _ {Key Abi Rotator Cache Backend CallOpts Opts FilterOpts WatchOpts Tx Receipt Net : Type 0}
    (ethclient : Ethclient Backend Tx Receipt Net)
    (entry_point account_factory account : Metadata CallOpts Opts FilterOpts WatchOpts Tx Net Abi
      Backend) where
  -- What NewClient has done when it returns.
  pub record Connects (config : Config Key Rotator) (cache : Cache) (n n' : Net)
      (c : Connected Key Abi Rotator Cache Backend CallOpts Opts FilterOpts WatchOpts Tx Net)
      : Type 0 where
    pub dialed : Net
    pub dialed_is : ethclient.dial config.node_url n ≡ (ok c.eth, dialed)
    pub chain_is : ethclient.chain_id c.eth dialed ≡ (ok c.client.chain_id, n')
    pub config_is : c.client.config ≡ config
    pub entrypoint_at : BoundAt entry_point config.entrypoint c.eth c.entrypoint
    pub factory_at : BoundAt account_factory config.account_factory c.eth c.simple_factory
    pub factory_abi_is : account_factory.get_abi ≡ ok c.client.simple_factory_abi
    pub account_abi_is : account.get_abi ≡ ok c.client.simple_account_abi
    pub cache_is : c.lru_cache ≡ cache
    pub id_is : c.id ≡ 0

  -- Where NewClient returns a client, the node at the configured URL was dialed and asked for its
  -- chain, whose answer the client keeps with the configuration and the cache it was given; the
  -- contracts are bound, with their ABIs and that node, at the configured addresses; and the request
  -- counter is 0.
  pub new_client-Connects :
      (config : Config Key Rotator) (cache : Cache) (n n' : Net)
      {c : Connected Key Abi Rotator Cache Backend CallOpts Opts FilterOpts WatchOpts Tx Net}
      → new_client ethclient entry_point account_factory account config cache n ≡ (ok c, n')
      → Connects config cache n n' c
  unfolding new_client
  new_client-Connects config cache n n' {c} e =
      let (eth, dialed, e₁, r₁) =
        >>=-eq-ok (wrapped "error creating eth client" (ethclient.dial config.node_url)) _ e in
      let (chain_id, u, e₂, r₂) =
        >>=-eq-ok (wrapped "error getting chain id" (ethclient.chain_id eth)) _ r₁ in
      let (entrypoint, e₃, r₃) =
        lift-eq-ok
          (wrapping "error creating entrypoint client"
            (EntryPoint.new_entry_point entry_point config.entrypoint (some eth)))
          u _ r₂ in
      let (factory, e₄, r₄) =
        lift-eq-ok
          (wrapping "error creating account factory client" (
            SimpleAccountFactory.new_simple_account_factory account_factory config.account_factory
              (some eth)))
          u _ r₃ in
      let (factory_abi, e₅, r₅) =
        lift-eq-ok (wrapping "error getting account factory ABI" account_factory.get_abi) u _ r₄ in
      let (account_abi, e₆, r₆) =
        lift-eq-ok (wrapping "error getting simple account ABI" account.get_abi) u _ r₅ in
      finish eth dialed chain_id u entrypoint factory factory_abi account_abi
        (wrapped-eq-ok "error creating eth client" (ethclient.dial config.node_url) e₁)
        (wrapped-eq-ok "error getting chain id" (ethclient.chain_id eth) e₂) (wrapping-eq-ok _ _ e₃)
        (wrapping-eq-ok _ _ e₄) (wrapping-eq-ok _ _ e₅) (wrapping-eq-ok _ _ e₆) (same_return r₆)
    where
      made :
          Backend
          → Option ℤ
          → Binding CallOpts Opts FilterOpts WatchOpts Tx Net
          → Binding CallOpts Opts FilterOpts WatchOpts Tx Net
          → Abi
          → Abi
          → Connected Key Abi Rotator Cache Backend CallOpts Opts FilterOpts WatchOpts Tx Net
      made eth chain_id entrypoint factory factory_abi account_abi = record {
        id = 0;
        client = record {
          config = config;
          chain_id = chain_id;
          simple_account_abi = account_abi;
          simple_factory_abi = factory_abi;
        };
        eth = eth;
        simple_factory = factory;
        entrypoint = entrypoint;
        lru_cache = cache;
      }

      finish :
          (eth : Backend) (dialed : Net) (chain_id : Option ℤ) (u : Net)
          (entrypoint factory : Binding CallOpts Opts FilterOpts WatchOpts Tx Net)
          (factory_abi account_abi : Abi)
          → ethclient.dial config.node_url n ≡ (ok eth, dialed)
          → ethclient.chain_id eth dialed ≡ (ok chain_id, u)
          → EntryPoint.new_entry_point entry_point config.entrypoint (some eth) ≡ ok entrypoint
          → SimpleAccountFactory.new_simple_account_factory account_factory config.account_factory
              (some eth)
            ≡ ok factory
          → account_factory.get_abi ≡ ok factory_abi
          → account.get_abi ≡ ok account_abi
          → (made eth chain_id entrypoint factory factory_abi account_abi ≡ c) × (u ≡ n')
          → Connects config cache n n' c
      finish eth dialed chain_id u entrypoint factory factory_abi account_abi e₁ e₂ e₃ e₄ e₅ e₆
            (same, last) =
          subst (λ x. Connects config cache n n' x) same
            (record {
              dialed = dialed;
              dialed_is = e₁;
              chain_is = e₂ ∙ ap (λ w. (ok chain_id, w)) last;
              config_is = refl;
              entrypoint_at = new_binding-BoundAt entry_point config.entrypoint eth e₃;
              factory_at = new_binding-BoundAt account_factory config.account_factory eth e₄;
              factory_abi_is = e₅;
              account_abi_is = e₆;
              cache_is = refl;
              id_is = refl;
            })
