-- ===== src/Client/Connect/Deploys.antt =====
-- What DeployAccount of a client that NewClient returned sends.
use mathlib.Core.Path.{subst}
use aa_sdk_go.Prelude.{Option, some, [], ◌∷◌, ◌≡◌, ap, ◌∙◌}
use aa_sdk_go.Prelude.Int.{ℤ}
use aa_sdk_go.Prelude.Outcome.{ok, wrapping, wrapping-eq-ok}
use aa_sdk_go.Prelude.State.{wrapped, >>=-eq-ok, wrapped-eq-ok, lift-eq-ok}
use aa_sdk_go.Bytes.{Address}
use aa_sdk_go.Ethereum.{Ethereum}
use aa_sdk_go.Bindings.{Convert, address, big}
use aa_sdk_go.Bindings.Bind.{Metadata}
use aa_sdk_go.Bindings.SimpleAccountFactory
use aa_sdk_go.Client.{Config}
use aa_sdk_go.Client.Transact.{Signers, deploy_account}
use aa_sdk_go.Client.Connect.{Ethclient, Options, Connected, new_client, node_of, sender_of}
use aa_sdk_go.Client.Connect.Made.{BoundAt, new_client-Connects}

module _ {Key Abi R Cache Backend CallOpts Opts FilterOpts WatchOpts Tx Receipt Net : Type 0}
    (g : Ethereum Key Abi) (ethclient : Ethclient Backend Tx Receipt Net)
    (entry_point account_factory account : Metadata CallOpts Opts FilterOpts WatchOpts Tx Net Abi
      Backend)
    (convert : Convert) (options : Options Key CallOpts Opts Tx) where
  -- A client that NewClient returned: where its DeployAccount answers, it sent one transaction, made
  -- for the signer and the client's chain: a call of createAccount with the account's address, as the
  -- owner's, and the salt, to the contract bound, with the factory's ABI and the node dialed, at the
  -- configured address of the factory; and the answer is what WaitMined found for it.
  pub deploy_account-through :
      (config : Config Key (Signers Key R)) (cache : Cache) (n n' : Net)
      (c : Connected Key Abi
        (Signers Key R)
        Cache
        Backend
        CallOpts
        Opts
        FilterOpts
        WatchOpts
        Tx
        Net)
      (signer : Option Key) (deployed : Address) (salt : Option ℤ) (u v : Net) (receipt : Receipt)
      → new_client ethclient entry_point account_factory account config cache n ≡ (ok c, n')
      → deploy_account g
          (node_of ethclient convert options c)
          (sender_of ethclient convert options c)
          c.client
          signer
          deployed
          salt
          u
        ≡ (ok receipt, v)
      → (abi : Abi) × (opts : Opts) × (tx : Tx) × (sent : Net) × (account_factory.get_abi ≡ ok abi)
        × (options.new_transactor signer c.client.chain_id ≡ ok opts)
        × ((account_factory.new_bound_contract config.account_factory abi
                (some c.eth)
                (some c.eth)
                (some c.eth)).transact
              opts "createAccount"
              (address deployed ∷ big salt ∷ [])
              u
            ≡ (ok tx, sent))
        × (ethclient.wait_mined c.eth tx sent ≡ (ok receipt, v))
  unfolding deploy_account
  deploy_account-through config cache n n' c signer deployed salt u v receipt made answered =
      let (opts, e₁, r₁) =
        lift-eq-ok
          (wrapping "error creating transactor" (options.new_transactor signer c.client.chain_id)) u
          _ answered in
      let (tx, sent, e₂, r₂) =
        >>=-eq-ok
          (wrapped "error creating account"
            (SimpleAccountFactory.create_account c.simple_factory.transactor opts deployed salt))
          _ r₁ in
      (
        at.abi,
        opts,
        tx,
        sent,
        at.abi_is,
        wrapping-eq-ok _ _ e₁,
        subst
            (λ bound.
              bound.transact opts "createAccount" (address deployed ∷ big salt ∷ []) u
              ≡ (ok tx, sent))
            (ap (λ b. b.transactor) at.binding_is ∙ at.contract_is)
            (wrapped-eq-ok "error creating account"
              (SimpleAccountFactory.create_account c.simple_factory.transactor opts deployed salt)
              e₂),
        r₂,
      )
    where
      at : BoundAt account_factory config.account_factory c.eth c.simple_factory
      at =
          (new_client-Connects ethclient entry_point account_factory account config cache n n'
            made).factory_at
