-- ===== src/Client/Connect/Through.antt =====
-- What HandleOps of a client that NewClient returned sends.
use mathlib.Core.Path.{subst}
use aa_sdk_go.Prelude.{Option, some, List, [], ◌∷◌, ◌≡◌, ap, ◌∙◌}
use aa_sdk_go.Prelude.Outcome.{ok}
use aa_sdk_go.Bytes.{Address, Hash}
use aa_sdk_go.UserOperation.{PackedUserOperation}
use aa_sdk_go.Ethereum.{Ethereum}
use aa_sdk_go.Bindings.{Convert, address, packed_ops}
use aa_sdk_go.Bindings.Bind.{Metadata}
use aa_sdk_go.Bindings.EntryPoint
use aa_sdk_go.Client.{Config}
use aa_sdk_go.Client.Fill.{owner_of}
use aa_sdk_go.Client.Transact.{Signers, Executing, handle_ops}
use aa_sdk_go.Client.Transact.Laws.{Handled, handle_ops-Handled}
use aa_sdk_go.Client.Connect.{Ethclient, Options, Connected, new_client, node_of, sender_of}
use aa_sdk_go.Client.Connect.Made.{BoundAt, new_client-Connects}

module _ {Key Abi R Cache Backend CallOpts Opts FilterOpts WatchOpts Tx Receipt Net : Type 0}
    (g : Ethereum Key Abi) (ethclient : Ethclient Backend Tx Receipt Net)
    (entry_point account_factory account : Metadata CallOpts Opts FilterOpts WatchOpts Tx Net Abi
      Backend)
    (convert : Convert) (options : Options Key CallOpts Opts Tx) where
  -- A client that NewClient returned: where its HandleOps answers, one transaction was sent by it, a
  -- call of handleOps with all operations and an address, to the contract that is bound, with the
  -- entrypoint's ABI and the node dialed, at the configured address; and the answer is its hash.
  pub handle_ops-through :
      (config : Config Key (Signers Key R)) (cache : Cache) (n n' : Net)
      (c : Connected Key Abi
        (Signers Key R)
        Cache
        Backend
        CallOpts
        Opts
        FilterOpts
        WatchOpts
        Tx
        Net)
      (ops : List PackedUserOperation) (s t : Executing R Net) (op_hashes : List Hash)
      (tx_hash : Hash)
      → new_client ethclient entry_point account_factory account config cache n ≡ (ok c, n')
      → handle_ops g
          (node_of ethclient convert options c)
          (sender_of ethclient convert options c)
          c.client
          ops
          s
        ≡ (ok (op_hashes, tx_hash), t)
      → (abi : Abi) × (signer : Option Key) × (opts : Opts) × (beneficiary : Address) × (tx : Tx)
        × (entry_point.get_abi ≡ ok abi)
        × (options.new_transactor signer c.client.chain_id ≡ ok opts)
        × (owner_of g (node_of ethclient convert options c) c.client signer ≡ ok beneficiary)
        × ((entry_point.new_bound_contract config.entrypoint abi
                (some c.eth)
                (some c.eth)
                (some c.eth)).transact
              opts "handleOps"
              (packed_ops ops ∷ address beneficiary ∷ [])
              s.net
            ≡ (ok tx, t.net))
        × (tx_hash ≡ options.tx_hash tx)
  handle_ops-through config cache n n' c ops s t op_hashes tx_hash made answered = (
    at.abi,
    h.signer,
    h.opts,
    h.beneficiary,
    h.tx,
    at.abi_is,
    h.transactor,
    h.beneficiary_is,
    subst
        (λ bound.
          bound.transact h.opts "handleOps" (packed_ops ops ∷ address h.beneficiary ∷ []) s.net
          ≡ (ok h.tx, t.net))
        (ap (λ b. b.transactor) at.binding_is ∙ at.contract_is) h.sent,
    h.tx_hash_is,
  )
    where
      at : BoundAt entry_point config.entrypoint c.eth c.entrypoint
      at =
          (new_client-Connects ethclient entry_point account_factory account config cache n n'
            made).entrypoint_at

      h :
          Handled g
            (node_of ethclient convert options c)
            (sender_of ethclient convert options c)
            c.client
            (EntryPoint.handle_ops c.entrypoint.transactor)
            ops
            s
            t
            op_hashes
            tx_hash
      h =
          handle_ops-Handled g (node_of ethclient convert options c)
            (sender_of ethclient convert options c) c.client ops s t op_hashes tx_hash answered
