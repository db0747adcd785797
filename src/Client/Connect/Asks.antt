-- ===== src/Client/Connect/Asks.antt =====
-- What FillAndSign of a client that NewClient returned asks the entrypoint.
use mathlib.Core.Path.{subst}
use aa_sdk_go.Prelude.{Option, none, some, List, [], ◌∷◌, ◌≡◌, ap, ◌∙◌, inl, inr}
use aa_sdk_go.Prelude.Int.{ℤ}
use aa_sdk_go.Prelude.Outcome.{Result, ok}
use aa_sdk_go.Prelude.State.{Action, >>=-eq-ok}
use aa_sdk_go.Ethereum.{Ethereum}
use aa_sdk_go.Bindings.{Convert, Value, address, big, first_out, out_at}
use aa_sdk_go.Bindings.Bind.{Metadata}
use aa_sdk_go.Client.{Config}
use aa_sdk_go.Client.Fill.{Filling, fill_nonce}
use aa_sdk_go.Client.Fill.Stages.{fill_nonce-ok}
use aa_sdk_go.Client.Connect.{Ethclient, Options, Connected, new_client, node_of}
use aa_sdk_go.Client.Connect.Made.{BoundAt, new_client-Connects}

-- A method that returns `out[0]`, where it succeeds.
first_out-ok :
    {Net A : Type 0} (convert : Value → Result A) (called : Action Net (List Value)) {n n' : Net}
    {v : A}
    → first_out convert called n ≡ (ok v, n')
    → (out : List Value) × (called n ≡ (ok out, n')) × (out_at convert out 0 ≡ ok v)
first_out-ok convert called e =
    let (out, u, e₁, r₁) = >>=-eq-ok called _ e in
    (out, e₁ ∙ ap (λ w. (ok out, w)) (ap (λ r. r.1) r₁), ap (λ r. r.0) r₁)

module _ {Key Abi Rotator Cache Backend CallOpts Opts FilterOpts WatchOpts Tx Receipt Net : Type 0}
    (g : Ethereum Key Abi) (ethclient : Ethclient Backend Tx Receipt Net)
    (entry_point account_factory account : Metadata CallOpts Opts FilterOpts WatchOpts Tx Net Abi
      Backend)
    (convert : Convert) (options : Options Key CallOpts Opts Tx) where
  -- A client that NewClient returned, and an operation without a nonce: where FillAndSign's filling in
  -- of the nonce succeeds, one call was made, of getNonce with the operation's sender and salt, to the
  -- contract bound, with the entrypoint's ABI and the node dialed, at the configured address; and the
  -- nonce that is filled in is the first value that this call returned.
  pub fill_nonce-through :
      (config : Config Key Rotator) (cache : Cache) (n n' : Net)
      (c : Connected Key Abi Rotator Cache Backend CallOpts Opts FilterOpts WatchOpts Tx Net)
      (s t : Filling Net)
      → new_client ethclient entry_point account_factory account config cache n ≡ (ok c, n')
      → s.op.nonce ≡ none
      → fill_nonce g (node_of ethclient convert options c) c.client s ≡ (ok tt, t)
      → (abi : Abi) × (out : List Value) × (nonce : Option ℤ) × (entry_point.get_abi ≡ ok abi)
        × ((entry_point.new_bound_contract config.entrypoint abi
                (some c.eth)
                (some c.eth)
                (some c.eth)).call
              options.call_opts "getNonce"
              (address s.op.sender ∷ big s.op.salt ∷ [])
              s.net
            ≡ (ok out, t.net))
        × (out_at convert.to_big out 0 ≡ ok nonce)
        × (t.op ≡ record s.op { nonce = nonce })
  fill_nonce-through config cache n n' c s t made missing e =
      elim (fill_nonce-ok g (node_of ethclient convert options c) c.client s t e) [
        | inl (there, _) ↦ absurd (there missing)
        | inr (nonce, _, got, op_is) ↦
            let (out, called, first) =
              first_out-ok convert.to_big
                (c.entrypoint.caller.call options.call_opts "getNonce"
                  (address s.op.sender ∷ big s.op.salt ∷ []))
                got in
            (
              at.abi,
              out,
              nonce,
              at.abi_is,
              subst
                  (λ bound.
                    bound.call options.call_opts "getNonce"
                      (address s.op.sender ∷ big s.op.salt ∷ []) s.net
                    ≡ (ok out, t.net))
                  (ap (λ b. b.caller) at.binding_is ∙ at.contract_is) called,
              first,
              op_is,
            )
      ]
    where
      at : BoundAt entry_point config.entrypoint c.eth c.entrypoint
      at =
          (new_client-Connects ethclient entry_point account_factory account config cache n n'
            made).entrypoint_at
