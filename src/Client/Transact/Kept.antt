-- ===== src/Client/Transact/Kept.antt =====
-- What HandleOps does to the signers' provider.
use aa_sdk_go.Prelude.{
  ◌≡◌, refl, ap, ◌∙◌, Option, some, List, [], String, ◌==◌, if◌then◌else◌, Bool-cases, inl, inr,
}
use aa_sdk_go.Prelude.Outcome.{ok, wrapping}
use aa_sdk_go.Prelude.State.{Action, after, wrapped, Keeps, Keeps-after, Keeps-bind, Keeps-lift}
use aa_sdk_go.Bytes.{Address}
use aa_sdk_go.UserOperation.{PackedUserOperation}
use aa_sdk_go.Ethereum.{Ethereum}
use aa_sdk_go.Hashing.{hash_loop}
use aa_sdk_go.Client.{Client, Node}
use aa_sdk_go.Client.Fill.{owner_of}
use aa_sdk_go.Client.Transact.{
  Signers, Sender, Executing, on_network, on_signers, executor_signers, handle_with, handle_by,
  handle, handle_ops,
}

module _ {Key Abi : Type 0} (g : Ethereum Key Abi) where
  module _ {R Opts Tx Receipt Net : Type 0} (node : Node Net)
      (sender : Sender Key Opts Tx Receipt Net) (c : Client Key Abi (Signers Key R)) where
    handle_with-Keeps :
        (method : Opts → List PackedUserOperation → Address → Action Net Tx) (text : String)
        (ops : List PackedUserOperation) (signer : Option Key) (r : R)
        → Keeps (λ u. u.signers ≡ r) (handle_with g node sender c method text ops signer)
    unfolding handle_with
    handle_with-Keeps method text ops signer r s h =
        Keeps-lift (λ u. u.signers ≡ r)
          (wrapping "error creating transaction options" (sender.new_transactor signer c.chain_id))
          s _ h
          λ opts.
            Keeps-lift (λ u. u.signers ≡ r) (owner_of g node c signer) s _ h
              λ b.
                Keeps-bind (λ u. u.signers ≡ r) (wrapped text (on_network (method opts ops b))) _
                  (λ u k. k)
                  (λ tx u k. Keeps-lift (λ v. v.signers ≡ r) (hash_loop g [] ops) u _ k (λ hs. k)) s
                  h

    handle_by-signers :
        (method : Opts → List PackedUserOperation → Address → Action Net Tx) (text : String)
        (signers : Signers Key R) (ops : List PackedUserOperation) (s : Executing R Net)
        → (handle_by g node sender c method text ops signers s).1.signers
          ≡ (if signers.count s.signers == 0 then s.signers else (signers.next s.signers).1)
    unfolding handle_by
    handle_by-signers method text signers ops s = elim (Bool-cases (signers.count s.signers == 0)) [
      | inl empty ↦ rw empty
      | inr full ↦ rw full (
          Keeps-after (λ u. u.signers ≡ (signers.next s.signers).1) (on_signers signers.next s)
            (handle_with g node sender c method text ops) refl
            (λ signer. handle_with-Keeps method text ops signer (signers.next s.signers).1))
    ]

    configured :
        (signers : Signers Key R)
        → c.config.executor_signers ≡ some signers
        → executor_signers g node sender c c.config.executor_signers ≡ ok signers
    unfolding executor_signers
    configured signers there = ap (executor_signers g node sender c) there

    -- Whether HandleOps answers, fails or panics, it leaves the signers' provider as one call of Next
    -- does, or as it was if the provider had no signer; the provider is the configured one.
    pub handle_ops-signers :
        (signers : Signers Key R) (ops : List PackedUserOperation) (s : Executing R Net)
        → c.config.executor_signers ≡ some signers
        → (handle_ops g node sender c ops s).1.signers
          ≡ (if signers.count s.signers == 0 then s.signers else (signers.next s.signers).1)
    unfolding handle_ops handle
    handle_ops-signers signers ops s there =
        ap
          (λ r.
            (after (r, s)
              (handle_by g node sender c sender.handle_ops "error handling ops" ops)).1.signers)
          (configured signers there)
        ∙ handle_by-signers sender.handle_ops "error handling ops" signers ops s
