-- ===== src/Client/Transact.antt =====
-- The methods of client.go that send transactions: HandleOps, HandleAtomicOps, Prefund and
-- DeployAccount; and the interface Rotator of rotator.go, from which the first two take a signer.
pub mod Laws
pub mod Kept
use aa_sdk_go.Prelude.{ℕ, ◌++◌, Option, none, some, List, [], ◌∷◌, String, ◌==◌, if◌then◌else◌}
use aa_sdk_go.Prelude.Int.{ℤ}
use aa_sdk_go.Prelude.Outcome.{Result, ok, panic, nil_dereference, raised, wrapping}
use aa_sdk_go.Prelude.State.{Action, ◌>>=◌, pure, lift, read, wrapped}
use aa_sdk_go.Bytes.{Bytes, Address, Hash}
use aa_sdk_go.UserOperation.{PackedUserOperation}
use aa_sdk_go.Ethereum.{Ethereum}
use aa_sdk_go.Hashing.{hash_loop}
use aa_sdk_go.Rotator.{RoundRobin, next, add, count}
use aa_sdk_go.Client.{Client, Node}
use aa_sdk_go.Client.Fill.{owner_of}

-- The interface Rotator of signers, whose provider has the state `R`.
pub record Signers (Key R : Type 0) : Type 0 where
  pub next : R → Result (Option Key) × R
  pub add : Option Key → R → R
  pub count : R → ℕ

abbrev pub round_robin : {Key : Type 0} → Signers Key (RoundRobin Key)
round_robin = record { next = next; add = add; count = count }

-- What transactions are sent with: bind.NewKeyedTransactorWithChainID and bind.WaitMined of
-- go-ethereum, and the methods of the contracts' bindings that send one.
pub record Sender (Key Opts Tx Receipt Net : Type 0) : Type 0 where
  pub new_transactor : Option Key → Option ℤ → Result Opts
  -- opts.Value = value
  pub with_value : Option ℤ → Opts → Opts
  pub handle_ops : Opts → List PackedUserOperation → Address → Action Net Tx
  pub handle_atomic_ops : Opts → List PackedUserOperation → Address → Action Net Tx
  pub deposit_to : Opts → Address → Action Net Tx
  pub create_account : Opts → Address → Option ℤ → Action Net Tx
  pub tx_hash : Tx → Hash
  pub wait_mined : Tx → Action Net Receipt

-- The network, and the executor signers' provider.
pub record Executing (R Net : Type 0) : Type 0 where
  pub signers : R
  pub net : Net

module _ {R Net : Type 0} where
  abbrev pub on_network : {A : Type 0} → Action Net A → Action (Executing R Net) A
  on_network call s = ((call s.net).0, record s { net = (call s.net).1 })

  abbrev pub on_signers : {A : Type 0} → (R → Result A × R) → Action (Executing R Net) A
  on_signers method s = ((method s.signers).0, record s { signers = (method s.signers).1 })

module _ {Key Abi : Type 0} (g : Ethereum Key Abi) where
  module _ {R Opts Tx Receipt Net : Type 0} (node : Node Net)
      (sender : Sender Key Opts Tx Receipt Net) (c : Client Key Abi (Signers Key R)) where
    -- `c.config.ExecutorSigners`, whose methods a nil interface does not have.
    unfoldable pub executor_signers : Option (Signers Key R) → Result (Signers Key R)
    executor_signers none = panic nil_dereference
    executor_signers (some signers) = ok signers

    -- HandleOps and HandleAtomicOps behind the choice of a signer: they call different methods of the
    -- entrypoint.
    unfoldable pub handle_with :
        (Opts → List PackedUserOperation → Address → Action Net Tx)
        → String
        → List PackedUserOperation
        → Option Key
        → Action (Executing R Net) (List Hash × Hash)
    handle_with method text ops signer = do
      opts ←
          lift (
            wrapping "error creating transaction options" (sender.new_transactor signer c.chain_id))
      beneficiary ← lift (owner_of g node c signer)
      tx ← wrapped text (on_network (method opts ops beneficiary))
      op_hashes ← lift (hash_loop g [] ops)
      pure (op_hashes, sender.tx_hash tx)

    -- With a provider at hand.
    unfoldable pub handle_by :
        (Opts → List PackedUserOperation → Address → Action Net Tx)
        → String
        → List PackedUserOperation
        → Signers Key R
        → Action (Executing R Net) (List Hash × Hash)
    unfolding handle_with
    handle_by method text ops signers = do
      available ← read (λ s. signers.count s.signers)
      if available == 0
          then lift (panic (raised "no execution signer provided"))
          else (do signer ← on_signers signers.next; handle_with method text ops signer)

    -- The whole of HandleOps or HandleAtomicOps.
    unfoldable pub handle :
        (Opts → List PackedUserOperation → Address → Action Net Tx)
        → String
        → List PackedUserOperation
        → Action (Executing R Net) (List Hash × Hash)
    unfolding handle_by
    handle method text ops = do
      signers ← lift (executor_signers c.config.executor_signers)
      handle_by method text ops signers

    unfoldable pub handle_ops :
        List PackedUserOperation → Action (Executing R Net) (List Hash × Hash)
    unfolding handle
    handle_ops ops = handle sender.handle_ops "error handling ops" ops

    unfoldable pub handle_atomic_ops :
        List PackedUserOperation → Action (Executing R Net) (List Hash × Hash)
    unfolding handle
    handle_atomic_ops ops = handle sender.handle_atomic_ops "error handling atomic ops" ops

    unfoldable pub prefund : Address → Option ℤ → Action Net Receipt
    prefund to amount = do
      opts ← lift (
          wrapping "error creating transactor"
            (sender.new_transactor c.config.verifying_signer c.chain_id))
      tx ← wrapped "error depositing fund" (sender.deposit_to (sender.with_value amount opts) to)
      sender.wait_mined tx

    unfoldable pub deploy_account : Option Key → Address → Option ℤ → Action Net Receipt
    deploy_account signer account salt = do
      opts ← lift (wrapping "error creating transactor" (sender.new_transactor signer c.chain_id))
      tx ← wrapped "error creating account" (sender.create_account opts account salt)
      sender.wait_mined tx
