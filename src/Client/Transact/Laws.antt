-- ===== src/Client/Transact/Laws.antt =====
-- What HandleOps and HandleAtomicOps send, answer, and take from the signers' provider.
use aa_sdk_go.Prelude.{
  ◌≡◌, ◌≢◌, refl, sym, ap, ◌∙◌, ◌++◌, Option, none, some, List, [], ◌∷◌, map, append-nil,
  append_assoc, String, ◌==◌, Bool-cases, inl, inr, arith,
}
use aa_sdk_go.Prelude.Outcome.{ok, wrapping, wrapping-eq-ok, >>=-eq-ok as bind-eq-ok}
use aa_sdk_go.Prelude.State.{Action, >>=-eq-ok, wrapped, wrapped-eq-ok, lift-eq-ok, same_return}
use aa_sdk_go.Bytes.{Address, Hash}
use aa_sdk_go.UserOperation.{PackedUserOperation}
use aa_sdk_go.Ethereum.{Ethereum}
use aa_sdk_go.Hashing.{hashed_user_op, hash_loop}
use aa_sdk_go.Client.{Client, Node}
use aa_sdk_go.Client.Fill.{owner_of}
use aa_sdk_go.Client.Transact.{
  Signers, Sender, Executing, on_network, on_signers, executor_signers, handle_with, handle_by,
  handle, handle_ops, handle_atomic_ops,
}

module _ {Key Abi : Type 0} (g : Ethereum Key Abi) where
  -- The loop's answer: the hashes that were there, and one for each operation, in order.
  hash_loop-ok :
      (before : List Hash) (ops : List PackedUserOperation) {hashes : List Hash}
      → hash_loop g before ops ≡ ok hashes
      → (new : List Hash) × (hashes ≡ before ++ new) × (map (hashed_user_op g) ops ≡ map ok new)
  unfolding hash_loop
  hash_loop-ok before [] e = ([], (cc (append-nil before)), refl)
  hash_loop-ok before (op ∷ ops) {hashes} e =
      let (h, e₁, r₁) =
        bind-eq-ok (wrapping "error hashing user operation" (hashed_user_op g op)) _ e in
      let (new, split, same) = hash_loop-ok (before ++ (h ∷ [])) ops r₁ in
      (
        h ∷ new,
        split ∙ append_assoc before (h ∷ []) new,
        λ i. wrapping-eq-ok "error hashing user operation" _ e₁ i ∷ same i,
      )

  module _ {R Opts Tx Receipt Net : Type 0} (node : Node Net)
      (sender : Sender Key Opts Tx Receipt Net) (c : Client Key Abi (Signers Key R)) where
    -- What the two methods have done when they answer.
    pub record Handled (method : Opts → List PackedUserOperation → Address → Action Net Tx)
        (ops : List PackedUserOperation) (s t : Executing R Net) (op_hashes : List Hash)
        (tx_hash : Hash) : Type 0 where
      pub signers : Signers Key R
      pub signers_there : c.config.executor_signers ≡ some signers
      pub available : signers.count s.signers ≢ 0
      pub signer : Option Key
      pub taken : signers.next s.signers ≡ (ok signer, t.signers)
      pub opts : Opts
      pub transactor : sender.new_transactor signer c.chain_id ≡ ok opts
      pub beneficiary : Address
      pub beneficiary_is : owner_of g node c signer ≡ ok beneficiary
      pub tx : Tx
      pub sent : method opts ops beneficiary s.net ≡ (ok tx, t.net)
      pub tx_hash_is : tx_hash ≡ sender.tx_hash tx
      pub hashed : map (hashed_user_op g) ops ≡ map ok op_hashes

    -- A method of the provider or the network, one after the other.
    handle_with-ok :
        (method : Opts → List PackedUserOperation → Address → Action Net Tx) (text : String)
        (ops : List PackedUserOperation) (signer : Option Key) (u t : Executing R Net)
        (op_hashes : List Hash) (tx_hash : Hash)
        → handle_with g node sender c method text ops signer u ≡ (ok (op_hashes, tx_hash), t)
        → (opts : Opts) × (beneficiary : Address) × (tx : Tx) × (sender.new_transactor signer
              c.chain_id
            ≡ ok opts)
          × (owner_of g node c signer ≡ ok beneficiary)
          × (method opts ops beneficiary u.net ≡ (ok tx, t.net))
          × (t.signers ≡ u.signers)
          × (tx_hash ≡ sender.tx_hash tx)
          × (map (hashed_user_op g) ops ≡ map ok op_hashes)
    unfolding handle_with
    handle_with-ok method text ops signer u t op_hashes tx_hash e =
        let (opts, e₁, r₁) =
          lift-eq-ok
            (wrapping "error creating transaction options"
              (sender.new_transactor signer c.chain_id))
            u _ e in
        let (b, e₂, r₂) = lift-eq-ok (owner_of g node c signer) u _ r₁ in
        let (tx, v, e₃, r₃) = >>=-eq-ok (wrapped text (on_network (method opts ops b))) _ r₂ in
        let (hashes, e₄, r₄) = lift-eq-ok (hash_loop g [] ops) v _ r₃ in
        finish opts b tx v (wrapping-eq-ok _ _ e₁) e₂
          (wrapped-eq-ok text (on_network (method opts ops b)) e₃) hashes (hash_loop-ok [] ops e₄)
          (same_return r₄)
      where
        finish :
            (opts : Opts) (b : Address) (tx : Tx) (v : Executing R Net)
            → sender.new_transactor signer c.chain_id ≡ ok opts
            → owner_of g node c signer ≡ ok b
            → on_network (method opts ops b) u ≡ (ok tx, v)
            → (hashes : List Hash)
            → (new : List Hash) × (hashes ≡ new) × (map (hashed_user_op g) ops ≡ map ok new)
            → ◌≡◌ {A = List Hash × Hash} (hashes, sender.tx_hash tx) (op_hashes, tx_hash) × (v ≡ t)
            → (opts : Opts) × (beneficiary : Address) × (tx : Tx) × (sender.new_transactor signer
                  c.chain_id
                ≡ ok opts)
              × (owner_of g node c signer ≡ ok beneficiary)
              × (method opts ops beneficiary u.net ≡ (ok tx, t.net))
              × (t.signers ≡ u.signers)
              × (tx_hash ≡ sender.tx_hash tx)
              × (map (hashed_user_op g) ops ≡ map ok op_hashes)
        finish opts b tx v e₁ e₂ call hashes (new, same, each) (answer, last) = (
          opts,
          b,
          tx,
          e₁,
          e₂,
          (λ i. ((call i).0, (call i).1.net)) ∙ ap (λ w. (ok tx, w.net)) last,
          sym (ap (λ w. w.signers) last) ∙ sym (ap (λ r. r.1.signers) call),
          sym (ap (λ p. p.1) answer),
          each ∙ ap (map ok) (sym same ∙ ap (λ p. p.0) answer),
        )

    executor_signers-some :
        (o : Option (Signers Key R)) {signers : Signers Key R}
        → executor_signers g node sender c o ≡ ok signers
        → o ≡ some signers
    unfolding executor_signers
    executor_signers-some none e = cc
    executor_signers-some (some signers) e = cc

    handle_by-Handled :
        (method : Opts → List PackedUserOperation → Address → Action Net Tx) (text : String)
        (ops : List PackedUserOperation) (signers : Signers Key R) (s t : Executing R Net)
        (op_hashes : List Hash) (tx_hash : Hash)
        → c.config.executor_signers ≡ some signers
        → handle_by g node sender c method text ops signers s ≡ (ok (op_hashes, tx_hash), t)
        → Handled method ops s t op_hashes tx_hash
    unfolding handle_by
    handle_by-Handled method text ops signers s t op_hashes tx_hash there e =
        elim (Bool-cases (signers.count s.signers == 0)) [
          | inl empty ↦ cc (rw empty at e)
          | inr full ↦
              let (signer, u, e₁, r₁) = >>=-eq-ok (on_signers signers.next) _ (rw full at e) in
              let (opts, b, tx, opts_is, b_is, sent, kept, tx_hash_is, hashed) =
                handle_with-ok method text ops signer u t op_hashes tx_hash r₁ in
              record {
                signers = signers;
                signers_there = there;
                available = λ z. ground arith;
                signer = signer;
                taken = (λ i. ((e₁ i).0, (e₁ i).1.signers)) ∙ ap (λ r. (ok signer, r)) (sym kept);
                opts = opts;
                transactor = opts_is;
                beneficiary = b;
                beneficiary_is = b_is;
                tx = tx;
                sent = ap (λ r. method opts ops b r.1.net) e₁ ∙ sent;
                tx_hash_is = tx_hash_is;
                hashed = hashed;
              }
        ]

    handle-Handled :
        (method : Opts → List PackedUserOperation → Address → Action Net Tx) (text : String)
        (ops : List PackedUserOperation) (s t : Executing R Net) (op_hashes : List Hash)
        (tx_hash : Hash)
        → handle g node sender c method text ops s ≡ (ok (op_hashes, tx_hash), t)
        → Handled method ops s t op_hashes tx_hash
    unfolding handle
    handle-Handled method text ops s t op_hashes tx_hash e =
        let (signers, e₁, r₁) =
          lift-eq-ok (executor_signers g node sender c c.config.executor_signers) s _ e in
        handle_by-Handled method text ops signers s t op_hashes tx_hash
          (executor_signers-some c.config.executor_signers e₁) r₁

    -- Where HandleOps answers, the provider had a signer and has moved on by one call of Next, the
    -- entrypoint's handleOps was sent all operations with that signer's address as the beneficiary, and
    -- the answer is HashedUserOp of each operation, in order, and the transaction's hash.
    pub handle_ops-Handled :
        (ops : List PackedUserOperation) (s t : Executing R Net) (op_hashes : List Hash)
        (tx_hash : Hash)
        → handle_ops g node sender c ops s ≡ (ok (op_hashes, tx_hash), t)
        → Handled sender.handle_ops ops s t op_hashes tx_hash
    unfolding handle_ops
    handle_ops-Handled ops s t op_hashes tx_hash e =
        handle-Handled sender.handle_ops "error handling ops" ops s t op_hashes tx_hash e

    -- Where HandleAtomicOps answers, the same holds with the entrypoint's handleAtomicOps.
    handle_atomic_ops-Handled :
        (ops : List PackedUserOperation) (s t : Executing R Net) (op_hashes : List Hash)
        (tx_hash : Hash)
        → handle_atomic_ops g node sender c ops s ≡ (ok (op_hashes, tx_hash), t)
        → Handled sender.handle_atomic_ops ops s t op_hashes tx_hash
    unfolding handle_atomic_ops
    handle_atomic_ops-Handled ops s t op_hashes tx_hash e =
        handle-Handled sender.handle_atomic_ops "error handling atomic ops" ops s t op_hashes
          tx_hash e
