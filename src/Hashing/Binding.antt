-- ===== src/Hashing/Binding.antt =====
-- What the hash of a user operation binds.
use aa_sdk_go.Prelude.{◌≡◌, refl, ◌⊎◌, inl, inr, Option, List, [], ◌∷◌, All, Bool-cases}
use aa_sdk_go.Prelude.Int.{ℤ}
use aa_sdk_go.Prelude.Outcome.{ok}
use aa_sdk_go.Bytes.{Bytes, Address, IsArray, eq_bytes}
use aa_sdk_go.Bytes.Padding.{eq_bytes_iff}
use aa_sdk_go.UserOperation.{PackedUserOperation}
use aa_sdk_go.Ethereum.{Ethereum, IsDocumented, AbiType, StaticValue, IsUint, AllHold, words}
use aa_sdk_go.Ethereum.Words.{words_injective}
use aa_sdk_go.Hashing.{
  user_op_types, user_op_values, hash_types, hash_values, hashed_user_op, get_user_op_hash,
  Collides, Collision,
}

-- The types of the Go struct and of the contract's: addresses and words of their lengths, uint256
-- for the numbers.
pub record IsPacked (op : PackedUserOperation) : Type 0 where
  pub sender : IsArray 20 op.sender
  pub nonce : IsUint 256 op.nonce
  pub account_gas_limits : IsArray 32 op.account_gas_limits
  pub pre_verification_gas : IsUint 256 op.pre_verification_gas
  pub gas_fees : IsArray 32 op.gas_fees

-- All fields but the signature.
pub record SameSigned (a b : PackedUserOperation) : Type 0 where
  pub sender : a.sender ≡ b.sender
  pub nonce : a.nonce ≡ b.nonce
  pub init_code : a.init_code ≡ b.init_code
  pub call_data : a.call_data ≡ b.call_data
  pub account_gas_limits : a.account_gas_limits ≡ b.account_gas_limits
  pub pre_verification_gas : a.pre_verification_gas ≡ b.pre_verification_gas
  pub gas_fees : a.gas_fees ≡ b.gas_fees
  pub paymaster_and_data : a.paymaster_and_data ≡ b.paymaster_and_data

-- Go on unless a collision is found.
pub unless {ℓ κ μ} : {A : Type ℓ} {B : Type κ} {C : Type μ} → A ⊎ C → (A → B ⊎ C) → B ⊎ C
unless (inl a) f = f a
unless (inr c) f = inr c

-- One more pair to look at.
pub found_later {ℓ κ μ} : {A : Type ℓ} {B : Type κ} {C : Type μ} → A ⊎ C → A ⊎ (B ⊎ C)
found_later (inl a) = inl a
found_later (inr c) = inr (inr c)

-- What the hash is taken of for two operations, input by input.
module _ {Key Abi : Type 0} (g : Ethereum Key Abi) where
  abbrev field_inputs : PackedUserOperation → PackedUserOperation → List (Bytes × Bytes)
  field_inputs a b =
      (a.init_code, b.init_code)
      ∷ (a.call_data, b.call_data)
      ∷ (a.paymaster_and_data, b.paymaster_and_data)
      ∷ []

  abbrev pub op_inputs : PackedUserOperation → PackedUserOperation → List (Bytes × Bytes)
  op_inputs a b = (words (user_op_values g a), words (user_op_values g b)) ∷ field_inputs a b

  -- What the second `Pack` of GetUserOpHash is given.
  abbrev pub domain_values : PackedUserOperation → Address → Option ℤ → List StaticValue
  domain_values op entrypoint chain_id =
      hash_values g (g.keccak256_hash (words (user_op_values g op))) entrypoint chain_id

module _ {Key Abi : Type 0} (g : Ethereum Key Abi) (doc : IsDocumented g) where
  preimage : (x y : Bytes) → g.keccak256_hash x ≡ g.keccak256_hash y → (x ≡ y) ⊎ Collides g x y
  preimage x y h = elim (Bool-cases (eq_bytes x y)) [
    | inl same ↦ inl ((eq_bytes_iff x y).0 same)
    | inr other ↦ inr ((λ e. cc ((eq_bytes_iff x y).1 e)), h)
  ]

  pub preimages :
      (pairs : List (Bytes × Bytes))
      → All (λ p. g.keccak256_hash p.0 ≡ g.keccak256_hash p.1) pairs
      → All (λ p. p.0 ≡ p.1) pairs ⊎ Collision g pairs
  preimages [] h = inl tt
  preimages ((x, y) ∷ pairs) h = elim (preimage x y h.0) [
    | inr c ↦ inr (inl c)
    | inl same ↦ found_later (unless (preimages pairs h.1) (λ others. inl (same, others)))
  ]

  -- Lists of values with one digest are equal, unless their encodings collide.
  pub words-binds :
      (ts : List AbiType) (vs ws : List StaticValue)
      → AllHold ts vs
      → AllHold ts ws
      → g.keccak256_hash (words vs) ≡ g.keccak256_hash (words ws)
      → (vs ≡ ws) ⊎ Collides g (words vs) (words ws)
  words-binds ts vs ws hv hw e =
      unless (preimage (words vs) (words ws) e) (λ same. inl (words_injective ts vs ws hv hw same))

  user_op_values-AllHold :
      (op : PackedUserOperation) → IsPacked op → AllHold user_op_types (user_op_values g op)
  user_op_values-AllHold op p = (
    p.sender,
    (
      p.nonce,
      (
        (refl, doc.keccak256_hash-IsArray op.init_code),
        (
          (refl, doc.keccak256_hash-IsArray op.call_data),
          (
            (refl, p.account_gas_limits),
            (
              p.pre_verification_gas,
              ((refl, p.gas_fees), ((refl, doc.keccak256_hash-IsArray op.paymaster_and_data), tt)),
            ),
          ),
        ),
      ),
    ),
  )

  hashed_user_op-words :
      (op : PackedUserOperation)
      → IsPacked op
      → hashed_user_op g op ≡ ok (g.keccak256_hash (words (user_op_values g op)))
  unfolding hashed_user_op
  hashed_user_op-words op p =
      rw (doc.pack_words user_op_types (user_op_values g op) (user_op_values-AllHold op p))

  user_op_values-binds :
      (a b : PackedUserOperation)
      → user_op_values g a ≡ user_op_values g b
      → SameSigned a b ⊎ Collision g (field_inputs g a b)
  user_op_values-binds a b e = unless (preimages (field_inputs g a b) (cc, (cc, (cc, tt)))) λ same.
      inl (record {
        sender = cc;
        nonce = cc;
        init_code = same.0;
        call_data = same.1.0;
        account_gas_limits = cc;
        pre_verification_gas = cc;
        gas_fees = cc;
        paymaster_and_data = same.1.1.0;
      })

  -- Two packed operations whose senders and words have their lengths and whose numbers are of 256 bits,
  -- with the same HashedUserOp, agree in every field but the signature, unless Keccak-256 has one digest
  -- for two different inputs that it was given for them: their encodings, init codes, call data or
  -- paymasterAndData.
  pub hashed_user_op-binds :
      (a b : PackedUserOperation)
      → IsPacked a
      → IsPacked b
      → hashed_user_op g a ≡ hashed_user_op g b
      → SameSigned a b ⊎ Collision g (op_inputs g a b)
  hashed_user_op-binds a b pa pb e =
      elim (words-binds user_op_types (user_op_values g a) (user_op_values g b)
        (user_op_values-AllHold a pa) (user_op_values-AllHold b pb)
        (cc (hashed_user_op-words a pa, hashed_user_op-words b pb))) [
          | inr c ↦ inr (inl c)
          | inl same ↦ found_later (user_op_values-binds a b same)
        ]

  -- The domain that GetUserOpHash adds to an operation's hash.
  abbrev pub IsDomain : Address → Option ℤ → Type 0
  IsDomain entrypoint chain_id = IsArray 20 entrypoint × IsUint 256 chain_id

  pub get_user_op_hash-words :
      (op : PackedUserOperation) (entrypoint : Address) (chain_id : Option ℤ)
      → IsPacked op
      → IsDomain entrypoint chain_id
      → get_user_op_hash g op entrypoint chain_id
        ≡ ok (g.keccak256_hash (words (domain_values g op entrypoint chain_id)))
  unfolding get_user_op_hash
  get_user_op_hash-words op entrypoint chain_id p d = rw (
    hashed_user_op-words op p,
    doc.pack_words hash_types (domain_values g op entrypoint chain_id)
        ((refl, doc.keccak256_hash-IsArray _), (d.0, (d.1, tt))),
  )

  -- Two packed operations whose addresses and words have their lengths and whose numbers are of 256
  -- bits, with one hash from GetUserOpHash, under whatever entrypoint addresses and chain ids of 256
  -- bits, agree in every field but the signature, and were hashed for one entrypoint and one chain id,
  -- unless Keccak-256 has one digest for two different inputs that it was given for them.
  pub get_user_op_hash-binds :
      (a b : PackedUserOperation) (ea eb : Address) (ca cb : Option ℤ)
      → IsPacked a
      → IsPacked b
      → IsDomain ea ca
      → IsDomain eb cb
      → get_user_op_hash g a ea ca ≡ get_user_op_hash g b eb cb
      → (SameSigned a b × (ea ≡ eb) × (ca ≡ cb))
        ⊎ Collision g
            ((words (domain_values g a ea ca), words (domain_values g b eb cb)) ∷ op_inputs g a b)
  get_user_op_hash-binds a b ea eb ca cb pa pb da db e =
      elim (words-binds hash_types (domain_values g a ea ca) (domain_values g b eb cb)
        ((refl, doc.keccak256_hash-IsArray _), (da.0, (da.1, tt)))
        ((refl, doc.keccak256_hash-IsArray _), (db.0, (db.1, tt)))
        (cc (get_user_op_hash-words a ea ca pa da, get_user_op_hash-words b eb cb pb db))) [
          | inr c ↦ inr (inl c)
          | inl same ↦ found_later (
              unless
                (hashed_user_op-binds a b pa pb
                  (cc (hashed_user_op-words a pa, hashed_user_op-words b pb)))
                λ signed. inl (signed, cc, cc))
        ]
