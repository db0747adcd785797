-- ===== src/Client/Fill/Whole.antt =====
-- That FillAndSign succeeds as a whole.
use aa_sdk_go.Prelude.{
  ℕ, ◌^◌, ◌<◌, ◌≡◌, refl, sym, ◌∙◌, ◌++◌, ◌⊎◌, inl, inr, Option, some, none, [], ◌∷◌, false,
}
use mathlib.Core.Path.{subst}
use aa_sdk_go.Prelude.Int.{ℤ, pos}
use aa_sdk_go.Prelude.Outcome.{ok}
use aa_sdk_go.Bytes.{Bytes, Address, Hash, IsArray, eq_bytes, zero_address}
use aa_sdk_go.UserOperation.{UserOperation}
use aa_sdk_go.Ethereum.{Ethereum, IsDocumented, AbiValue, big, IsUint}
use aa_sdk_go.Hashing.Binding.{IsDomain}
use aa_sdk_go.Client.{Client, Node}
use aa_sdk_go.Client.Fill.{
  Filling, fill_nonce, nonce_or_fetched, fill_init_code, fill_paymaster, fill_and_sign,
  get_init_code_data, init_data_for, is_account_deployed, owner_of, with_init_code, is_not_empty,
}
use aa_sdk_go.Client.Fill.Agreement.{PaymasterGas}
use aa_sdk_go.Client.Fill.Stages.{fill_paymaster-ok}
use aa_sdk_go.Client.Fill.Total.{
  IsHalves, IsFillable, CanSign, fill_paymaster-total, fill_signature-total,
}

-- The caller's operation before its nonce is filled in: as IsFillable, with a nonce that may be missing.
pub record IsRequest (op : UserOperation) : Type 0 where
  pub sender : IsArray 20 op.sender
  pub nonce : (op.nonce ≡ none) ⊎ IsUint 256 op.nonce
  pub pre_verification_gas : IsUint 256 op.pre_verification_gas
  pub limits : IsHalves op.verification_gas_limit op.call_gas_limit
  pub fees : IsHalves op.max_priority_fee_per_gas op.max_fee_per_gas
  pub paymaster : PaymasterGas op

module _ {Net : Type 0} (node : Node Net) where
  -- The node answers for a sender, with a nonce of 256 bits, whatever was asked before.
  pub record Answers (sender : Address) (salt : Option ℤ) : Type 0 where
    pub nonce :
        (n : Net)
        → (k : ℕ) × (n' : Net) × (k < 2 ^ 256)
          × (node.get_nonce sender salt n ≡ (ok (some (pos k)), n'))
    pub code : (n : Net) → (bs : Bytes) × (n' : Net) × (node.code_at sender n ≡ (ok bs, n'))

-- The paymaster's gas numbers, of an operation that has the same.
same_gas :
    (op op' : UserOperation)
    → op'.paymaster_verification_gas_limit ≡ op.paymaster_verification_gas_limit
    → op'.paymaster_post_op_gas_limit ≡ op.paymaster_post_op_gas_limit
    → PaymasterGas op
    → PaymasterGas op'
same_gas op op' v p h = record {
  verification = h.verification;
  post_op = h.post_op;
  verification_is = v ∙ h.verification_is;
  post_op_is = p ∙ h.post_op_is;
  verification_fits = h.verification_fits;
  post_op_fits = h.post_op_fits;
}

filled :
    (op : UserOperation) (nonce : Option ℤ)
    → IsRequest op
    → IsUint 256 nonce
    → IsFillable (record op { nonce = nonce })
filled op nonce r n = record {
  sender = r.sender;
  nonce = n;
  pre_verification_gas = r.pre_verification_gas;
  limits = r.limits;
  fees = r.fees;
  paymaster = same_gas op (record op { nonce = nonce }) refl refl r.paymaster;
}

module _ {Key Abi Rotator Net : Type 0} (g : Ethereum Key Abi) (doc : IsDocumented g)
    (node : Node Net) (c : Client Key Abi Rotator) where
  nonce_or_fetched-total :
      (s : Filling Net) (nonce : Option ℤ)
      → IsRequest s.op
      → Answers node s.op.sender s.op.salt
      → s.op.nonce ≡ nonce
      → (n : Option ℤ) × (u : Net) × IsUint 256 n
        × (nonce_or_fetched g node c nonce s
            ≡ (ok tt, record { op = record s.op { nonce = n }; net = u }))
  unfolding nonce_or_fetched
  nonce_or_fetched-total s none r a e =
      let (k, u, fits, got) = a.nonce s.net in (some (pos k), u, (fits, inr refl), rw got)
  nonce_or_fetched-total s (some n) r a e = elim r.nonce [
    | inl missing ↦ absurd cc
    | inr fits ↦ (s.op.nonce, s.net, fits, refl)
  ]

  fill_nonce-total :
      (s : Filling Net)
      → IsRequest s.op
      → Answers node s.op.sender s.op.salt
      → (n : Option ℤ) × (u : Net) × IsUint 256 n
        × (fill_nonce g node c s ≡ (ok tt, record { op = record s.op { nonce = n }; net = u }))
  unfolding fill_nonce
  fill_nonce-total s r a = nonce_or_fetched-total s s.op.nonce r a refl

  with_init_code-IsFillable :
      (codes : Bytes × Bytes) (op : UserOperation)
      → IsFillable op
      → IsFillable (with_init_code g node c codes op)
  unfolding with_init_code
  with_init_code-IsFillable ([], data') op f = record {
    sender = f.sender;
    nonce = f.nonce;
    pre_verification_gas = f.pre_verification_gas;
    limits = f.limits;
    fees = f.fees;
    paymaster = same_gas op (record op { init_code = [] }) refl refl f.paymaster;
  }
  with_init_code-IsFillable ((b ∷ bs), data') op f = record {
    sender = f.sender;
    nonce = f.nonce;
    pre_verification_gas = f.pre_verification_gas;
    limits = f.limits;
    fees = f.fees;
    paymaster =
        same_gas op
          (record op {
            init_code = b ∷ bs;
            factory = c.config.account_factory;
            factory_data = data';
          })
          refl refl f.paymaster;
  }

  init_data_for-total :
      (owner : Address) (salt : Option ℤ) (data' code : Bytes) (n : Net)
      → g.pack_call c.simple_factory_abi "createAccount" (AbiValue.address owner ∷ big salt ∷ [])
        ≡ ok data'
      → (codes : Bytes × Bytes) × (init_data_for g node c owner salt (is_not_empty code) n
          ≡ (ok codes, n))
  unfolding init_data_for
  init_data_for-total owner salt data' [] n packed =
      ((c.config.account_factory ++ data', data'), rw packed)
  init_data_for-total owner salt data' (b ∷ bs) n packed = (([], []), refl)

  fill_init_code-total :
      (s : Filling Net) (key : Key) (data' : Bytes)
      → IsFillable s.op
      → Answers node s.op.sender s.op.salt
      → g.pack_call c.simple_factory_abi "createAccount"
          (AbiValue.address (g.pubkey_to_address key) ∷ big s.op.salt ∷ [])
        ≡ ok data'
      → (t : Filling Net) × IsFillable t.op × (fill_init_code g node c (some key) s ≡ (ok tt, t))
  unfolding fill_init_code get_init_code_data is_account_deployed owner_of
  fill_init_code-total s key data' f a packed =
      let (code, u, got) = a.code s.net in
      let (codes, made) =
        init_data_for-total (g.pubkey_to_address key) s.op.salt data' code u packed in
      (
        record { op = with_init_code g node c codes s.op; net = u },
        with_init_code-IsFillable codes s.op f,
        rw (got, made),
      )

  -- The operation behind the paymaster's stage is as complete as before it.
  fill_paymaster-IsFillable :
      (s t : Filling Net)
      → IsFillable s.op
      → fill_paymaster g node c s ≡ (ok tt, t)
      → IsFillable t.op
  fill_paymaster-IsFillable s t f e =
      let (data', _, after_it) = fill_paymaster-ok g node c e in
      subst (λ u. IsFillable u.op) (sym after_it)
        (record {
          sender = f.sender;
          nonce = f.nonce;
          pre_verification_gas = f.pre_verification_gas;
          limits = f.limits;
          fees = f.fees;
          paymaster =
              same_gas s.op
                (record s.op { paymaster = c.config.paymaster_address; paymaster_data = data' })
                refl refl f.paymaster;
        })

  -- FillAndSign returns a hash where the sender is not the zero address, the operation's fields, the
  -- paymaster's and the entrypoint's address and the chain id are of the contracts' types, the gas
  -- numbers below 2^128, the node answers, with a nonce of 256 bits, the call of createAccount can be
  -- packed, and the verifying signer and the signer are keys that can sign.
  pub fill_and_sign-total :
      (s : Filling Net) (key paymaster_key : Key) (data' : Bytes)
      → eq_bytes s.op.sender zero_address ≡ false
      → IsRequest s.op
      → Answers node s.op.sender s.op.salt
      → g.pack_call c.simple_factory_abi "createAccount"
          (AbiValue.address (g.pubkey_to_address key) ∷ big s.op.salt ∷ [])
        ≡ ok data'
      → IsArray 20 c.config.paymaster_address
      → IsDomain g doc c.config.entrypoint c.chain_id
      → c.config.verifying_signer ≡ some paymaster_key
      → CanSign g doc paymaster_key
      → CanSign g doc key
      → (t : Filling Net) × (hash : Hash) × (fill_and_sign g node c (some key) s ≡ (ok hash, t))
  unfolding fill_and_sign
  fill_and_sign-total s key paymaster_key data' there r a packed array domain signer can_pay
        can_sign =
      let (n, u, fits, e₁) = fill_nonce-total s r a in
      let with_nonce : Filling Net = record { op = record s.op { nonce = n }; net = u } in
      let (t₂, f₂, e₂) =
        fill_init_code-total with_nonce key data' (filled s.op n r fits)
          (record { nonce = a.nonce; code = a.code }) packed in
      let (t₃, e₃) =
        fill_paymaster-total g doc node c t₂ paymaster_key f₂ array domain.1 signer can_pay in
      let (t₄, hash, e₄) =
        fill_signature-total g doc node c t₃ key (fill_paymaster-IsFillable t₂ t₃ f₂ e₃) domain
          can_sign in
      (t₄, hash, rw (there, e₁, e₂, e₃, e₄))
