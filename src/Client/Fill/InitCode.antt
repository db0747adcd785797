-- ===== src/Client/Fill/InitCode.antt =====
-- The init code that FillAndSign fills in, by whether the account is deployed.
use aa_sdk_go.Prelude.{
  ◌<◌, length, length-append, ◌≡◌, ◌≢◌, refl, sym, ap, ◌∙◌, ◌++◌, Option, [], ◌∷◌, Bool, true,
  false, ◌⊎◌, inl, inr, arith,
}
use aa_sdk_go.Prelude.Int.{ℤ}
use aa_sdk_go.Prelude.Outcome.{ok, wrapping, wrapping-eq-ok}
use aa_sdk_go.Prelude.State.{wrapped, >>=-eq-ok, wrapped-eq-ok, lift-eq-ok, same_return}
use aa_sdk_go.Bytes.{Bytes, Address}
use aa_sdk_go.UserOperation.{UserOperation}
use aa_sdk_go.Ethereum.{Ethereum, AbiValue, big}
use aa_sdk_go.Client.{Client, Node}
use aa_sdk_go.Client.Fill.Stages.{on_net-ok}
use aa_sdk_go.Client.Fill.{
  Filling, on_net, is_account_deployed, is_not_empty, get_init_code_data, init_data_for, owner_of,
  with_init_code, fill_init_code,
}

module _ {Key Abi Rotator Net : Type 0} (g : Ethereum Key Abi) (node : Node Net)
    (c : Client Key Abi Rotator) where
  -- `len(code) > 0` of the node's answer.
  is_account_deployed-ok :
      (account : Address) (n m : Net) (b : Bool)
      → is_account_deployed g node c account n ≡ (ok b, m)
      → (code : Bytes) × (node.code_at account n ≡ (ok code, m)) × (b ≡ is_not_empty code)
  unfolding is_account_deployed
  is_account_deployed-ok account n m b e =
      let (code, u, e₁, r₁) = >>=-eq-ok (node.code_at account) _ e in
      (code, e₁ ∙ ap (λ v. (ok code, v)) (same_return r₁).1, sym (same_return r₁).0)

  -- The two answers of getInitCodeData: nothing for a deployed account, and otherwise the factory's
  -- address before the packed call of createAccount, with that call.
  record InitData (account owner : Address) (salt : Option ℤ) (n m : Net) (codes : Bytes × Bytes)
      : Type 0 where
    pub code : Bytes
    pub asked : node.code_at account n ≡ (ok code, m)
    pub answer :
        ((code ≢ []) × (codes ≡ ([], [])))
        ⊎ ((data' : Bytes) × (code ≡ [])
            × (g.pack_call c.simple_factory_abi "createAccount"
                  (AbiValue.address owner ∷ big salt ∷ [])
                ≡ ok data')
            × (codes ≡ (c.config.account_factory ++ data', data')))

  get_init_code_data-ok :
      (account owner : Address) (salt : Option ℤ) (n m : Net) (codes : Bytes × Bytes)
      → get_init_code_data g node c account owner salt n ≡ (ok codes, m)
      → InitData account owner salt n m codes
  unfolding get_init_code_data
  get_init_code_data-ok account owner salt n m codes e =
      let (b, u, e₁, r₁) =
        >>=-eq-ok
          (wrapped "error checking if account is deployed" (is_account_deployed g node c account)) _
          e in
      let (code, asked, full) = is_account_deployed-ok account n u b (
        wrapped-eq-ok "error checking if account is deployed" (is_account_deployed g node c account)
          e₁) in
      split b code u asked full r₁
    where
      split :
          (b : Bool) (code : Bytes) (u : Net)
          → node.code_at account n ≡ (ok code, u)
          → b ≡ is_not_empty code
          → init_data_for g node c owner salt b u ≡ (ok codes, m)
          → InitData account owner salt n m codes
      split true [] u asked full r = cc
      split true (x ∷ xs) u asked full r = record {
        code = x ∷ xs;
        asked = asked ∙ ap (λ v. (ok (x ∷ xs), v)) (same_return r).1;
        answer = inl ((λ h. cc), sym (same_return r).0);
      }
      split false (x ∷ xs) u asked full r = cc
      split false [] u asked full r =
          let (d, packed, last) =
            lift-eq-ok
              (wrapping "error packing account init code" (
                g.pack_call c.simple_factory_abi "createAccount"
                  (AbiValue.address owner ∷ big salt ∷ [])))
              _ _ r in
          record {
            code = [];
            asked = asked ∙ ap (λ v. (ok [], v)) (same_return last).1;
            answer = inr (d, refl, wrapping-eq-ok _ _ packed, sym (same_return last).0);
          }

  record InitFilled (signer : Option Key) (s t : Filling Net) : Type 0 where
    pub owner : Address
    pub codes : Bytes × Bytes
    pub owned : owner_of g node c signer ≡ ok owner
    pub init_data : InitData s.op.sender owner s.op.salt s.net t.net codes
    pub written : t.op ≡ with_init_code g node c codes s.op

  fill_init_code-InitFilled :
      (signer : Option Key) (s t : Filling Net)
      → fill_init_code g node c signer s ≡ (ok tt, t)
      → InitFilled signer s t
  unfolding fill_init_code
  fill_init_code-InitFilled signer s t e =
      let (owner, e₁, r₁) = lift-eq-ok (owner_of g node c signer) _ _ e in
      let (codes, u, e₂, r₂) =
        >>=-eq-ok
          (wrapped "error getting account init code"
            (on_net (get_init_code_data g node c s.op.sender owner s.op.salt)))
          _ r₁ in
      filled owner codes u e₁
        (on_net-ok (get_init_code_data g node c s.op.sender owner s.op.salt) s u (
          wrapped-eq-ok "error getting account init code"
            (on_net (get_init_code_data g node c s.op.sender owner s.op.salt)) e₂))
        (same_return r₂).1
    where
      filled :
          (owner : Address) (codes : Bytes × Bytes) (u : Filling Net)
          → owner_of g node c signer ≡ ok owner
          → (get_init_code_data g node c s.op.sender owner s.op.salt s.net ≡ (ok codes, u.net))
            × (u.op ≡ s.op)
          → record u { op = with_init_code g node c codes u.op } ≡ t
          → InitFilled signer s t
      filled owner codes u e₁ (call, same) last = record {
        owner = owner;
        codes = codes;
        owned = e₁;
        init_data =
            get_init_code_data-ok s.op.sender owner s.op.salt s.net t.net codes
              (call ∙ ap (λ v. (ok codes, v.net)) last);
        written = sym (ap (λ v. v.op) last) ∙ ap (with_init_code g node c codes) same;
      }

  -- The account's code on the chain, and what it makes of the operation.
  pub record InitCode (signer : Option Key) (s t : Filling Net) : Type 0 where
    pub owner : Address
    pub owned : owner_of g node c signer ≡ ok owner
    pub code : Bytes
    pub asked : node.code_at s.op.sender s.net ≡ (ok code, t.net)
    pub filled :
        ((code ≢ []) × (t.op ≡ record s.op { init_code = [] }))
        ⊎ ((call : Bytes) × (code ≡ [])
            × (g.pack_call c.simple_factory_abi "createAccount"
                  (AbiValue.address owner ∷ big s.op.salt ∷ [])
                ≡ ok call)
            × (t.op ≡ record s.op {
              init_code = c.config.account_factory ++ call;
              factory = c.config.account_factory;
              factory_data = call;
            }))

  with_init_code-call :
      (code call : Bytes) (op : UserOperation)
      → 0 < length code
      → with_init_code g node c (code, call) op
        ≡ record op { init_code = code; factory = c.config.account_factory; factory_data = call }
  unfolding with_init_code
  with_init_code-call [] call op h = absurd (omega arith)
  with_init_code-call (b ∷ bs) call op h = refl

  with_init_code-nil :
      (op : UserOperation) → with_init_code g node c ([], []) op ≡ record op { init_code = [] }
  unfolding with_init_code
  with_init_code-nil op = refl

  -- Where FillAndSign's filling in of the init code succeeds, the chain was asked for the sender's
  -- code. If it has code, the init code is emptied and the factory and its data stay as they were;
  -- if it has none, the packed createAccount call of the signer's address and the salt is the factory
  -- data, and the init code is the factory's address, of 20 bytes, before it.
  pub fill_init_code-ok :
      (signer : Option Key) (s t : Filling Net)
      → length c.config.account_factory ≡ 20
      → fill_init_code g node c signer s ≡ (ok tt, t)
      → InitCode signer s t
  fill_init_code-ok signer s t l e =
      let f = fill_init_code-InitFilled signer s t e in
      record {
        owner = f.owner;
        owned = f.owned;
        code = f.init_data.code;
        asked = f.init_data.asked;
        filled = elim f.init_data.answer [
          | inl (deployed, same) ↦ inl (
            deployed,
            f.written
                ∙ ap (λ codes. with_init_code g node c codes s.op) same
                ∙ with_init_code-nil s.op,
          )
          | inr (call, none_there, packed, same) ↦ inr (
            call,
            none_there,
            packed,
            f.written
                ∙ ap (λ codes. with_init_code g node c codes s.op) same
                ∙ with_init_code-call (c.config.account_factory ++ call) call s.op
                    (omega (arith, length-append c.config.account_factory call)),
          )
        ];
      }
