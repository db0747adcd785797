-- ===== src/Client/Fill.antt =====
-- FillAndSign and SignUserOp of client.go, getInitCodeData, and IsAccountDeployed of utils.go. The
-- caller's operation is changed in place, so it is part of the state.
pub mod Signed
pub mod Run
pub mod Agreement
pub mod Total
pub mod Whole
pub mod Stages
pub mod Frame
pub mod InitCode
use aa_sdk_go.Prelude.{
  ◌^◌, ◌-◌, ◌++◌, Option, none, some, List, [], ◌∷◌, Bool, true, false, if◌then◌else◌,
}
use aa_sdk_go.Prelude.Int.{ℤ, pos}
use aa_sdk_go.Prelude.Outcome.{Result, ok, err, panic, message, nil_dereference, wrapping}
use aa_sdk_go.Prelude.State.{Action, ◌>>=◌, ◌>>◌, after, pure, lift, modify, read, wrapped}
use aa_sdk_go.Bytes.{Bytes, Address, Hash, zero_address, eq_bytes}
use aa_sdk_go.UserOperation.{UserOperation, PackedUserOperation}
use aa_sdk_go.Ethereum.{Ethereum, AbiValue, address, big}
use aa_sdk_go.Packing.{
  packed_of, pack_int, pack_paymaster_and_data, encode_paymaster_data, pack_user_operation,
  packed_for_paymaster, empty_signature,
}
use aa_sdk_go.Hashing.{get_user_op_hash, get_paymaster_hash}
use aa_sdk_go.Signing.{sign_message, sign_user_op}
use aa_sdk_go.Client.{Client, Node}

-- The operation that is filled in, and the network.
pub record Filling (Net : Type 0) : Type 0 where
  pub op : UserOperation
  pub net : Net

-- The window in which the paymaster's signature is valid: math.MaxInt32 and 0.
abbrev pub valid_until : Option ℤ
valid_until = some (pos (2 ^ 31 - 1))

abbrev pub valid_after : Option ℤ
valid_after = some (pos 0)

module _ {Net : Type 0} where
  -- A call of the network.
  abbrev pub on_net : {A : Type 0} → Action Net A → Action (Filling Net) A
  on_net call s = ((call s.net).0, record s { net = (call s.net).1 })

  abbrev pub change_op : (UserOperation → UserOperation) → Action (Filling Net) (Unit {0})
  change_op f = modify (λ s. record s { op = f s.op })

-- `len(code) > 0`
abbrev pub is_not_empty : Bytes → Bool
is_not_empty [] = false
is_not_empty (b ∷ bs) = true

module _ {Key Abi Rotator Net : Type 0} (g : Ethereum Key Abi) (node : Node Net)
    (c : Client Key Abi Rotator) where
  unfoldable pub is_account_deployed : Address → Action Net Bool
  is_account_deployed account = do code ← node.code_at account; pure (is_not_empty code)

  -- What getInitCodeData does once it knows whether the account is deployed.
  unfoldable pub init_data_for : Address → Option ℤ → Bool → Action Net (Bytes × Bytes)
  init_data_for owner salt true = pure ([], [])
  init_data_for owner salt false = do
    data' ← lift (
        wrapping "error packing account init code" (
          g.pack_call c.simple_factory_abi "createAccount"
            (AbiValue.address owner ∷ big salt ∷ [])))
    pure (c.config.account_factory ++ data', data')

  -- The init code and the data of the factory's call; both empty for an account that is deployed.
  unfoldable pub get_init_code_data : Address → Address → Option ℤ → Action Net (Bytes × Bytes)
  unfolding is_account_deployed init_data_for
  get_init_code_data account owner salt = do
    is_deployed ← wrapped "error checking if account is deployed" (is_account_deployed account)
    init_data_for owner salt is_deployed

  -- `crypto.PubkeyToAddress(signer.PublicKey)`
  unfoldable pub owner_of : Option Key → Result Address
  owner_of none = panic nil_dereference
  owner_of (some key) = ok (g.pubkey_to_address key)

  -- `if userOp.Nonce == nil { … }`: the entrypoint's nonce for the sender, under the salt as key.
  unfoldable pub nonce_or_fetched : Option ℤ → Action (Filling Net) (Unit {0})
  nonce_or_fetched (some n) = pure tt
  nonce_or_fetched none = do
    sender ← read (λ s. s.op.sender)
    salt ← read (λ s. s.op.salt)
    fetched ← wrapped "error getting nonce" (on_net (node.get_nonce sender salt))
    change_op (λ op. record op { nonce = fetched })

  unfoldable pub fill_nonce : Action (Filling Net) (Unit {0})
  unfolding nonce_or_fetched
  fill_nonce = do nonce ← read (λ s. s.op.nonce); nonce_or_fetched nonce

  -- `if len(initCode) != 0 { … } else { … }`
  unfoldable pub with_init_code : Bytes × Bytes → UserOperation → UserOperation
  with_init_code ([], data') op = record op { init_code = [] }
  with_init_code ((b ∷ bs), data') op = record op {
    init_code = b ∷ bs;
    factory = c.config.account_factory;
    factory_data = data';
  }

  unfoldable pub fill_init_code : Option Key → Action (Filling Net) (Unit {0})
  unfolding get_init_code_data owner_of with_init_code
  fill_init_code signer = do
    owner ← lift (owner_of signer)
    sender ← read (λ s. s.op.sender)
    salt ← read (λ s. s.op.salt)
    codes ←
        wrapped "error getting account init code" (on_net (get_init_code_data sender owner salt))
    change_op (with_init_code codes)

  -- The paymaster's address and its signed data.
  unfoldable pub fill_paymaster : Action (Filling Net) (Unit {0})
  fill_paymaster = do
    unsigned ← lift (
        wrapping "error encoding paymaster data"
          (encode_paymaster_data g valid_until valid_after empty_signature))
    change_op (λ op. record op { paymaster = c.config.paymaster_address })
    op ← read (λ s. s.op)
    packed ← lift (packed_for_paymaster g op unsigned)
    hash ← lift (
        wrapping "error getting paymaster data"
          (get_paymaster_hash g packed c.chain_id valid_until valid_after))
    paymaster_sig ←
        lift
          (wrapping "error signing paymaster data" (sign_message g c.config.verifying_signer hash))
    signed ← lift (
        wrapping "error encoding paymaster data"
          (encode_paymaster_data g valid_until valid_after paymaster_sig))
    change_op (λ op. record op { paymaster_data = signed })

  -- The signature over the whole operation, whose hash is returned.
  unfoldable pub fill_signature : Option Key → Action (Filling Net) Hash
  fill_signature signer = do
    op ← read (λ s. s.op)
    packed ← lift (pack_user_operation g (some op))
    signed ← lift (
        wrapping "error signing user operation"
          (sign_user_op g c.config.entrypoint c.chain_id packed signer))
    change_op (λ op. record op { signature = signed.0 })
    pure signed.1

  unfoldable pub fill_and_sign : Option Key → Action (Filling Net) Hash
  unfolding fill_nonce fill_init_code fill_paymaster fill_signature
  fill_and_sign signer = do
    sender ← read (λ s. s.op.sender)
    if eq_bytes sender zero_address
        then lift (err (message "sender address is empty"))
        else (do fill_nonce; fill_init_code signer; fill_paymaster; fill_signature signer)
