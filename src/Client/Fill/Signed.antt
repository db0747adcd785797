-- ===== src/Client/Fill/Signed.antt =====
-- What a successful FillAndSign has signed: the operation that the contracts will see.
use aa_sdk_go.Prelude.{◌≡◌, refl, sym, ap, ◌∙◌, Option, some, length}
use mathlib.Core.Path.{subst}
use aa_sdk_go.Prelude.Outcome.{ok}
use aa_sdk_go.Bytes.{Bytes, Hash}
use aa_sdk_go.UserOperation.{UserOperation, PackedUserOperation}
use aa_sdk_go.Ethereum.{Ethereum, IsDocumented}
use aa_sdk_go.Packing.{pack_user_operation}
use aa_sdk_go.Hashing.{get_user_op_hash}
use aa_sdk_go.Signing.{sign_message}
use aa_sdk_go.Client.{Client, Node}
use aa_sdk_go.Client.Fill.{Filling, fill_and_sign}
use aa_sdk_go.Client.Fill.Stages.{fill_paymaster-ok, PaymasterSigned, fill_signature-ok}
use aa_sdk_go.Client.Fill.Frame.{caller_fields, fill_nonce-Keeps, fill_init_code-Keeps}
use aa_sdk_go.Client.Fill.Run.{Run, fill_and_sign-Run}
use aa_sdk_go.Client.Fill.Agreement.{Consistent, PaymasterGas, consistent}

module _ {Key Abi Rotator Net : Type 0} (g : Ethereum Key Abi) (doc : IsDocumented g)
    (node : Node Net) (c : Client Key Abi Rotator) where
  gas_kept :
      (a b : UserOperation) → caller_fields b ≡ caller_fields a → PaymasterGas a → PaymasterGas b
  gas_kept a b same gas = record {
    verification = gas.verification;
    post_op = gas.post_op;
    verification_is = ap (λ o. o.paymaster_verification_gas_limit) same ∙ gas.verification_is;
    post_op_is = ap (λ o. o.paymaster_post_op_gas_limit) same ∙ gas.post_op_is;
    verification_fits = gas.verification_fits;
    post_op_fits = gas.post_op_fits;
  }

  kept_to_code :
      {signer : Option Key} {s t : Filling Net} {hash : Hash} (run : Run g node c signer s t hash)
      → caller_fields run.with_code.op ≡ caller_fields s.op
  kept_to_code {signer} {s} run =
      let first : caller_fields run.with_nonce.op ≡ caller_fields s.op =
        ap (λ r. caller_fields r.1.op) (sym run.nonce_stage)
        ∙ fill_nonce-Keeps g node c s.op s refl in
      ap (λ r. caller_fields r.1.op) (sym run.code_stage)
      ∙ fill_init_code-Keeps g node c s.op signer run.with_nonce first

  -- A successful FillAndSign leaves the caller with an operation whose signature is the signer's over
  -- the returned hash, whose hash is GetUserOpHash of that very operation, and whose paymaster data
  -- hold the paymaster's signature of its GetPaymasterHash. The two paymaster gas limits are below
  -- 2^128 and the configured paymaster is an address.
  pub fill_and_sign-Consistent :
      (signer : Option Key) (s t : Filling Net) (hash : Hash)
      → length c.config.paymaster_address ≡ 20
      → PaymasterGas s.op
      → fill_and_sign g node c signer s ≡ (ok hash, t)
      → Consistent g c signer t.op hash
  fill_and_sign-Consistent signer s t hash l gas e =
      let run = fill_and_sign-Run g node c signer s t hash e in
      let (d, ps, funded_at) = fill_paymaster-ok g node c run.paymaster_stage in
      let (packed, sig, e₁, e₂, e₃, signed_at) =
        fill_signature-ok g node c signer run.with_paymaster t hash run.signature_stage in
      finish run d sig packed funded_at ps e₁ e₂ e₃ signed_at
    where
      finish :
          (run : Run g node c signer s t hash) (d sig : Bytes) (packed : PackedUserOperation)
          → run.with_paymaster ≡ record run.with_code {
            op = record run.with_code.op {
              paymaster = c.config.paymaster_address;
              paymaster_data = d;
            };
          }
          → PaymasterSigned g node c run.with_code.op d
          → pack_user_operation g (some run.with_paymaster.op) ≡ ok packed
          → get_user_op_hash g packed c.config.entrypoint c.chain_id ≡ ok hash
          → sign_message g signer hash ≡ ok sig
          → t ≡ record run.with_paymaster { op = record run.with_paymaster.op { signature = sig } }
          → Consistent g c signer t.op hash
      finish run d sig packed funded_at ps e₁ e₂ e₃ signed_at =
          subst (λ o. Consistent g c signer o hash)
            (sym (
              ap (λ v. v.op) signed_at
              ∙ ap {A = Filling Net} (λ v. record v.op { signature = sig }) funded_at))
            (consistent g doc node c signer run.with_code.op d sig hash packed
              (gas_kept s.op run.with_code.op (kept_to_code run) gas) l ps
              (ap {A = Filling Net} (λ v. pack_user_operation g (some v.op)) (sym funded_at) ∙ e₁)
              e₂ e₃)
