-- ===== src/Client/Fill/Run.antt =====
-- The stages of a FillAndSign that succeeds.
use aa_sdk_go.Prelude.{◌≡◌, ◌≢◌, Option, Bool-cases, inl, inr}
use aa_sdk_go.Prelude.Outcome.{ok}
use aa_sdk_go.Prelude.State.{>>=-eq-ok}
use aa_sdk_go.Bytes.{Hash, zero_address, eq_bytes}
use aa_sdk_go.Bytes.Padding.{eq_bytes_iff}
use aa_sdk_go.Ethereum.{Ethereum}
use aa_sdk_go.Client.{Client, Node}
use aa_sdk_go.Client.Fill.{
  Filling, fill_nonce, fill_init_code, fill_paymaster, fill_signature, fill_and_sign,
}

-- The stages of a successful run, and the states between them.
pub record Run {Key Abi Rotator Net : Type 0} (g : Ethereum Key Abi) (node : Node Net)
    (c : Client Key Abi Rotator) (signer : Option Key) (s t : Filling Net) (hash : Hash)
    : Type 0 where
  pub with_nonce : Filling Net
  pub with_code : Filling Net
  pub with_paymaster : Filling Net
  pub not_empty : s.op.sender ≢ zero_address
  pub nonce_stage : fill_nonce g node c s ≡ (ok tt, with_nonce)
  pub code_stage : fill_init_code g node c signer with_nonce ≡ (ok tt, with_code)
  pub paymaster_stage : fill_paymaster g node c with_code ≡ (ok tt, with_paymaster)
  pub signature_stage : fill_signature g node c signer with_paymaster ≡ (ok hash, t)

module _ {Key Abi Rotator Net : Type 0} (g : Ethereum Key Abi) (node : Node Net)
    (c : Client Key Abi Rotator) where
  pub fill_and_sign-Run :
      (signer : Option Key) (s t : Filling Net) (hash : Hash)
      → fill_and_sign g node c signer s ≡ (ok hash, t)
      → Run g node c signer s t hash
  unfolding fill_and_sign
  fill_and_sign-Run signer s t hash e = elim (Bool-cases (eq_bytes s.op.sender zero_address)) [
    | inl empty ↦ cc (rw empty at e)
    | inr full ↦
        let (_, s₁, e₁, r₁) = >>=-eq-ok (fill_nonce g node c) _ (rw full at e) in
        let (_, s₂, e₂, r₂) = >>=-eq-ok (fill_init_code g node c signer) _ r₁ in
        let (_, s₃, e₃, r₃) = >>=-eq-ok (fill_paymaster g node c) _ r₂ in
        record {
          with_nonce = s₁;
          with_code = s₂;
          with_paymaster = s₃;
          not_empty = λ z. cc ((eq_bytes_iff s.op.sender zero_address).1 z);
          nonce_stage = e₁;
          code_stage = e₂;
          paymaster_stage = e₃;
          signature_stage = r₃;
        }
  ]
