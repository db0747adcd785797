-- ===== src/Tests/Client.antt =====
-- A run of FillAndSign, for an account that is not deployed, on a small chain.
use aa_sdk_go.Prelude.{
  ℕ, suc, inl, inr, ◌<◌, ◌≡◌, refl, none, some, [], ◌∷◌, replicate, length-replicate, arith,
  All-replicate,
}
use aa_sdk_go.Prelude.Int.{pos}
use aa_sdk_go.Prelude.Outcome.{Result, ok}
use aa_sdk_go.Bytes.{Hash}
use aa_sdk_go.UserOperation.{new_user_op_with_default}
use aa_sdk_go.UserOperation.Body.Laws.{IsTyped, SameSent, to_body_injective}
use aa_sdk_go.Client.{Client}
use aa_sdk_go.Client.Fill.{Filling, fill_init_code, fill_and_sign}
use aa_sdk_go.Client.Fill.Total.{CanSign}
use aa_sdk_go.Client.Fill.Whole.{IsRequest, Answers, fill_and_sign-total}
use aa_sdk_go.Tests.Sample.{raw_signature}
use aa_sdk_go.Client.Fill.InitCode.{InitCode, fill_init_code-ok}
use aa_sdk_go.Client.Fill.Frame.{caller_fields, fill_and_sign-caller_fields}
use aa_sdk_go.Client.Fill.Agreement.{Consistent, PaymasterGas}
use aa_sdk_go.Client.Fill.Signed.{fill_and_sign-Consistent}
use aa_sdk_go.Digits.{value}
use aa_sdk_go.Bytes.{big_bytes, set_bytes}
use aa_sdk_go.Packing.{encode_paymaster_data, packed_for_paymaster, pack_user_operation}
use aa_sdk_go.Hashing.{get_paymaster_hash, get_user_op_hash, hashed_user_op}
use aa_sdk_go.Signing.{sign_message, sign_user_op, prefixed_message, decimal}
use aa_sdk_go.Tests.Sample.{sample, sample-IsDocumented, sample_sign, digest, node}

abbrev pub client : Client ℕ (Unit {0}) (Unit {0})
client = record {
  config = record {
    node_url = "node";
    bundler_url = "bundler";
    wait_receipt_interval = pos 1000000000;
    entrypoint = replicate 20 9;
    account_factory = replicate 20 8;
    paymaster_address = replicate 20 3;
    verifying_signer = some 6;
    executor_signers = none;
  };
  chain_id = some (pos 1);
  simple_account_abi = tt;
  simple_factory_abi = tt;
}

abbrev pub start : Filling ℕ
start = record {
  op = new_user_op_with_default (replicate 20 17) (1 ∷ 2 ∷ []) (some (pos 4));
  net = 0;
}

pub start_gas : PaymasterGas start.op
unfolding new_user_op_with_default
start_gas = record {
  verification = 300000;
  post_op = 100;
  verification_is = refl;
  post_op_is = refl;
  verification_fits = omega arith;
  post_op_fits = omega arith;
}

fill_and_sign-caller_fields_example :
    caller_fields (fill_and_sign sample node client (some 7) start).1.op ≡ caller_fields start.op
fill_and_sign-caller_fields_example = fill_and_sign-caller_fields sample node client (some 7) start

abbrev end : Filling ℕ
end = (fill_and_sign sample node client (some 7) start).1

unwrapped : Result Hash → Hash
unwrapped (ok h) = h
unwrapped _ = []

abbrev end_hash : Hash
end_hash = unwrapped (fill_and_sign sample node client (some 7) start).0

succeeded : fill_and_sign sample node client (some 7) start ≡ (ok end_hash, end)
unfolding fill_and_sign new_user_op_with_default sample_sign unwrapped encode_paymaster_data
    packed_for_paymaster get_paymaster_hash big_bytes sign_message digest value prefixed_message
    decimal set_bytes pack_user_operation sign_user_op get_user_op_hash hashed_user_op
succeeded = refl

fill_and_sign-Consistent_example : Consistent sample client (some 7) end.op end_hash
fill_and_sign-Consistent_example =
    fill_and_sign-Consistent sample sample-IsDocumented node client (some 7) start end end_hash
      (length-replicate {A = ℕ} 20 3) start_gas succeeded

abbrev with_code : Filling ℕ
with_code = (fill_init_code sample node client (some 7) start).1

code_found : fill_init_code sample node client (some 7) start ≡ (ok tt, with_code)
unfolding fill_init_code new_user_op_with_default
code_found = refl

fill_init_code-ok_example : InitCode sample node client (some 7) start with_code
fill_init_code-ok_example =
    fill_init_code-ok sample node client (some 7) start with_code (length-replicate {A = ℕ} 20 8)
      code_found

start-IsTyped : IsTyped start.op
unfolding new_user_op_with_default
start-IsTyped = record {
  sender = (length-replicate {A = ℕ} 20 17, All-replicate (λ d. d < 256) 20 (omega arith));
  call_data = (omega arith, (omega arith, tt));
  signature = tt;
  paymaster = (length-replicate {A = ℕ} 20 0, All-replicate (λ d. d < 256) 20 (omega arith));
  paymaster_data = tt;
  factory = (length-replicate {A = ℕ} 20 0, All-replicate (λ d. d < 256) 20 (omega arith));
  factory_data = tt;
}

to_body_injective_example : SameSent start.op start.op
to_body_injective_example =
    to_body_injective sample sample-IsDocumented start.op start.op start-IsTyped start-IsTyped
      (λ j. refl)

start-IsRequest : IsRequest start.op
unfolding new_user_op_with_default
start-IsRequest = record {
  sender = (length-replicate {A = ℕ} 20 17, All-replicate (λ d. d < 256) 20 (omega arith));
  nonce = inl refl;
  pre_verification_gas = (omega arith, inr refl);
  limits = record {
    first = 200000;
    second = 2000000;
    first_is = refl;
    second_is = refl;
    first_fits = omega arith;
    second_fits = omega arith;
  };
  fees = record {
    first = 1000000;
    second = 25000000000;
    first_is = refl;
    second_is = refl;
    first_fits = omega arith;
    second_fits = omega arith;
  };
  paymaster = record {
    verification = 300000;
    post_op = 100;
    verification_is = refl;
    post_op_is = refl;
    verification_fits = omega arith;
    post_op_fits = omega arith;
  };
}

sample-CanSign : (k : ℕ) → CanSign sample sample-IsDocumented k
unfolding sample_sign
sample-CanSign k h = (raw_signature h k, refl)

node-Answers : Answers node start.op.sender start.op.salt
node-Answers = record { nonce = λ n. (0, suc n, omega arith, refl); code = λ n. ([], suc n, refl) }

fill_and_sign-total_example :
    (t : Filling ℕ) × (hash : Hash) × (fill_and_sign sample node client (some 7) start
      ≡ (ok hash, t))
unfolding new_user_op_with_default
fill_and_sign-total_example =
    fill_and_sign-total sample sample-IsDocumented node client start 7 6 (1 ∷ 2 ∷ 3 ∷ 4 ∷ []) refl
      start-IsRequest node-Answers refl
      (length-replicate {A = ℕ} 20 3, All-replicate (λ d. d < 256) 20 (omega arith))
      (
        (length-replicate {A = ℕ} 20 9, All-replicate (λ d. d < 256) 20 (omega arith)),
        (omega arith, inr refl),
      )
      refl (sample-CanSign 6) (sample-CanSign 7)
