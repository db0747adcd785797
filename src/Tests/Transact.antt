-- ===== src/Tests/Transact.antt =====
-- HandleOps with two executor signers and an entrypoint that takes every transaction.
use aa_sdk_go.Prelude.{ℕ, suc, ◌≡◌, refl, some, List, [], ◌∷◌, replicate, ◌==◌, if◌then◌else◌}
use aa_sdk_go.Prelude.Int.{pos}
use aa_sdk_go.Prelude.Outcome.{Result, ok}
use aa_sdk_go.Bytes.{Hash}
use aa_sdk_go.UserOperation.{PackedUserOperation}
use aa_sdk_go.Hashing.{hashed_user_op, hash_loop}
use aa_sdk_go.Rotator.{RoundRobin, next, count}
use aa_sdk_go.Client.{Client}
use aa_sdk_go.Client.Fill.{owner_of}
use aa_sdk_go.Client.Transact.{
  Signers, Sender, Executing, round_robin, handle_ops, executor_signers,
}
use aa_sdk_go.Client.Transact.Laws.{Handled, handle_ops-Handled}
use aa_sdk_go.Client.Transact.Kept.{handle_ops-signers}
use aa_sdk_go.Tests.Sample.{sample, node, packed}

-- A transaction is the number that the network counts, and so is its receipt.
abbrev accepting : Sender ℕ (Unit {0}) ℕ ℕ ℕ
accepting = record {
  new_transactor = λ key chain_id. ok tt;
  with_value = λ amount opts. opts;
  handle_ops = λ opts ops beneficiary n. (ok n, suc n);
  handle_atomic_ops = λ opts ops beneficiary n. (ok n, suc n);
  deposit_to = λ opts to n. (ok n, suc n);
  create_account = λ opts owner salt n. (ok n, suc n);
  tx_hash = λ tx. replicate 32 tx;
  wait_mined = λ tx n. (ok tx, n);
}

abbrev pub client : Client ℕ (Unit {0}) (Signers ℕ (RoundRobin ℕ))
client = record {
  config = record {
    node_url = "node";
    bundler_url = "bundler";
    wait_receipt_interval = pos 1000000000;
    entrypoint = replicate 20 9;
    account_factory = replicate 20 8;
    paymaster_address = replicate 20 3;
    verifying_signer = some 6;
    executor_signers = some round_robin;
  };
  chain_id = some (pos 1);
  simple_account_abi = tt;
  simple_factory_abi = tt;
}

abbrev pub start : Executing (RoundRobin ℕ) ℕ
start = record { signers = record { signers = some 5 ∷ some 7 ∷ []; index = 1 }; net = 3 }

abbrev end : Executing (RoundRobin ℕ) ℕ
end = record { signers = record { signers = some 5 ∷ some 7 ∷ []; index = 0 }; net = 4 }

abbrev pub ops : List PackedUserOperation
ops = packed [] ∷ packed (7 ∷ []) ∷ []

unwrapped : Result (List Hash × Hash) → List Hash
unwrapped (ok answer) = answer.0
unwrapped _ = []

abbrev op_hashes : List Hash
op_hashes = unwrapped (handle_ops sample node accepting client ops start).0

handled : handle_ops sample node accepting client ops start ≡ (ok (op_hashes, replicate 32 3), end)
unfolding handle_ops executor_signers unwrapped hashed_user_op hash_loop owner_of next count
handled = refl

handle_ops-Handled_example :
    Handled sample node accepting client accepting.handle_ops ops start end op_hashes
      (replicate 32 3)
handle_ops-Handled_example =
    handle_ops-Handled sample node accepting client ops start end op_hashes (replicate 32 3) handled

handle_ops-signers_example :
    (handle_ops sample node accepting client ops start).1.signers
    ≡ (if count start.signers == 0 then start.signers else (next start.signers).1)
handle_ops-signers_example =
    handle_ops-signers sample node accepting client round_robin ops start refl
