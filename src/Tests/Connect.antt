-- ===== src/Tests/Connect.antt =====
-- NewClient on a small network, and HandleOps of its client.
use aa_sdk_go.Prelude.{ℕ, suc, ◌≡◌, refl, some, List, [], ◌∷◌, replicate, Option}
use aa_sdk_go.Prelude.Int.{ℤ, pos}
use aa_sdk_go.Prelude.Outcome.{Result, ok, err, message}
use aa_sdk_go.Bytes.{Hash, Address}
use aa_sdk_go.Hashing.{hashed_user_op, hash_loop}
use aa_sdk_go.Rotator.{RoundRobin, next, count}
use aa_sdk_go.Bindings.{Contract, Convert, Value, big, address, packed_ops}
use aa_sdk_go.Bindings.Bind.{Metadata, Binding, bind, new_binding}
use aa_sdk_go.Client.Fill.{owner_of}
use aa_sdk_go.Client.Transact.{Signers, Executing, handle_ops, executor_signers}
use aa_sdk_go.Client.Connect.{Ethclient, Options, Connected, new_client, node_of, sender_of}
use aa_sdk_go.Client.Connect.Made.{Connects, new_client-Connects}
use aa_sdk_go.Client.Connect.Through.{handle_ops-through}
use aa_sdk_go.Client.Connect.Deploys.{deploy_account-through}
use aa_sdk_go.Client.Transact.{deploy_account}
use aa_sdk_go.Client.Connect.Asks.{fill_nonce-through}
use aa_sdk_go.Client.Fill.{Filling, fill_nonce}
use aa_sdk_go.UserOperation.{new_user_op_with_default}
use aa_sdk_go.Bindings.{out_at}
use aa_sdk_go.Tests.Sample.{sample}
use aa_sdk_go.Tests.Transact.{client, start, ops}

-- The network counts what it is asked.
abbrev contract : Contract (Unit {0}) (Unit {0}) (Unit {0}) (Unit {0}) ℕ ℕ
contract = record {
  call = λ opts method args n. (ok (big (some (pos n)) ∷ []), suc n);
  transact = λ opts method args n. (ok n, suc n);
  raw_transact = λ opts n. (ok n, suc n);
  transfer = λ opts n. (ok n, suc n);
  filter_logs = λ opts name rules n. (ok tt, suc n);
  watch_logs = λ opts name rules n. (ok tt, suc n);
}

abbrev metadata : Metadata (Unit {0}) (Unit {0}) (Unit {0}) (Unit {0}) ℕ ℕ (Unit {0}) ℕ
metadata = record { get_abi = ok tt; new_bound_contract = λ place abi c t f. contract }

abbrev ethclient : Ethclient ℕ ℕ ℕ ℕ
ethclient = record {
  dial = λ url n. (ok 9, suc n);
  chain_id = λ eth n. (ok (some (pos 1)), suc n);
  code_at = λ eth a n. (ok [], suc n);
  balance_at = λ eth a n. (ok (some (pos n)), suc n);
  wait_mined = λ eth tx n. (ok tx, suc n);
}

abbrev options : Options ℕ (Unit {0}) (Unit {0}) ℕ
options = record {
  call_opts = tt;
  new_transactor = λ key chain_id. ok tt;
  with_value = λ amount opts. opts;
  tx_hash = λ tx. replicate 32 tx;
}

to_another : {A : Type 0} → Value → Result A
to_another v = err (message "another type")

to_a_big : Value → Result (Option ℤ)
to_a_big (big x) = ok x
to_a_big _ = err (message "another type")

abbrev convert : Convert
convert = record {
  to_big = to_a_big;
  to_bool = to_another;
  to_uint32 = to_another;
  to_address = to_another;
  to_bytes = to_another;
  to_bytes32 = to_another;
  to_bytes4 = to_another;
  to_text = to_another;
  to_deposit_info = to_another;
}

abbrev bound : Binding (Unit {0}) (Unit {0}) (Unit {0}) (Unit {0}) ℕ ℕ
bound = record { caller = contract; transactor = contract; filterer = contract }

abbrev connected :
    Connected ℕ
      (Unit {0})
      (Signers ℕ (RoundRobin ℕ))
      (Unit {0})
      ℕ
      (Unit {0})
      (Unit {0})
      (Unit {0})
      (Unit {0})
      ℕ
      ℕ
connected = record {
  id = 0;
  client = client;
  eth = 9;
  simple_factory = bound;
  entrypoint = bound;
  lru_cache = tt;
}

made : new_client ethclient metadata metadata metadata client.config tt 3 ≡ (ok connected, 5)
unfolding new_client new_binding bind
made = refl

new_client-Connects_example :
    Connects ethclient metadata metadata metadata client.config tt 3 5 connected
new_client-Connects_example =
    new_client-Connects ethclient metadata metadata metadata client.config tt 3 5 made

unwrapped : Result (List Hash × Hash) → List Hash
unwrapped (ok answer) = answer.0
unwrapped _ = []

abbrev answer : Result (List Hash × Hash) × Executing (RoundRobin ℕ) ℕ
answer =
    handle_ops sample (node_of ethclient convert options connected)
      (sender_of ethclient convert options connected) client ops start

answered :
    handle_ops sample
      (node_of ethclient convert options connected)
      (sender_of ethclient convert options connected)
      client
      ops
      start
    ≡ (ok (unwrapped answer.0, replicate 32 3), answer.1)
unfolding handle_ops executor_signers unwrapped hashed_user_op hash_loop owner_of next count
answered = refl

handle_ops-through_example :
    (abi : Unit {0}) × (signer : Option ℕ) × (opts : Unit {0}) × (beneficiary : Address) × (tx : ℕ)
    × (metadata.get_abi ≡ ok abi)
    × (options.new_transactor signer client.chain_id ≡ ok opts)
    × (owner_of sample (node_of ethclient convert options connected) client signer ≡ ok beneficiary)
    × (contract.transact opts "handleOps" (packed_ops ops ∷ address beneficiary ∷ []) 3
        ≡ (ok tx, answer.1.net))
    × (replicate 32 3 ≡ options.tx_hash tx)
handle_ops-through_example =
    handle_ops-through sample ethclient metadata metadata metadata convert options client.config tt
      3 5 connected ops start answer.1 (unwrapped answer.0) (replicate 32 3) made answered

abbrev unfilled : Filling ℕ
unfilled = record {
  op = new_user_op_with_default (replicate 20 17) (1 ∷ 2 ∷ []) (some (pos 4));
  net = 6;
}

abbrev filled : Filling ℕ
filled = record { op = record unfilled.op { nonce = some (pos 6) }; net = 7 }

found :
    fill_nonce sample (node_of ethclient convert options connected) client unfilled
    ≡ (ok tt, filled)
unfolding fill_nonce new_user_op_with_default to_a_big
found = refl

fill_nonce-through_example :
    (abi : Unit {0}) × (out : List Value) × (nonce : Option ℤ) × (metadata.get_abi ≡ ok abi)
    × (contract.call tt "getNonce" (address unfilled.op.sender ∷ big unfilled.op.salt ∷ []) 6
        ≡ (ok out, 7))
    × (out_at convert.to_big out 0 ≡ ok nonce)
    × (filled.op ≡ record unfilled.op { nonce = nonce })
unfolding new_user_op_with_default
fill_nonce-through_example =
    fill_nonce-through sample ethclient metadata metadata metadata convert options client.config tt
      3 5 connected unfilled filled made refl found

deployed :
    deploy_account sample
      (node_of ethclient convert options connected)
      (sender_of ethclient convert options connected)
      client
      (some 5)
      (replicate 20 17)
      (some (pos 4))
      6
    ≡ (ok 6, 8)
unfolding deploy_account
deployed = refl

deploy_account-through_example :
    (abi : Unit {0}) × (opts : Unit {0}) × (tx : ℕ) × (sent : ℕ) × (metadata.get_abi ≡ ok abi)
    × (options.new_transactor (some 5) client.chain_id ≡ ok opts)
    × (contract.transact opts "createAccount"
          (address (replicate 20 17) ∷ big (some (pos 4)) ∷ [])
          6
        ≡ (ok tx, sent))
    × (ethclient.wait_mined 9 tx sent ≡ (ok 6, 8))
deploy_account-through_example =
    deploy_account-through sample ethclient metadata metadata metadata convert options client.config
      tt 3 5 connected (some 5) (replicate 20 17) (some (pos 4)) 6 8 6 made deployed
