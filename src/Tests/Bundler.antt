-- ===== src/Tests/Bundler.antt =====
-- The bundler's methods, over a bundler that takes every operation and finds a receipt on the third
-- request.
use aa_sdk_go.Prelude.{
  ℕ, suc, ◌≡◌, ◌≢◌, refl, ap, Option, none, some, List, [], ◌∷◌, ◌++◌, String, replicate, length,
  get_elem?, length-replicate, ltb, if◌then◌else◌, arith,
}
use aa_sdk_go.Prelude.Outcome.{Result, ok, err, from_text}
use aa_sdk_go.Digits.{value}
use aa_sdk_go.Bytes.{Bytes, big_bytes, set_bytes}
use aa_sdk_go.UserOperation.{new_user_op_with_default}
use aa_sdk_go.Packing.{encode_paymaster_data, packed_for_paymaster, pack_user_operation}
use aa_sdk_go.Hashing.{get_paymaster_hash, get_user_op_hash, hashed_user_op}
use aa_sdk_go.Signing.{sign_message, sign_user_op, prefixed_message, decimal}
use aa_sdk_go.Client.Fill.{fill_and_sign}
use aa_sdk_go.UserOperation.Body.{to_body}
use aa_sdk_go.Bundler.{Http, Calling, Param, Response, call, answered}
use aa_sdk_go.Bundler.Log.{logging, call_many, Carries}
use aa_sdk_go.Bundler.Ids.{unsent, call_many-fresh}
use aa_sdk_go.Bundler.Methods.{Json, Sending, send_user_op, get_user_op_receipt}
use aa_sdk_go.Bundler.Methods.Sent.{Sent, send_user_op-Sent}
use aa_sdk_go.Bundler.Methods.{estimate_user_op_gas}
use aa_sdk_go.Bundler.Methods.Estimates.{
  Amounts, AreNotZero, as_quantities, as_kept, estimate_user_op_gas-as_quantities,
}
use aa_sdk_go.Bundler.Wait.{
  Event, tick, hang, done, Unanswered, no_poll, poll, Found, wait_for_user_operation,
  wait_for_user_operation-Found, wait_for_user_operation-ends, wait_for_user_operation-gives_up,
}
use aa_sdk_go.Tests.Sample.{sample, sample-IsDocumented, sample_sign, digest, node}
use aa_sdk_go.Tests.Client.{client, start, start_gas}

-- A request is its id, and so is the answer.
abbrev http : Http Bytes ℕ ℕ
http = record {
  marshal = λ r. ok (r.id ∷ []);
  new_request = λ method url payload. ok payload;
  add_header = λ key value req. req;
  send = λ req n. (ok (length req), suc n);
  read_all = λ res n. (ok (n ∷ []), n);
  close = λ res n. n;
}

abbrev response : {A : Type 0} → A → Response A
response a = record { json_rpc = none; id = none; result = a; error = none }

third : Bytes → Option ℕ
third [] = none
third (n ∷ bs) = if ltb n 3 then none else some n

-- 0xc350 and 0xabc
abbrev amounts : Amounts
amounts = record {
  pre_verification_gas = some 50000;
  verification_gas_limit = none;
  call_gas_limit = some 2748;
  verification_gas = none;
  max_fee_per_gas = none;
  max_priority_fee_per_gas = none;
}

abbrev json : Json ℕ
json = record {
  receipt = λ bs. ok (response (third bs));
  estimates = λ bs. ok (response (some (as_quantities amounts)));
  entry_points = λ bs. ok (response []);
  hash = λ bs. ok (response (replicate 32 1));
}

abbrev first : Calling ℕ
first = record { id = 0; net = 0 }

abbrev two_calls : List (String × List Param)
two_calls = ("eth_supportedEntryPoints", []) ∷ ("eth_supportedEntryPoints", []) ∷ []

two_sent :
    (call_many (logging http) "url" two_calls (unsent http "url" 0 0)).net.requests
    ≡ ((1 ∷ []) ∷ (2 ∷ []) ∷ [])
unfolding call call_many
two_sent = refl

call_many-fresh_example :
    (x y : ℕ) × (x ≢ y) × Carries http "url" (1 ∷ []) x × Carries http "url" (2 ∷ []) y
call_many-fresh_example =
    call_many-fresh http "url" two_calls 0 0 0 1 (1 ∷ []) (2 ∷ []) (omega arith) (omega arith)
      (omega arith) (ap (λ rs. get_elem? rs 0) two_sent) (ap (λ rs. get_elem? rs 1) two_sent)

abbrev sending : Sending ℕ
sending = record { op = start.op; calling = first }

abbrev sent : Sending ℕ
sent = (send_user_op sample node http json client (some 7) sending).1

sent_it : send_user_op sample node http json client (some 7) sending ≡ (ok (replicate 32 1), sent)
unfolding send_user_op call answered fill_and_sign new_user_op_with_default sample_sign
    encode_paymaster_data packed_for_paymaster get_paymaster_hash big_bytes sign_message digest
    value prefixed_message decimal set_bytes pack_user_operation sign_user_op get_user_op_hash
    hashed_user_op
sent_it = refl

send_user_op-Sent_example :
    Sent sample sample-IsDocumented node http json client (some 7) sent (replicate 32 1)
send_user_op-Sent_example =
    send_user_op-Sent sample sample-IsDocumented node http json client (some 7) sending sent
      (replicate 32 1) (length-replicate {A = ℕ} 20 3) start_gas sent_it

abbrev three_ticks : List Event
three_ticks = tick ∷ tick ∷ tick ∷ done ∷ []

abbrev last : Calling ℕ
last = record { id = 3; net = 3 }

received :
    wait_for_user_operation sample node http json (λ h. h) client (replicate 32 1) three_ticks first
    ≡ (some (ok 3), last)
unfolding wait_for_user_operation call answered third
received = refl

wait_for_user_operation-Found_example :
    Found
      (λ h. h)
      (get_user_op_receipt sample node http json client)
      (replicate 32 1)
      three_ticks
      first
      3
      last
wait_for_user_operation-Found_example =
    wait_for_user_operation-Found sample node http json (λ h. h) client (replicate 32 1) three_ticks
      first last 3 received

wait_for_user_operation-ends_example :
    (r : Result ℕ) × ((wait_for_user_operation sample node http json
        (λ h. h)
        client
        (replicate 32 1)
        ((tick ∷ []) ++ (done ∷ hang ∷ []))
        first).0
      ≡ some r)
wait_for_user_operation-ends_example =
    wait_for_user_operation-ends sample node http json (λ h. h) client (replicate 32 1) (tick ∷ [])
      (hang ∷ []) first (tt, tt)

abbrev once : Calling ℕ
once = record { id = 1; net = 1 }

one_poll :
    Unanswered
      (λ h. h)
      (get_user_op_receipt sample node http json client)
      (replicate 32 1)
      1
      first
      once
unfolding call answered third get_user_op_receipt
one_poll = poll 0 first once once unanswered (no_poll once)
  where
    unanswered :
        get_user_op_receipt sample node http json client (replicate 32 1) first ≡ (ok none, once)
    unanswered = refl

wait_for_user_operation-gives_up_example :
    (wait_for_user_operation sample node http json
        (λ h. h)
        client
        (replicate 32 1)
        (replicate 1 tick ++ (done ∷ done ∷ []))
        first
      ≡ (some (err (from_text "no receipt found for user operation " (replicate 32 1))), once))
    × ((wait_for_user_operation sample node http json
          (λ h. h)
          client
          (replicate 32 1)
          (replicate 1 tick ++ (hang ∷ done ∷ []))
          first).0
        ≡ none)
wait_for_user_operation-gives_up_example =
    wait_for_user_operation-gives_up sample node http json (λ h. h) client (replicate 32 1) 1
      (done ∷ []) first once 999999999 refl one_poll

amounts-AreNotZero : AreNotZero amounts
amounts-AreNotZero = record {
  pre_verification_gas = λ e. cc;
  verification_gas_limit = tt;
  call_gas_limit = λ e. cc;
  verification_gas = tt;
  max_fee_per_gas = tt;
  max_priority_fee_per_gas = tt;
}

asked :
    call http client.config.bundler_url "eth_estimateUserOperationGas"
      (Param.body (to_body sample start.op) ∷ Param.address client.config.entrypoint ∷ [])
      first
    ≡ (ok (1 ∷ []), record { id = 1; net = 1 })
unfolding call
asked = refl

estimate_user_op_gas-as_quantities_example :
    estimate_user_op_gas sample node http json client start.op first
    ≡ (ok (as_kept amounts), record { id = 1; net = 1 })
unfolding answered
estimate_user_op_gas-as_quantities_example =
    estimate_user_op_gas-as_quantities sample node http json client (λ s. refl) start.op first
      (record { id = 1; net = 1 }) (1 ∷ []) amounts (response (some (as_quantities amounts))) asked
      refl refl amounts-AreNotZero
