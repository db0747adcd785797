-- ===== src/Bundler/Methods.antt =====
-- The client's methods that call the bundler, but for WaitForUserOperation.
pub mod Sent
pub mod Estimates
use aa_sdk_go.Prelude.{Option, none, some, map_option, List, [], ◌∷◌}
use aa_sdk_go.Prelude.Int.{ℤ}
use aa_sdk_go.Prelude.Outcome.{Result, ok, err, message, wrapping}
use aa_sdk_go.Prelude.State.{Action, ◌>>=◌, pure, lift, read, wrapped}
use aa_sdk_go.Bytes.{Bytes, Address, Hash}
use aa_sdk_go.Hex.{Text}
use aa_sdk_go.Ethereum.{Ethereum}
use aa_sdk_go.Quantity.{hex_to_big_int}
use aa_sdk_go.UserOperation.{UserOperation}
use aa_sdk_go.UserOperation.Body.{to_body}
use aa_sdk_go.Client.{Client, Node}
use aa_sdk_go.Client.Fill.{Filling, fill_and_sign}
use aa_sdk_go.Bundler.{Http, Calling, Param, Response, call, answered}

-- The gas estimates as they are sent.
pub record SentEstimates : Type 0 where
  pub pre_verification_gas : Option Text
  pub verification_gas_limit : Option Text
  pub call_gas_limit : Option Text
  pub verification_gas : Option Text
  pub max_fee_per_gas : Option Text
  pub max_priority_fee_per_gas : Option Text

pub record GasEstimates : Type 0 where
  pub pre_verification_gas : Option ℤ
  pub verification_gas_limit : Option ℤ
  pub call_gas_limit : Option ℤ
  pub verification_gas : Option ℤ
  pub max_fee_per_gas : Option ℤ
  pub max_priority_fee_per_gas : Option ℤ

-- json.Unmarshal into a jsonRpcResponse of each of the four types.
pub record Json (Receipt : Type 0) : Type 0 where
  pub receipt : Bytes → Result (Response (Option Receipt))
  pub estimates : Bytes → Result (Response (Option SentEstimates))
  pub entry_points : Bytes → Result (Response (List Address))
  pub hash : Bytes → Result (Response Hash)

-- The caller's operation, the counter and the network.
pub record Sending (Net : Type 0) : Type 0 where
  pub op : UserOperation
  pub calling : Calling Net

module _ {Net : Type 0} where
  abbrev pub filling : {A : Type 0} → Action (Filling Net) A → Action (Sending Net) A
  filling m s =
      let r = m (record { op = s.op; net = s.calling.net }) in
      (r.0, record { op = r.1.op; calling = record s.calling { net = r.1.net } })

  abbrev pub calling : {A : Type 0} → Action (Calling Net) A → Action (Sending Net) A
  calling m s = ((m s.calling).0, record s { calling = (m s.calling).1 })

module _ {Key Abi Rotator Req Res Receipt Net : Type 0} (g : Ethereum Key Abi) (node : Node Net)
    (http : Http Req Res Net) (json : Json Receipt) (c : Client Key Abi Rotator) where
  unfoldable pub get_user_op_receipt : Hash → Action (Calling Net) (Option Receipt)
  get_user_op_receipt hash = do
    bytes ←
        wrapped "error calling eth_getUserOperationReceipt"
          (call http c.config.bundler_url "eth_getUserOperationReceipt" (Param.hash hash ∷ []))
    response ← lift (wrapping "error unmarshalling user op receipt" (json.receipt bytes))
    lift (answered response)

  -- `if x != nil { result.X = HexToBigInt(*x) }`, for each field
  unfoldable pub estimates_of : SentEstimates → GasEstimates
  estimates_of e = record {
    pre_verification_gas = map_option (hex_to_big_int g) e.pre_verification_gas;
    verification_gas_limit = map_option (hex_to_big_int g) e.verification_gas_limit;
    call_gas_limit = map_option (hex_to_big_int g) e.call_gas_limit;
    verification_gas = map_option (hex_to_big_int g) e.verification_gas;
    max_fee_per_gas = map_option (hex_to_big_int g) e.max_fee_per_gas;
    max_priority_fee_per_gas = map_option (hex_to_big_int g) e.max_priority_fee_per_gas;
  }

  -- `if response.Result == nil { … }`
  unfoldable pub estimated : Option SentEstimates → Result GasEstimates
  estimated none = err (message "no gas estimates response")
  estimated (some e) = ok (estimates_of e)

  unfoldable pub estimate_user_op_gas : UserOperation → Action (Calling Net) GasEstimates
  unfolding estimated
  estimate_user_op_gas op = do
    bytes ← wrapped "error calling eth_estimateUserOperationGas" (
        call http c.config.bundler_url "eth_estimateUserOperationGas"
          (Param.body (to_body g op) ∷ Param.address c.config.entrypoint ∷ []))
    response ← lift (wrapping "error unmarshalling user gas estimates" (json.estimates bytes))
    result ← lift (answered response)
    lift (estimated result)

  unfoldable supported_entry_points : Action (Calling Net) (List Address)
  supported_entry_points = do
    bytes ←
        wrapped "error calling eth_supportedEntryPoints"
          (call http c.config.bundler_url "eth_supportedEntryPoints" [])
    response ← lift (wrapping "error unmarshalling entry points" (json.entry_points bytes))
    lift (answered response)

  unfoldable pub send_user_op : Option Key → Action (Sending Net) Hash
  send_user_op signer = do
    hash ← wrapped "error fill and sign userop" (filling (fill_and_sign g node c signer))
    signed ← read (λ s. s.op)
    bytes ← wrapped "error calling eth_sendUserOperation" (
        calling (
          call http c.config.bundler_url "eth_sendUserOperation"
            (Param.body (to_body g signed) ∷ Param.address c.config.entrypoint ∷ [])))
    response ← lift (wrapping "error unmarshalling when sending user operation" (json.hash bytes))
    lift (answered response)

  -- The method GetUserOpHash of Client.
  unfoldable client_user_op_hash : Option Key → Action (Sending Net) Hash
  client_user_op_hash signer =
      wrapped "error fill and sign userop" (filling (fill_and_sign g node c signer))
