-- ===== src/Bundler/Methods/Estimates.antt =====
-- What EstimateUserOpGas makes of the numbers that the bundler answers.
use aa_sdk_go.Prelude.{
  ℕ, ◌%◌, ◌/◌, ◌≡◌, ◌≢◌, refl, ap, Option, none, some, map_option, [], ◌∷◌, length, ◌==◌,
  if◌then◌else◌,
}
use aa_sdk_go.Prelude.Int.{ℤ, pos}
use aa_sdk_go.Prelude.Outcome.{ok}
use aa_sdk_go.Bytes.{Bytes}
use aa_sdk_go.Digits.{digits}
use aa_sdk_go.Hex.{Text, text_16}
use aa_sdk_go.Ethereum.{Ethereum}
use aa_sdk_go.Quantity.{hex_to_big_int, with_0x, IgnoresError, hex_to_big_int-text_16}
use aa_sdk_go.UserOperation.{UserOperation}
use aa_sdk_go.UserOperation.Body.{to_body}
use aa_sdk_go.Client.{Client, Node}
use aa_sdk_go.Bundler.{Http, Calling, Param, Response, call, answered}
use aa_sdk_go.Bundler.Methods.{
  Json, SentEstimates, GasEstimates, estimates_of, estimated, estimate_user_op_gas,
}

-- The numbers of an estimate, as far as the bundler gives them, and none of them 0.
pub record Amounts : Type 0 where
  pub pre_verification_gas : Option ℕ
  pub verification_gas_limit : Option ℕ
  pub call_gas_limit : Option ℕ
  pub verification_gas : Option ℕ
  pub max_fee_per_gas : Option ℕ
  pub max_priority_fee_per_gas : Option ℕ

abbrev NotZero : Option ℕ → Type 0
NotZero none = Unit
NotZero (some n) = n ≢ 0

-- A quantity of JSON-RPC: "0x" and the hexadecimal digits, without leading zeros.
abbrev quantity : ℕ → Text
quantity n = with_0x (text_16 (pos n))

abbrev pub as_quantities : Amounts → SentEstimates
as_quantities a = record {
  pre_verification_gas = map_option quantity a.pre_verification_gas;
  verification_gas_limit = map_option quantity a.verification_gas_limit;
  call_gas_limit = map_option quantity a.call_gas_limit;
  verification_gas = map_option quantity a.verification_gas;
  max_fee_per_gas = map_option quantity a.max_fee_per_gas;
  max_priority_fee_per_gas = map_option quantity a.max_priority_fee_per_gas;
}

-- The number if its digits are even in number, and without its last digit otherwise.
abbrev pub kept : ℕ → ℤ
kept n = if length (digits 16 n) % 2 == 0 then pos n else pos (n / 16)

abbrev pub as_kept : Amounts → GasEstimates
as_kept a = record {
  pre_verification_gas = map_option kept a.pre_verification_gas;
  verification_gas_limit = map_option kept a.verification_gas_limit;
  call_gas_limit = map_option kept a.call_gas_limit;
  verification_gas = map_option kept a.verification_gas;
  max_fee_per_gas = map_option kept a.max_fee_per_gas;
  max_priority_fee_per_gas = map_option kept a.max_priority_fee_per_gas;
}

pub record AreNotZero (a : Amounts) : Type 0 where
  pub pre_verification_gas : NotZero a.pre_verification_gas
  pub verification_gas_limit : NotZero a.verification_gas_limit
  pub call_gas_limit : NotZero a.call_gas_limit
  pub verification_gas : NotZero a.verification_gas
  pub max_fee_per_gas : NotZero a.max_fee_per_gas
  pub max_priority_fee_per_gas : NotZero a.max_priority_fee_per_gas

module _ {Key Abi Rotator Req Res Receipt Net : Type 0} (g : Ethereum Key Abi) (node : Node Net)
    (http : Http Req Res Net) (json : Json Receipt) (c : Client Key Abi Rotator)
    (ignores : IgnoresError g) where
  read_quantity :
      (o : Option ℕ)
      → NotZero o
      → map_option (hex_to_big_int g) (map_option quantity o) ≡ map_option kept o
  read_quantity none h = refl
  read_quantity (some n) h = ap some (hex_to_big_int-text_16 g ignores n h)

  estimates_of-as_quantities :
      (a : Amounts) → AreNotZero a → estimates_of g node http json c (as_quantities a) ≡ as_kept a
  unfolding estimates_of
  estimates_of-as_quantities a h i = record {
    pre_verification_gas = read_quantity a.pre_verification_gas h.pre_verification_gas i;
    verification_gas_limit = read_quantity a.verification_gas_limit h.verification_gas_limit i;
    call_gas_limit = read_quantity a.call_gas_limit h.call_gas_limit i;
    verification_gas = read_quantity a.verification_gas h.verification_gas i;
    max_fee_per_gas = read_quantity a.max_fee_per_gas h.max_fee_per_gas i;
    max_priority_fee_per_gas =
        read_quantity a.max_priority_fee_per_gas h.max_priority_fee_per_gas i;
  }

  -- Where the bundler answers the request for an operation's gas with numbers other than 0, written as
  -- JSON-RPC writes quantities, EstimateUserOpGas returns those whose hexadecimal digits are even in
  -- number as they are, and the others without their last digit. Hex2Bytes keeps what comes before an
  -- error.
  pub estimate_user_op_gas-as_quantities :
      (op : UserOperation) (s t : Calling Net) (bytes : Bytes) (a : Amounts)
      (response : Response (Option SentEstimates))
      → call http c.config.bundler_url "eth_estimateUserOperationGas"
          (Param.body (to_body g op) ∷ Param.address c.config.entrypoint ∷ [])
          s
        ≡ (ok bytes, t)
      → json.estimates bytes ≡ ok response
      → answered response ≡ ok (some (as_quantities a))
      → AreNotZero a
      → estimate_user_op_gas g node http json c op s ≡ (ok (as_kept a), t)
  unfolding estimate_user_op_gas estimated
  estimate_user_op_gas-as_quantities op s t bytes a response called decoded no_error h =
      rw (called, decoded, no_error, estimates_of-as_quantities a h)
