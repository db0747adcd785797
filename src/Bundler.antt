-- ===== src/Bundler.antt =====
-- The JSON-RPC calls of bundler.go. HTTP and JSON are parameters: net/http sends the request, and
-- encoding/json writes requests and reads responses.
pub mod Methods
pub mod Wait
pub mod Log
pub mod Ids
use aa_sdk_go.Prelude.{
  ℕ, ◌+◌, ◌%◌, ◌^◌, ◌++◌, Option, none, some, List, [], ◌∷◌, String, Bool, true, false,
}
use aa_sdk_go.Prelude.Int.{ℤ}
use aa_sdk_go.Prelude.Outcome.{Result, ok, err, panic, from_text, wrapping}
use aa_sdk_go.Prelude.State.{Action, ◌>>=◌, pure, lift, wrapped}
use aa_sdk_go.Bytes.{Bytes, Address, Hash}
use aa_sdk_go.Hex.{Text}
use aa_sdk_go.UserOperation.Body.{Body}
use aa_sdk_go.Client.Account.{salt_text}

-- What a call passes on; `params` that are nil are sent as an empty list.
pub data Param : Type 0 where
  hash : Hash → Param
  address : Address → Param
  body : Body → Param

-- The map that `call` marshals.
pub record Request : Type 0 where
  pub jsonrpc : String
  pub id : ℕ
  pub method : String
  pub params : List Param

abbrev pub jsonrpc_version : String
jsonrpc_version = "2.0"

-- json.Marshal of a request, http.NewRequest, Header.Add, Client.Do, io.ReadAll and Body.Close.
pub record Http (Req Res Net : Type 0) : Type 0 where
  pub marshal : Request → Result Bytes
  pub new_request : String → String → Bytes → Result Req
  pub add_header : String → String → Req → Req
  pub send : Req → Action Net Res
  pub read_all : Res → Action Net Bytes
  pub close : Res → Net → Net

-- The client's atomic counter of requests, and the network.
pub record Calling (Net : Type 0) : Type 0 where
  pub id : ℕ
  pub net : Net

abbrev pub u64 : ℕ → ℕ
u64 n = n % 2 ^ 64

module _ {Req Res Net : Type 0} (http : Http Req Res Net) where
  abbrev pub on_http : {A : Type 0} → Action Net A → Action (Calling Net) A
  on_http request s = ((request s.net).0, record s { net = (request s.net).1 })

  -- c.id.Add(1)
  abbrev next_id : Action (Calling Net) ℕ
  next_id s = (ok (u64 (s.id + 1)), record s { id = u64 (s.id + 1) })

  -- `io.ReadAll(res.Body)`, with the deferred Close after it.
  abbrev pub read_and_close : Res → Action Net Bytes
  read_and_close res n = ((http.read_all res n).0, http.close res (http.read_all res n).1)

  unfoldable pub call : String → String → List Param → Action (Calling Net) Bytes
  call url method params = do
    id ← next_id
    payload ← lift (
        wrapping "error marshalling payload" (
          http.marshal
            (record { jsonrpc = jsonrpc_version; id = id; method = method; params = params })))
    req ← lift (wrapping "error creating request" (http.new_request "POST" url payload))
    res ←
        wrapped "error making request"
          (on_http (http.send (http.add_header "Content-Type" "application/json" req)))
    wrapped "error reading response body" (on_http (read_and_close res))

-- errorResponse; a code is an int.
pub record ErrorResponse : Type 0 where
  pub code : Option ℤ
  pub message : Option Text

-- jsonRpcResponse[T]
pub record Response (A : Type 0) : Type 0 where
  pub json_rpc : Option Text
  pub id : Option ℤ
  pub result : A
  pub error : Option ErrorResponse

-- `if e.Code != nil { result += fmt.Sprintf("code: %d", *e.Code) }`
abbrev code_text : Option ℤ → Text
code_text none = []
code_text (some code) = b'c' ∷ b'o' ∷ b'd' ∷ b'e' ∷ b':' ∷ 0x20 ∷ salt_text (some code)

-- `if result != "" { result += ", " }`
abbrev with_comma : Text → Text
with_comma [] = []
with_comma (c ∷ result) = (c ∷ result) ++ (b',' ∷ 0x20 ∷ [])

-- `if e.Message != nil { … }` behind the code
abbrev message_text : Text → Option Text → Text
message_text result none = result
message_text result (some text) =
    with_comma result ++ (b'm' ∷ b'e' ∷ b's' ∷ b's' ∷ b'a' ∷ b'g' ∷ b'e' ∷ b':' ∷ 0x20 ∷ text)

-- errorResponse.String
unfoldable pub error_string : ErrorResponse → Text
error_string e = message_text (code_text e.code) e.message

-- errorResponse.UnmarshalJSON, over json.Unmarshal into a string and into the struct Alias.
unfoldable unmarshal_error :
    (Bytes → Result Text) → (Bytes → Result ErrorResponse) → Bytes → Result ErrorResponse
unmarshal_error as_string as_alias b = read (as_string b)
  where
    read : Result Text → Result ErrorResponse
    read (ok (c ∷ s)) = ok (record { code = none; message = some (c ∷ s) })
    read (ok []) = as_alias b
    read (err e) = as_alias b
    read (panic p) = panic p

-- `if response.Error != nil { … }`, and the result.
unfoldable pub answered : {A : Type 0} → Response A → Result A
answered {A = A} response = unless_error response.error
  where
    unless_error : Option ErrorResponse → Result A
    unless_error none = ok response.result
    unless_error (some e) = err (from_text "error from bundler: " (error_string e))
