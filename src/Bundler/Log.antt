-- ===== src/Bundler/Log.antt =====
-- A log of the requests that net/http is given, and what a call of the bundler adds to it.
use aa_sdk_go.Prelude.{ℕ, ◌+◌, ◌≡◌, ◌⊎◌, inl, inr, refl, List, [], ◌∷◌, ◌++◌, String}
use aa_sdk_go.Prelude.Outcome.{Result, ok, err, panic}
use aa_sdk_go.Prelude.State.{Action, wrapped, Keeps-after}
use aa_sdk_go.Bytes.{Bytes}
use aa_sdk_go.Bundler.{
  Http, Calling, Request, Param, u64, on_http, read_and_close, call, jsonrpc_version,
}

-- A network with the requests that net/http has sent over it, in their order.
pub record Logged (Req Net : Type 0) : Type 0 where
  pub requests : List Req
  pub net : Net

abbrev on_net : {Req Net A : Type 0} → Action Net A → Action (Logged Req Net) A
on_net m n = ((m n.net).0, record n { net = (m n.net).1 })

module _ {Req Res Net : Type 0} where
  -- The same HTTP, with a log of what `Client.Do` is given.
  abbrev pub logging : Http Req Res Net → Http Req Res (Logged Req Net)
  logging http = record {
    marshal = http.marshal;
    new_request = http.new_request;
    add_header = http.add_header;
    send = λ req n. (
      (http.send req n.net).0,
      record { requests = n.requests ++ (req ∷ []); net = (http.send req n.net).1 },
    );
    read_all = λ res. on_net (http.read_all res);
    close = λ res n. record n { net = http.close res n.net };
  }

-- Several requests, one after the other, whatever each answers: what a user of the client's methods
-- does.
unfoldable pub call_many :
    {Req Res Net : Type 0}
    → Http Req Res Net
    → String
    → List (String × List Param)
    → Calling Net
    → Calling Net
call_many http url [] s = s
call_many http url ((method, params) ∷ calls) s =
    call_many http url calls (call http url method params s).1

abbrev pub request : ℕ → String → List Param → Request
request id method params = record {
  jsonrpc = jsonrpc_version;
  id = id;
  method = method;
  params = params;
}

module _ {Req Res Net : Type 0} (http : Http Req Res Net) (url : String) where
  -- A request that posts a JSON-RPC call with this id to the bundler.
  pub record Carries (req : Req) (id : ℕ) : Type 0 where
    pub method : String
    pub params : List Param
    pub payload : Bytes
    pub plain : Req
    pub marshalled : http.marshal (request id method params) ≡ ok payload
    pub created : http.new_request "POST" url payload ≡ ok plain
    pub with_header : req ≡ http.add_header "Content-Type" "application/json" plain

  -- A call takes the next id, and sends at most one request, which carries it.
  abbrev Adds : ℕ → Calling (Logged Req Net) → Calling (Logged Req Net) → Type 0
  Adds id s t =
      (t.id ≡ id)
      × ((t.net.requests ≡ s.net.requests)
          ⊎ ((req : Req) × Carries req id × (t.net.requests ≡ s.net.requests ++ (req ∷ []))))

  pub call-Adds :
      (method : String) (params : List Param) (s : Calling (Logged Req Net))
      → Adds (u64 (s.id + 1)) s (call (logging http) url method params s).1
  unfolding call
  call-Adds method params s =
      by_marshalled (http.marshal (request (u64 (s.id + 1)) method params)) refl
    where
      -- What stays so once the request is sent.
      IsSent : Req → Calling (Logged Req Net) → Type 0
      IsSent req t = (t.id ≡ u64 (s.id + 1)) × (t.net.requests ≡ s.net.requests ++ (req ∷ []))

      by_created :
          (payload : Bytes)
          → http.marshal (request (u64 (s.id + 1)) method params) ≡ ok payload
          → (r : Result Req) → http.new_request "POST" url payload ≡ r
          → Adds (u64 (s.id + 1)) s (call (logging http) url method params s).1
      by_created payload m (err e) c = rw (m, c) (refl, inl refl)
      by_created payload m (panic p) c = rw (m, c) (refl, inl refl)
      by_created payload m (ok plain) c =
          let req = http.add_header "Content-Type" "application/json" plain in
          let (id, requests) =
            Keeps-after (IsSent req)
              (wrapped "error making request" (on_http (logging http) ((logging http).send req))
                (record { id = u64 (s.id + 1); net = s.net }))
              (λ res.
                wrapped "error reading response body"
                  (on_http (logging http) (read_and_close (logging http) res)))
              (refl, refl) (λ res t h. h) in
          rw (m, c)
            (
              id,
              inr (
                req,
                record {
                  method = method;
                  params = params;
                  payload = payload;
                  plain = plain;
                  marshalled = m;
                  created = c;
                  with_header = refl;
                },
                requests,
              ),
            )

      by_marshalled :
          (r : Result Bytes)
          → http.marshal (request (u64 (s.id + 1)) method params) ≡ r
          → Adds (u64 (s.id + 1)) s (call (logging http) url method params s).1
      by_marshalled (err e) m = rw m (refl, inl refl)
      by_marshalled (panic p) m = rw m (refl, inl refl)
      by_marshalled (ok payload) m = by_created payload m (http.new_request "POST" url payload) refl
