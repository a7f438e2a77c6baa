-- ===== src/Session.antt =====
-- src/session.cc: the reads and writes of one connection. An asynchronous operation of boost::asio is
-- what the session has pending; its end calls the handler. What async_read makes of the message that
-- it is given and of the bytes of a request is a parameter, `receive`.
use dinner_is_servered.Prelude.{Bool, true, false, List, [], ◌∷◌, ◌++◌, Bytes, text}
use dinner_is_servered.Logging.{info, error}
use dinner_is_servered.Runtime.{M, ◌>>=◌, ◌>>◌, pure, log}
use dinner_is_servered.Dispatch.Request.{Request, unknown}
use dinner_is_servered.Dispatch.Send.{Socket, dispatch_request}
use dinner_is_servered.Http.{Http}
use dinner_is_servered.Registry.{HandlersMap}

pub data Pending : Type 0 where
  nothing reading writing : Pending

-- the members of `session`, and the requests so far that were dispatched, with their responses
pub record Session (http : Http) : Type 0 where
  pub pending : Pending
  pub request : Request
  pub response : http.Response
  pub transcript : List (Request × http.Response)

-- `request_ = {}`
abbrev pub empty_request : Request
empty_request = record {
  method = unknown;
  method_string = [];
  target = [];
  version = 11;
  fields = [];
  body = [];
}

module _ (http : Http) where
  -- the constructor
  abbrev pub new_session : Session http
  new_session = record {
    pending = nothing;
    request = empty_request;
    response = http.default_response;
    transcript = [];
  }

  -- `async_read`
  unfoldable pub async_read : Session http → Session http
  async_read s = record s { pending = reading }

  -- `async_write`
  unfoldable pub async_write : http.Response → Session http → Session http
  async_write response s = record s {
    pending = writing;
    response = response;
    transcript = s.transcript ++ (s.request, response) ∷ [];
  }

  -- what has been read, in `request_`
  unfoldable pub read_into : (Request → Request → Request) → Request → Session http → Session http
  read_into receive message s = record s { request = receive s.request message }

  unfoldable pub start : Session http → Session http × Bool
  start s = (async_read s, true)

  -- The flag is the error.
  unfoldable pub handle_read :
      HandlersMap http → Bool → Socket → Session http → M (Session http × Bool)
  handle_read handlers true socket s = pure (record s { pending = nothing }, false)
  handle_read handlers false socket s = do
    response ← dispatch_request http handlers socket s.request
    pure (async_write response s, true)

  unfoldable pub log_unconnected : Bool → M (Unit {0})
  log_unconnected false = pure tt
  log_unconnected true = log error (text "handle_write: Transport endpoint is not connected")

  unfoldable pub written : Bool → Session http → Session http × Bool
  written true s = (record s { pending = nothing }, false)
  written false s = (async_read (record s { request = empty_request }), true)

  -- The first flag is the error; `address` and `ec` are what the call of `remote_endpoint` gives.
  unfoldable pub handle_write : Bool → Bytes → Bool → Session http → M (Session http × Bool)
  handle_write failed address ec s = do
    log info (text "Sending response to " ++ address)
    log_unconnected ec
    pure (written failed s)
