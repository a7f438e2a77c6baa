-- ===== src/Dispatch/Send.antt =====
-- dispatch_request: the handler of the request's type is called, and the response is logged.
pub mod Handled
pub mod Unmatched
use dinner_is_servered.Prelude.{
  ℕ, Bool, true, false, ◌||◌, List, [], ◌∷◌, ◌++◌, Option, none, some, Bytes, text, if◌then◌else◌,
}
use dinner_is_servered.Logging.{info, error, is_empty}
use dinner_is_servered.Runtime.{M, ◌>>=◌, ◌>>◌, pure, crash, log}
use dinner_is_servered.Dispatch.Request.{Request, RequestType, Verb, unknown, request_type_tostr}
use dinner_is_servered.Dispatch.Routes.{get_request_type}
use dinner_is_servered.Http.{Http, bad_request}
use dinner_is_servered.Registry.{RequestHandlerFactory, HandlersMap, get_request_handler}

-- What the two calls of `remote_endpoint` on the socket give: the address in each, and whether the
-- first fails.
pub record Socket : Type 0 where
  pub address : Bytes
  pub failed : Bool
  pub later_address : Bytes

unfoldable pub log_failed : Bool → M (Unit {0})
log_failed false = pure tt
log_failed true = log error (text "handle_read: Transport endpoint is not connected")

unfoldable pub is_unknown : Verb → Bool
is_unknown unknown = true
is_unknown _ = false

module _ (http : Http) where
  -- `rh->handle_request(request)`
  unfoldable pub call_handler : Option (RequestHandlerFactory http) → Request → M http.Response
  call_handler none request = crash
  call_handler (some handler) request = handler request

  -- The flag is whether the target is empty or the method unknown.
  unfoldable pub answer_request : Bool → HandlersMap http → RequestType → Request → M http.Response
  answer_request true handlers request_type request = do
    log error (text "Empty request or unknown method")
    pure (http.prepare_payload (http.response bad_request 11 []))
  answer_request false handlers request_type request =
      call_handler (get_request_handler http request_type handlers) request

  unfoldable pub metrics : Socket → Request → RequestType → http.Response → Bytes
  metrics socket request request_type response =
      text "[ResponseMetrics]\tRequest IP: "
      ++ (socket.later_address
          ++ (text "\tRequest Target: "
              ++ (request.target
                  ++ (text "\tResponse Code: "
                      ++ (http.result_int response
                          ++ (text "\tResponse Message: "
                              ++ (http.reason response
                                  ++ (text "\tResponse Handler: "
                                      ++ request_type_tostr request_type))))))))

  unfoldable pub dispatch_request : HandlersMap http → Socket → Request → M http.Response
  dispatch_request handlers socket request = do
    request_type ← get_request_type request
    log info (text "Request from " ++ (socket.address ++ (text " for target " ++ request.target)))
    log_failed socket.failed
    response ←
        answer_request (is_empty request.target || is_unknown request.method) handlers request_type
          request
    log info (metrics socket request request_type response)
    pure response
