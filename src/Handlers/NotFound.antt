-- ===== src/Handlers/NotFound.antt =====
-- src/not_found_handler.cc
use dinner_is_servered.Prelude.{Bytes, text}
use dinner_is_servered.Runtime.{M, pure}
use dinner_is_servered.Dispatch.Request.{Request}
use dinner_is_servered.Http.{Http, not_found}
use dinner_is_servered.Handlers.{prepared}

abbrev pub not_found_body : Bytes
not_found_body = text "404 Not Found\r\n\r\n"

unfoldable pub handle_request : (http : Http) → Request → M http.Response
handle_request http req = pure (prepared http not_found (text "text/plain") not_found_body)
