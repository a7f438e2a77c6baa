-- ===== src/Handlers/Health.antt =====
-- src/health_handler.cc
use dinner_is_servered.Prelude.{[], text}
use dinner_is_servered.Runtime.{M, pure}
use dinner_is_servered.Dispatch.Request.{Request}
use dinner_is_servered.Http.{Http, ok}
use dinner_is_servered.Handlers.{prepared}

unfoldable pub handle_request : (http : Http) → Request → M http.Response
handle_request http req = pure (prepared http ok (text "text/plain") [])
