-- ===== src/Handlers/Sleep.antt =====
-- src/sleep_handler.cc. To sleep for a second changes nothing.
use dinner_is_servered.Prelude.{[], text}
use dinner_is_servered.Logging.{info}
use dinner_is_servered.Runtime.{M, pure, ◌>>◌, log}
use dinner_is_servered.Dispatch.Request.{Request}
use dinner_is_servered.Http.{Http, ok}
use dinner_is_servered.Handlers.{prepared}

unfoldable pub handle_request : (http : Http) → Request → M http.Response
handle_request http req = do
  let response = prepared http ok (text "text/plain") []
  log info (text "Going to sleep")
  log info (text "Now awake")
  pure response
