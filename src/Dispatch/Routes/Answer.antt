-- ===== src/Dispatch/Routes/Answer.antt =====
-- The answer of getRequestType, against the loop over all routes.
use dinner_is_servered.Prelude.{
  suc, false, ap, ◌∙◌, List, [], ◌++◌, Option, none, some, Bytes, length, text,
}
use dinner_is_servered.Logging.{LogSeverity, info}
use dinner_is_servered.Runtime.{
  World, ServerPaths, M, Outcome, returns, undefined, ◌>>=◌, ◌>>◌, log,
}
use dinner_is_servered.Runtime.Dictionary.{keys}
use dinner_is_servered.Runtime.Files.{FileSystem}
use dinner_is_servered.Runtime.Quiet.{
  Quiet, OnlyLogs, OnlyLogs-gets, OnlyLogs-log_then, OnlyLogs-cast, OnlyLogs-bind,
  OnlyLogs-bind_undefined,
}
use dinner_is_servered.Dispatch.Request.{RequestType, Request}
use dinner_is_servered.Dispatch.Target.{squeeze, squeeze_logged, trim_logged, trim, normalize}
use dinner_is_servered.Dispatch.Longest.{Longest, nothing}
use dinner_is_servered.Dispatch.Longest.Best.{scan_routes}
use dinner_is_servered.Dispatch.Routes.{log_paths, longest_match, classify, get_request_type}
use dinner_is_servered.Dispatch.Routes.Classify.{
  OnlyLogs-log_paths, OnlyLogs-squeeze, OnlyLogs-trim, OnlyLogs-classify, outcome_of, all_routes,
  longest_match-scan_routes, decided,
}

-- The answer for a normalised target; `none` is undefined behaviour.
abbrev pub answer_from : ServerPaths → FileSystem → Bytes → Longest → RequestType
answer_from paths files result best = decided paths files result best best.type

abbrev pub answer : ServerPaths → FileSystem → Option Bytes → Outcome RequestType
answer paths files none = undefined
answer paths files (some result) =
    returns (answer_from paths files result (scan_routes result (all_routes paths) nothing))

classify_normalized :
    (paths : ServerPaths) (w : World) (result : Bytes)
    → OnlyLogs
        (classify paths result (longest_match paths result) (longest_match paths result).type)
        w
        (answer paths w.files (some result))
classify_normalized paths w result =
    OnlyLogs-cast _ w _ _
      (ap (λ b. returns (answer_from paths w.files result b))
        (longest_match-scan_routes paths result))
      (OnlyLogs-classify paths result (longest_match paths result) _ w)

-- The answer is the same from a world that differs in the log alone.
answer-Quiet :
    {m : M RequestType} (paths : ServerPaths) (w w' : World) (o : Option Bytes)
    → Quiet w w'
    → OnlyLogs m w' (answer paths w'.files o)
    → OnlyLogs m w' (answer paths w.files o)
answer-Quiet paths w w' o q h = OnlyLogs-cast _ w' _ _ (ap (λ f. answer paths f o) q.files) h

after_trim :
    (paths : ServerPaths) (m : M Bytes) (o : Option Bytes) (w : World)
    → OnlyLogs m w (outcome_of o)
    → OnlyLogs
        (m >>= λ result.
          classify paths result (longest_match paths result) (longest_match paths result).type)
        w
        (answer paths w.files o)
after_trim paths m none w h = OnlyLogs-bind_undefined m _ w h
after_trim paths m (some r) w h =
    OnlyLogs-bind m _ w r _ h
      (λ w' q. answer-Quiet paths w w' (some r) q (classify_normalized paths w' r))

-- The last part of getRequestType, from the paths that it read.
after_log :
    (paths : ServerPaths) (target : Bytes) (w : World)
    → OnlyLogs
        (do
          squeezed ← squeeze_logged [] false target
          result ← trim_logged (suc (length squeezed)) squeezed
          let best = longest_match paths result
          classify paths result best best.type)
        w
        (answer paths w.files (normalize target))
unfolding normalize trim
after_log paths target w =
    OnlyLogs-bind _ _ w (squeeze [] false target) _ (OnlyLogs-squeeze [] false target w) (λ w' q.
      answer-Quiet paths w w' _ q
        (after_trim paths _ _ w' (OnlyLogs-trim _ (squeeze [] false target) w')))

-- A message, or some, before steps that answer from any world.
module _ (paths : ServerPaths) (o : Option Bytes) (k : M RequestType) (w : World)
    (h : (w' : World) → OnlyLogs k w' (answer paths w'.files o)) where
  answer-log :
      (severity : LogSeverity) (message : Bytes)
      → OnlyLogs (log severity message >> k) w (answer paths w.files o)
  answer-log severity message =
      OnlyLogs-log_then severity message k w _ (λ w' q. answer-Quiet paths w w' o q (h w'))

  answer-log_paths : (ps : List Bytes) → OnlyLogs (log_paths ps >> k) w (answer paths w.files o)
  answer-log_paths ps =
      OnlyLogs-bind (log_paths ps) (λ _. k) w tt _ (OnlyLogs-log_paths ps w)
        (λ w' q. answer-Quiet paths w w' o q (h w'))

-- getRequestType behind the call of getServerPaths.
from_paths :
    (request : Request) (paths : ServerPaths) (w : World)
    → OnlyLogs
        (do
          log info (text "Determining request type. Target is: " ++ request.target)
          log info (text "Paths are: ")
          log_paths (keys paths.static)
          log_paths paths.echo
          log_paths (keys paths.crud)
          squeezed ← squeeze_logged [] false request.target
          result ← trim_logged (suc (length squeezed)) squeezed
          let best = longest_match paths result
          classify paths result best best.type)
        w
        (answer paths w.files (normalize request.target))
from_paths request paths w =
    answer-log paths _ _ w
      (λ w1.
        answer-log paths _ _ w1
          (λ w2.
            answer-log_paths paths _ _ w2
              (λ w3.
                answer-log_paths paths _ _ w3
                  (λ w4. answer-log_paths paths _ _ w4 (λ w5. after_log paths request.target w5) _)
                  _)
              _)
          _ _)
      _ _

-- The type that getRequestType answers is that of the first of the longest routes whose path
-- begins the normalised target, or None where there is none or where the file of a static route
-- cannot be opened. On an empty target the behaviour is undefined. Nothing but the log changes.
pub get_request_type-answer :
    (request : Request) (w : World)
    → OnlyLogs
        (get_request_type request)
        w
        (answer w.server_paths w.files (normalize request.target))
unfolding get_request_type
get_request_type-answer request w = OnlyLogs-log_then info _ _ w _ (λ w1 q1.
    OnlyLogs-bind _ _ w1 w1.server_paths _ (OnlyLogs-gets w1 _) (λ w2 q2.
      OnlyLogs-cast _ w2 _ _
        (ap (λ f. answer w1.server_paths f (normalize request.target)) (q2.files ∙ q1.files)
          ∙ ap (λ p. answer p w.files (normalize request.target)) q1.server_paths)
        (from_paths request w1.server_paths w2)))
