-- ===== src/App/Answer/Handled.antt =====
-- handle_request of the app handler, for every method.
use dinner_is_servered.Prelude.{◌≡◌, subst, ◌⊎◌, inl, inr, ◌∙◌, [], ◌++◌, Bytes, text}
use dinner_is_servered.Logging.{LogSeverity, info, error}
use dinner_is_servered.Runtime.{
  World, Exception, Outcome, M, returns, throws, ◌>>=◌, ◌>>◌, pure, log,
}
use dinner_is_servered.Runtime.Quiet.{
  Quiet, Quiet-trans, OnlyLogs, OnlyLogs-pure, OnlyLogs-log_then, OnlyLogs-bind,
  OnlyLogs-bind_throws, OnlyLogs-log_at, Quiet-log,
}
use dinner_is_servered.Dispatch.Request.{Request, Verb, get, post, put, delete, unknown, another}
use dinner_is_servered.Http.{Http, HttpLaws, ok, bad_request}
use dinner_is_servered.Handlers.{prepared, IsPrepared, prepared-IsPrepared}
use dinner_is_servered.Handlers.Static.{DirectoryEnd}
use dinner_is_servered.App.Services.{Services}
use dinner_is_servered.App.Landing.{IsPage, generate_landing_page-IsPage}
use dinner_is_servered.App.Answer.{post_json, process_post, by_method, handle_request}
use dinner_is_servered.App.Answer.Posted.{IsPosted, IsThrown, Posted, post_json-Posted}

module _ (http : Http) (laws : HttpLaws http) (directory_end : DirectoryEnd)
    (services : Services) where
  -- How a call of process_post ends: by the exception of a form that cannot be read, or with 200 and
  -- the JSON text.
  abbrev pub IsPostAnswer : M http.Response → World → World → Request → Type 0
  IsPostAnswer m v w request =
      ((e : Exception) × OnlyLogs m w (throws e) × IsThrown services request.body e)
      ⊎ ((json : Bytes) × (r : http.Response) × OnlyLogs m w (returns r)
          × IsPosted services v request.body json
          × IsPrepared http r ok (text "application/json") json)

  abbrev pub IsRefusal : M http.Response → World → Type 0
  IsRefusal m w =
      (r : http.Response) × OnlyLogs m w (returns r)
      × (http.result r ≡ bad_request)
      × (http.body r ≡ [])

  -- The answer of `m`, in the world `w`, where all but the log is as in `v`, by the method.
  abbrev pub IsHandled : Verb → M http.Response → World → World → Request → Type 0
  IsHandled post m v w request = IsPostAnswer m v w request
  IsHandled get m v w request =
      (answer : Outcome http.Response) × OnlyLogs m w answer
      × IsPage http directory_end v.files request.target answer
  IsHandled _ m v w request = IsRefusal m w

  -- A line in the log, first.
  IsHandled-log :
      (verb : Verb) (severity : LogSeverity) (message : Bytes) (m : M http.Response) (v w : World)
      (request : Request)
      → IsHandled verb m v (log severity message w).1 request
      → IsHandled verb (log severity message >> m) v w request
  IsHandled-log post severity message m v w request (inl (e, o, t)) =
      inl (e, OnlyLogs-log_at severity message m w (throws e) o, t)
  IsHandled-log post severity message m v w request (inr (json, r, o, t, p)) =
      inr (json, r, OnlyLogs-log_at severity message m w (returns r) o, t, p)
  IsHandled-log get severity message m v w request (answer, o, t) =
      (answer, OnlyLogs-log_at severity message m w answer o, t)
  IsHandled-log put severity message m v w request (r, o, t, p) =
      (r, OnlyLogs-log_at severity message m w (returns r) o, t, p)
  IsHandled-log delete severity message m v w request (r, o, t, p) =
      (r, OnlyLogs-log_at severity message m w (returns r) o, t, p)
  IsHandled-log unknown severity message m v w request (r, o, t, p) =
      (r, OnlyLogs-log_at severity message m w (returns r) o, t, p)
  IsHandled-log (another n) severity message m v w request (r, o, t, p) =
      (r, OnlyLogs-log_at severity message m w (returns r) o, t, p)

  answered :
      (v w : World) (request : Request)
      → Posted services v w request.body
      → IsPostAnswer
          (post_json services request.body >>= λ json.
            pure (prepared http ok (text "application/json") json))
          v
          w
          request
  answered v w request (inl (e, o, t)) =
      inl (e, OnlyLogs-bind_throws (post_json services request.body) _ w e o, t)
  answered v w request (inr (json, o, t)) =
      let r = prepared http ok (text "application/json") json in
      inr (
        json,
        r,
        OnlyLogs-bind (post_json services request.body) _ w json _ o (λ w' q'. OnlyLogs-pure w' r),
        t,
        prepared-IsPrepared http laws ok (text "application/json") json,
      )

  refused :
      (w : World) (request : Request)
      → IsRefusal
          (log error (text "Bad request method: " ++ request.method_string)
            >> pure (http.prepare_payload (http.response bad_request 11 [])))
          w
  refused w request = (
    http.prepare_payload (http.response bad_request 11 []),
    OnlyLogs-log_then error _ _ w _ (λ w' q. OnlyLogs-pure w' _),
    laws.result-prepare_payload _ ∙ laws.result-response _ _ _,
    laws.body-prepare_payload _ ∙ laws.body-response _ _ _,
  )

  by_method-IsHandled :
      (verb : Verb) (v w : World) (request : Request)
      → Quiet v w
      → IsHandled verb (by_method http directory_end services verb request) v w request
  unfolding by_method process_post
  by_method-IsHandled post v w request q =
      let message = text "Processing POST request" in
      IsHandled-log post info message _ v w request (
        answered v (log info message w).1 request
          (post_json-Posted services request.body v _ (Quiet-trans q (Quiet-log w info message))))
  by_method-IsHandled get v w request q =
      let (r, o, p) = generate_landing_page-IsPage http directory_end laws request w in
      (r, o, subst (λ f. IsPage http directory_end f request.target r) q.files p)
  by_method-IsHandled put v w request q = refused w request
  by_method-IsHandled delete v w request q = refused w request
  by_method-IsHandled unknown v w request q = refused w request
  by_method-IsHandled (another n) v w request q = refused w request

  -- The app handler, whatever the body and the transfers. On POST it answers 200 with the JSON text of
  -- the form's best image, whose index is one of an image, and its caption, or of the error with the
  -- negative index; where the form cannot be read, it throws what std::stoi or std::string::substr
  -- throws, and nothing else. On GET it answers with the page of the target, or by the exception of a
  -- vector of the size of a directory in place of the page's file, and on any other method
  -- 400 with an empty body. Never is an element out of range used, and nothing but the log changes.
  pub handle_request-IsHandled :
      (request : Request) (w : World)
      → IsHandled request.method (handle_request http directory_end services request) w w request
  unfolding handle_request
  handle_request-IsHandled request w =
      let made = text "Configuration loaded for AppHandler: API Key and ChatGPT URL" in
      let handling = text "Handling request: " ++ request.target in
      let w₁ = (log info made w).1 in
      IsHandled-log request.method info made _ w w request (
        IsHandled-log request.method info handling _ w w₁ request (
          by_method-IsHandled request.method w (log info handling w₁).1 request
            (Quiet-trans (Quiet-log w info made) (Quiet-log w₁ info handling))))
