-- ===== src/Dispatch/Send/Handled.antt =====
-- dispatch_request with the handlers that main registers.
use dinner_is_servered.Prelude.{
  Bool, true, false, ◌||◌, ◌≡◌, ◌≢◌, inl, inr, refl, sym, ap, subst, ◌∙◌, [], ◌∷◌, ◌++◌, Bytes,
  text,
}
use dinner_is_servered.Logging.{info, error, is_empty}
use dinner_is_servered.Runtime.{World, M, ◌>>=◌, ◌>>◌, pure, log, Outcome, returns}
use dinner_is_servered.Runtime.Inversion.{Outcome-cases}
use dinner_is_servered.Runtime.Quiet.{
  Quiet, Quiet-refl, Quiet-trans, OnlyLogs, OnlyLogs-pure, OnlyLogs-log, OnlyLogs-log_then,
  bind_returns,
}
use dinner_is_servered.Dispatch.Request.{Request, RequestType, Verb, unknown}
use dinner_is_servered.Dispatch.Routes.{get_request_type}
use dinner_is_servered.Http.{Http, HttpLaws, bad_request}
use dinner_is_servered.Registry.{RequestHandlerFactory, HandlersMap, register_all, register_all-get}
use dinner_is_servered.Dispatch.Send.{
  Socket, log_failed, is_unknown, call_handler, answer_request, metrics, dispatch_request,
}
use dinner_is_servered.Dispatch.Routes.Known.{get_request_type-known}

OnlyLogs-log_failed : (failed : Bool) (w : World) → OnlyLogs (log_failed failed) w (returns tt)
unfolding log_failed
OnlyLogs-log_failed false w = OnlyLogs-pure w tt
OnlyLogs-log_failed true w = OnlyLogs-log w error _

-- A response that is logged and returned.
record Passes {A : Type 0} (m n : M A) (w : World) : Type 0 where
  same_outcome : (m w).0 ≡ (n w).0
  same_world : Quiet (n w).1 (m w).1

Passes-log :
    {A : Type 0} (n : M A) (message : A → Bytes) (w : World)
    → Passes (n >>= λ a. log info (message a) >> pure a) n w
unfolding ◌>>=◌
Passes-log n message w = elim (Outcome-cases (n w).0) [
  | inl (a, e) ↦
      let o =
        OnlyLogs-log_then info (message a) (pure a) (n w).1 (returns a)
          (λ w' q. OnlyLogs-pure w' a) in
      record { same_outcome = rw (e, ◌>>=◌) o.outcome; same_world = rw (e, ◌>>=◌) o.quiet }
  | inr (inl (x, e)) ↦ record {
    same_outcome = rw (e, ◌>>=◌) refl;
    same_world = rw (e, ◌>>=◌) (Quiet-refl (n w).1);
  }
  | inr (inr e) ↦ record {
    same_outcome = rw (e, ◌>>=◌) refl;
    same_world = rw (e, ◌>>=◌) (Quiet-refl (n w).1);
  }
]

module _ (http : Http) (handlers : HandlersMap http) (socket : Socket) (request : Request)
    (w : World) (t : RequestType) (known : OnlyLogs (get_request_type request) w (returns t)) where
  abbrev refused : Bool
  refused = is_empty request.target || is_unknown request.method

  abbrev last_steps : M http.Response
  last_steps = answer_request http refused handlers t request >>= λ response.
      log info (metrics http socket request t response) >> pure response

  -- The steps before the answer log and do nothing else.
  dispatch_request-last_steps :
      (w' : World) × Quiet w w' × (dispatch_request http handlers socket request w ≡ last_steps w')
  unfolding dispatch_request
  dispatch_request-last_steps =
      let w1 = (get_request_type request w).1 in
      let message =
        text "Request from " ++ (socket.address ++ (text " for target " ++ request.target)) in
      let o2 = OnlyLogs-log w1 info message in
      let w2 = (log info message w1).1 in
      let o3 = OnlyLogs-log_failed socket.failed w2 in
      (
        (log_failed socket.failed w2).1,
        Quiet-trans known.quiet (Quiet-trans o2.quiet o3.quiet),
        bind_returns (get_request_type request) _ w t known.outcome
            ∙ bind_returns (log info message) _ w1 tt o2.outcome
            ∙ bind_returns (log_failed socket.failed) _ w2 tt o3.outcome,
      )

  dispatch_request-Passes :
      (w' : World) × Quiet w w'
      × ((dispatch_request http handlers socket request w).0
          ≡ (answer_request http refused handlers t request w').0)
      × Quiet
          (answer_request http refused handlers t request w').1
          (dispatch_request http handlers socket request w).1
  dispatch_request-Passes =
      let (w', q, e) = dispatch_request-last_steps in
      let p =
        Passes-log (answer_request http refused handlers t request) (metrics http socket request t)
          w' in
      (
        w',
        q,
        ap (λ r. r.0) e ∙ p.same_outcome,
        subst
            (λ (r : Outcome http.Response × World).
              Quiet (answer_request http refused handlers t request w').1 r.1)
            (sym e) p.same_world,
      )

is_empty-ne-nil : (s : Bytes) → s ≢ [] → is_empty s ≡ false
is_empty-ne-nil [] h = absurd (h refl)
is_empty-ne-nil (c ∷ s) h = refl

is_unknown-known : (v : Verb) → v ≢ unknown → is_unknown v ≡ false
unfolding is_unknown
is_unknown-known unknown h = absurd (h refl)
is_unknown-known _ h = refl

-- With the handlers that main registers, a request with a target and a known method is answered by
-- the handler of the type that getRequestType gives, in a world that differs in the log alone: the
-- call returns what the handler returns, or ends as the handler ends, and of what the handler leaves
-- it changes the log alone.
pub dispatch_request-handled :
    (http : Http) (factory : RequestType → RequestHandlerFactory http) (socket : Socket)
    (request : Request) (w : World)
    → request.target ≢ []
    → request.method ≢ unknown
    → (t : RequestType) × ((get_request_type request w).0 ≡ returns t)
      × (w' : World) × Quiet w w'
      × ((dispatch_request http (register_all http factory) socket request w).0
          ≡ (factory t request w').0)
      × Quiet
          (factory t request w').1
          (dispatch_request http (register_all http factory) socket request w).1
unfolding answer_request call_handler
dispatch_request-handled http factory socket request w h k =
    let (t, ne, known) = get_request_type-known request w h in
    let (w', q, o, p) =
      dispatch_request-Passes http (register_all http factory) socket request w t known in
    let flag : (is_empty request.target || is_unknown request.method) ≡ false =
      rw (is_empty-ne-nil request.target h) (is_unknown-known request.method k) in
    let same : answer_request http (is_empty request.target || is_unknown request.method)
          (register_all http factory) t request
        ≡ factory t request =
      ap (λ b. answer_request http b (register_all http factory) t request) flag
      ∙ ap (λ f. call_handler http f request) (register_all-get http factory t ne) in
    (
      t,
      known.outcome,
      w',
      q,
      o ∙ ap (λ (m : M http.Response). (m w').0) same,
      subst
          (λ (m : M http.Response).
            Quiet (m w').1 (dispatch_request http (register_all http factory) socket request w).1)
          same p,
    )

-- A request with a target and an unknown method is answered by 400 with an empty body, whatever is
-- registered, and nothing but the log changes.
pub dispatch_request-refused :
    (http : Http) (laws : HttpLaws http) (handlers : HandlersMap http) (socket : Socket)
    (request : Request) (w : World)
    → request.target ≢ []
    → request.method ≡ unknown
    → (r : http.Response) × OnlyLogs (dispatch_request http handlers socket request) w (returns r)
      × (http.result r ≡ bad_request)
      × (http.body r ≡ [])
unfolding answer_request is_unknown
dispatch_request-refused http laws handlers socket request w h k =
    let (t, ne, known) = get_request_type-known request w h in
    let (w', q, o, p) = dispatch_request-Passes http handlers socket request w t known in
    let flag : (is_empty request.target || is_unknown request.method) ≡ true =
      rw (is_empty-ne-nil request.target h) (ap is_unknown k) in
    let response = http.prepare_payload (http.response bad_request 11 []) in
    let told : OnlyLogs
        (answer_request http (is_empty request.target || is_unknown request.method) handlers t
          request)
        w' (returns response) =
      subst (λ b. OnlyLogs (answer_request http b handlers t request) w' (returns response))
        (sym flag) (OnlyLogs-log_then error _ _ w' _ (λ w'' q'. OnlyLogs-pure w'' response)) in
    (
      response,
      record { outcome = o ∙ told.outcome; quiet = Quiet-trans q (Quiet-trans told.quiet p) },
      laws.result-prepare_payload _ ∙ laws.result-response _ _ _,
      laws.body-prepare_payload _ ∙ laws.body-response _ _ _,
    )
