-- ===== src/Dispatch/Send/Unmatched.antt =====
-- dispatch_request on a request that no route matches.
use dinner_is_servered.Handlers.Static.{DirectoryEnd}
use dinner_is_servered.Runtime.Inversion.{returns-injective}
use dinner_is_servered.Prelude.{
  some-injective, ◌≡◌, ◌≢◌, inl, inr, sym, ap, subst, ◌∙◌, List, [], ◌∷◌, ◌++◌, some, Bytes, text,
  arith, All,
}
use dinner_is_servered.Runtime.{World, returns, pure}
use dinner_is_servered.Runtime.Quiet.{Quiet, Quiet-trans, OnlyLogs}
use dinner_is_servered.Dispatch.Request.{Request, unknown, none_found}
use dinner_is_servered.Dispatch.Target.{normalize}
use dinner_is_servered.Dispatch.Longest.{Longest}
use dinner_is_servered.Dispatch.Longest.Best.{Route, IsChosen, ShorterThan}
use dinner_is_servered.Dispatch.Routes.{get_request_type}
use dinner_is_servered.Dispatch.Routes.Classify.{all_routes}
use dinner_is_servered.Dispatch.Routes.Choice.{get_request_type-chooses}
use dinner_is_servered.Http.{Http, HttpLaws, not_found}
use dinner_is_servered.Handlers.{IsPrepared, prepared, prepared-IsPrepared}
use dinner_is_servered.Handlers.NotFound
use dinner_is_servered.Handlers.NotFound.{not_found_body}
use dinner_is_servered.Registry.{register_all}
use dinner_is_servered.App.Services.{Services}
use dinner_is_servered.Registry.Factories.{factory_of}
use dinner_is_servered.Dispatch.Send.{Socket, dispatch_request}
use dinner_is_servered.Dispatch.Send.Handled.{dispatch_request-handled}

All-middle :
    {A : Type 0} (P : A → Type 0) (before : List A) (a : A) (behind : List A)
    → All P (before ++ a ∷ behind)
    → P a
All-middle P [] a behind h = h.0
All-middle P (b ∷ before) a behind h = All-middle P before a behind h.1

-- No route is chosen where none matches by a path that is not empty.
none_chosen :
    (r : Bytes) (routes : List Route)
    → All (ShorterThan r 1) routes
    → (best : Longest) → IsChosen r routes best
    → ⊥
none_chosen r routes h best c =
    let short =
      All-middle (ShorterThan r 1) c.before c.route c.behind
        (subst (All (ShorterThan r 1)) c.splits h) in
    let z = short c.matched.0 in absurd (omega (arith, c.matched.1))

unmatched-none_found :
    (request : Request) (w : World) (r : Bytes)
    → request.target ≢ []
    → normalize request.target ≡ some r
    → All (ShorterThan r 1) (all_routes w.server_paths)
    → (get_request_type request w).0 ≡ returns none_found
unmatched-none_found request w r h e a =
    let (r', e', _, told) = get_request_type-chooses request w h in
    let same : r ≡ r' = some-injective r r' (sym e ∙ e') in
    elim told [
      | inl (_, o) ↦ o.outcome
      | inr (best, c, _) ↦ absurd (
          none_chosen r' (all_routes w.server_paths)
            (subst (λ s. All (ShorterThan s 1) (all_routes w.server_paths)) same a) best c)
    ]

-- With the handlers that main registers, a request with a known method whose target, normalised,
-- begins with no path of a route that is not empty, is answered by 404 and the text of the not-found
-- handler. Nothing but the log changes.
pub unmatched-not_found :
    (http : Http) (laws : HttpLaws http) (directory_end : DirectoryEnd) (services : Services)
    (socket : Socket) (request : Request) (w : World) (r : Bytes)
    → request.target ≢ []
    → request.method ≢ unknown
    → normalize request.target ≡ some r
    → All (ShorterThan r 1) (all_routes w.server_paths)
    → (response : http.Response) × OnlyLogs
        (dispatch_request http
          (register_all http (factory_of http directory_end services))
          socket
          request)
        w
        (returns response)
      × IsPrepared http response not_found (text "text/plain") not_found_body
unfolding factory_of NotFound.handle_request pure
unmatched-not_found http laws directory_end services socket request w r h k e a =
    let factory = factory_of http directory_end services in
    let (t, answers, w', q, o, p) = dispatch_request-handled http factory socket request w h k in
    let is_none : t ≡ none_found =
      returns-injective _ _ (sym answers ∙ unmatched-none_found request w r h e a) in
    (
      prepared http not_found (text "text/plain") not_found_body,
      record {
        outcome = o ∙ ap (λ t. (factory t request w').0) is_none;
        quiet = Quiet-trans q (
            subst
              (λ t.
                Quiet (factory t request w').1
                  (dispatch_request http (register_all http factory) socket request w).1)
              is_none p);
      },
      prepared-IsPrepared http laws not_found (text "text/plain") not_found_body,
    )
