-- ===== src/Crud/Handler/Refusals.antt =====
-- Which requests CrudHandler::handle_request answers by 400.
use dinner_is_servered.Prelude.{
  Bool, true, false, not, ◌||◌, ◌≡◌, refl, sym, ◌∙◌, ap, subst, Bytes, text,
}
use dinner_is_servered.Logging.{error, is_empty}
use dinner_is_servered.Runtime.{World, returns, M}
use dinner_is_servered.Runtime.Quiet.{OnlyLogs, OnlyLogs-pure, OnlyLogs-log_then}
use dinner_is_servered.Dispatch.Request.{Request, Verb, get, post, put, delete}
use dinner_is_servered.Dispatch.Routes.{CrudPath}
use dinner_is_servered.Http.{Http, HttpLaws, bad_request}
use dinner_is_servered.Handlers.{prepared, IsPrepared, prepared-IsPrepared}
use dinner_is_servered.Crud.Handler.{
  refuse, handle_post, handle_put, handle_del, by_method, is_crud_method, route,
}

-- Whether a method, with or without a name and an id, is none that the handler takes: a POST is
-- of a name without an id, a PUT or DELETE of both, a GET of a name with or without an id.
abbrev pub refused : Verb → (no_name no_id : Bool) → Bool
refused get no_name no_id = no_name
refused post no_name no_id = no_name || not no_id
refused put no_name no_id = no_name || no_id
refused delete no_name no_id = no_name || no_id
refused _ no_name no_id = true

module _ (http : Http) (laws : HttpLaws http) where
  abbrev pub IsRefusal : http.Response → Type 0
  IsRefusal r = (body : Bytes) × IsPrepared http r bad_request (text "text/plain") body

  -- The call logs, and returns a refusal.
  abbrev pub Refuses : M http.Response → World → Type 0
  Refuses m w = (r : http.Response) × OnlyLogs m w (returns r) × IsRefusal r

  refuse-Refuses : (message body : Bytes) (w : World) → Refuses (refuse http message body) w
  unfolding refuse
  refuse-Refuses message body w = (
    prepared http bad_request (text "text/plain") body,
    OnlyLogs-log_then error message _ w _ (λ w' q. OnlyLogs-pure w' _),
    (body, prepared-IsPrepared http laws bad_request (text "text/plain") body),
  )

  -- Where the method is one of the four and there is a name, its handler is called.
  pub route-taken :
      (path : CrudPath) (request : Request) (m : Verb)
      → request.method ≡ m
      → is_crud_method http m ≡ true
      → is_empty path.entity_name ≡ false
      → route http path request ≡ by_method http m path request
  unfolding route
  route-taken path request m em c en =
      let taken : is_crud_method http request.method ≡ true = ap (is_crud_method http) em ∙ c in
      let called : route http path request ≡ by_method http request.method path request =
        rw (taken, en, route) refl in
      called ∙ ap (λ m. by_method http m path request) em

  module _ (path : CrudPath) (request : Request) (w : World) where
    post-Refuses : is_empty path.entity_id ≡ false → Refuses (handle_post http path request) w
    unfolding handle_post
    post-Refuses ei = rw (ei, handle_post) (refuse-Refuses _ _ w)

    put-Refuses :
        is_empty path.entity_name ≡ false
        → is_empty path.entity_id ≡ true
        → Refuses (handle_put http path request) w
    unfolding handle_put
    put-Refuses en ei = rw (en, ei, handle_put) (refuse-Refuses _ _ w)

    del-Refuses :
        is_empty path.entity_name ≡ false
        → is_empty path.entity_id ≡ true
        → Refuses (handle_del http path request) w
    unfolding handle_del
    del-Refuses en ei = rw (en, ei, handle_del) (refuse-Refuses _ _ w)

    by_method-Refuses :
        (m : Verb) (no_id : Bool)
        → is_empty path.entity_name ≡ false
        → is_empty path.entity_id ≡ no_id
        → is_crud_method http m ≡ true
        → refused m false no_id ≡ true
        → Refuses (by_method http m path request) w
    unfolding by_method is_crud_method
    by_method-Refuses get i en ei c h = absurd cc
    by_method-Refuses post true en ei c h = absurd cc
    by_method-Refuses post false en ei c h = post-Refuses ei
    by_method-Refuses put true en ei c h = put-Refuses en ei
    by_method-Refuses put false en ei c h = absurd cc
    by_method-Refuses delete true en ei c h = del-Refuses en ei
    by_method-Refuses delete false en ei c h = absurd cc
    by_method-Refuses _ i en ei c h = absurd cc

    pub route-Refuses :
        (b n : Bool)
        → is_crud_method http request.method ≡ b
        → is_empty path.entity_name ≡ n
        → refused request.method n (is_empty path.entity_id) ≡ true
        → Refuses (route http path request) w
    unfolding route
    route-Refuses false n c en h = rw (c, route) (refuse-Refuses _ _ w)
    route-Refuses true true c en h = rw (c, en, route) (refuse-Refuses _ _ w)
    route-Refuses true false c en h =
        subst (λ m. Refuses m w) (sym (route-taken path request request.method refl c en))
          (by_method-Refuses request.method (is_empty path.entity_id) en refl c h)
