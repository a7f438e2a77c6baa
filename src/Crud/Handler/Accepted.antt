-- ===== src/Crud/Handler/Accepted.antt =====
-- CrudHandler::handle_request answers by 400 just where the method does not fit the path.
use dinner_is_servered.Prelude.{
  Bool, true, false, Bool-cases, ◌⊎◌, inl, inr, ◌≡◌, ◌≢◌, refl, sym, ◌∙◌, ap, subst, Option, none,
  some, Bytes,
}
use dinner_is_servered.Logging.{is_empty}
use dinner_is_servered.Runtime.{World, Outcome, returns, M, ◌>>=◌, pure}
use dinner_is_servered.Runtime.Inversion.{Outcome-cases, pure-returns, steps-returns}
use dinner_is_servered.Runtime.Quiet.{OnlyLogs-bind_some, bind_returns}
use dinner_is_servered.Dispatch.Request.{Request, Verb, get, post, put, delete}
use dinner_is_servered.Dispatch.Routes.{CrudPath, get_crud_entity_path}
use dinner_is_servered.Dispatch.Routes.Entity.{get_crud_entity_path-OnlyLogs}
use dinner_is_servered.Http.{
  Http, HttpLaws, Status, ok, created, no_content, bad_request, not_found,
}
use dinner_is_servered.Handlers.{prepared, prepared-IsPrepared}
use dinner_is_servered.Crud.Handler.{
  handle_post, handle_list, give_object, handle_get, put_response, handle_put, delete_response,
  handle_del, by_method, is_crud_method, route, handle_request,
}
use dinner_is_servered.Crud.Handler.Refusals.{
  refused, IsRefusal, Refuses, route-taken, route-Refuses,
}

abbrev pub is_bad_request : Status → Bool
is_bad_request bad_request = true
is_bad_request _ = false

is_bad_request-other : (s : Status) → s ≢ bad_request → is_bad_request s ≡ false
is_bad_request-other bad_request h = absurd (h refl)
is_bad_request-other _ h = refl

no_name-refused : (m : Verb) (no_id : Bool) → refused m true no_id ≢ false
no_name-refused get i h = absurd cc
no_name-refused post i h = absurd cc
no_name-refused put i h = absurd cc
no_name-refused delete i h = absurd cc
no_name-refused _ i h = absurd cc

module _ (http : Http) (laws : HttpLaws http) where
  no_method-refused :
      (m : Verb) (no_name no_id : Bool)
      → is_crud_method http m ≡ false
      → refused m no_name no_id ≢ false
  unfolding is_crud_method
  no_method-refused get n i c h = absurd cc
  no_method-refused post n i c h = absurd cc
  no_method-refused put n i c h = absurd cc
  no_method-refused delete n i c h = absurd cc
  no_method-refused _ n i c h = absurd cc

  -- What the call returns, when it returns, is no 400.
  abbrev pub Accepts : M http.Response → Type 0
  Accepts m = (w : World) (r : http.Response) → (m w).0 ≡ returns r → http.result r ≢ bad_request

  Accepts-bind :
      {A : Type 0} (m : M A) (f : A → M http.Response)
      → ((a : A) → Accepts (f a))
      → Accepts (m >>= f)
  Accepts-bind m f h w r e = let (a, _, k) = steps-returns m f w r e in h a (m w).1 r k

  prepared-Accepts :
      (status : Status) (type body : Bytes)
      → status ≢ bad_request
      → Accepts (pure (prepared http status type body))
  prepared-Accepts status type body h w r e k = h (
      sym (prepared-IsPrepared http laws status type body).result_is
      ∙ ap http.result (pure-returns _ w r e)
      ∙ k)

  ok-ne-bad : ok ≢ bad_request
  ok-ne-bad h = absurd cc

  created-ne-bad : created ≢ bad_request
  created-ne-bad h = absurd cc

  no_content-ne-bad : no_content ≢ bad_request
  no_content-ne-bad h = absurd cc

  not_found-ne-bad : not_found ≢ bad_request
  not_found-ne-bad h = absurd cc

  give_object-Accepts : (o : Option Bytes) → Accepts (give_object http o)
  unfolding give_object
  give_object-Accepts none = Accepts-bind _ _ (λ _. prepared-Accepts not_found _ _ not_found-ne-bad)
  give_object-Accepts (some json) = prepared-Accepts ok _ _ ok-ne-bad

  put_response-Accepts : (path : CrudPath) (b : Bool) → Accepts (pure (put_response http path b))
  unfolding put_response
  put_response-Accepts path false = prepared-Accepts created _ _ created-ne-bad
  put_response-Accepts path true = prepared-Accepts ok _ _ ok-ne-bad

  delete_response-Accepts : (b : Bool) → Accepts (pure (delete_response http b))
  unfolding delete_response
  delete_response-Accepts false = prepared-Accepts no_content _ _ no_content-ne-bad
  delete_response-Accepts true = prepared-Accepts ok _ _ ok-ne-bad

  module _ (path : CrudPath) (request : Request) where
    post-Accepts : is_empty path.entity_id ≡ true → Accepts (handle_post http path request)
    unfolding handle_post
    post-Accepts ei =
        rw (ei, handle_post)
          (Accepts-bind _ _ (λ _. Accepts-bind _ _ (λ _.
            Accepts-bind _ _
              (λ _. Accepts-bind _ _ (λ _. prepared-Accepts created _ _ created-ne-bad)))))

    list-Accepts : is_empty path.entity_name ≡ false → Accepts (handle_list http path request)
    unfolding handle_list
    list-Accepts en =
        rw (en, handle_list) (Accepts-bind _ _ (λ _. prepared-Accepts ok _ _ ok-ne-bad))

    get-Accepts :
        (no_id : Bool)
        → is_empty path.entity_name ≡ false
        → is_empty path.entity_id ≡ no_id
        → Accepts (handle_get http path request)
    unfolding handle_get
    get-Accepts true en ei = rw (ei, handle_get) (list-Accepts en)
    get-Accepts false en ei = rw (ei, handle_get) (Accepts-bind _ _ (λ o. give_object-Accepts o))

    put-Accepts :
        is_empty path.entity_name ≡ false
        → is_empty path.entity_id ≡ false
        → Accepts (handle_put http path request)
    unfolding handle_put
    put-Accepts en ei =
        rw (en, ei, handle_put)
          (Accepts-bind _ _
            (λ _. Accepts-bind _ _ (λ b. Accepts-bind _ _ (λ _. put_response-Accepts path b))))

    del-Accepts :
        is_empty path.entity_name ≡ false
        → is_empty path.entity_id ≡ false
        → Accepts (handle_del http path request)
    unfolding handle_del
    del-Accepts en ei = rw (en, ei, handle_del) (Accepts-bind _ _ (λ b. delete_response-Accepts b))

    by_method-Accepts :
        (m : Verb) (no_id : Bool)
        → is_empty path.entity_name ≡ false
        → is_empty path.entity_id ≡ no_id
        → refused m false no_id ≡ false
        → Accepts (by_method http m path request)
    unfolding by_method
    by_method-Accepts get i en ei h = get-Accepts i en ei
    by_method-Accepts post true en ei h = post-Accepts ei
    by_method-Accepts post false en ei h = absurd cc
    by_method-Accepts put true en ei h = absurd cc
    by_method-Accepts put false en ei h = put-Accepts en ei
    by_method-Accepts delete true en ei h = absurd cc
    by_method-Accepts delete false en ei h = del-Accepts en ei
    by_method-Accepts _ i en ei h = absurd cc

    -- A method that is none of the four is refused.
    route-Accepts :
        (b n : Bool)
        → is_crud_method http request.method ≡ b
        → is_empty path.entity_name ≡ n
        → refused request.method n (is_empty path.entity_id) ≡ false
        → Accepts (route http path request)
    unfolding is_crud_method
    route-Accepts true false c en h =
        subst Accepts (sym (route-taken http laws path request request.method refl c en))
          (by_method-Accepts request.method (is_empty path.entity_id) en refl h)
    route-Accepts true true c en h = absurd (no_name-refused request.method _ h)
    route-Accepts false n c en h = absurd (no_method-refused request.method n _ c h)

  -- Whether the outcome of a call is an answer by 400.
  abbrev pub is_refusal : Outcome http.Response → Bool
  is_refusal (returns r) = is_bad_request (http.result r)
  is_refusal _ = false

  Accepts-is_refusal : (m : M http.Response) (w : World) → Accepts m → is_refusal (m w).0 ≡ false
  Accepts-is_refusal m w h = elim (Outcome-cases (m w).0) [
    | inl (r, e) ↦ ap is_refusal e ∙ is_bad_request-other (http.result r) (h w r e)
    | inr (inl (x, e)) ↦ ap is_refusal e
    | inr (inr e) ↦ ap is_refusal e
  ]

  -- Where getCrudEntityPath returns a path, the handler answers by 400 just where the method is none
  -- of GET, POST, PUT and DELETE, or there is no entity name, or a POST has an id, or a PUT or DELETE
  -- has none. The answer has plain text, and nothing but the log changes. Any other request ends in
  -- another answer than 400, in an exception or in undefined behaviour.
  pub handle_request-Refuses_exactly :
      (request : Request) (w : World) (path : CrudPath)
      → (get_crud_entity_path request w).0 ≡ returns path
      → ((refused request.method (is_empty path.entity_name) (is_empty path.entity_id) ≡ true)
          × Refuses http laws (handle_request http request) w)
        ⊎ ((refused request.method (is_empty path.entity_name) (is_empty path.entity_id) ≡ false)
            × (is_refusal (handle_request http request w).0 ≡ false))
  unfolding handle_request
  handle_request-Refuses_exactly request w path h =
      let known = get_crud_entity_path-OnlyLogs request w path h in
      elim (Bool-cases
        (refused request.method (is_empty path.entity_name) (is_empty path.entity_id))) [
          | inl refuses ↦ inl (
            refuses,
            OnlyLogs-bind_some (get_crud_entity_path request) (λ path. route http path request) w
                (IsRefusal http laws) path known
                (λ w' q. route-Refuses http laws path request w' _ _ refl refl refuses),
          )
          | inr accepts ↦ inr (
            accepts,
            ap (λ x. is_refusal x.0)
                  (bind_returns (get_crud_entity_path request) (λ path. route http path request) w
                    path h)
                ∙ Accepts-is_refusal (route http path request) _
                    (route-Accepts path request _ _ refl refl accepts),
          )
        ]
