-- ===== src/Handlers/Static/Serves.antt =====
-- The static handler on the requests that the dispatcher sends to it.
use dinner_is_servered.Prelude.{Option-cases, inl, inr}
use dinner_is_servered.Runtime.{length_error}
use dinner_is_servered.Runtime.Numbers.{ℤ, pos, negsuc}
use dinner_is_servered.Handlers.Static.{zeros}
use dinner_is_servered.Prelude.{
  false, ◌≡◌, ◌≢◌, refl, sym, subst, ◌∙◌, [], ◌∷◌, Option, none, some, Bytes, length,
}
use dinner_is_servered.Logging.{error}
use dinner_is_servered.Runtime.{
  World, Outcome, M, ◌>>=◌, ◌>>◌, returns, throws, undefined, pure, log, lift, and_then,
}
use dinner_is_servered.Runtime.Files.{Node, directory, regular}
use dinner_is_servered.Runtime.Numbers.{to_string}
use dinner_is_servered.Runtime.Quiet.{
  OnlyLogs, OnlyLogs-pure, OnlyLogs-log_then, OnlyLogs-bind, OnlyLogs-lift, OnlyLogs-bind_throws,
  OnlyLogs-bind_undefined,
}
use dinner_is_servered.Dispatch.Request.{Request, Verb, get}
use dinner_is_servered.Http.{
  Http, HttpLaws, ok, bad_request, not_found, content_type, content_length,
}
use dinner_is_servered.Handlers.{IsPrepared}
use dinner_is_servered.Handlers.Static.{
  extension_type, DirectoryEnd, allocated, is_get, invalid_method, respond, handle_request,
}

-- The content type of a path; empty where the path has no dot or the extension is unknown.
abbrev pub type_of : Option Bytes → Bytes
type_of none = []
type_of (some e) = extension_type e

-- What a vector is filled with, and a line in the log, where the vector can be made.
pub OnlyLogs-lift_log :
    (o : Outcome Bytes) (message : Bytes) (w : World)
    → OnlyLogs (lift o >>= λ res. log error message >> pure res) w o
OnlyLogs-lift_log (returns b) message w =
    OnlyLogs-bind _ _ w b _ (OnlyLogs-lift (returns b) w)
      (λ w' q. OnlyLogs-log_then error message _ w' _ (λ w'' q'. OnlyLogs-pure w'' b))
OnlyLogs-lift_log (throws e) message w = OnlyLogs-bind_throws _ _ w e (OnlyLogs-lift (throws e) w)
OnlyLogs-lift_log undefined message w = OnlyLogs-bind_undefined _ _ w (OnlyLogs-lift undefined w)

module _ {A B : Type 0} (m : M A) (f : A → B) (w : World) where
  -- A last step that makes the result.
  pub OnlyLogs-map :
      (o : Outcome A)
      → OnlyLogs m w o
      → OnlyLogs (m >>= λ a. pure (f a)) w (and_then o (λ a. returns (f a)))
  OnlyLogs-map (returns a) h = OnlyLogs-bind m _ w a _ h (λ w' q. OnlyLogs-pure w' (f a))
  OnlyLogs-map (throws e) h = OnlyLogs-bind_throws m _ w e h
  OnlyLogs-map undefined h = OnlyLogs-bind_undefined m _ w h

-- What is read of a file.
abbrev pub contents : DirectoryEnd → Node → Outcome Bytes
contents directory_end directory = allocated directory_end
contents directory_end (regular content) = returns content

abbrev pub IsDefined : Outcome Bytes → Type 0
IsDefined undefined = ⊥
IsDefined _ = Unit

allocated-IsDefined : (directory_end : DirectoryEnd) → IsDefined (allocated directory_end)
unfolding allocated
allocated-IsDefined directory_end = elim (Option-cases directory_end.refused) [
  | inr (e, h) ↦ rw h tt
  | inl h ↦ rw h (of_size directory_end.told)
]
  where
    of_size :
        (n : ℤ) → IsDefined (elim n [ pos n ↦ returns (zeros n) | negsuc n ↦ throws length_error ])
    of_size (pos n) = tt
    of_size (negsuc n) = tt

pub contents-IsDefined :
    (directory_end : DirectoryEnd) (node : Node) → IsDefined (contents directory_end node)
contents-IsDefined directory_end directory = allocated-IsDefined directory_end
contents-IsDefined directory_end (regular content) = tt

module _ (http : Http) (directory_end : DirectoryEnd) where
  abbrev response_of : Bytes → Bytes → http.Response
  response_of type b =
      http.set content_length (to_string (length b))
        (http.set content_type type (http.response ok 11 b))

  -- The outcome for a file that was opened.
  abbrev pub sent : Outcome Bytes → Bytes → Outcome http.Response
  sent o [] = returns (http.prepare_payload (http.response not_found 11 []))
  sent o (c ∷ type) = and_then o (λ b. returns (response_of (c ∷ type) b))

  -- A file is sent whole with the type of its extension; without a known extension the answer is
  -- 404 with an empty body. A directory whose name has a known extension is sent as zeros, or the
  -- exception of the vector leaves the handler.
  abbrev pub IsServed : Outcome Bytes → Bytes → Outcome http.Response → Type 0
  IsServed o [] answer =
      (r : http.Response) × (answer ≡ returns r) × (http.result r ≡ not_found) × (http.body r ≡ [])
  IsServed (returns b) (c ∷ type) answer =
      (r : http.Response) × (answer ≡ returns r) × IsPrepared http r ok (c ∷ type) b
  IsServed (throws e) (c ∷ type) answer = answer ≡ throws e
  IsServed undefined (c ∷ type) answer = ⊥

  is_get-other : (v : Verb) → v ≢ get → is_get v ≡ false
  unfolding is_get
  is_get-other get h = absurd (h refl)
  is_get-other _ h = refl

  -- A request with another method than GET is answered by 400 and the text of the error. The content
  -- type is lost: it was set on the response that the code then replaces. Nothing but the log
  -- changes.
  pub handle_request-refuses :
      (laws : HttpLaws http) (request : Request) (w : World)
      → request.method ≢ get
      → (r : http.Response) × OnlyLogs (handle_request http directory_end request) w (returns r)
        × (http.result r ≡ bad_request)
        × (http.body r ≡ invalid_method)
        × (http.header r content_type ≡ none)
  unfolding handle_request respond
  handle_request-refuses laws request w h = (
    http.prepare_payload (http.response bad_request 11 invalid_method),
    subst
        (λ b.
          OnlyLogs (respond http directory_end b request) w
            (returns (http.prepare_payload (http.response bad_request 11 invalid_method))))
        (sym (is_get-other request.method h))
        (OnlyLogs-log_then error _ _ w _ (λ w' q. OnlyLogs-pure w' _)),
    laws.result-prepare_payload _ ∙ laws.result-response _ _ _,
    laws.body-prepare_payload _ ∙ laws.body-response _ _ _,
    laws.header-prepare_payload _ ∙ laws.header-response _ _ _ _,
  )
