-- ===== src/Handlers.antt =====
-- The request handlers, and the response that most of them build.
pub mod Echo
pub mod Health
pub mod Sleep
pub mod NotFound
pub mod Static
use dinner_is_servered.Prelude.{◌≡◌, ◌≢◌, refl, ◌∙◌, ap, Bytes, Option, some, length}
use dinner_is_servered.Runtime.Numbers.{to_string}
use dinner_is_servered.Http.{Http, HttpLaws, Status, Field, content_type, content_length}

-- `content_type` and `content_length` set on a response of version 11, and `prepare_payload()`
unfoldable pub prepared : (http : Http) → Status → Bytes → Bytes → http.Response
prepared http status type body = http.prepare_payload (
    http.set content_length (to_string (length body))
      (http.set content_type type (http.response status 11 body)))

-- A response with this status, type and body, and the length of the body.
pub record IsPrepared (http : Http) (r : http.Response) (status : Status) (type body : Bytes)
    : Type 0 where
  pub result_is : http.result r ≡ status
  pub body_is : http.body r ≡ body
  pub type_is : http.header r content_type ≡ some type
  pub length_is : http.header r content_length ≡ some (to_string (length body))

pub length-ne-type : content_length ≢ content_type
length-ne-type e = absurd cc

pub prepared-IsPrepared :
    (http : Http) (laws : HttpLaws http) (status : Status) (type body : Bytes)
    → IsPrepared http (prepared http status type body) status type body
unfolding prepared
prepared-IsPrepared http laws status type body = record {
  result_is =
      laws.result-prepare_payload _
      ∙ laws.result-set _ _ _
      ∙ laws.result-set _ _ _
      ∙ laws.result-response status 11 body;
  body_is = keeps_body;
  type_is =
      laws.header-prepare_payload _
      ∙ laws.header-set_other _ _ _ _ length-ne-type
      ∙ laws.header-set _ _ _;
  length_is =
      laws.length-prepare_payload _
      ∙ ap (λ b. some (to_string (length b)))
          (laws.body-set _ _ _ ∙ laws.body-set _ _ _ ∙ laws.body-response status 11 body);
}
  where
    keeps_body :
        http.body (
          http.prepare_payload (
            http.set content_length
              (to_string (length body))
              (http.set content_type type (http.response status 11 body))))
        ≡ body
    keeps_body =
        laws.body-prepare_payload _
        ∙ laws.body-set _ _ _
        ∙ laws.body-set _ _ _
        ∙ laws.body-response status 11 body
