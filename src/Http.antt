-- ===== src/Http.antt =====
-- The responses of boost::beast::http, a library that the handlers use: its operations, and the
-- documented laws of those that the theorems need.
use dinner_is_servered.Prelude.{ℕ, ◌≡◌, ◌≢◌, Bytes, Option, none, some, length}
use dinner_is_servered.Runtime.Numbers.{to_string}

-- the statuses that the code names
pub data Status : Type 0 where
  ok created no_content bad_request not_found : Status

pub data Field : Type 0 where
  content_type content_length : Field

-- `http::response<http::vector_body<char>>`
pub record Http : Type 1 where
  pub Response : Type 0
  pub default_response : Response
  -- the constructor from a status, a version and a body
  pub response : Status → ℕ → Bytes → Response
  pub set : Field → Bytes → Response → Response
  pub prepare_payload : Response → Response
  pub result : Response → Status
  pub body : Response → Bytes
  pub header : Response → Field → Option Bytes
  pub result_int : Response → Bytes
  -- what `operator<<` writes for `response.result()`
  pub reason : Response → Bytes

pub record HttpLaws (http : Http) : Type 0 where
  pub result-response : (s : Status) (v : ℕ) (b : Bytes) → http.result (http.response s v b) ≡ s
  pub body-response : (s : Status) (v : ℕ) (b : Bytes) → http.body (http.response s v b) ≡ b
  pub header-response :
      (s : Status) (v : ℕ) (b : Bytes) (f : Field) → http.header (http.response s v b) f ≡ none
  pub result-set :
      (f : Field) (v : Bytes) (r : http.Response) → http.result (http.set f v r) ≡ http.result r
  pub body-set :
      (f : Field) (v : Bytes) (r : http.Response) → http.body (http.set f v r) ≡ http.body r
  pub header-set :
      (f : Field) (v : Bytes) (r : http.Response) → http.header (http.set f v r) f ≡ some v
  pub header-set_other :
      (f g : Field) (v : Bytes) (r : http.Response)
      → f ≢ g
      → http.header (http.set f v r) g ≡ http.header r g
  pub result-prepare_payload :
      (r : http.Response) → http.result (http.prepare_payload r) ≡ http.result r
  pub body-prepare_payload : (r : http.Response) → http.body (http.prepare_payload r) ≡ http.body r
  pub header-prepare_payload :
      (r : http.Response)
      → http.header (http.prepare_payload r) content_type ≡ http.header r content_type
  -- the length of the body is what is set
  pub length-prepare_payload :
      (r : http.Response)
      → http.header (http.prepare_payload r) content_length
        ≡ some (to_string (length (http.body r)))
