-- ===== src/Dispatch/Request.antt =====
-- What the code reads of an `http::request<http::vector_body<char>>`, and the RequestType of
-- include/request_dispatcher.h.
use dinner_is_servered.Prelude.{ℕ, List, Bytes, text}

-- the verbs of boost::beast::http that the code names, and the rest by number
pub data Verb : Type 0 where
  get post put delete unknown : Verb
  another : ℕ → Verb

pub record Request : Type 0 where
  pub method : Verb
  pub method_string : Bytes
  pub target : Bytes
  -- 11 for HTTP/1.1
  pub version : ℕ
  -- name and value of each header field, in order
  pub fields : List (Bytes × Bytes)
  pub body : Bytes

pub data RequestType : Type 0 where
  static echo none_found crud health sleep app bogus_type : RequestType

unfoldable pub request_type_tostr : RequestType → Bytes
request_type_tostr static = text "Static"
request_type_tostr echo = text "Echo"
request_type_tostr crud = text "CRUD"
request_type_tostr health = text "Health"
request_type_tostr sleep = text "Sleep"
request_type_tostr none_found = text "Not Found"
request_type_tostr bogus_type = text "BogusType"
request_type_tostr app = text "App"
