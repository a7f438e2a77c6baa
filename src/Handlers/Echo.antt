-- ===== src/Handlers/Echo.antt =====
-- src/echo_handler.cc: the request, written out as the body of the response.
pub mod Reads
use dinner_is_servered.Prelude.{
  ℕ, ◌/◌, ◌%◌, ◌^◌, ◌<◌, ◌≡◌, refl, sym, ap, ◌∙◌, List, [], ◌∷◌, ◌++◌, append_assoc, append-nil,
  Bytes, some, text, length, arith,
}
use dinner_is_servered.Runtime.{World, M, pure, returns}
use dinner_is_servered.Runtime.Numbers.{to_string, to_string_int, int_of_size}
use dinner_is_servered.Dispatch.Request.{Request}
use dinner_is_servered.Http.{Http, HttpLaws, ok, content_type, content_length}
use dinner_is_servered.Handlers.{IsPrepared, length-ne-type}

abbrev pub crlf : Bytes
crlf = b'\r' ∷ b'\n' ∷ []

-- "GET {TARGET} HTTP/1.1\r\n"
unfoldable pub request_line : Request → Bytes
request_line req =
    req.method_string
    ++ (b' '
        ∷ (req.target
            ++ (b' '
                ∷ (text "HTTP/"
                    ++ (to_string (req.version / 10)
                        ++ (b'.' ∷ (to_string (req.version % 10) ++ crlf)))))))

-- the loop over the fields, with `request_header_string` so far
unfoldable pub add_fields : Bytes → List (Bytes × Bytes) → Bytes
add_fields header [] = header
add_fields header ((name, value) ∷ fields) =
    add_fields (header ++ (name ++ (b':' ∷ b' ' ∷ (value ++ crlf)))) fields

unfoldable pub echo_body : Request → Bytes
unfolding request_line add_fields
echo_body req = (add_fields (request_line req) req.fields ++ crlf) ++ req.body

unfoldable pub handle_request : (http : Http) → Request → M http.Response
unfolding echo_body
handle_request http req =
    let response_body = echo_body req in
    pure (
      http.set content_length (to_string_int (int_of_size (length response_body)))
        (http.set content_type (text "text/plain") (http.response ok req.version response_body)))

-- The lines of the fields, in order.
abbrev pub field_lines : List (Bytes × Bytes) → Bytes
field_lines [] = []
field_lines ((name, value) ∷ fields) =
    (name ++ (b':' ∷ b' ' ∷ (value ++ crlf))) ++ field_lines fields

add_fields-field_lines :
    (header : Bytes) (fields : List (Bytes × Bytes))
    → add_fields header fields ≡ header ++ field_lines fields
unfolding add_fields
add_fields-field_lines header [] = sym (append-nil header)
add_fields-field_lines header ((name, value) ∷ fields) =
    add_fields-field_lines _ fields ∙ append_assoc header _ (field_lines fields)

to_string_int-small : (n : ℕ) → n < 2 ^ 31 → to_string_int (int_of_size n) ≡ to_string n
unfolding to_string_int int_of_size
to_string_int-small n h = ground arith

echo_body-lines :
    (req : Request)
    → echo_body req ≡ request_line req ++ (field_lines req.fields ++ (crlf ++ req.body))
unfolding echo_body
echo_body-lines req =
    ap (λ h. (h ++ crlf) ++ req.body) (add_fields-field_lines (request_line req) req.fields)
    ∙ append_assoc (request_line req ++ field_lines req.fields) crlf req.body
    ∙ append_assoc (request_line req) (field_lines req.fields) (crlf ++ req.body)

-- The echo handler changes nothing and answers 200 with plain text: the request line, one line for
-- each header field in order, an empty line, and the body of the request. The length is that of the
-- text where it fits into an int.
pub handle_request-echoes :
    (http : Http) (laws : HttpLaws http) (req : Request) (w : World)
    → length (echo_body req) < 2 ^ 31
    → (r : http.Response) × (handle_request http req w ≡ (returns r, w))
      × IsPrepared http r ok
          (text "text/plain")
          (request_line req ++ (field_lines req.fields ++ (crlf ++ req.body)))
unfolding handle_request pure
handle_request-echoes http laws req w h = (
  http.set content_length (to_string_int (int_of_size (length (echo_body req))))
      (http.set content_type (text "text/plain") (http.response ok req.version (echo_body req))),
  refl,
  record {
    result_is = laws.result-set _ _ _ ∙ laws.result-set _ _ _ ∙ laws.result-response _ _ _;
    body_is =
        laws.body-set _ _ _ ∙ laws.body-set _ _ _ ∙ laws.body-response _ _ _ ∙ echo_body-lines req;
    type_is = laws.header-set_other _ _ _ _ length-ne-type ∙ laws.header-set _ _ _;
    length_is =
        laws.header-set _ _ _
        ∙ ap some (to_string_int-small (length (echo_body req)) h)
        ∙ ap (λ b. some (to_string (length b))) (echo_body-lines req);
  },
)
