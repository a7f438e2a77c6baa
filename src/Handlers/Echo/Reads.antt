-- ===== src/Handlers/Echo/Reads.antt =====
-- The echo handler's answer, read back as an HTTP message.
use dinner_is_servered.Prelude.{
  ℕ, zero, suc, ◌+◌, ◌-◌, ◌*◌, ◌/◌, ◌%◌, ◌^◌, ◌<◌, ◌≡◌, refl, sym, ap, ◌∙◌, false, List, [], ◌∷◌,
  ◌++◌, append_assoc, Option, none, some, Bytes, text, equal, length, ◌==◌, All, All-append, arith,
  if◌then◌else◌,
}
use dinner_is_servered.Runtime.{World, returns}
use dinner_is_servered.Runtime.Numbers.{to_string, digits}
use dinner_is_servered.Dispatch.Request.{Request}
use dinner_is_servered.Http.{Http, HttpLaws, ok}
use dinner_is_servered.Handlers.{IsPrepared}
use dinner_is_servered.Handlers.Echo.{
  crlf, request_line, field_lines, echo_body, handle_request, handle_request-echoes,
}

abbrev then_try : {A B : Type 0} → Option A → (A → Option B) → Option B
then_try none f = none
then_try (some a) f = f a

-- What stands before the first byte `c`, and what stands behind it.
abbrev cut : ℕ → Bytes → Option (Bytes × Bytes)
cut c [] = none
cut c (x ∷ s) =
    let rest = cut c s in if x == c then some ([], s) else then_try rest (λ r. some (x ∷ r.0, r.1))

abbrev behind_byte : ℕ → Bytes → Option Bytes
behind_byte c [] = none
behind_byte c (x ∷ s) = if x == c then some s else none

-- A line that ends in a carriage return and a line feed.
abbrev read_line : Bytes → Option (Bytes × Bytes)
read_line s = then_try (cut b'\r' s) (λ r. then_try (behind_byte b'\n' r.1) (λ t. some (r.0, t)))

-- The name and the value of a header field.
abbrev read_field : Bytes → Option (Bytes × Bytes)
read_field line =
    then_try (cut b':' line) (λ f. then_try (behind_byte b' ' f.1) (λ value. some (f.0, value)))

-- The header fields, up to the empty line, and the body behind it; a line for each step of fuel.
abbrev pub read_fields : ℕ → Bytes → Option (List (Bytes × Bytes) × Bytes)
read_fields zero s = none
read_fields (suc fuel) s = then_try (read_line s) (λ r. elim r.0 [
  | [] ↦ some ([], r.1)
  | x ∷ line ↦
      then_try (read_field (x ∷ line))
        (λ f. then_try (read_fields fuel r.1) (λ m. some (f ∷ m.0, m.1)))
])

-- Two digits with a dot between them, as the number that `version()` is.
abbrev version_number : Bytes → Option ℕ
version_number (a ∷ dot ∷ b ∷ []) = if dot == b'.' then some ((a - 48) * 10 + (b - 48)) else none
version_number _ = none

abbrev read_version : Bytes → Option ℕ
read_version s =
    then_try (cut b'/' s) (λ r. if equal r.0 (text "HTTP") then version_number r.1 else none)

pub record Message : Type 0 where
  pub method : Bytes
  pub target : Bytes
  pub version : ℕ
  pub fields : List (Bytes × Bytes)
  pub body : Bytes

-- The method, the target and the version of a request line.
abbrev read_request_line : Bytes → Option (Bytes × Bytes × ℕ)
read_request_line s =
    then_try (cut b' ' s)
      (λ m. then_try (cut b' ' m.1) (λ t. then_try (read_version t.1) (λ v. some (m.0, t.0, v))))

-- A request as it stands on the wire, of fewer fields than `fuel`.
abbrev pub read_message : ℕ → Bytes → Option Message
read_message fuel s = then_try (read_line s) (λ l. then_try (read_request_line l.0) (λ q.
    then_try (read_fields fuel l.1)
      (λ f. some (record { method = q.0; target = q.1; version = q.2; fields = f.0; body = f.1 }))))

abbrev pub Without : ℕ → Bytes → Type 0
Without c = All (λ x. (x == c) ≡ false)

cut-append : (c : ℕ) (s t : Bytes) → Without c s → cut c (s ++ c ∷ t) ≡ some (s, t)
cut-append c [] t h = ground arith
cut-append c (x ∷ s) t (e, h) = rw e (rw (cut-append c s t h) refl)

read_line-append : (s t : Bytes) → Without b'\r' s → read_line (s ++ (crlf ++ t)) ≡ some (s, t)
read_line-append s t h = rw (cut-append b'\r' s (b'\n' ∷ t) h) refl

read_field-append :
    (name value : Bytes)
    → Without b':' name
    → read_field (name ++ (b':' ∷ b' ' ∷ value)) ≡ some (name, value)
read_field-append name value h = rw (cut-append b':' name (b' ' ∷ value) h) refl

-- The fields as the parser of boost::beast leaves them.
abbrev pub AreFields : List (Bytes × Bytes) → Type 0
AreFields = All (λ (f : Bytes × Bytes). Without b':' f.0 × Without b'\r' f.0 × Without b'\r' f.1)

field_line-Without :
    (name value : Bytes)
    → Without b'\r' name
    → Without b'\r' value
    → Without b'\r' (name ++ (b':' ∷ b' ' ∷ value))
field_line-Without name value h k = All-append _ name _ h (refl, (refl, k))

-- One field, in front of a text that is read.
read_fields-step :
    (fuel : ℕ) (name value t : Bytes)
    → Without b':' name
    → Without b'\r' name
    → Without b'\r' value
    → read_fields (suc fuel) ((name ++ (b':' ∷ b' ' ∷ value)) ++ (crlf ++ t))
      ≡ then_try (read_fields fuel t) (λ m. some ((name, value) ∷ m.0, m.1))
read_fields-step fuel [] value t h k l =
    rw (read_line-append (b':' ∷ b' ' ∷ value) t (field_line-Without [] value k l)) refl
read_fields-step fuel (x ∷ name) value t h k l =
    rw
      (read_line-append ((x ∷ name) ++ (b':' ∷ b' ' ∷ value)) t
        (field_line-Without (x ∷ name) value k l))
      (rw (read_field-append (x ∷ name) value h) refl)

field_line-split :
    (name value rest t : Bytes)
    → ((name ++ (b':' ∷ b' ' ∷ (value ++ crlf))) ++ rest) ++ t
      ≡ (name ++ (b':' ∷ b' ' ∷ value)) ++ (crlf ++ (rest ++ t))
field_line-split name value rest t =
    append_assoc (name ++ (b':' ∷ b' ' ∷ (value ++ crlf))) rest t
    ∙ append_assoc name (b':' ∷ b' ' ∷ (value ++ crlf)) (rest ++ t)
    ∙ ap (λ s. name ++ (b':' ∷ b' ' ∷ s)) (append_assoc value crlf (rest ++ t))
    ∙ sym (append_assoc name (b':' ∷ b' ' ∷ value) (crlf ++ (rest ++ t)))

read_fields-lines :
    (fuel : ℕ) (fields : List (Bytes × Bytes)) (body : Bytes)
    → length fields < fuel
    → AreFields fields
    → read_fields fuel (field_lines fields ++ (crlf ++ body)) ≡ some (fields, body)
read_fields-lines zero fields body h a = absurd (omega (arith, h))
read_fields-lines (suc fuel) [] body h a = refl
read_fields-lines (suc fuel) ((name, value) ∷ fields) body h ((p, q, r), a) =
    ap (read_fields (suc fuel)) (field_line-split name value (field_lines fields) (crlf ++ body))
    ∙ read_fields-step fuel name value (field_lines fields ++ (crlf ++ body)) p q r
    ∙ ap (λ o. then_try o (λ m. some ((name, value) ∷ m.0, m.1)))
        (read_fields-lines fuel fields body (omega (arith, h)) a)

to_string-digit : (n : ℕ) → n < 10 → to_string n ≡ (48 + n) ∷ []
unfolding to_string digits
to_string-digit n h = ground (arith, h)

abbrev protocol : ℕ → Bytes
protocol version = text "HTTP/" ++ (48 + version / 10) ∷ b'.' ∷ (48 + version % 10) ∷ []

-- A request line without its end.
abbrev line_of : Bytes → Bytes → Bytes → Bytes
line_of method target rest = method ++ (b' ' ∷ (target ++ (b' ' ∷ rest)))

line_of-append :
    (method target rest t : Bytes)
    → line_of method target rest ++ t ≡ line_of method target (rest ++ t)
line_of-append method target rest t =
    append_assoc method (b' ' ∷ (target ++ (b' ' ∷ rest))) t
    ∙ ap (λ s. method ++ (b' ' ∷ s)) (append_assoc target (b' ' ∷ rest) t)

request_line-protocol :
    (req : Request)
    → req.version < 100
    → request_line req ≡ line_of req.method_string req.target (protocol req.version ++ crlf)
unfolding request_line text
request_line-protocol req h =
    let high : req.version / 10 < 10 = omega (arith, h) in
    let low : req.version % 10 < 10 = omega (arith) in
    rw (to_string-digit (req.version / 10) high, to_string-digit (req.version % 10) low) refl

request_line-split :
    (req : Request) (t : Bytes)
    → req.version < 100
    → request_line req ++ t
      ≡ line_of req.method_string req.target (protocol req.version) ++ (crlf ++ t)
request_line-split req t h =
    let line = line_of-append req.method_string req.target in
    ap (λ s. s ++ t) (request_line-protocol req h)
    ∙ line (protocol req.version ++ crlf) t
    ∙ ap (line_of req.method_string req.target) (append_assoc (protocol req.version) crlf t)
    ∙ sym (line (protocol req.version) (crlf ++ t))

read_request_line-line :
    (req : Request)
    → Without b' ' req.method_string
    → Without b' ' req.target
    → req.version < 100
    → read_request_line (line_of req.method_string req.target (protocol req.version))
      ≡ some (req.method_string, req.target, req.version)
unfolding text equal
read_request_line-line req m t v = rw (cut-append b' ' req.method_string _ m) (
    rw (cut-append b' ' req.target _ t)
      (ap (λ n. some (req.method_string, req.target, n)) (omega (arith, v))))

-- What the parser of boost::beast takes: a method and a target without blanks, names without
-- colons, no carriage returns, and a version of two digits.
pub record IsReadable (req : Request) : Type 0 where
  pub method_is : Without b' ' req.method_string × Without b'\r' req.method_string
  pub target_is : Without b' ' req.target × Without b'\r' req.target
  pub version_is : req.version < 100
  pub fields_are : AreFields req.fields

abbrev pub message_of : Request → Message
message_of req = record {
  method = req.method_string;
  target = req.target;
  version = req.version;
  fields = req.fields;
  body = req.body;
}

protocol-Without : (version : ℕ) → Without b'\r' (protocol version)
unfolding text
protocol-Without version = ground arith

line_of-Without :
    (req : Request)
    → IsReadable req
    → Without b'\r' (line_of req.method_string req.target (protocol req.version))
line_of-Without req h =
    All-append _ req.method_string _ h.method_is.1
      (refl, All-append _ req.target _ h.target_is.1 (refl, protocol-Without req.version))

read_message-lines :
    (fuel : ℕ) (req : Request)
    → IsReadable req
    → length req.fields < fuel
    → read_message fuel (request_line req ++ (field_lines req.fields ++ (crlf ++ req.body)))
      ≡ some (message_of req)
read_message-lines fuel req h enough =
    rw (request_line-split req (field_lines req.fields ++ (crlf ++ req.body)) h.version_is) (
      rw
        (read_line-append (line_of req.method_string req.target (protocol req.version)) _
          (line_of-Without req h))
        (rw (read_request_line-line req h.method_is.0 h.target_is.0 h.version_is)
          (rw (read_fields-lines fuel req.fields req.body enough h.fields_are) refl)))

-- On a request with a method and a target without blanks, names of fields without colons, none of
-- them nor a value with a carriage return, and a version of at most two digits, whose text is
-- shorter than 2^31, the echo handler changes nothing, and answers 200 with plain text and its
-- length. With more fuel than there are fields, the text is read as an HTTP message with the method,
-- the target, the version, the fields, in order, and the body of the request.
pub handle_request-read :
    (http : Http) (laws : HttpLaws http) (req : Request) (w : World) (fuel : ℕ)
    → IsReadable req
    → length (echo_body req) < 2 ^ 31
    → length req.fields < fuel
    → (r : http.Response) × (text_sent : Bytes) × (handle_request http req w ≡ (returns r, w))
      × IsPrepared http r ok (text "text/plain") text_sent
      × (read_message fuel text_sent ≡ some (message_of req))
handle_request-read http laws req w fuel h small enough =
    let (r, e, answer) = handle_request-echoes http laws req w small in
    (r, _, e, answer, read_message-lines fuel req h enough)
