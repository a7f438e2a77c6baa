-- ===== src/Tests/Handlers.antt =====
-- A library of responses that keeps the laws, and runs of the handlers with it.
use dinner_is_servered.Runtime.{bad_alloc}
use dinner_is_servered.Runtime.Numbers.{pos}
use dinner_is_servered.Prelude.{◌^◌, ◌-◌, some}
use dinner_is_servered.Prelude.{
  ◌^◌, false, begins_with, ℕ, ◌<◌, ◌≡◌, ◌≢◌, refl, [], ◌∷◌, Option, none, some, Bytes, text, length,
  arith, All,
}
use dinner_is_servered.Runtime.{World, returns}
use dinner_is_servered.Runtime.Numbers.{to_string, digits}
use dinner_is_servered.Runtime.Quiet.{Quiet, OnlyLogs}
use dinner_is_servered.Dispatch.Request.{Request, RequestType, get, post, unknown}
use dinner_is_servered.Dispatch.Target.{normalize, squeeze, trim, trim_loop, trims, back, pop_back}
use dinner_is_servered.Dispatch.Longest.Best.{ShorterThan}
use dinner_is_servered.Dispatch.Routes.{get_request_type}
use dinner_is_servered.Dispatch.Routes.Classify.{all_routes}
use dinner_is_servered.Dispatch.Send.{Socket, dispatch_request}
use dinner_is_servered.Dispatch.Send.Handled.{dispatch_request-handled, dispatch_request-refused}
use dinner_is_servered.Dispatch.Send.Unmatched.{unmatched-not_found}
use dinner_is_servered.Http.{
  Http, HttpLaws, Status, ok, bad_request, not_found, Field, content_type, content_length,
}
use dinner_is_servered.Registry.{register_all}
use dinner_is_servered.App.Services.{Services, no_handle, unreadable}
use dinner_is_servered.Registry.Factories.{factory_of}
use dinner_is_servered.Handlers.{IsPrepared}
use dinner_is_servered.Handlers.Echo.{echo_body, request_line, add_fields, field_lines}
use dinner_is_servered.Handlers.NotFound.{not_found_body}
use dinner_is_servered.Handlers.Echo.Reads.{
  IsReadable, message_of, read_message, handle_request-read,
}
use dinner_is_servered.Handlers.Static.{DirectoryEnd, invalid_method}
use dinner_is_servered.Handlers.Static.Serves.{handle_request-refuses}
use dinner_is_servered.Handlers.Static
use dinner_is_servered.Handlers.Echo
use dinner_is_servered.Tests.Dispatch.{world, file_request, file_target}

-- The end of a directory is as far as a seek goes, and no vector has that size.
abbrev pub folder : DirectoryEnd
folder = record { told = pos (2 ^ 63 - 1); refused = some bad_alloc }

pub record Reply : Type 0 where
  status : Status
  version : ℕ
  type : Option Bytes
  size : Option Bytes
  payload : Bytes

abbrev set_field : Field → Bytes → Reply → Reply
set_field content_type v r = record r { type = some v }
set_field content_length v r = record r { size = some v }

abbrev field_of : Reply → Field → Option Bytes
field_of r content_type = r.type
field_of r content_length = r.size

abbrev reply : Status → ℕ → Bytes → Reply
reply s v b = record { status = s; version = v; type = none; size = none; payload = b }

abbrev pub library : Http
library = record {
  Response = Reply;
  default_response = reply ok 11 [];
  response = reply;
  set = set_field;
  prepare_payload = λ r. record r { size = some (to_string (length r.payload)) };
  result = λ r. r.status;
  body = λ r. r.payload;
  header = field_of;
  result_int = λ r. [];
  reason = λ r. [];
}

status-set_field : (f : Field) (v : Bytes) (r : Reply) → (set_field f v r).status ≡ r.status
status-set_field content_type v r = refl
status-set_field content_length v r = refl

payload-set_field : (f : Field) (v : Bytes) (r : Reply) → (set_field f v r).payload ≡ r.payload
payload-set_field content_type v r = refl
payload-set_field content_length v r = refl

field_of-reply : (s : Status) (v : ℕ) (b : Bytes) (f : Field) → field_of (reply s v b) f ≡ none
field_of-reply s v b content_type = refl
field_of-reply s v b content_length = refl

field_of-set_field : (f : Field) (v : Bytes) (r : Reply) → field_of (set_field f v r) f ≡ some v
field_of-set_field content_type v r = refl
field_of-set_field content_length v r = refl

field_of-set_field_other :
    (f g : Field) (v : Bytes) (r : Reply) → f ≢ g → field_of (set_field f v r) g ≡ field_of r g
field_of-set_field_other content_type content_type v r h = absurd (h refl)
field_of-set_field_other content_type content_length v r h = refl
field_of-set_field_other content_length content_type v r h = refl
field_of-set_field_other content_length content_length v r h = absurd (h refl)

pub laws : HttpLaws library
laws = record {
  result-response = λ s v b. refl;
  body-response = λ s v b. refl;
  header-response = field_of-reply;
  result-set = status-set_field;
  body-set = payload-set_field;
  header-set = field_of-set_field;
  header-set_other = field_of-set_field_other;
  result-prepare_payload = λ r. refl;
  body-prepare_payload = λ r. refl;
  header-prepare_payload = λ r. refl;
  length-prepare_payload = λ r. refl;
}

abbrev pub socket : Socket
socket = record { address = b'1' ∷ []; failed = false; later_address = b'1' ∷ [] }

-- No transfer can be set up.
abbrev pub offline : Services
offline = record { perform = λ i request. no_handle; read_content = λ answer. unreadable answer }

abbrev pub posted : Request
posted = record {
  method = post;
  method_string = b'P' ∷ [];
  target = b'/' ∷ b'q' ∷ [];
  version = 11;
  fields = (b'h' ∷ [], b'v' ∷ []) ∷ [];
  body = b'!' ∷ [];
}

pub posted-target : posted.target ≢ []
posted-target e = absurd cc

posted-method : posted.method ≢ get
posted-method e = absurd cc

posted-known : posted.method ≢ unknown
posted-known e = absurd cc

get-known : file_request.method ≢ unknown
get-known e = absurd cc

posted-small : length (echo_body posted) < 2 ^ 31
unfolding echo_body request_line add_fields to_string digits text
posted-small = omega arith

posted-normal : normalize posted.target ≡ some posted.target
unfolding normalize squeeze trim trim_loop trims back pop_back
posted-normal = refl

posted-unmatched : All (ShorterThan posted.target 1) (all_routes world.server_paths)
unfolding begins_with
posted-unmatched = ((λ e. absurd cc), ((λ e. absurd cc), tt))

-- A request with a method that the library does not know.
abbrev pub odd : Request
odd = record posted { method = unknown }

posted-IsReadable : IsReadable posted
posted-IsReadable = record {
  method_is = ((refl, tt), (refl, tt));
  target_is = ((refl, (refl, tt)), (refl, (refl, tt)));
  version_is = omega arith;
  fields_are = (((refl, tt), (refl, tt), (refl, tt)), tt);
}

handle_request-read_example :
    (r : Reply) × (text_sent : Bytes) × (Echo.handle_request library posted world
      ≡ (returns r, world))
    × IsPrepared library r ok (text "text/plain") text_sent
    × (read_message 2 text_sent ≡ some (message_of posted))
handle_request-read_example =
    handle_request-read library laws posted world 2 posted-IsReadable posted-small (omega arith)

handle_request-refuses_example :
    (r : Reply) × OnlyLogs (Static.handle_request library folder posted) world (returns r)
    × (library.result r ≡ bad_request)
    × (library.body r ≡ invalid_method)
    × (library.header r content_type ≡ none)
handle_request-refuses_example =
    handle_request-refuses library folder laws posted world posted-method

dispatch_request-handled_example :
    (t : RequestType) × ((get_request_type file_request world).0 ≡ returns t)
    × (w' : World) × Quiet world w'
    × ((dispatch_request library
          (register_all library (factory_of library folder offline))
          socket
          file_request
          world).0
        ≡ (factory_of library folder offline t file_request w').0)
    × Quiet
        (factory_of library folder offline t file_request w').1
        (dispatch_request library
          (register_all library (factory_of library folder offline))
          socket
          file_request
          world).1
dispatch_request-handled_example =
    dispatch_request-handled library (factory_of library folder offline) socket file_request world
      file_target get-known

dispatch_request-refused_example :
    (r : Reply) × OnlyLogs (dispatch_request library [] socket odd) world (returns r)
    × (library.result r ≡ bad_request)
    × (library.body r ≡ [])
dispatch_request-refused_example =
    dispatch_request-refused library laws [] socket odd world posted-target refl

unmatched-not_found_example :
    (response : Reply) × OnlyLogs
      (dispatch_request library
        (register_all library (factory_of library folder offline))
        socket
        posted)
      world
      (returns response)
    × IsPrepared library response not_found (text "text/plain") not_found_body
unmatched-not_found_example =
    unmatched-not_found library laws folder offline socket posted world posted.target posted-target
      posted-known posted-normal posted-unmatched
