-- ===== src/Handlers/Static.antt =====
-- src/static_handler.cc. What a seek to the end of a directory gives, and whether a vector of that
-- size can be made, is a parameter, `directory_end`; to read from a directory fails.
pub mod Serves
use dinner_is_servered.Prelude.{
  ℕ, zero, suc, Bool, true, false, ◌||◌, List, [], ◌∷◌, ◌++◌, Option, none, some, Bytes, text,
  equal, length, ◌==◌, if◌then◌else◌,
}
use dinner_is_servered.Logging.{info, error}
use dinner_is_servered.Runtime.{
  World, Exception, length_error, Outcome, returns, throws, M, ◌>>=◌, ◌>>◌, pure, gets, log, lift,
}
use dinner_is_servered.Runtime.Files.{Node, directory, regular, open_in}
use dinner_is_servered.Runtime.Numbers.{ℤ, pos, negsuc, to_string, to_string_int}
use dinner_is_servered.Dispatch.Request.{Request, Verb, get}
use dinner_is_servered.Dispatch.Routes.{get_static_file_path}
use dinner_is_servered.Http.{Http, ok, bad_request, not_found, content_type, content_length}

-- `file_path.substr(file_path.find_last_of("."))`; `none` where there is no dot
unfoldable pub extension : Bytes → Option Bytes
extension [] = none
extension (c ∷ s) = elim (extension s) [
  | some e ↦ some e
  | none ↦ if c == b'.' then some (c ∷ s) else none
]

unfoldable pub extension_type : Bytes → Bytes
extension_type e =
    if equal e (text ".jpeg") || equal e (text ".jpg")
    then text "image/jpeg"
    else if equal e (text ".html")
    then text "text/html"
    else if equal e (text ".txt")
    then text "text/plain"
    else if equal e (text ".zip")
    then text "application/zip"
    else []

-- The empty string is returned behind a message only.
unfoldable pub give_type : Bytes → M Bytes
give_type [] = do log error (text "File extension type not supported"); pure []
give_type (c ∷ type) = pure (c ∷ type)

unfoldable pub content_type_of : Option Bytes → M Bytes
content_type_of none = do log error (text "No file extension found"); pure []
content_type_of (some e) = give_type (extension_type e)

unfoldable pub get_response_content_type : Bytes → M Bytes
get_response_content_type file_path = content_type_of (extension file_path)

-- A directory that was opened as a file: what `tellg` gives behind `seekg(0, end)`, which may be
-- negative, and the exception of `std::vector<char> res(file_size)`, if it throws one.
pub record DirectoryEnd : Type 0 where
  pub told : ℤ
  pub refused : Option Exception

-- zeros
abbrev pub zeros : ℕ → Bytes
zeros zero = []
zeros (suc n) = 0 ∷ zeros n

-- `std::vector<char> res(file_size)` for a directory. A vector of 2^64 bytes less some is never
-- made.
unfoldable pub allocated : DirectoryEnd → Outcome Bytes
allocated directory_end = elim directory_end.refused [
  | some e ↦ throws e
  | none ↦ elim directory_end.told [ pos n ↦ returns (zeros n) | negsuc n ↦ throws length_error ]
]

unfoldable pub is_get : Verb → Bool
is_get get = true
is_get _ = false

abbrev pub invalid_method : Bytes
invalid_method = text "Invalid HTTP method, expected GET\r\n\r\n"

module _ (http : Http) (directory_end : DirectoryEnd) where
  -- `seekg(0, end)` and `tellg()`
  unfoldable pub file_size : Node → ℤ
  file_size directory = directory_end.told
  file_size (regular content) = pos (length content)

  -- `std::vector<char> res(file_size)` and `file.read(res.data(), file_size)`
  unfoldable pub read : Node → M Bytes
  read directory = do
    res ← lift (allocated directory_end)
    log error (text "Failed to read file")
    pure res
  read (regular content) = pure content

  unfoldable pub send : Node → Bytes → M http.Response
  send node [] = do
    log error (text "Unsupported file type")
    pure (http.prepare_payload (http.response not_found 11 []))
  send node (c ∷ type) = do
    res ← read node
    pure (
        http.set content_length (to_string (length res))
          (http.set content_type (c ∷ type) (http.response ok 11 res)))

  unfoldable pub serve : Bytes → Option Node → M http.Response
  serve file_path none = do
    log error (text "File not found")
    pure (http.prepare_payload (http.response not_found 11 []))
  serve file_path (some node) = do
    log info (text "File found")
    log info (text "Obtained file size of " ++ to_string_int (file_size node))
    response_content_type ← get_response_content_type file_path
    send node response_content_type

  -- The flag is whether the method is GET.
  unfoldable pub respond : Bool → Request → M http.Response
  respond false req = do
    log error (text "Invalid HTTP method, expected GET")
    pure (http.prepare_payload (http.response bad_request 11 invalid_method))
  respond true req = do
    file_path ← get_static_file_path req
    file ← gets (λ w. open_in w.files file_path)
    serve file_path file

  unfoldable pub handle_request : Request → M http.Response
  handle_request req = respond (is_get req.method) req
