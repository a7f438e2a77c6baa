-- ===== src/Dispatch/Routes.antt =====
-- getRequestType, getStaticFilePath and getCrudEntityPath.
pub mod Classify
pub mod Answer
pub mod Agreement
pub mod Paths
pub mod Entity
pub mod Choice
pub mod Known
use mathlib.Core.Option
use dinner_is_servered.Prelude.{
  ℕ, zero, suc, ◌+◌, ◌-◌, Bool, true, false, List, [], ◌∷◌, ◌++◌, Option, none, some, Bytes, ◌==◌,
  if◌then◌else◌, length, ltb, text, drop, take,
}
use dinner_is_servered.Logging.{info, error}
use dinner_is_servered.Runtime.{
  World, ServerPaths, M, Outcome, returns, undefined, ◌>>=◌, ◌>>◌, pure, crash, gets, log,
}
use dinner_is_servered.Runtime.Dictionary.{StringMap, at_key, keys}
use dinner_is_servered.Runtime.Files.{Node, open_in}
use dinner_is_servered.Dispatch.Request.{
  RequestType, static, echo, none_found, crud, health, sleep, app, bogus_type, Request,
  request_type_tostr,
}
use dinner_is_servered.Dispatch.Target.{squeeze_logged, trim_logged, normalize}
use dinner_is_servered.Dispatch.Longest.{Longest, nothing, scan}

-- `for (auto path : …) logging_buffer->addToBuffer(INFO, path)`
unfoldable pub log_paths : List Bytes → M (Unit {0})
log_paths [] = pure tt
log_paths (path ∷ paths) = do log info path; log_paths paths

-- The six loops of getRequestType, in their order.
unfoldable pub longest_match : ServerPaths → Bytes → Longest
longest_match paths result =
    let s = scan result static (keys paths.static) nothing in
    let c = scan result crud (keys paths.crud) s in
    let e = scan result echo paths.echo c in
    let h = scan result health paths.health e in
    let sl = scan result sleep paths.sleep h in scan result app paths.app sl

-- `server_paths.static_[longest_path] + result.substr(result.find(longest_path) + longest_path.length())`
unfoldable pub static_file : ServerPaths → Bytes → Bytes → Bytes
static_file paths longest_path result =
    at_key paths.static longest_path ++ drop (length longest_path) result

unfoldable pub found_type : RequestType → M RequestType
found_type type = do log info (text "Request is of type " ++ request_type_tostr type); pure type

-- `file.is_open()`
unfoldable pub check_file : Option Node → M RequestType
check_file none = do
  log error (text "File not found. 404 Handler should be invoked")
  pure none_found
check_file (some node) = found_type static

unfoldable pub classify : ServerPaths → Bytes → Longest → RequestType → M RequestType
classify paths result best none_found = do
  log error (text "There was no matching path found for the request. 404 Handler should be invoked")
  pure none_found
classify paths result best static = do
  file ← gets (λ w. open_in w.files (static_file paths best.path result))
  check_file file
classify paths result best type = found_type type

unfoldable pub get_request_type : Request → M RequestType
get_request_type request = do
  log info (text "Paths are: ")
  server_paths ← gets (λ w. w.server_paths)
  log info (text "Determining request type. Target is: " ++ request.target)
  log info (text "Paths are: ")
  log_paths (keys server_paths.static)
  log_paths server_paths.echo
  log_paths (keys server_paths.crud)
  squeezed ← squeeze_logged [] false request.target
  result ← trim_logged (suc (length squeezed)) squeezed
  let best = longest_match server_paths result
  classify server_paths result best best.type

-- The loops of getStaticFilePath leave out all but the static and the echo paths.
unfoldable pub longest_static : ServerPaths → Bytes → Longest
longest_static paths result =
    let s = scan result static (keys paths.static) nothing in scan result echo paths.echo s

unfoldable pub static_path : ServerPaths → Bytes → Longest → RequestType → M Bytes
static_path paths result best static = do
  let file_path = static_file paths best.path result
  log info (text "Set file_path_ to " ++ file_path)
  pure file_path
static_path paths result best _ = do
  log error (text "getStaticFilePath was called for a non-static request")
  pure []

abbrev or_crash : Option Bytes → M Bytes
or_crash none = crash
or_crash (some s) = pure s

unfoldable pub get_static_file_path : Request → M Bytes
get_static_file_path request = do
  server_paths ← gets (λ w. w.server_paths)
  result ← or_crash (normalize request.target)
  let best = longest_static server_paths result
  static_path server_paths result best best.type

-- include/crud_file_manager.h
pub record CrudPath : Type 0 where
  pub data_path : Bytes
  pub entity_name : Bytes
  pub entity_id : Bytes

unfoldable pub longest_crud : ServerPaths → Bytes → Longest
longest_crud paths result =
    let s = scan result static (keys paths.static) nothing in
    let e = scan result echo paths.echo s in scan result crud (keys paths.crud) e

-- `s.find("/")`
unfoldable pub find_slash : Bytes → Option ℕ
find_slash [] = none
find_slash (c ∷ s) =
    let later = Option.map suc (find_slash s) in if c == b'/' then some 0 else later

-- `entity_path.find("/", 1)`
unfoldable pub split_index : Bytes → Option ℕ
split_index [] = none
split_index (c ∷ s) = Option.map suc (find_slash s)

-- `entity_name` and `entity_id`
unfoldable pub split_entity : Bytes → Option ℕ → Bytes × Bytes
split_entity entity_path (some i) = (take (i - 1) (drop 1 entity_path), drop (suc i) entity_path)
split_entity entity_path none =
    if ltb 1 (length entity_path) then (drop 1 entity_path, []) else ([], [])

abbrev pub empty_crud_path : CrudPath
empty_crud_path = record { data_path = []; entity_name = []; entity_id = [] }

unfoldable pub crud_path : ServerPaths → Bytes → Longest → RequestType → M CrudPath
crud_path paths result best crud = do
  let entity_path = drop (length best.path) result
  let (entity_name, entity_id) = split_entity entity_path (split_index entity_path)
  log info (text "entity: " ++ entity_name)
  log info (text "id: " ++ entity_id)
  pure (record {
    data_path = at_key paths.crud best.path;
    entity_name = entity_name;
    entity_id = entity_id;
  })
crud_path paths result best _ = do
  log error (text "getCrudEntityID was called for a non-CRUD request")
  pure empty_crud_path

unfoldable pub get_crud_entity_path : Request → M CrudPath
get_crud_entity_path request = do
  server_paths ← gets (λ w. w.server_paths)
  result ← or_crash (normalize request.target)
  let best = longest_crud server_paths result
  crud_path server_paths result best best.type
