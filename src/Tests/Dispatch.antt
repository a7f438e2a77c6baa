-- ===== src/Tests/Dispatch.antt =====
-- Runs of the request dispatcher on one set of paths.
use dinner_is_servered.Prelude.{
  ◌≡◌, ◌≢◌, ◌⊎◌, refl, [], ◌∷◌, ◌++◌, some, Bytes, text, equal, All, begins_with,
}
use dinner_is_servered.Logging.{logging_buffer}
use dinner_is_servered.Runtime.{
  World, ServerPaths, returns, undefined, pure, crash, gets, log, ◌>>=◌,
}
use dinner_is_servered.Runtime.Dictionary.{find, at_key}
use dinner_is_servered.Runtime.Files.{
  directory, Node, regular, open_in, parts_of, same_path, entry, status,
}
use dinner_is_servered.Runtime.Quiet.{OnlyLogs}
use dinner_is_servered.Dispatch.Request.{Request, get, static, crud, none_found}
use dinner_is_servered.Dispatch.Target.{
  normalize, squeeze, trim, trim_loop, trims, back, pop_back, squeeze_logged, trim_logged,
}
use dinner_is_servered.Dispatch.Target.Normal.{IsNormal, normalize_idempotent}
use dinner_is_servered.Dispatch.Longest.{Longest, improves, scan}
use dinner_is_servered.Dispatch.Longest.Best.{IsChosen, ShorterThan}
use dinner_is_servered.Dispatch.Routes.{
  get_request_type, get_static_file_path, get_crud_entity_path, longest_match, longest_static,
  static_file, found_type, check_file, classify, log_paths, static_path,
}
use dinner_is_servered.Dispatch.Routes.Classify.{all_routes}
use dinner_is_servered.Dispatch.Routes.Answer.{answer_from}
use dinner_is_servered.Dispatch.Routes.Paths.{static_request-opens}
use dinner_is_servered.Dispatch.Routes.Entity.{id_of, crud_request-splits}
use dinner_is_servered.Dispatch.Routes.Choice.{get_request_type-chooses}

abbrev slash_s : Bytes
slash_s = b'/' ∷ b's' ∷ []

abbrev slash_a : Bytes
slash_a = b'/' ∷ b'a' ∷ []

-- Static files under /s, entities under /a.
abbrev paths : ServerPaths
paths = record {
  echo = [];
  static = (slash_s, b'd' ∷ []) ∷ [];
  crud = (slash_a, b'e' ∷ []) ∷ [];
  health = [];
  sleep = [];
  app = [];
}

-- The file d/f.
abbrev pub world : World
world = record {
  logging_buffer = logging_buffer [] [];
  files = ((b'd' ∷ []) ∷ (b'f' ∷ []) ∷ [], regular (b'!' ∷ [])) ∷ [];
  server_paths = paths;
  api_key = [];
  chatgpt_url = [];
}

abbrev request_for : Bytes → Request
request_for target = record {
  method = get;
  method_string = text "GET";
  target = target;
  version = 11;
  fields = [];
  body = [];
}

-- `/s//f/`
abbrev pub file_request : Request
file_request = request_for (slash_s ++ b'/' ∷ b'/' ∷ b'f' ∷ b'/' ∷ [])

pub file_target : file_request.target ≢ []
file_target e = absurd cc

pub file_answer : (get_request_type file_request world).0 ≡ returns static
unfolding get_request_type ◌>>=◌ pure crash gets log log_paths squeeze_logged trim_logged trims back
    pop_back longest_match scan improves begins_with classify check_file static_file found_type
    at_key find open_in parts_of same_path entry status equal
file_answer = refl

file_path : (get_static_file_path file_request world).0 ≡ returns (b'd' ∷ b'/' ∷ b'f' ∷ [])
unfolding get_static_file_path ◌>>=◌ pure crash gets log normalize squeeze trim trim_loop trims back
    pop_back longest_static scan improves begins_with static_path static_file at_key find equal
file_path = refl

-- `/a/b/1`
abbrev pub entity_request : Request
entity_request = request_for (slash_a ++ b'/' ∷ b'b' ∷ b'/' ∷ b'1' ∷ [])

entity_answer : (get_request_type entity_request world).0 ≡ returns crud
unfolding get_request_type ◌>>=◌ pure crash gets log log_paths squeeze_logged trim_logged trims back
    pop_back longest_match scan improves begins_with classify check_file static_file found_type
    at_key find open_in parts_of same_path entry status equal
entity_answer = refl

entity_normal : normalize entity_request.target ≡ some entity_request.target
unfolding normalize squeeze trim trim_loop trims back pop_back
entity_normal = refl

entity_route : (longest_match paths entity_request.target).path ≡ slash_a
unfolding longest_match scan improves begins_with
entity_route = refl

-- The route matches in the middle of a name: `/ab/1` is sent to the handler of `/a`.
inside_a_name :
    (get_request_type (request_for (slash_a ++ b'b' ∷ b'/' ∷ b'1' ∷ [])) world).0 ≡ returns crud
unfolding get_request_type ◌>>=◌ pure crash gets log log_paths squeeze_logged trim_logged trims back
    pop_back longest_match scan improves begins_with classify check_file static_file found_type
    at_key find open_in parts_of same_path entry status equal
inside_a_name = refl

no_target : (get_request_type (request_for []) world).0 ≡ undefined
unfolding get_request_type ◌>>=◌ pure crash gets log log_paths squeeze_logged trim_logged trims back
no_target = refl

get_request_type-chooses_example :
    (r : Bytes) × (normalize file_request.target ≡ some r)
    × IsNormal r
    × ((All (ShorterThan r 1) (all_routes world.server_paths)
          × OnlyLogs (get_request_type file_request) world (returns none_found))
        ⊎ ((best : Longest) × IsChosen r (all_routes world.server_paths) best
            × OnlyLogs
                (get_request_type file_request)
                world
                (returns (answer_from world.server_paths world.files r best))))
get_request_type-chooses_example = get_request_type-chooses file_request world file_target

static_request-opens_example :
    (file : Bytes) × (node : Node) × OnlyLogs
      (get_static_file_path file_request)
      world
      (returns file)
    × (open_in world.files file ≡ some node)
static_request-opens_example = static_request-opens file_request world file_answer

crud_request-splits_example :
    (get_crud_entity_path entity_request world).0
    ≡ returns (record {
      data_path = at_key world.server_paths.crud slash_a;
      entity_name = b'b' ∷ [];
      entity_id = id_of (some (b'1' ∷ []));
    })
crud_request-splits_example =
    crud_request-splits entity_request world slash_a b'/' (b'b' ∷ []) (some (b'1' ∷ [])) tt
      (refl, tt) entity_answer entity_normal entity_route

normalize_idempotent_example :
    (r : Bytes) × (normalize file_request.target ≡ some r) × IsNormal r × (normalize r ≡ some r)
normalize_idempotent_example = normalize_idempotent file_request.target file_target

-- A target with "..": the path d/../k of the file k, which stands beside the directory of the route.
abbrev outside : Request
outside = request_for (slash_s ++ b'/' ∷ b'.' ∷ b'.' ∷ b'/' ∷ b'k' ∷ [])

outside_the_root :
    (get_request_type outside (record world {
      files = ((b'k' ∷ []) ∷ [], regular []) ∷ ((b'd' ∷ []) ∷ [], directory) ∷ [];
    })).0
    ≡ returns static
unfolding get_request_type ◌>>=◌ pure crash gets log log_paths squeeze_logged trim_logged trims back
    pop_back longest_match scan improves begins_with classify check_file static_file found_type
    at_key find open_in parts_of same_path entry status equal
outside_the_root = refl
