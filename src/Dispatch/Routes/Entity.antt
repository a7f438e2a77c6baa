-- ===== src/Dispatch/Routes/Entity.antt =====
-- getCrudEntityPath: the path behind the CRUD route, its entity name and its id.
use mathlib.Core.Option
use dinner_is_servered.Prelude.{
  ℕ, suc, ◌-◌, ◌≡◌, refl, sym, ap, ap₂, ◌∙◌, false, [], ◌∷◌, ◌++◌, Option, none, some, Bytes, arith,
  length, drop, take, ◌==◌, All, drop-append, take-append,
}
use dinner_is_servered.Runtime.{ServerPaths, World, returns, undefined, crash, pure, gets}
use dinner_is_servered.Runtime.Inversion.{steps-returns}
use dinner_is_servered.Runtime.Quiet.{OnlyLogs, OnlyLogs-cast}
use dinner_is_servered.Runtime.Dictionary.{at_key}
use dinner_is_servered.Dispatch.Request.{crud, Request}
use dinner_is_servered.Dispatch.Target.{normalize}
use dinner_is_servered.Dispatch.Longest.{Longest}
use dinner_is_servered.Dispatch.Routes.{
  or_crash, CrudPath, find_slash, split_index, split_entity, longest_match, get_request_type,
  get_crud_entity_path,
}
use dinner_is_servered.Dispatch.Routes.Paths.{
  crud_value, crud_request-entity, get_crud_entity_path-value,
}
use dinner_is_servered.Dispatch.Routes.Agreement.{Disjoint}

abbrev pub NoSlash : Bytes → Type 0
NoSlash = All (λ c. (c == b'/') ≡ false)

find_slash-append :
    (name rest : Bytes) → NoSlash name → find_slash (name ++ b'/' ∷ rest) ≡ some (length name)
unfolding find_slash
find_slash-append [] rest h = refl
find_slash-append (c ∷ name) rest (e, h) =
    rw (e, find_slash) (ap (Option.map suc) (find_slash-append name rest h))

find_slash-none : (name : Bytes) → NoSlash name → find_slash name ≡ none
unfolding find_slash
find_slash-none [] h = refl
find_slash-none (c ∷ name) (e, h) =
    rw (e, find_slash) (ap (Option.map suc) (find_slash-none name h))

drop_behind : (name id : Bytes) → drop (suc (length name)) (name ++ b'/' ∷ id) ≡ id
drop_behind [] id = refl
drop_behind (c ∷ name) id = drop_behind name id

split_index-append :
    (c : ℕ) (name rest : Bytes)
    → NoSlash name
    → split_index (c ∷ (name ++ b'/' ∷ rest)) ≡ some (suc (length name))
unfolding split_index
split_index-append c name rest h = ap (Option.map suc) (find_slash-append name rest h)

split_entity-append :
    (c : ℕ) (name id : Bytes)
    → split_entity (c ∷ (name ++ b'/' ∷ id)) (some (suc (length name))) ≡ (name, id)
unfolding split_entity
split_entity-append c name id =
    let n : suc (length name) - 1 ≡ length name = omega arith in
    ap₂ {C = Bytes × Bytes} (λ a b. (a, b))
      (ap (λ k. take k (name ++ b'/' ∷ id)) n ∙ take-append name (b'/' ∷ id)) (drop_behind name id)

split_entity-name :
    (c : ℕ) (name : Bytes)
    → NoSlash name
    → split_entity (c ∷ name) (split_index (c ∷ name)) ≡ (name, [])
unfolding split_entity split_index
split_entity-name c [] h = rw (find_slash-none [] h) refl
split_entity-name c (d ∷ name) h = rw (find_slash-none (d ∷ name) h) (ground arith)

-- `entity_path` is what stands behind the route.
crud_value-behind :
    (paths : ServerPaths) (best : Longest) (behind name id : Bytes)
    → split_entity behind (split_index behind) ≡ (name, id)
    → crud_value paths (best.path ++ behind) best crud
      ≡ record { data_path = at_key paths.crud best.path; entity_name = name; entity_id = id }
crud_value-behind paths best behind name id e = rw (drop-append best.path behind) (
    ap
      (λ (x : Bytes × Bytes). record {
        data_path = at_key paths.crud best.path;
        entity_name = x.0;
        entity_id = x.1;
      })
      e)

-- Behind the route, one byte is dropped, whatever it is; then comes the name, up to the next slash,
-- and the id, which is the rest. Without a second slash there is no id.
crud_value-entity :
    (paths : ServerPaths) (best : Longest) (c : ℕ) (name id : Bytes)
    → NoSlash name
    → (crud_value paths (best.path ++ c ∷ (name ++ b'/' ∷ id)) best crud
        ≡ record { data_path = at_key paths.crud best.path; entity_name = name; entity_id = id })
      × (crud_value paths (best.path ++ c ∷ name) best crud
          ≡ record { data_path = at_key paths.crud best.path; entity_name = name; entity_id = [] })
crud_value-entity paths best c name id h = (
  crud_value-behind paths best _ name id (
      ap (split_entity (c ∷ (name ++ b'/' ∷ id))) (split_index-append c name id h)
      ∙ split_entity-append c name id),
  crud_value-behind paths best _ name [] (split_entity-name c name h),
)

-- What stands behind the byte after the route: a name, or a name, a slash and an id.
abbrev pub behind : Bytes → Option Bytes → Bytes
behind name none = name
behind name (some id) = name ++ b'/' ∷ id

abbrev pub id_of : Option Bytes → Bytes
id_of none = []
id_of (some id) = id

crud_value-behind_name :
    (paths : ServerPaths) (best : Longest) (c : ℕ) (name : Bytes) (id : Option Bytes)
    → NoSlash name
    → crud_value paths (best.path ++ c ∷ behind name id) best crud
      ≡ record { data_path = at_key paths.crud best.path; entity_name = name; entity_id = id_of id }
crud_value-behind_name paths best c name none h = (crud_value-entity paths best c name [] h).1
crud_value-behind_name paths best c name (some id) h = (crud_value-entity paths best c name id h).0

-- Where getRequestType answers CRUD by a route, no echo path is a CRUD path, and the normalised
-- target is the route, one byte of any kind, and a name without slashes, with or without a slash
-- and an id behind it, getCrudEntityPath returns the directory of the route, the name, and the id
-- or the empty string.
pub crud_request-splits :
    (request : Request) (w : World) (route : Bytes) (c : ℕ) (name : Bytes) (id : Option Bytes)
    → Disjoint w.server_paths
    → NoSlash name
    → (get_request_type request w).0 ≡ returns crud
    → normalize request.target ≡ some (route ++ c ∷ behind name id)
    → (longest_match w.server_paths (route ++ c ∷ behind name id)).path ≡ route
    → (get_crud_entity_path request w).0
      ≡ returns (record {
        data_path = at_key w.server_paths.crud route;
        entity_name = name;
        entity_id = id_of id;
      })
crud_request-splits request w route c name id disjoint h answers normal chosen =
    let (r, e, told) = crud_request-entity request w disjoint answers in
    let same : r ≡ route ++ c ∷ behind name id = cc in
    let best = longest_match w.server_paths (route ++ c ∷ behind name id) in
    told
    ∙ ap (λ s. returns (crud_value w.server_paths s (longest_match w.server_paths s) crud)) same
    ∙ ap (λ p. returns (crud_value w.server_paths (p ++ c ∷ behind name id) best crud)) (sym chosen)
    ∙ ap returns (crud_value-behind_name w.server_paths best c name id h)
    ∙ ap
        (λ p. returns (record {
          data_path = at_key w.server_paths.crud p;
          entity_name = name;
          entity_id = id_of id;
        }))
        chosen

or_crash-returns :
    (o : Option Bytes) (w : World) (r : Bytes) → (or_crash o w).0 ≡ returns r → o ≡ some r
unfolding crash pure
or_crash-returns none w r h = let z : undefined ≡ returns r = h in absurd cc
or_crash-returns (some s) w r h = let z : returns s ≡ returns r = h in cc

-- Where it returns, getCrudEntityPath has changed nothing but the log.
pub get_crud_entity_path-OnlyLogs :
    (request : Request) (w : World) (path : CrudPath)
    → (get_crud_entity_path request w).0 ≡ returns path
    → OnlyLogs (get_crud_entity_path request) w (returns path)
unfolding get_crud_entity_path
get_crud_entity_path-OnlyLogs request w path h =
    let (paths, _, behind) = steps-returns (gets (λ w. w.server_paths)) _ w path h in
    let (r, e, _) = steps-returns (or_crash (normalize request.target)) _ _ path behind in
    let known = get_crud_entity_path-value request w r (or_crash-returns _ _ r e) in
    OnlyLogs-cast _ w _ _ (sym known.outcome ∙ h) known
