-- ===== src/Dispatch/Routes/Paths.antt =====
-- getStaticFilePath and getCrudEntityPath on the requests that getRequestType sends to the static
-- and the CRUD handler.
use dinner_is_servered.Runtime.Inversion.{returns-injective}
use dinner_is_servered.Prelude.{
  ◌≡◌, inl, inr, refl, sym, ap, ◌∙◌, [], Option, none, some, Bytes, length, drop, Option-cases,
}
use dinner_is_servered.Logging.{info, error}
use dinner_is_servered.Runtime.{World, ServerPaths, M, returns, undefined, ◌>>=◌}
use dinner_is_servered.Runtime.Dictionary.{at_key}
use dinner_is_servered.Runtime.Files.{Node, FileSystem, open_in}
use dinner_is_servered.Runtime.Quiet.{
  OnlyLogs, OnlyLogs-pure, OnlyLogs-crash, OnlyLogs-gets, OnlyLogs-log_then, OnlyLogs-cast,
  OnlyLogs-bind,
}
use dinner_is_servered.Dispatch.Request.{RequestType, static, none_found, crud, Request}
use dinner_is_servered.Dispatch.Target.{normalize}
use dinner_is_servered.Dispatch.Longest.{Longest}
use dinner_is_servered.Dispatch.Routes.{
  or_crash, longest_match, longest_static, longest_crud, static_file, static_path,
  get_static_file_path, CrudPath, empty_crud_path, split_entity, split_index, crud_path,
  get_crud_entity_path, get_request_type,
}
use dinner_is_servered.Dispatch.Routes.Classify.{
  longest_match-scan_routes, outcome_of, found, decided,
}
use dinner_is_servered.Dispatch.Routes.Answer.{answer, answer_from, get_request_type-answer}
use dinner_is_servered.Dispatch.Routes.Agreement.{
  longest_static-agrees, longest_crud-agrees, Disjoint,
}

OnlyLogs-or_crash : (o : Option Bytes) (w : World) → OnlyLogs (or_crash o) w (outcome_of o)
OnlyLogs-or_crash none w = OnlyLogs-crash w
OnlyLogs-or_crash (some s) w = OnlyLogs-pure w s

-- The steps behind the normalised target.
OnlyLogs-or_crash_then :
    {A : Type 0} (o : Option Bytes) (k : Bytes → M A) (value : Bytes → A) (w : World)
    → ((r : Bytes) (w' : World) → OnlyLogs (k r) w' (returns (value r)))
    → (r : Bytes) → o ≡ some r
    → OnlyLogs (or_crash o >>= k) w (returns (value r))
OnlyLogs-or_crash_then none k value w h r e = let z : none ≡ some r = e in absurd cc
OnlyLogs-or_crash_then (some s) k value w h r e =
    let same : s ≡ r = cc in
    OnlyLogs-cast _ w _ _ (ap (λ x. returns (value x)) same)
      (OnlyLogs-bind _ k w s _ (OnlyLogs-pure w s) (λ w' q. h s w'))

abbrev static_value : ServerPaths → Bytes → Longest → RequestType → Bytes
static_value paths result best static = static_file paths best.path result
static_value paths result best _ = []

OnlyLogs-static_path :
    (paths : ServerPaths) (result : Bytes) (best : Longest) (type : RequestType) (w : World)
    → OnlyLogs
        (static_path paths result best type)
        w
        (returns (static_value paths result best type))
unfolding static_path
OnlyLogs-static_path paths result best static w =
    OnlyLogs-log_then info _ _ w _ (λ w' q. OnlyLogs-pure w' _)
OnlyLogs-static_path paths result best _ w =
    OnlyLogs-log_then error _ _ w _ (λ w' q. OnlyLogs-pure w' [])

get_static_file_path-value :
    (request : Request) (w : World) (r : Bytes)
    → normalize request.target ≡ some r
    → OnlyLogs (get_static_file_path request) w (
        returns (
          static_value w.server_paths r
            (longest_static w.server_paths r)
            (longest_static w.server_paths r).type))
unfolding get_static_file_path
get_static_file_path-value request w r e =
    OnlyLogs-bind _ _ w w.server_paths _ (OnlyLogs-gets w _) (λ w' q.
      OnlyLogs-or_crash_then (normalize request.target) _
        (λ r.
          static_value w.server_paths r (longest_static w.server_paths r)
            (longest_static w.server_paths r).type)
        w' (λ r w''. OnlyLogs-static_path w.server_paths r (longest_static w.server_paths r) _ w'')
        r e)

abbrev pub crud_value : ServerPaths → Bytes → Longest → RequestType → CrudPath
crud_value paths result best crud =
    let entity_path = drop (length best.path) result in
    record {
      data_path = at_key paths.crud best.path;
      entity_name = (split_entity entity_path (split_index entity_path)).0;
      entity_id = (split_entity entity_path (split_index entity_path)).1;
    }
crud_value paths result best _ = empty_crud_path

OnlyLogs-crud_path :
    (paths : ServerPaths) (result : Bytes) (best : Longest) (type : RequestType) (w : World)
    → OnlyLogs (crud_path paths result best type) w (returns (crud_value paths result best type))
unfolding crud_path
OnlyLogs-crud_path paths result best crud w =
    OnlyLogs-log_then info _ _ w _
      (λ w' q. OnlyLogs-log_then info _ _ w' _ (λ w'' q'. OnlyLogs-pure w'' _))
OnlyLogs-crud_path paths result best _ w =
    OnlyLogs-log_then error _ _ w _ (λ w' q. OnlyLogs-pure w' _)

pub get_crud_entity_path-value :
    (request : Request) (w : World) (r : Bytes)
    → normalize request.target ≡ some r
    → OnlyLogs (get_crud_entity_path request) w (
        returns (
          crud_value w.server_paths r
            (longest_crud w.server_paths r)
            (longest_crud w.server_paths r).type))
unfolding get_crud_entity_path
get_crud_entity_path-value request w r e =
    OnlyLogs-bind _ _ w w.server_paths _ (OnlyLogs-gets w _) (λ w' q.
      OnlyLogs-or_crash_then (normalize request.target) _
        (λ r.
          crud_value w.server_paths r (longest_crud w.server_paths r)
            (longest_crud w.server_paths r).type)
        w' (λ r w''. OnlyLogs-crud_path w.server_paths r (longest_crud w.server_paths r) _ w'') r e)

-- The answer as a function of `longest_match`.
get_request_type-decided :
    (request : Request) (w : World) (t : RequestType)
    → (get_request_type request w).0 ≡ returns t
    → (r : Bytes) × (normalize request.target ≡ some r)
      × (decided w.server_paths w.files r
            (longest_match w.server_paths r)
            (longest_match w.server_paths r).type
          ≡ t)
get_request_type-decided request w t h = elim (Option-cases (normalize request.target)) [
  | inl e ↦
      let z : undefined ≡ returns t = ap (answer w.server_paths w.files) (sym e) ∙ sym told ∙ h in
      absurd cc
  | inr (r, e) ↦ (
    r,
    e,
    ap (answer_from w.server_paths w.files r) (longest_match-scan_routes w.server_paths r)
        ∙ returns-injective _ t (ap (answer w.server_paths w.files) (sym e) ∙ sym told ∙ h),
  )
]
  where
    told : (get_request_type request w).0 ≡ answer w.server_paths w.files (normalize request.target)
    told = (get_request_type-answer request w).outcome

decided-static :
    (paths : ServerPaths) (files : FileSystem) (r : Bytes) (best : Longest) (t : RequestType)
    → decided paths files r best t ≡ static
    → (t ≡ static) × (node : Node) × (open_in files (static_file paths best.path r) ≡ some node)
decided-static paths files r best static h =
    elim (Option-cases (open_in files (static_file paths best.path r))) [
      | inl e ↦ let z : none_found ≡ static = ap found (sym e) ∙ h in absurd cc
      | inr (node, e) ↦ (refl, node, e)
    ]
decided-static paths files r best _ h = absurd cc

-- Where getRequestType answers Static, getStaticFilePath changes nothing but the log and returns the
-- path of a file that can be opened.
pub static_request-opens :
    (request : Request) (w : World)
    → (get_request_type request w).0 ≡ returns static
    → (file : Bytes) × (node : Node) × OnlyLogs (get_static_file_path request) w (returns file)
      × (open_in w.files file ≡ some node)
static_request-opens request w h =
    let (r, e, d) = get_request_type-decided request w static h in
    let best = longest_match w.server_paths r in
    let (t, node, o) = decided-static w.server_paths w.files r best best.type d in
    let agrees : longest_static w.server_paths r ≡ best =
      longest_static-agrees w.server_paths r t in
    (
      static_file w.server_paths best.path r,
      node,
      OnlyLogs-cast _ w _ _
          (ap (λ (b : Longest). returns (static_value w.server_paths r b b.type)) agrees
            ∙ ap (λ t. returns (static_value w.server_paths r best t)) t)
          (get_static_file_path-value request w r e),
      o,
    )

found-ne-crud : (o : Option Node) → found o ≡ crud → ⊥
found-ne-crud none h = absurd cc
found-ne-crud (some node) h = absurd cc

decided-crud :
    (paths : ServerPaths) (files : FileSystem) (r : Bytes) (best : Longest) (t : RequestType)
    → decided paths files r best t ≡ crud
    → t ≡ crud
decided-crud paths files r best static h =
    absurd (found-ne-crud (open_in files (static_file paths best.path r)) h)
decided-crud paths files r best crud h = refl
decided-crud paths files r best _ h = absurd cc

-- Where getRequestType answers CRUD and no echo path is a CRUD path, getCrudEntityPath cuts the
-- normalised target behind the path that getRequestType chose, and takes that path's directory.
pub crud_request-entity :
    (request : Request) (w : World)
    → Disjoint w.server_paths
    → (get_request_type request w).0 ≡ returns crud
    → (r : Bytes) × (normalize request.target ≡ some r)
      × ((get_crud_entity_path request w).0
          ≡ returns (crud_value w.server_paths r (longest_match w.server_paths r) crud))
crud_request-entity request w disjoint h =
    let (r, e, d) = get_request_type-decided request w crud h in
    let best = longest_match w.server_paths r in
    let t = decided-crud w.server_paths w.files r best best.type d in
    let agrees : longest_crud w.server_paths r ≡ best =
      longest_crud-agrees w.server_paths r disjoint t in
    (
      r,
      e,
      (get_crud_entity_path-value request w r e).outcome
          ∙ ap (λ (b : Longest). returns (crud_value w.server_paths r b b.type)) agrees
          ∙ ap (λ t. returns (crud_value w.server_paths r best t)) t,
    )
