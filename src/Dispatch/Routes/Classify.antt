-- ===== src/Dispatch/Routes/Classify.antt =====
-- The parts of getRequestType: what each logs and returns.
use dinner_is_servered.Prelude.{
  ℕ, zero, suc, Bool, ◌&&◌, ◌≡◌, inl, inr, ap, ◌∙◌, List, [], ◌∷◌, ◌++◌, Option, none, some, Bytes,
  Bool-cases, Option-cases, ◌==◌,
}
use dinner_is_servered.Logging.{info, error}
use dinner_is_servered.Runtime.{World, ServerPaths, Outcome, returns, undefined}
use dinner_is_servered.Runtime.Dictionary.{keys}
use dinner_is_servered.Runtime.Files.{Node, FileSystem, open_in}
use dinner_is_servered.Runtime.Quiet.{
  OnlyLogs, OnlyLogs-pure, OnlyLogs-crash, OnlyLogs-gets, OnlyLogs-log_then, OnlyLogs-bind,
}
use dinner_is_servered.Dispatch.Request.{
  RequestType, static, echo, none_found, crud, health, sleep, app, bogus_type,
}
use dinner_is_servered.Dispatch.Target.{
  squeeze, squeeze_logged, trims, trim_loop, trim_logged, pop_back,
}
use dinner_is_servered.Dispatch.Longest.{Longest, nothing}
use dinner_is_servered.Dispatch.Longest.Best.{
  Route, routes_of, scan_routes, scan-scan_routes, scan_routes-append,
}
use dinner_is_servered.Dispatch.Routes.{
  log_paths, longest_match, static_file, found_type, check_file, classify,
}

pub OnlyLogs-log_paths :
    (paths : List Bytes) (w : World) → OnlyLogs (log_paths paths) w (returns tt)
unfolding log_paths
OnlyLogs-log_paths [] w = OnlyLogs-pure w tt
OnlyLogs-log_paths (path ∷ paths) w =
    OnlyLogs-log_then info _ _ w _ (λ w' q. OnlyLogs-log_paths paths w')

pub OnlyLogs-squeeze :
    (r : Bytes) (p : Bool) (t : Bytes) (w : World)
    → OnlyLogs (squeeze_logged r p t) w (returns (squeeze r p t))
unfolding squeeze_logged squeeze
OnlyLogs-squeeze r p [] w = OnlyLogs-pure w r
OnlyLogs-squeeze r p (c ∷ t) w = elim (Bool-cases (c == b'/' && p)) [
  | inl e ↦
      rw (e, squeeze_logged, squeeze)
        (OnlyLogs-log_then info _ _ w _ (λ w' q. OnlyLogs-squeeze r p t w'))
  | inr e ↦ rw (e, squeeze_logged, squeeze) (OnlyLogs-squeeze (r ++ c ∷ []) (c == b'/') t w)
]

-- A value of a loop that may have undefined behaviour.
abbrev pub outcome_of : Option Bytes → Outcome Bytes
outcome_of none = undefined
outcome_of (some s) = returns s

pub OnlyLogs-trim :
    (fuel : ℕ) (r : Bytes) (w : World)
    → OnlyLogs (trim_logged fuel r) w (outcome_of (trim_loop fuel r))
unfolding trim_logged trim_loop
OnlyLogs-trim zero r w = OnlyLogs-pure w r
OnlyLogs-trim (suc fuel) r w = elim (Option-cases (trims r)) [
  | inl e ↦ rw (e, trim_logged, trim_loop) (OnlyLogs-crash w)
  | inr (b, e) ↦ elim (Bool-cases b) [
    | inl h ↦
        rw (e ∙ ap some h, trim_logged, trim_loop)
          (OnlyLogs-log_then info _ _ w _ (λ w' q. OnlyLogs-trim fuel (pop_back r) w'))
    | inr h ↦ rw (e ∙ ap some h, trim_logged, trim_loop) (OnlyLogs-pure w r)
  ]
]

-- The routes in the order of the six loops.
abbrev pub all_routes : ServerPaths → List Route
all_routes paths =
    routes_of static (keys paths.static)
    ++ (routes_of crud (keys paths.crud)
        ++ (routes_of echo paths.echo
            ++ (routes_of health paths.health
                ++ (routes_of sleep paths.sleep ++ routes_of app paths.app))))

pub longest_match-scan_routes :
    (paths : ServerPaths) (result : Bytes)
    → longest_match paths result ≡ scan_routes result (all_routes paths) nothing
unfolding longest_match
longest_match-scan_routes paths result = simp (scan_routes-append, scan-scan_routes)

-- The answer for a path whose closest match is `best`: its type, but for a static file that cannot
-- be opened.
abbrev pub found : Option Node → RequestType
found none = none_found
found (some node) = static

abbrev pub decided : ServerPaths → FileSystem → Bytes → Longest → RequestType → RequestType
decided paths files result best static = found (open_in files (static_file paths best.path result))
decided paths files result best type = type

OnlyLogs-found_type : (type : RequestType) (w : World) → OnlyLogs (found_type type) w (returns type)
unfolding found_type
OnlyLogs-found_type type w = OnlyLogs-log_then info _ _ w _ (λ w' q. OnlyLogs-pure w' type)

OnlyLogs-check_file :
    (node : Option Node) (w : World) → OnlyLogs (check_file node) w (returns (found node))
unfolding check_file
OnlyLogs-check_file none w = OnlyLogs-log_then error _ _ w _ (λ w' q. OnlyLogs-pure w' none_found)
OnlyLogs-check_file (some node) w = OnlyLogs-found_type static w

pub OnlyLogs-classify :
    (paths : ServerPaths) (result : Bytes) (best : Longest) (type : RequestType) (w : World)
    → OnlyLogs
        (classify paths result best type)
        w
        (returns (decided paths w.files result best type))
unfolding classify
OnlyLogs-classify paths result best none_found w =
    OnlyLogs-log_then error _ _ w _ (λ w' q. OnlyLogs-pure w' none_found)
OnlyLogs-classify paths result best static w =
    OnlyLogs-bind _ check_file w (open_in w.files (static_file paths best.path result)) _
      (OnlyLogs-gets w _) (λ w' q. OnlyLogs-check_file _ w')
OnlyLogs-classify paths result best echo w = OnlyLogs-found_type echo w
OnlyLogs-classify paths result best crud w = OnlyLogs-found_type crud w
OnlyLogs-classify paths result best health w = OnlyLogs-found_type health w
OnlyLogs-classify paths result best sleep w = OnlyLogs-found_type sleep w
OnlyLogs-classify paths result best app w = OnlyLogs-found_type app w
OnlyLogs-classify paths result best bogus_type w = OnlyLogs-found_type bogus_type w
