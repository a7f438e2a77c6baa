-- ===== src/Dispatch/Routes/Known.antt =====
-- The types that getRequestType gives.
use dinner_is_servered.Prelude.{◌≢◌, inl, inr, sym, ap, ◌∙◌, List, [], Option, none, some, Bytes}
use dinner_is_servered.Runtime.{World, ServerPaths, returns}
use dinner_is_servered.Runtime.Dictionary.{keys}
use dinner_is_servered.Runtime.Files.{Node, FileSystem, open_in}
use dinner_is_servered.Runtime.Quiet.{OnlyLogs, OnlyLogs-cast}
use dinner_is_servered.Dispatch.Request.{
  Request, RequestType, static, echo, none_found, crud, health, sleep, app, bogus_type,
}
use dinner_is_servered.Dispatch.Target.Normal.{normalize-IsNormal}
use dinner_is_servered.Dispatch.Longest.{Longest, nothing, scan}
use dinner_is_servered.Dispatch.Longest.Changes.{scan-cases}
use dinner_is_servered.Dispatch.Routes.{get_request_type, longest_match, static_file}
use dinner_is_servered.Dispatch.Routes.Classify.{decided, found, longest_match-scan_routes}
use dinner_is_servered.Dispatch.Routes.Answer.{answer, answer_from, get_request_type-answer}

-- The loops choose no BogusType.
scan-ne-bogus :
    (result : Bytes) (type : RequestType) (paths : List Bytes) (best : Longest)
    → type ≢ bogus_type
    → best.type ≢ bogus_type
    → (scan result type paths best).type ≢ bogus_type
scan-ne-bogus result type paths best h k e = elim (scan-cases result type paths best) [
  | inl same ↦ k (sym (ap (λ (b : Longest). b.type) same) ∙ e)
  | inr c ↦ h (sym c.type_is ∙ e)
]

longest_match-ne-bogus :
    (paths : ServerPaths) (r : Bytes) → (longest_match paths r).type ≢ bogus_type
unfolding longest_match
longest_match-ne-bogus paths r =
    scan-ne-bogus r app paths.app _ (λ e. absurd cc)
      (scan-ne-bogus r sleep paths.sleep _ (λ e. absurd cc)
        (scan-ne-bogus r health paths.health _ (λ e. absurd cc)
          (scan-ne-bogus r echo paths.echo _ (λ e. absurd cc)
            (scan-ne-bogus r crud (keys paths.crud) _ (λ e. absurd cc)
              (scan-ne-bogus r static (keys paths.static) nothing (λ e. absurd cc)
                (λ e. absurd cc))))))

found-ne-bogus : (o : Option Node) → found o ≢ bogus_type
found-ne-bogus none e = absurd cc
found-ne-bogus (some node) e = absurd cc

decided-ne-bogus :
    (paths : ServerPaths) (files : FileSystem) (r : Bytes) (best : Longest) (t : RequestType)
    → t ≢ bogus_type
    → decided paths files r best t ≢ bogus_type
decided-ne-bogus paths files r best static h =
    found-ne-bogus (open_in files (static_file paths best.path r))
decided-ne-bogus paths files r best bogus_type h = h
decided-ne-bogus paths files r best echo h = h
decided-ne-bogus paths files r best none_found h = h
decided-ne-bogus paths files r best crud h = h
decided-ne-bogus paths files r best health h = h
decided-ne-bogus paths files r best sleep h = h
decided-ne-bogus paths files r best app h = h

-- getRequestType on a target that is not empty.
pub get_request_type-known :
    (request : Request) (w : World)
    → request.target ≢ []
    → (t : RequestType) × (t ≢ bogus_type) × OnlyLogs (get_request_type request) w (returns t)
get_request_type-known request w h =
    let (r, e, n) = normalize-IsNormal request.target h in
    let best = longest_match w.server_paths r in
    (
      answer_from w.server_paths w.files r best,
      decided-ne-bogus w.server_paths w.files r best best.type
          (longest_match-ne-bogus w.server_paths r),
      OnlyLogs-cast _ w _ _
          (ap (answer w.server_paths w.files) e
            ∙ ap (λ b. returns (answer_from w.server_paths w.files r b))
                (sym (longest_match-scan_routes w.server_paths r)))
          (get_request_type-answer request w),
    )
