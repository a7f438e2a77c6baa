-- ===== src/Dispatch/Routes/Choice.antt =====
-- getRequestType as a whole: the normal form of the target, the choice of a route, the answer.
use dinner_is_servered.Prelude.{◌≡◌, ◌≢◌, ◌⊎◌, inl, inr, ap, [], some, Bytes, All}
use dinner_is_servered.Runtime.{World, returns}
use dinner_is_servered.Runtime.Quiet.{OnlyLogs, OnlyLogs-cast}
use dinner_is_servered.Dispatch.Request.{Request, none_found}
use dinner_is_servered.Dispatch.Target.{normalize}
use dinner_is_servered.Dispatch.Target.Normal.{IsNormal, normalize-IsNormal}
use dinner_is_servered.Dispatch.Longest.{Longest, nothing}
use dinner_is_servered.Dispatch.Longest.Best.{
  IsChosen, ShorterThan, scan_routes, scan_routes-IsChosen,
}
use dinner_is_servered.Dispatch.Routes.{get_request_type}
use dinner_is_servered.Dispatch.Routes.Classify.{all_routes}
use dinner_is_servered.Dispatch.Routes.Answer.{answer, answer_from, get_request_type-answer}

-- On a target that is not empty, getRequestType returns, and changes nothing but the log. Of the
-- target without doubled and trailing slashes, either no route's path that is not empty is a prefix,
-- and the answer is None; or the first of the longest such routes is chosen, and the answer is its
-- type, or None where it is static and its file cannot be opened.
pub get_request_type-chooses :
    (request : Request) (w : World)
    → request.target ≢ []
    → (r : Bytes) × (normalize request.target ≡ some r)
      × IsNormal r
      × ((All (ShorterThan r 1) (all_routes w.server_paths)
            × OnlyLogs (get_request_type request) w (returns none_found))
          ⊎ ((best : Longest) × IsChosen r (all_routes w.server_paths) best
              × OnlyLogs
                  (get_request_type request)
                  w
                  (returns (answer_from w.server_paths w.files r best))))
get_request_type-chooses request w h =
    let (r, e, n) = normalize-IsNormal request.target h in
    let told =
      OnlyLogs-cast _ w _ _ (ap (answer w.server_paths w.files) e)
        (get_request_type-answer request w) in
    (
      r,
      e,
      n,
      elim (scan_routes-IsChosen r (all_routes w.server_paths)) [
        | inl (none_best, a) ↦ inl (
          a,
          OnlyLogs-cast _ w _ _
              (ap (λ b. returns (answer_from w.server_paths w.files r b)) none_best) told,
        )
        | inr c ↦ inr (scan_routes r (all_routes w.server_paths) nothing, c, told)
      ],
    )
