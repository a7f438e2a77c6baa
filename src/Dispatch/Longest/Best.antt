-- ===== src/Dispatch/Longest/Best.antt =====
-- The loops that look for the closest matching path as one loop over routes, and its choice.
use dinner_is_servered.Prelude.{
  All-weaken, append-nil, ℕ, ◌≤◌, ◌<◌, true, false, ◌≡◌, ◌⊎◌, inl, inr, refl, ap, ◌∙◌, List, [],
  ◌∷◌, ◌++◌, Bytes, arith, length, if◌then◌else◌, begins_with, All, All-append, append_assoc,
}
use dinner_is_servered.Dispatch.Request.{RequestType}
use dinner_is_servered.Dispatch.Longest.{Longest, nothing, improves, scan}

-- A path with the type of its requests.
pub record Route : Type 0 where
  pub type : RequestType
  pub path : Bytes

abbrev pub routes_of : RequestType → List Bytes → List Route
routes_of type [] = []
routes_of type (path ∷ paths) = record { type = type; path = path } ∷ routes_of type paths

-- The loops as one loop over the routes of every type.
abbrev pub update : Bytes → Route → Longest → Longest
update result r best =
    if improves result r.path best.size
    then record { size = length r.path; path = r.path; type = r.type }
    else best

abbrev pub scan_routes : Bytes → List Route → Longest → Longest
scan_routes result [] best = best
scan_routes result (r ∷ rs) best = scan_routes result rs (update result r best)

pub scan-scan_routes :
    (result : Bytes) (type : RequestType) (paths : List Bytes) (best : Longest)
    → scan result type paths best ≡ scan_routes result (routes_of type paths) best
unfolding scan
scan-scan_routes result type [] best = refl
scan-scan_routes result type (path ∷ paths) best = scan-scan_routes result type paths _

pub scan_routes-append :
    (result : Bytes) (rs ss : List Route) (best : Longest)
    → scan_routes result (rs ++ ss) best ≡ scan_routes result ss (scan_routes result rs best)
scan_routes-append result [] ss best = refl
scan_routes-append result (r ∷ rs) ss best = scan_routes-append result rs ss (update result r best)

-- The route matches, and by a path that is not empty.
abbrev pub Matches : Bytes → Route → Type 0
Matches result r = (begins_with result r.path ≡ true) × (0 < length r.path)

abbrev pub ShorterThan : Bytes → ℕ → Route → Type 0
ShorterThan result n r = begins_with result r.path ≡ true → length r.path < n

abbrev pub NoLongerThan : Bytes → ℕ → Route → Type 0
NoLongerThan result n r = begins_with result r.path ≡ true → length r.path ≤ n

-- The choice is a route that matches; those before it that match are shorter, and those behind it
-- that match are no longer.
pub record IsChosen (result : Bytes) (routes : List Route) (best : Longest) : Type 0 where
  pub before : List Route
  pub route : Route
  pub behind : List Route
  pub splits : routes ≡ before ++ (route ∷ behind)
  pub is_best : best ≡ record { size = length route.path; path = route.path; type = route.type }
  pub matched : Matches result route
  pub shorter : All (ShorterThan result (length route.path)) before
  pub no_longer : All (NoLongerThan result (length route.path)) behind

-- With the loop at some route: nothing has been chosen, or a choice among the routes so far.
abbrev Progress : Bytes → List Route → Longest → Type 0
Progress result seen best =
    ((best ≡ nothing) × All (ShorterThan result 1) seen) ⊎ IsChosen result seen best

improves_iff :
    (result path : Bytes) (n : ℕ)
    → ((improves result path n ≡ true) × (begins_with result path ≡ true) × (n < length path))
      ⊎ ((improves result path n ≡ false) × (begins_with result path ≡ true → length path ≤ n))
unfolding improves
improves_iff result path n = ground arith

abbrev chosen_by : Route → Longest
chosen_by r = record { size = length r.path; path = r.path; type = r.type }

update-chosen :
    (result : Bytes) (r : Route) (best : Longest)
    → improves result r.path best.size ≡ true
    → update result r best ≡ chosen_by r
update-chosen result r best e = rw e

update-kept :
    (result : Bytes) (r : Route) (best : Longest)
    → improves result r.path best.size ≡ false
    → update result r best ≡ best
update-kept result r best e = rw e

-- A route that is longer than all routes before it.
IsChosen-last :
    (result : Bytes) (seen : List Route) (r : Route) (best : Longest)
    → best ≡ chosen_by r
    → Matches result r
    → All (ShorterThan result (length r.path)) seen
    → IsChosen result (seen ++ r ∷ []) best
IsChosen-last result seen r best e m a = record {
  before = seen;
  route = r;
  behind = [];
  splits = refl;
  is_best = e;
  matched = m;
  shorter = a;
  no_longer = tt;
}

-- A route that is no longer than the choice.
IsChosen-concat :
    (result : Bytes) (seen : List Route) (r : Route) (best : Longest)
    (c : IsChosen result seen best)
    → NoLongerThan result (length c.route.path) r
    → IsChosen result (seen ++ r ∷ []) best
IsChosen-concat result seen r best c h = record {
  before = c.before;
  route = c.route;
  behind = c.behind ++ r ∷ [];
  splits = ap (λ l. l ++ r ∷ []) c.splits ∙ append_assoc c.before (c.route ∷ c.behind) (r ∷ []);
  is_best = c.is_best;
  matched = c.matched;
  shorter = c.shorter;
  no_longer =
      All-append (NoLongerThan result (length c.route.path)) c.behind (r ∷ []) c.no_longer (h, tt);
}

IsChosen-shorter :
    (result : Bytes) (seen : List Route) (best : Longest) (n : ℕ) (c : IsChosen result seen best)
    → length c.route.path < n
    → All (ShorterThan result n) seen
IsChosen-shorter result seen best n c h = rw c.splits (
    All-append (ShorterThan result n) c.before (c.route ∷ c.behind)
      (All-weaken c.before (λ r k b. omega (arith, k b)) c.shorter)
      (λ b. h, All-weaken c.behind (λ r k b. omega (arith, k b)) c.no_longer))

Progress-update :
    (result : Bytes) (seen : List Route) (r : Route) (best : Longest)
    → Progress result seen best
    → Progress result (seen ++ r ∷ []) (update result r best)
Progress-update result seen r best (inl (e, a)) = elim (improves_iff result r.path best.size) [
  | inl (better, m, l) ↦ inr (
      IsChosen-last result seen r _ (update-chosen result r best better) (m, omega arith)
        (All-weaken seen (λ r' k b. omega (arith, k b)) a))
  | inr (worse, h) ↦ inl (
    update-kept result r best worse ∙ e,
    All-append (ShorterThan result 1) seen (r ∷ []) a
        (λ b. omega (arith, h b, ap (λ (l : Longest). l.size) e), tt),
  )
]
Progress-update result seen r best (inr c) =
    let size_is : best.size ≡ length c.route.path = ap (λ (l : Longest). l.size) c.is_best in
    elim (improves_iff result r.path best.size) [
      | inl (better, m, l) ↦ inr (
          IsChosen-last result seen r _ (update-chosen result r best better) (m, omega arith)
            (IsChosen-shorter result seen best (length r.path) c (omega arith)))
      | inr (worse, h) ↦ inr (
          rw (update-kept result r best worse)
            (IsChosen-concat result seen r best c (λ b. omega (arith, h b))))
    ]

scan_routes-Progress :
    (result : Bytes) (rs seen : List Route) (best : Longest)
    → Progress result seen best
    → Progress result (seen ++ rs) (scan_routes result rs best)
scan_routes-Progress result [] seen best h = rw append-nil h
scan_routes-Progress result (r ∷ rs) seen best h = rw (← append_assoc seen (r ∷ []) rs) (
    scan_routes-Progress result rs (seen ++ r ∷ []) (update result r best)
      (Progress-update result seen r best h))

-- Either no route matches by a path that is not empty, and none is chosen, or the choice is the
-- first of the longest routes that match.
pub scan_routes-IsChosen :
    (result : Bytes) (routes : List Route)
    → ((scan_routes result routes nothing ≡ nothing) × All (ShorterThan result 1) routes)
      ⊎ IsChosen result routes (scan_routes result routes nothing)
scan_routes-IsChosen result routes = scan_routes-Progress result routes [] nothing (inl (refl, tt))
