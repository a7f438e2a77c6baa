-- ===== src/App/Landing.antt =====
-- generate_landing_page. What a seek to the end of a directory gives is a parameter, as in the
-- static handler; to read from a directory fails.
use dinner_is_servered.Prelude.{
  Bool-cases, true, false, equal_iff, ◌≢◌, ◌⊎◌, inl, inr, refl, ◌≡◌, ap, ◌∙◌, [], ◌++◌, Option,
  none, some, Bytes, text, equal, length, if◌then◌else◌,
}
use dinner_is_servered.Logging.{info, error}
use dinner_is_servered.Runtime.{
  World, Outcome, M, returns, throws, undefined, ◌>>=◌, ◌>>◌, pure, gets, log, lift, and_then,
}
use dinner_is_servered.Runtime.Files.{Node, directory, regular, FileSystem, open_in}
use dinner_is_servered.Runtime.Numbers.{ℤ, pos, to_string_int}
use dinner_is_servered.Runtime.Quiet.{
  OnlyLogs, OnlyLogs-pure, OnlyLogs-gets, OnlyLogs-log_then, OnlyLogs-bind, OnlyLogs-cast,
}
use dinner_is_servered.Dispatch.Request.{Request}
use dinner_is_servered.Http.{Http, HttpLaws, Status, ok, bad_request, not_found}
use dinner_is_servered.Handlers.{prepared, IsPrepared, prepared-IsPrepared}
use dinner_is_servered.Handlers.Static.{DirectoryEnd, allocated}
use dinner_is_servered.Handlers.Static.Serves.{
  IsDefined, contents-IsDefined, contents, OnlyLogs-lift_log, OnlyLogs-map,
}

-- The file and the content type of a target.
unfoldable pub page_of : Bytes → Option (Bytes × Bytes)
page_of target =
    if equal target (text "/app")
    then some (text "../app_pages/index.html", text "text/html")
    else if equal target (text "/app/landing_page.js")
    then some (text "../app_pages/landing_page.js", text "application/javascript")
    else if equal target (text "/app/styles.css")
    then some (text "../app_pages/styles.css", text "text/css")
    else none

equal-cases : (s t : Bytes) → ((equal s t ≡ true) × (s ≡ t)) ⊎ ((equal s t ≡ false) × (s ≢ t))
equal-cases s t = elim (Bool-cases (equal s t)) [
  | inl e ↦ inl (e, (equal_iff s t).0 e)
  | inr e ↦ inr (e, λ same. let z : equal s t ≡ true = (equal_iff s t).1 same in absurd cc)
]

module _ (http : Http) (directory_end : DirectoryEnd) where
  -- `seekg(0, end)` and `tellg()`
  unfoldable pub page_size : Node → ℤ
  page_size directory = directory_end.told
  page_size (regular content) = pos (length content)

  unfoldable pub read_page : Bytes → Node → M Bytes
  read_page file_path directory = do
    res ← lift (allocated directory_end)
    log error (text "Failed to read file: " ++ file_path)
    pure res
  read_page file_path (regular content) = pure content

  unfoldable pub give_page : Bytes → Bytes → Option Node → M http.Response
  give_page file_path content_type none = do
    log error (text "File not found: " ++ file_path)
    pure (http.prepare_payload (http.response not_found 11 []))
  give_page file_path content_type (some node) = do
    log info (text "Obtained file size of " ++ to_string_int (page_size node))
    res ← read_page file_path node
    pure (prepared http ok content_type res)

  unfoldable pub find_page : Request → Option (Bytes × Bytes) → M http.Response
  find_page req none = do
    log error (text "Bad request target: " ++ req.target)
    pure (http.prepare_payload (http.response bad_request 11 []))
  find_page req (some (file_path, content_type)) = do
    file ← gets (λ w. open_in w.files file_path)
    give_page file_path content_type file

  unfoldable pub generate_landing_page : Request → M http.Response
  generate_landing_page req = do
    log info (text "Generating landing page for target: " ++ req.target)
    find_page req (page_of req.target)

  -- The whole file with its content type; what the vector throws, for a directory that is too large.
  abbrev pub IsWhole : Outcome Bytes → Bytes → Outcome http.Response → Type 0
  IsWhole (returns b) type answer =
      (r : http.Response) × (answer ≡ returns r) × IsPrepared http r ok type b
  IsWhole (throws e) type answer = answer ≡ throws e
  IsWhole undefined type answer = ⊥

  abbrev pub IsEmpty : Status → Outcome http.Response → Type 0
  IsEmpty status answer =
      (r : http.Response) × (answer ≡ returns r) × (http.result r ≡ status) × (http.body r ≡ [])

  -- 404 for a file that cannot be opened.
  abbrev pub IsFile : Bytes → Option Node → Outcome http.Response → Type 0
  IsFile type none answer = IsEmpty not_found answer
  IsFile type (some node) answer = IsWhole (contents directory_end node) type answer

  abbrev file_answer : Bytes → Option Node → Outcome http.Response
  file_answer type none = returns (http.prepare_payload (http.response not_found 11 []))
  file_answer type (some node) =
      and_then (contents directory_end node) (λ b. returns (prepared http ok type b))

  abbrev page_answer : FileSystem → Option (Bytes × Bytes) → Outcome http.Response
  page_answer files none = returns (http.prepare_payload (http.response bad_request 11 []))
  page_answer files (some (path, type)) = file_answer type (open_in files path)

  OnlyLogs-read_page :
      (path : Bytes) (node : Node) (w : World)
      → OnlyLogs (read_page path node) w (contents directory_end node)
  unfolding read_page
  OnlyLogs-read_page path directory w = OnlyLogs-lift_log (allocated directory_end) _ w
  OnlyLogs-read_page path (regular content) w = OnlyLogs-pure w content

  OnlyLogs-give_page :
      (path type : Bytes) (o : Option Node) (w : World)
      → OnlyLogs (give_page path type o) w (file_answer type o)
  unfolding give_page
  OnlyLogs-give_page path type none w = OnlyLogs-log_then error _ _ w _ (λ w' q. OnlyLogs-pure w' _)
  OnlyLogs-give_page path type (some node) w = OnlyLogs-log_then info _ _ w _ (λ w' q.
      OnlyLogs-map (read_page path node) (prepared http ok type) w' _
        (OnlyLogs-read_page path node w'))

  OnlyLogs-find_page :
      (request : Request) (o : Option (Bytes × Bytes)) (files : FileSystem) (w : World)
      → w.files ≡ files
      → OnlyLogs (find_page request o) w (page_answer files o)
  unfolding find_page
  OnlyLogs-find_page request none files w e =
      OnlyLogs-log_then error _ _ w _ (λ w' q. OnlyLogs-pure w' _)
  OnlyLogs-find_page request (some (path, type)) files w e =
      OnlyLogs-bind _ (give_page path type) w (open_in files path) _
        (OnlyLogs-cast _ w _ _ (ap (λ f. returns (open_in f path)) e) (OnlyLogs-gets w _))
        (λ w' q. OnlyLogs-give_page path type (open_in files path) w')

  module _ (laws : HttpLaws http) where
    IsEmpty-response :
        (status : Status)
        → IsEmpty status (returns (http.prepare_payload (http.response status 11 [])))
    IsEmpty-response status = (
      http.prepare_payload (http.response status 11 []),
      refl,
      laws.result-prepare_payload _ ∙ laws.result-response _ _ _,
      laws.body-prepare_payload _ ∙ laws.body-response _ _ _,
    )

    prepared-IsWhole :
        (o : Outcome Bytes) (type : Bytes)
        → IsDefined o
        → IsWhole o type (and_then o (λ b. returns (prepared http ok type b)))
    prepared-IsWhole (returns b) type h =
        (prepared http ok type b, refl, prepared-IsPrepared http laws ok type b)
    prepared-IsWhole (throws e) type h = refl
    prepared-IsWhole undefined type h = absurd h

    file_answer-IsFile : (type : Bytes) (o : Option Node) → IsFile type o (file_answer type o)
    file_answer-IsFile type none = IsEmpty-response not_found
    file_answer-IsFile type (some node) =
        prepared-IsWhole (contents directory_end node) type (contents-IsDefined directory_end node)

  -- The answer on a target: one of the three files, or 400.
  abbrev pub IsPage : FileSystem → Bytes → Outcome http.Response → Type 0
  IsPage files target answer =
      ((target ≡ text "/app")
        × IsFile (text "text/html") (open_in files (text "../app_pages/index.html")) answer)
      ⊎ ((target ≡ text "/app/landing_page.js")
          × IsFile (text "application/javascript")
              (open_in files (text "../app_pages/landing_page.js")) answer)
      ⊎ ((target ≡ text "/app/styles.css")
          × IsFile (text "text/css") (open_in files (text "../app_pages/styles.css")) answer)
      ⊎ ((target ≢ text "/app")
          × (target ≢ text "/app/landing_page.js")
          × (target ≢ text "/app/styles.css")
          × IsEmpty bad_request answer)

  page_answer-IsPage :
      (laws : HttpLaws http) (files : FileSystem) (target : Bytes)
      → IsPage files target (page_answer files (page_of target))
  unfolding page_of
  page_answer-IsPage laws files target = elim (equal-cases target (text "/app")) [
    | inl (e, same) ↦ rw e (inl (same, file_answer-IsFile laws _ _))
    | inr (e, no_page) ↦ rw e (elim (equal-cases target (text "/app/landing_page.js")) [
      | inl (e, same) ↦ rw e (inr (inl (same, file_answer-IsFile laws _ _)))
      | inr (e, no_script) ↦ rw e (elim (equal-cases target (text "/app/styles.css")) [
        | inl (e, same) ↦ rw e (inr (inr (inl (same, file_answer-IsFile laws _ _))))
        | inr (e, no_style) ↦
            rw e (inr (inr (inr (no_page, no_script, no_style, IsEmpty-response laws bad_request))))
      ])
    ])
  ]

  -- On /app, generate_landing_page answers with ../app_pages/index.html as text/html, on
  -- /app/landing_page.js with the file landing_page.js beside it as application/javascript, and on
  -- /app/styles.css with styles.css as text/css: by 200 with the whole file, its type and its
  -- length, or by 404 with an empty body where it cannot be opened. A directory in its place gives
  -- zeros, or the exception of a vector of its size. On any other target it answers 400 with an
  -- empty body. Nothing but the log changes.
  pub generate_landing_page-IsPage :
      (laws : HttpLaws http) (request : Request) (w : World)
      → (answer : Outcome http.Response) × OnlyLogs (generate_landing_page request) w answer
        × IsPage w.files request.target answer
  unfolding generate_landing_page
  generate_landing_page-IsPage laws request w = (
    page_answer w.files (page_of request.target),
    OnlyLogs-log_then info _ _ w _
        (λ w' q. OnlyLogs-find_page request (page_of request.target) w.files w' q.files),
    page_answer-IsPage laws w.files request.target,
  )
