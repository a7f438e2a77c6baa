-- ===== src/Crud/Handler/Puts.antt =====
-- handle_get behind handle_put.
use dinner_is_servered.Prelude.{
  Bool, true, false, inl, inr, ◌≡◌, ◌≢◌, refl, sym, ap, ◌∙◌, subst, [], ◌++◌, Option, Bytes, text,
}
use dinner_is_servered.Logging.{info}
use dinner_is_servered.Runtime.{World, Outcome, returns, M, ◌>>=◌, pure, gets, log}
use dinner_is_servered.Runtime.Files.{FilePath, exists, parts_of}
use dinner_is_servered.Runtime.Contents.{content_at}
use dinner_is_servered.Runtime.Inversion.{Outcome-cases}
use dinner_is_servered.Runtime.Quiet.{OnlyLogs}
use dinner_is_servered.Dispatch.Request.{Request}
use dinner_is_servered.Dispatch.Routes.{CrudPath}
use dinner_is_servered.Http.{Http, HttpLaws, ok, created}
use dinner_is_servered.Handlers.{IsPrepared, prepared-IsPrepared}
use dinner_is_servered.Crud.Ids.{max_entity_ids_file, temp_file}
use dinner_is_servered.Crud.Manager.{object_file, write_object, exists_object}
use dinner_is_servered.Crud.Manager.Store.{by_outcome, placed, manager_refines}
use dinner_is_servered.Crud.Handler.{id_text, put_response, handle_get, handle_put}
use dinner_is_servered.Crud.Handler.Answers.{is_empty-ne_nil, handle_get-written}

-- A last step that changes nothing.
bind_pure-world :
    {A B : Type 0} (m : M A) (b : B) (w : World) → ((m >>= (λ _. pure b)) w).1 ≡ (m w).1
unfolding ◌>>=◌ pure
bind_pure-world m b w = elim (Outcome-cases (m w).0) [
  | inl (a, e) ↦ rw (e, ◌>>=◌) refl
  | inr (inl (x, e)) ↦ rw (e, ◌>>=◌) refl
  | inr (inr e) ↦ rw (e, ◌>>=◌) refl
]

-- The world in which handle_put calls writeObject.
abbrev pub logged : Request → World → World
logged request w = (log info (text "PUT request body: " ++ request.body) w).1

-- The answer to a PUT, by whether the file was there before.
abbrev pub IsPutAnswer : (http : Http) → CrudPath → Bool → http.Response → Type 0
IsPutAnswer http path false r =
    IsPrepared http r created (text "text/plain")
      (text "{ \"id\": \"" ++ (path.entity_id ++ text "\" }"))
IsPutAnswer http path true r = IsPrepared http r ok (text "text/plain") (text "Successful update.")

module _ (http : Http) (laws : HttpLaws http) (path : CrudPath) (request : Request)
    (w : World) where
  -- The world that handle_put leaves is the one that writeObject leaves.
  handle_put-world :
      path.entity_name ≢ []
      → path.entity_id ≢ []
      → (handle_put http path request w).1 ≡ (write_object path request.body (logged request w)).1
  unfolding handle_put exists_object gets log ◌>>=◌
  handle_put-world name id =
      rw (is_empty-ne_nil path.entity_name name, is_empty-ne_nil path.entity_id id, handle_put)
        (bind_pure-world (write_object path request.body)
          (put_response http path (exists w.files (object_file path))) (logged request w))

  handle_put-returns :
      path.entity_name ≢ []
      → path.entity_id ≢ []
      → (write_object path request.body (logged request w)).0 ≡ returns true
      → (handle_put http path request w).0
        ≡ returns (put_response http path (exists w.files (object_file path)))
  unfolding handle_put exists_object gets log pure ◌>>=◌
  handle_put-returns name id written =
      rw
        (
          is_empty-ne_nil path.entity_name name,
          is_empty-ne_nil path.entity_id id,
          handle_put,
          written,
          ◌>>=◌,
        )
        refl

  put_response-IsPutAnswer : (b : Bool) → IsPutAnswer http path b (put_response http path b)
  unfolding put_response id_text
  put_response-IsPutAnswer false = prepared-IsPrepared http laws created _ _
  put_response-IsPutAnswer true = prepared-IsPrepared http laws ok _ _

  -- A PUT of an entity with a name and an id, whose writeObject returns true in the world where the
  -- body was logged, is answered by 201 with the id where the file of the entity was not there, and
  -- else by 200. It changes the files as a map from paths to texts, at every path but those of
  -- maxEntityIds and of the temporary file: the body stands at the path of the entity, and all else
  -- is kept. A GET of the entity behind it is answered by 200 with the body as JSON, and changes
  -- nothing but the log.
  pub handle_get-put :
      (get_request : Request) (q : FilePath)
      → path.entity_name ≢ []
      → path.entity_id ≢ []
      → q ≢ parts_of (max_entity_ids_file path)
      → q ≢ parts_of temp_file
      → (write_object path request.body (logged request w)).0 ≡ returns true
      → ((answer : http.Response) × ((handle_put http path request w).0 ≡ returns answer)
          × IsPutAnswer http path (exists w.files (object_file path)) answer)
        × (content_at q (handle_put http path request w).1.files
            ≡ placed (parts_of (object_file path)) q request.body (content_at q w.files))
        × ((r : http.Response) × OnlyLogs
              (handle_get http path get_request)
              (handle_put http path request w).1
              (returns r)
            × IsPrepared http r ok (text "application/json") request.body)
  unfolding log
  handle_get-put get_request q name id apart apart_temp written =
      let same = handle_put-world name id in
      let b = exists w.files (object_file path) in
      let f : Outcome Bool → Option Bytes = λ o.
        by_outcome o (placed (parts_of (object_file path)) q request.body (content_at q w.files))
          (content_at q w.files) in
      (
        (put_response http path b, handle_put-returns name id written, put_response-IsPutAnswer b),
        ap (λ w'. content_at q w'.files) same
            ∙ (manager_refines q path apart apart_temp request.body (logged request w)).0
            ∙ ap f written,
        subst
            (λ w'.
              (r : http.Response) × OnlyLogs (handle_get http path get_request) w' (returns r)
              × IsPrepared http r ok (text "application/json") request.body)
            (sym same)
            (handle_get-written http laws path request.body get_request (logged request w) id
              written),
      )
