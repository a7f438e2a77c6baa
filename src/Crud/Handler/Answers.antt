-- ===== src/Crud/Handler/Answers.antt =====
-- handle_get behind writeObject and deleteObject.
use dinner_is_servered.Prelude.{
  true, false, ◌≡◌, ◌≢◌, refl, [], ◌∷◌, Option, none, some, Bytes, text,
}
use dinner_is_servered.Logging.{error, is_empty}
use dinner_is_servered.Runtime.{World, returns}
use dinner_is_servered.Runtime.Files.{regular, open_in}
use dinner_is_servered.Runtime.Quiet.{OnlyLogs, OnlyLogs-pure, OnlyLogs-log_then, OnlyLogs-bind}
use dinner_is_servered.Dispatch.Request.{Request}
use dinner_is_servered.Dispatch.Routes.{CrudPath}
use dinner_is_servered.Http.{Http, HttpLaws, ok, not_found}
use dinner_is_servered.Handlers.{prepared, IsPrepared, prepared-IsPrepared}
use dinner_is_servered.Crud.Manager.{object_file, read_object, write_object, delete_object}
use dinner_is_servered.Crud.Manager.ReadBack.{write_object-read_object, delete_object-read_object}
use dinner_is_servered.Crud.Handler.{give_object, handle_get}

pub is_empty-ne_nil : (s : Bytes) → s ≢ [] → is_empty s ≡ false
is_empty-ne_nil [] h = absurd (h refl)
is_empty-ne_nil (c ∷ s) h = refl

module _ (http : Http) where
  abbrev object_response : Option Bytes → http.Response
  object_response none = prepared http not_found (text "text/plain") (text "404 Not Found\r\n\r\n")
  object_response (some json) = prepared http ok (text "application/json") json

  OnlyLogs-give_object :
      (o : Option Bytes) (w : World) → OnlyLogs (give_object http o) w (returns (object_response o))
  unfolding give_object
  OnlyLogs-give_object none w = OnlyLogs-log_then error _ _ w _ (λ w' q. OnlyLogs-pure w' _)
  OnlyLogs-give_object (some json) w = OnlyLogs-pure w _

  handle_get-read :
      (path : CrudPath) (request : Request) (w : World) (o : Option Bytes)
      → path.entity_id ≢ []
      → OnlyLogs (read_object path) w (returns o)
      → OnlyLogs (handle_get http path request) w (returns (object_response o))
  unfolding handle_get
  handle_get-read path request w o h r =
      rw (is_empty-ne_nil path.entity_id h, handle_get)
        (OnlyLogs-bind (read_object path) (give_object http) w o _ r
          (λ w' q. OnlyLogs-give_object o w'))

  -- Behind a call of writeObject that returns true, a GET of the same entity, by an id that is not
  -- empty, is answered by 200 with the text that was written as JSON. Nothing but the log changes.
  pub handle_get-written :
      (laws : HttpLaws http) (path : CrudPath) (json : Bytes) (request : Request) (w : World)
      → path.entity_id ≢ []
      → (write_object path json w).0 ≡ returns true
      → (r : http.Response) × OnlyLogs
          (handle_get http path request)
          (write_object path json w).1
          (returns r)
        × IsPrepared http r ok (text "application/json") json
  handle_get-written laws path json request w h k = (
    prepared http ok (text "application/json") json,
    handle_get-read path request _ (some json) h (write_object-read_object path json w k),
    prepared-IsPrepared http laws ok (text "application/json") json,
  )

  -- Behind a call of deleteObject on an entity whose file is there, a GET of the same entity, by an
  -- id that is not empty, is answered by 404. Nothing but the log changes.
  pub handle_get-deleted :
      (laws : HttpLaws http) (path : CrudPath) (content : Bytes) (request : Request) (w : World)
      → path.entity_id ≢ []
      → open_in w.files (object_file path) ≡ some (regular content)
      → (r : http.Response) × OnlyLogs
          (handle_get http path request)
          (delete_object path w).1
          (returns r)
        × IsPrepared http r not_found (text "text/plain") (text "404 Not Found\r\n\r\n")
  handle_get-deleted laws path content request w h k = (
    prepared http not_found (text "text/plain") (text "404 Not Found\r\n\r\n"),
    handle_get-read path request _ none h (delete_object-read_object path content w k).1,
    prepared-IsPrepared http laws not_found (text "text/plain") (text "404 Not Found\r\n\r\n"),
  )
