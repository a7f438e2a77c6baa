-- ===== src/Crud/Handler.antt =====
-- src/crud_handler.cc.
pub mod Answers
pub mod BadId
pub mod Accepted
pub mod Lists
pub mod Puts
pub mod Refusals
use dinner_is_servered.Prelude.{
  ℕ, Bool, true, false, ◌||◌, List, [], ◌∷◌, ◌++◌, Option, none, some, Bytes, text,
}
use dinner_is_servered.Logging.{info, error, is_empty}
use dinner_is_servered.Runtime.{M, ◌>>=◌, ◌>>◌, pure, log, lift}
use dinner_is_servered.Runtime.Numbers.{to_string}
use dinner_is_servered.Runtime.Words.{stoull}
use dinner_is_servered.Dispatch.Request.{Request, Verb, get, post, put, delete}
use dinner_is_servered.Dispatch.Routes.{CrudPath, get_crud_entity_path}
use dinner_is_servered.Http.{Http, Status, ok, created, no_content, bad_request, not_found}
use dinner_is_servered.Handlers.{prepared}
use dinner_is_servered.Crud.Ids.{size_of, generate_entity_id}
use dinner_is_servered.Crud.Manager.{
  read_object, write_object, delete_object, exists_object, list_objects,
}

-- `{ "id": "..." }`
unfoldable pub id_text : Bytes → Bytes
id_text id = text "{ \"id\": \"" ++ (id ++ text "\" }")

-- The loop over the file names, with ", " between two.
unfoldable pub join : List Bytes → Bytes
join [] = []
join (n ∷ []) = n
join (n ∷ m ∷ ns) = n ++ (b',' ∷ b' ' ∷ join (m ∷ ns))

module _ (http : Http) where
  abbrev plain_text : Status → Bytes → http.Response
  plain_text status body = prepared http status (text "text/plain") body

  abbrev json_text : Bytes → http.Response
  json_text body = prepared http ok (text "application/json") body

  unfoldable pub refuse : Bytes → Bytes → M http.Response
  refuse message body = do log error message; pure (plain_text bad_request body)

  unfoldable pub handle_post : CrudPath → Request → M http.Response
  handle_post path req = elim (is_empty path.entity_id) [
    | false ↦
        refuse (text "Invalid CRUD POST request. Request may not contain Entity ID")
          (text "400 Bad Request \r\n\r\n")
    | true ↦ (do
      new_id ← generate_entity_id path
      id ← lift (size_of (stoull new_id))
      log info (text "POST request body: " ++ req.body)
      written ← write_object (record path { entity_id = to_string id }) req.body
      pure (plain_text created (id_text new_id)))
  ]

  unfoldable pub handle_list : CrudPath → Request → M http.Response
  handle_list path req = elim (is_empty path.entity_name) [
    | true ↦
        refuse (text "Invalid CRUD GET request. Request must contain Entity Name")
          (text "400 Bad Request \r\n\r\n")
    | false ↦ (do names ← list_objects path; pure (json_text (b'[' ∷ (join names ++ b']' ∷ []))))
  ]

  unfoldable pub give_object : Option Bytes → M http.Response
  give_object none = do
    log error (text "Error reading requested file.")
    pure (plain_text not_found (text "404 Not Found\r\n\r\n"))
  give_object (some file_contents) = pure (json_text file_contents)

  unfoldable pub handle_get : CrudPath → Request → M http.Response
  handle_get path req = elim (is_empty path.entity_id) [
    | true ↦ handle_list path req
    | false ↦ (do object ← read_object path; give_object object)
  ]

  -- The flag is whether the object existed.
  unfoldable pub put_response : CrudPath → Bool → http.Response
  put_response path false = plain_text created (id_text path.entity_id)
  put_response path true = plain_text ok (text "Successful update.")

  unfoldable pub handle_put : CrudPath → Request → M http.Response
  handle_put path req = elim (is_empty path.entity_name || is_empty path.entity_id) [
    | true ↦
        refuse (text "Invalid CRUD POST request. Request must contain Entity Name and Entity ID")
          (text "400 Bad Request \r\n\r\n")
    | false ↦ (do
      log info (text "PUT request body: " ++ req.body)
      entity_exists ← exists_object path
      written ← write_object path req.body
      pure (put_response path entity_exists))
  ]

  unfoldable pub delete_response : Bool → http.Response
  delete_response true = plain_text ok (text "Successful delete.")
  delete_response false = plain_text no_content []

  unfoldable pub handle_del : CrudPath → Request → M http.Response
  handle_del path req = elim (is_empty path.entity_name || is_empty path.entity_id) [
    | true ↦
        refuse (text "Invalid CRUD DELETE request. Request must contain Entity Name and Entity ID")
          (text "400 Bad Request \r\n\r\n")
    | false ↦ (do object_existed ← delete_object path; pure (delete_response object_existed))
  ]

  -- The handlers are chosen where the method is one of the four and the name is not empty.
  unfoldable pub by_method : Verb → CrudPath → Request → M http.Response
  by_method post path req = handle_post path req
  by_method get path req = handle_get path req
  by_method put path req = handle_put path req
  by_method delete path req = handle_del path req
  by_method _ path req = do
    log error (text "Should never reach here. All cases should be handled above")
    pure http.default_response

  unfoldable pub is_crud_method : Verb → Bool
  is_crud_method get = true
  is_crud_method post = true
  is_crud_method put = true
  is_crud_method delete = true
  is_crud_method _ = false

  unfoldable pub route : CrudPath → Request → M http.Response
  route path req = elim (is_crud_method req.method) [
    | false ↦
        refuse (text "Invalid CRUD request method. Must be one of POST/GET/PUT/DELETE")
          (text "400 Bad Request\r\nRequest method must be one of POST/GET/PUT/DELETE \r\n\r\n")
    | true ↦ elim (is_empty path.entity_name) [
      | true ↦
          refuse (text "Invalid CRUD request. Missing Entity name")
            (text "400 Bad Request\r\nRequest must contain Entity name \r\n\r\n")
      | false ↦ by_method req.method path req
    ]
  ]

  unfoldable pub handle_request : Request → M http.Response
  handle_request req = do path ← get_crud_entity_path req; route path req
