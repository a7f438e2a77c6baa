-- ===== src/Crud/Handler/BadId.antt =====
-- handle_put with an id that is no number.
use dinner_is_servered.Prelude.{ℕ, true, ◌≡◌, ◌≢◌, refl, [], ◌∷◌, Bytes}
use dinner_is_servered.Runtime.{World, throws, invalid_argument, M, ◌>>=◌, pure, gets, log, lift}
use dinner_is_servered.Runtime.Files.{exists}
use dinner_is_servered.Runtime.Words.{stoull, invalid}
use dinner_is_servered.Dispatch.Request.{Request}
use dinner_is_servered.Dispatch.Routes.{CrudPath}
use dinner_is_servered.Http.{Http}
use dinner_is_servered.Crud.Ids.{entity_directory, size_of}
use dinner_is_servered.Crud.Manager.{
  ensure_entity_directory, note_id, write_object, exists_object, object_file,
}
use dinner_is_servered.Crud.Handler.{handle_put, put_response}
use dinner_is_servered.Crud.Handler.Answers.{is_empty-ne_nil}

module _ (data_path name : Bytes) (c : ℕ) (cs : Bytes) where
  abbrev path : CrudPath
  path = record { data_path = data_path; entity_name = name; entity_id = c ∷ cs }

  write_object-throws :
      (json : Bytes) (w : World)
      → exists w.files (entity_directory path) ≡ true
      → stoull (c ∷ cs) ≡ invalid
      → (write_object path json w).0 ≡ throws invalid_argument
  unfolding write_object note_id ensure_entity_directory size_of gets log pure lift ◌>>=◌
  write_object-throws json w e k = rw (e, k) refl

  throws_first :
      {A B : Type 0} (m : M A) (f : A → M B) (w : World)
      → (m w).0 ≡ throws invalid_argument
      → ((m >>= f) w).0 ≡ throws invalid_argument
  unfolding ◌>>=◌
  throws_first m f w e = rw (e, ◌>>=◌) refl

  -- A PUT with an entity name, whose directory exists, and an id that std::stoull refuses as no
  -- number ends in std::invalid_argument, which the handler does not catch.
  pub handle_put-throws :
      (http : Http) (request : Request) (w : World)
      → name ≢ []
      → exists w.files (entity_directory path) ≡ true
      → stoull (c ∷ cs) ≡ invalid
      → (handle_put http path request w).0 ≡ throws invalid_argument
  unfolding handle_put exists_object gets log ◌>>=◌
  handle_put-throws http request w h e k =
      rw (is_empty-ne_nil name h, handle_put)
        (throws_first (write_object path request.body)
          (λ written. pure (put_response http path (exists w.files (object_file path)))) _
          (write_object-throws request.body _ e k))
