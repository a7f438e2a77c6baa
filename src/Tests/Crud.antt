-- ===== src/Tests/Crud.antt =====
-- Runs of the CRUD file manager: the entity e under the directory d, with one object of the id 1.
use dinner_is_servered.Prelude.{◌≡◌, ◌≢◌, refl, true, [], ◌∷◌, some, Bytes, text, equal}
use dinner_is_servered.Runtime.{
  World, returns, throws, invalid_argument, pure, raise, gets, log, update, lift, ◌>>=◌,
}
use dinner_is_servered.Runtime.Files.{
  directory, regular, open_in, parts_of, same_path, entry, status, exists,
}
use dinner_is_servered.Runtime.Disk.{
  put, parent, is_directory, ends_in_slash, openable, open_out, write,
}
use dinner_is_servered.Runtime.Numbers.{to_string, digits, leading_digits, digits_from, unblank}
use dinner_is_servered.Runtime.Words.{invalid, words, words_from, unsigned, unsigned_of, stoull}
use dinner_is_servered.Runtime.Quiet.{OnlyLogs}
use dinner_is_servered.Dispatch.Routes.{CrudPath}
use dinner_is_servered.Http.{ok, not_found}
use dinner_is_servered.Handlers.{IsPrepared}
use dinner_is_servered.Crud.Ids.{
  max_entity_ids_file, entity_directory, is_line_of, size_of, next_id, ensure_file, id_from,
  readable, generate_entity_id, ensure_directory,
}
use dinner_is_servered.Crud.Manager.{
  object_file, ensure_entity_directory, raise_max_id, note_id, write_opened, write_object,
  delete_object,
}
use dinner_is_servered.Crud.Handler.{handle_get, handle_put}
use dinner_is_servered.Crud.Handler.BadId.{handle_put-throws}
use dinner_is_servered.Crud.Handler.Answers.{handle_get-written, handle_get-deleted}
use dinner_is_servered.Tests.Handlers.{Reply, library, laws, posted}
use dinner_is_servered.Tests.Dispatch.{world}

abbrev d : Bytes
d = b'd' ∷ []

abbrev pub e : Bytes
e = b'e' ∷ []

abbrev pub stored : World
stored = record world {
  files =
      (d ∷ [], directory)
      ∷ (d ∷ e ∷ [], directory)
      ∷ (d ∷ e ∷ (b'1' ∷ []) ∷ [], regular (b'!' ∷ []))
      ∷ (d ∷ text "maxEntityIds" ∷ [], regular (b'e' ∷ b':' ∷ b'1' ∷ b'\n' ∷ []))
      ∷ [];
}

abbrev pub object : Bytes → CrudPath
object id = record { data_path = d; entity_name = e; entity_id = id }

abbrev pub one : Bytes
one = b'1' ∷ []

pub one-ne_nil : one ≢ []
one-ne_nil h = absurd cc

one-there : open_in stored.files (object_file (object one)) ≡ some (regular (b'!' ∷ []))
unfolding open_in object_file parts_of same_path entry status equal text
one-there = refl

one-written : (write_object (object one) (b'?' ∷ []) stored).0 ≡ returns true
unfolding write_object ensure_entity_directory note_id raise_max_id write_opened entity_directory
    object_file generate_entity_id ensure_directory ensure_file readable id_from next_id is_line_of
    size_of max_entity_ids_file exists open_in open_out openable ends_in_slash parts_of same_path
    entry status is_directory parent write put words words_from stoull unsigned_of unsigned
    leading_digits digits_from unblank to_string digits equal text pure raise gets log update lift
    ◌>>=◌
one-written = refl

-- An id that is no number: std::stoull throws, and nothing catches it.
word_id-throws : (write_object (object e) (b'?' ∷ []) stored).0 ≡ throws invalid_argument
unfolding write_object ensure_entity_directory note_id raise_max_id write_opened entity_directory
    object_file generate_entity_id ensure_directory ensure_file readable id_from next_id is_line_of
    size_of max_entity_ids_file exists open_in open_out openable ends_in_slash parts_of same_path
    entry status is_directory parent write put words words_from stoull unsigned_of unsigned
    leading_digits digits_from unblank to_string digits equal text pure raise gets log update lift
    ◌>>=◌
word_id-throws = refl

next_is_two : (generate_entity_id (object []) stored).0 ≡ returns (b'2' ∷ [])
unfolding generate_entity_id ensure_directory ensure_file readable id_from next_id is_line_of
    size_of max_entity_ids_file exists open_in open_out openable ends_in_slash parts_of same_path
    entry status is_directory parent write put words words_from stoull unsigned_of unsigned
    leading_digits digits_from unblank to_string digits equal text pure raise gets log update lift
    ◌>>=◌
next_is_two = refl

handle_get-written_example :
    (r : Reply) × OnlyLogs
      (handle_get library (object one) posted)
      (write_object (object one) (b'?' ∷ []) stored).1
      (returns r)
    × IsPrepared library r ok (text "application/json") (b'?' ∷ [])
handle_get-written_example =
    handle_get-written library laws (object one) (b'?' ∷ []) posted stored one-ne_nil one-written

handle_get-deleted_example :
    (r : Reply) × OnlyLogs
      (handle_get library (object one) posted)
      (delete_object (object one) stored).1
      (returns r)
    × IsPrepared library r not_found (text "text/plain") (text "404 Not Found\r\n\r\n")
handle_get-deleted_example =
    handle_get-deleted library laws (object one) (b'!' ∷ []) posted stored one-ne_nil one-there

pub e-ne_nil : e ≢ []
e-ne_nil h = absurd cc

pub directory-there : exists stored.files (entity_directory (object e)) ≡ true
unfolding exists entity_directory parts_of same_path entry status equal
directory-there = refl

word-invalid : stoull e ≡ invalid
unfolding stoull unsigned_of unsigned leading_digits unblank
word-invalid = refl

handle_put-throws_example :
    (handle_put library (object e) posted stored).0 ≡ throws invalid_argument
handle_put-throws_example =
    handle_put-throws d e b'e' [] library posted stored e-ne_nil directory-there word-invalid
