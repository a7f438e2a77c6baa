-- ===== src/Tests/Puts.antt =====
-- A PUT of the entity e with the id 1, which is there, and a GET behind it.
use dinner_is_servered.Prelude.{◌≡◌, refl, true, text, equal}
use dinner_is_servered.Runtime.{returns, pure, raise, gets, log, update, lift, ◌>>=◌}
use dinner_is_servered.Runtime.Files.{exists, open_in, status, entry, parts_of, same_path}
use dinner_is_servered.Runtime.Disk.{
  put, parent, is_directory, ends_in_slash, openable, open_out, write,
}
use dinner_is_servered.Runtime.Contents.{content_at}
use dinner_is_servered.Runtime.Numbers.{to_string, digits, leading_digits, digits_from, unblank}
use dinner_is_servered.Runtime.Words.{words, words_from, stoull, unsigned_of, unsigned}
use dinner_is_servered.Runtime.Quiet.{OnlyLogs}
use dinner_is_servered.Http.{ok}
use dinner_is_servered.Handlers.{IsPrepared}
use dinner_is_servered.Crud.Ids.{
  max_entity_ids_file, entity_directory, is_line_of, size_of, next_id, ensure_file, id_from,
  readable, generate_entity_id, ensure_directory,
}
use dinner_is_servered.Crud.Manager.{
  object_file, ensure_entity_directory, raise_max_id, note_id, write_opened, write_object,
}
use dinner_is_servered.Crud.Manager.Store.{placed}
use dinner_is_servered.Crud.Handler.{handle_get, handle_put}
use dinner_is_servered.Crud.Handler.Puts.{logged, IsPutAnswer, handle_get-put}
use dinner_is_servered.Tests.Crud.{stored, object, one, one-ne_nil, e-ne_nil}
use dinner_is_servered.Tests.Handlers.{Reply, library, laws, posted}
use dinner_is_servered.Tests.Store.{first, first-apart, first-apart_temp}

body-written : (write_object (object one) posted.body (logged posted stored)).0 ≡ returns true
unfolding write_object ensure_entity_directory note_id raise_max_id write_opened entity_directory
    object_file generate_entity_id ensure_directory ensure_file readable id_from next_id is_line_of
    size_of max_entity_ids_file exists open_in open_out openable ends_in_slash parts_of same_path
    entry status is_directory parent write put words words_from stoull unsigned_of unsigned
    leading_digits digits_from unblank to_string digits equal text pure raise gets log update lift
    ◌>>=◌
body-written = refl

handle_get-put_example :
    ((answer : Reply) × ((handle_put library (object one) posted stored).0 ≡ returns answer)
      × IsPutAnswer library (object one) (exists stored.files (object_file (object one))) answer)
    × (content_at first (handle_put library (object one) posted stored).1.files
        ≡ placed
            (parts_of (object_file (object one)))
            first
            posted.body
            (content_at first stored.files))
    × ((r : Reply) × OnlyLogs
          (handle_get library (object one) posted)
          (handle_put library (object one) posted stored).1
          (returns r)
        × IsPrepared library r ok (text "application/json") posted.body)
handle_get-put_example =
    handle_get-put library laws (object one) posted stored posted first e-ne_nil one-ne_nil
      first-apart first-apart_temp body-written
