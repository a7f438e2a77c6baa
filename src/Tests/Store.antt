-- ===== src/Tests/Store.antt =====
-- Runs of the CRUD file manager as changes of a map, and of the ids.
use dinner_is_servered.Prelude.{◌≡◌, ◌≢◌, refl, true, inl, some, [], ◌∷◌, text, equal, Bytes, arith}
use dinner_is_servered.Runtime.{returns, pure, gets, log, update, ◌>>=◌}
use dinner_is_servered.Runtime.Files.{
  FilePath, regular, exists, open_in, status, entry, parts_of, same_path,
}
use dinner_is_servered.Runtime.Disk.{
  put, parent, is_directory, ends_in_slash, openable, open_out, write, remove, remove_node,
  delete_entry,
}
use dinner_is_servered.Runtime.Contents.{content_at, cleared}
use dinner_is_servered.Runtime.Numbers.{to_string, digits}
use dinner_is_servered.Runtime.Words.{words, words_from, parsed, stoull}
use dinner_is_servered.Crud.Ids.{
  max_entity_ids_file, temp_file, write_entity_id, ensure_directory, write_id, touch,
  replace_in_file, copy_to, removed, or_filesystem_error, set_files, content_of, replace_ids,
  is_line_of, entity_directory, generate_entity_id,
}
use dinner_is_servered.Crud.Ids.Replace.{HasLine}
use dinner_is_servered.Crud.Ids.Fresh.{IsKept, generate_entity_id-written}
use dinner_is_servered.Crud.Manager.{object_file, write_object, delete_object}
use dinner_is_servered.Crud.Manager.Store.{by_outcome, placed, manager_refines}
use dinner_is_servered.Tests.Crud.{stored, object, one, e, directory-there}

-- The file d/e/1.
abbrev pub first : FilePath
first = (b'd' ∷ []) ∷ (b'e' ∷ []) ∷ (b'1' ∷ []) ∷ []

pub first-apart : first ≢ parts_of (max_entity_ids_file (object one))
unfolding max_entity_ids_file parts_of text equal
first-apart h = absurd cc

pub first-apart_temp : first ≢ parts_of temp_file
unfolding parts_of text equal
first-apart_temp h = absurd cc

manager_refines_example :
    (content_at first (write_object (object one) (b'?' ∷ []) stored).1.files
      ≡ by_outcome
          (write_object (object one) (b'?' ∷ []) stored).0
          (placed
            (parts_of (object_file (object one)))
            first
            (b'?' ∷ [])
            (content_at first stored.files))
          (content_at first stored.files))
    × (content_at first (delete_object (object one) stored).1.files
        ≡ by_outcome
            (delete_object (object one) stored).0
            (cleared (parts_of (object_file (object one))) first (content_at first stored.files))
            (content_at first stored.files))
manager_refines_example =
    manager_refines first (object one) first-apart first-apart_temp (b'?' ∷ []) stored

abbrev ids : Bytes
ids = b'e' ∷ b':' ∷ b'1' ∷ b'\n' ∷ []

ids-HasLine : HasLine e (words ids)
unfolding words words_from is_line_of equal
ids-HasLine = inl refl

ids-IsKept : IsKept e (exists stored.files (entity_directory (object one))) (words ids)
unfolding exists entity_directory
ids-IsKept = rw directory-there ids-HasLine

data-there : exists stored.files (b'd' ∷ []) ≡ true
unfolding exists parts_of same_path entry status equal
data-there = refl

ids-there : open_in stored.files (max_entity_ids_file (object one)) ≡ some (regular ids)
unfolding open_in max_entity_ids_file parts_of same_path entry status equal text
ids-there = refl

ids_file-apart : parts_of (max_entity_ids_file (object one)) ≢ parts_of temp_file
unfolding max_entity_ids_file parts_of text equal
ids_file-apart h = absurd cc

five-written : (write_entity_id (object one) 5 stored).0 ≡ returns true
unfolding write_entity_id ensure_directory write_id touch replace_in_file copy_to removed remove
    remove_node delete_entry or_filesystem_error set_files content_of replace_ids is_line_of
    max_entity_ids_file entity_directory exists open_in open_out openable ends_in_slash parts_of
    same_path entry status is_directory parent write put words words_from to_string digits equal
    text pure gets log update ◌>>=◌
five-written = refl

generate_entity_id-written_example :
    (id : Bytes) × ((generate_entity_id (object one) (write_entity_id (object one) 5 stored).1).0
      ≡ returns id)
    × (stoull id ≡ parsed 6)
generate_entity_id-written_example =
    generate_entity_id-written (object one) ids_file-apart 5 ids stored (refl, tt) (omega arith)
      data-there ids-there ids-IsKept five-written
