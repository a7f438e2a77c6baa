-- ===== src/Crud/Manager.antt =====
-- readObject, writeObject, deleteObject, existsObject and listObjects.
pub mod ReadBack
pub mod Sorted
pub mod Listing
pub mod Store
use dinner_is_servered.Prelude.{
  ℕ, Bool, true, false, List, [], ◌∷◌, ◌++◌, Option, none, some, Bytes, text, leb, if◌then◌else◌,
}
use dinner_is_servered.Logging.{info, error}
use dinner_is_servered.Runtime.{
  World, filesystem_error, Outcome, M, ◌>>=◌, ◌>>◌, pure, gets, log, update, lift,
}
use dinner_is_servered.Runtime.Dictionary.{less}
use dinner_is_servered.Runtime.Files.{
  Node, directory, regular, FilePath, FileSystem, parts_of, status, exists, open_in,
}
use dinner_is_servered.Runtime.Disk.{open_out, write, below, remove}
use dinner_is_servered.Runtime.Words.{stoull}
use dinner_is_servered.Dispatch.Routes.{CrudPath}
use dinner_is_servered.Crud.Ids.{
  catch_filesystem, set_files, make_directory, entity_directory, size_of, content_of,
  generate_entity_id, write_entity_id,
}

unfoldable pub object_file : CrudPath → Bytes
object_file path = path.data_path ++ (b'/' ∷ (path.entity_name ++ (b'/' ∷ path.entity_id)))

-- The result is `json` where readObject returns true.
unfoldable pub read_opened : Bytes → Option Node → M (Option Bytes)
read_opened file_path none = do log error (text "unable to open file " ++ file_path); pure none
read_opened file_path (some node) = do
  log info (text "found read success: " ++ file_path)
  pure (some (content_of node))

unfoldable pub read_object : CrudPath → M (Option Bytes)
read_object path = do
  file ← gets (λ w. open_in w.files (object_file path))
  read_opened (object_file path) file

-- The flag is whether the directory of the entity exists.
unfoldable pub ensure_entity_directory : CrudPath → Bool → M (Unit {0})
ensure_entity_directory path true = pure tt
ensure_entity_directory path false =
    catch_filesystem
      (do
        log info
            (text "directory " ++ (entity_directory path ++ text " missing, attempting to create"))
        written ← write_entity_id path 1
        make_directory (entity_directory path))
      (log error
        (text "error creating directory " ++ (entity_directory path ++ text " for CRUD request")))

unfoldable pub raise_max_id : CrudPath → ℕ → ℕ → M (Unit {0})
raise_max_id path id next =
    if leb next id then (do written ← write_entity_id path id; pure tt) else pure tt

-- The ids are compared with the left one read first; the order is unspecified.
unfoldable pub note_id : CrudPath → Bytes → M (Unit {0})
note_id path [] = pure tt
note_id path (c ∷ cs) = do
  id ← lift (size_of (stoull (c ∷ cs)))
  generated ← generate_entity_id path
  next ← lift (size_of (stoull generated))
  raise_max_id path id next

unfoldable pub write_opened : CrudPath → Bytes → Option Bytes → M Bool
write_opened path json none = pure false
write_opened path json (some opened) = do
  update (λ w. record w { files = write (object_file path) json w.files })
  log info (text "file creation success")
  pure true

unfoldable pub write_object : CrudPath → Bytes → M Bool
write_object path json = do
  there ← gets (λ w. exists w.files (entity_directory path))
  ensure_entity_directory path there
  log info (text "creating Entity " ++ (path.entity_name ++ (text " at path " ++ object_file path)))
  note_id path path.entity_id
  file ← gets (λ w. open_out w.files (object_file path))
  write_opened path json file

unfoldable pub exists_object : CrudPath → M Bool
exists_object path = gets (λ w. exists w.files (object_file path))

-- `remove`, where an exception gives false
unfoldable pub removed_object : Option (FileSystem × Bool) → M Bool
removed_object none = pure false
removed_object (some (fs, was_there)) = do set_files fs; pure was_there

unfoldable pub delete_existing : CrudPath → Bool → M Bool
delete_existing path false = do
  log error (text "file doesn't exist: " ++ object_file path)
  pure false
delete_existing path true = do
  result ← gets (λ w. remove (object_file path) w.files)
  removed_object result

unfoldable pub delete_object : CrudPath → M Bool
delete_object path = do there ← exists_object path; delete_existing path there

-- `filename()`
unfoldable pub last_part : FilePath → Bytes
last_part [] = []
last_part (p ∷ []) = p
last_part (p ∷ q ∷ ps) = last_part (q ∷ ps)

unfoldable pub file_names : FileSystem → List Bytes
file_names [] = []
file_names ((p, directory) ∷ fs) = file_names fs
file_names ((p, regular content) ∷ fs) = last_part p ∷ file_names fs

-- `sort`
unfoldable pub insert : Bytes → List Bytes → List Bytes
insert name [] = name ∷ []
insert name (n ∷ names) =
    let rest = insert name names in if less n name then n ∷ rest else name ∷ n ∷ names

unfoldable pub sort : List Bytes → List Bytes
sort [] = []
sort (name ∷ names) = insert name (sort names)

-- A directory_iterator on anything but a directory throws.
unfoldable pub names_below : Bytes → Option Node → M (List Bytes)
names_below dir_path (some directory) = gets (λ w. file_names (below (parts_of dir_path) w.files))
names_below dir_path _ = do log error (text "Unable to read directory at: " ++ dir_path); pure []

unfoldable pub list_objects : CrudPath → M (List Bytes)
list_objects path = do
  let dir_path = entity_directory path ++ b'/' ∷ []
  node ← gets (λ w. status w.files (parts_of dir_path))
  names ← names_below dir_path node
  pure (sort names)
