-- ===== src/Crud/Ids.antt =====
-- generateEntityId and writeEntityId: the file maxEntityIds of a data directory, with a word
-- `name:id` for each entity name. The mutex is not modelled: a call is taken as one step. It belongs
-- to a file manager that the factory of the handler makes for one request.
pub mod Replace
pub mod Words
pub mod Frame
pub mod Ends
pub mod Fresh
use dinner_is_servered.Prelude.{
  ℕ, suc, ◌%◌, ◌^◌, Bool, true, false, List, [], ◌∷◌, ◌++◌, Option, none, some, Bytes, text, equal,
  length, take, drop, if◌then◌else◌,
}
use dinner_is_servered.Logging.{LogSeverity, info, error}
use dinner_is_servered.Runtime.{
  Exception, invalid_argument, out_of_range, filesystem_error, Outcome, returns, throws, undefined,
  M, ◌>>=◌, ◌>>◌, pure, raise, gets, log, update, lift,
}
use dinner_is_servered.Runtime.Files.{Node, directory, regular, FileSystem, exists, open_in}
use dinner_is_servered.Runtime.Disk.{open_out, write, create_directories, remove}
use dinner_is_servered.Runtime.Numbers.{to_string}
use dinner_is_servered.Runtime.Words.{words, ParsedSize, parsed, invalid, too_large, stoull}
use dinner_is_servered.Dispatch.Routes.{CrudPath}

-- A `try` block whose `catch` names std::filesystem::filesystem_error.
unfoldable pub caught : Exception → M (Unit {0}) → M (Unit {0})
caught filesystem_error handler = handler
caught e handler = raise e

unfoldable pub catch_filesystem : M (Unit {0}) → M (Unit {0}) → M (Unit {0})
catch_filesystem body handler w = elim (body w).0 [
  | returns a ↦ body w
  | throws e ↦ caught e handler (body w).1
  | undefined ↦ body w
]

unfoldable pub set_files : FileSystem → M (Unit {0})
set_files fs = update (λ w. record w { files = fs })

unfoldable pub or_filesystem_error : Option FileSystem → M (Unit {0})
or_filesystem_error none = raise filesystem_error
or_filesystem_error (some fs) = set_files fs

unfoldable pub make_directory : Bytes → M (Unit {0})
make_directory path = do fs ← gets (λ w. w.files); or_filesystem_error (create_directories path fs)

-- The flag is whether the directory exists.
unfoldable pub ensure_directory : LogSeverity → Bytes → Bool → M (Unit {0})
ensure_directory severity path true = pure tt
ensure_directory severity path false =
    catch_filesystem
      (log info (text "directory " ++ (path ++ text " missing, attempting to create"))
        >> make_directory path)
      (log severity (text "error creating directory " ++ (path ++ text " for CRUD request")))

unfoldable pub max_entity_ids_file : CrudPath → Bytes
max_entity_ids_file path = path.data_path ++ text "/maxEntityIds"

unfoldable pub entity_directory : CrudPath → Bytes
entity_directory path = path.data_path ++ (b'/' ∷ path.entity_name)

-- `line.substr(0, path.entity_name.length() + 1) == path.entity_name + ":"`
unfoldable pub is_line_of : Bytes → Bytes → Bool
is_line_of name line = equal (take (suc (length name)) line) (name ++ b':' ∷ [])

-- `std::stoull`, which throws
unfoldable pub size_of : ParsedSize → Outcome ℕ
size_of (parsed n) = returns n
size_of invalid = throws invalid_argument
size_of too_large = throws out_of_range

-- The loop `while (file >> line)`.
unfoldable pub next_id : Bytes → List Bytes → M Bytes
next_id name [] = pure (text "1")
next_id name (line ∷ lines) = elim (is_line_of name line) [
  | false ↦ next_id name lines
  | true ↦ (do
    max_id ← lift (size_of (stoull (drop (suc (length name)) line)))
    pure (to_string (suc max_id % 2 ^ 64)))
]

-- `std::ofstream f(path)`, closed at once
unfoldable pub touch : Bytes → Option Bytes → M (Unit {0})
touch path none = pure tt
touch path (some content) = update (λ w. record w { files = write path [] w.files })

unfoldable pub ensure_file : Bytes → Bool → M (Unit {0})
ensure_file path true = pure tt
ensure_file path false = do
  log info (text "Max file doesn't exist")
  opened ← gets (λ w. open_out w.files path)
  touch path opened

unfoldable pub id_from : CrudPath → Option Bytes → M Bytes
id_from path none = do
  log error (text "Could not open " ++ (max_entity_ids_file path ++ text " to get max entity IDs"))
  pure (text "1")
id_from path (some content) = next_id path.entity_name (words content)

-- `std::fstream file(max_entity_ids_file)` opens a file that is there for reading and writing
unfoldable pub readable : Option Node → Option Bytes
readable (some (regular content)) = some content
readable _ = none

unfoldable pub generate_entity_id : CrudPath → M Bytes
generate_entity_id path = do
  there ← gets (λ w. exists w.files path.data_path)
  ensure_directory info path.data_path there
  file_there ← gets (λ w. exists w.files (max_entity_ids_file path))
  ensure_file (max_entity_ids_file path) file_there
  file ← gets (λ w. readable (open_in w.files (max_entity_ids_file path)))
  id_from path file

-- "\n", the name, ":" and the id, behind what the file holds
unfoldable pub append_id : CrudPath → ℕ → Option Bytes → M Bool
append_id path max_id none = do
  log error (text "Could not open " ++ (max_entity_ids_file path ++ text " to write to it."))
  pure false
append_id path max_id (some content) = do
  update (λ w. record w {
    files =
        write (max_entity_ids_file path)
          (content ++ (b'\n' ∷ (path.entity_name ++ (b':' ∷ to_string max_id)))) w.files;
  })
  pure true

-- The loop `while (filein >> line)`: what is written to the temporary file.
unfoldable pub replace_ids : Bytes → ℕ → List Bytes → Bytes
replace_ids name max_id [] = []
replace_ids name max_id (line ∷ lines) =
    (if is_line_of name line then name ++ (b':' ∷ to_string max_id) else line)
    ++ (b'\n' ∷ replace_ids name max_id lines)

abbrev pub temp_file : Bytes
temp_file = text "temp"

-- What a stream reads; nothing of a directory.
unfoldable pub content_of : Node → Bytes
content_of directory = []
content_of (regular content) = content

-- `copy_file` from the temporary file, with `overwrite_existing`; it throws where the target is a
-- directory
unfoldable pub copy_to : Bytes → Bytes → Option Node → FileSystem → Option FileSystem
copy_to path content (some directory) fs = none
copy_to path content _ fs = some (write path content fs)

-- `remove`, whose result is not used
unfoldable pub removed : Option (FileSystem × Bool) → Option FileSystem
removed none = none
removed (some (fs, was_there)) = some fs

unfoldable pub replace_in_file : CrudPath → ℕ → Option Node → Option Bytes → M Bool
replace_in_file path max_id (some node) (some opened) = do
  let content = replace_ids path.entity_name max_id (words (content_of node))
  update (λ w. record w { files = write temp_file content w.files })
  fs ← gets (λ w. w.files)
  or_filesystem_error
      (copy_to (max_entity_ids_file path) content (open_in fs (max_entity_ids_file path)) fs)
  fs' ← gets (λ w. w.files)
  or_filesystem_error (removed (remove temp_file fs'))
  pure true
replace_in_file path max_id filein fileout = pure false

-- The flag is whether the directory of the entity exists.
unfoldable pub write_id : CrudPath → ℕ → Bool → M Bool
write_id path max_id false = do
  file ← gets (λ w. open_out w.files (max_entity_ids_file path))
  append_id path max_id file
write_id path max_id true = do
  filein ← gets (λ w. open_in w.files (max_entity_ids_file path))
  fileout ← gets (λ w. open_out w.files temp_file)
  touch temp_file fileout
  replace_in_file path max_id filein fileout

-- Where the file does not exist, `std::fstream f(max_entity_ids_file)` opens nothing.
unfoldable pub write_entity_id : CrudPath → ℕ → M Bool
write_entity_id path max_id = do
  there ← gets (λ w. exists w.files path.data_path)
  ensure_directory error path.data_path there
  directory_there ← gets (λ w. exists w.files (entity_directory path))
  write_id path max_id directory_there
