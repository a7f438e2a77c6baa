-- ===== src/Crud/Manager/ReadBack.antt =====
-- readObject behind writeObject and deleteObject.
use dinner_is_servered.Prelude.{true, ◌≡◌, refl, sym, ap, subst, ◌∙◌, Option, none, some, Bytes}
use dinner_is_servered.Logging.{info, error}
use dinner_is_servered.Runtime.{World, returns, ◌>>=◌, pure, gets, log, update}
use dinner_is_servered.Runtime.Files.{Node, regular, FileSystem, exists, open_in}
use dinner_is_servered.Runtime.Disk.{
  open_out, remove, open_in-write, remove_regular, exists_of_open,
}
use dinner_is_servered.Runtime.Inversion.{leaves-bind}
use dinner_is_servered.Runtime.Quiet.{
  OnlyLogs, OnlyLogs-pure, OnlyLogs-gets, OnlyLogs-log_then, OnlyLogs-bind, OnlyLogs-cast,
}
use dinner_is_servered.Dispatch.Routes.{CrudPath}
use dinner_is_servered.Crud.Ids.{content_of, set_files}
use dinner_is_servered.Crud.Manager.{
  object_file, read_opened, read_object, ensure_entity_directory, note_id, write_opened,
  write_object, exists_object, removed_object, delete_existing, delete_object,
}

-- What readObject returns for what can be opened at the path.
abbrev pub object_of : Option Node → Option Bytes
object_of none = none
object_of (some node) = some (content_of node)

OnlyLogs-read_opened :
    (file : Bytes) (o : Option Node) (w : World)
    → OnlyLogs (read_opened file o) w (returns (object_of o))
unfolding read_opened
OnlyLogs-read_opened file none w = OnlyLogs-log_then error _ _ w _ (λ w' q. OnlyLogs-pure w' none)
OnlyLogs-read_opened file (some node) w =
    OnlyLogs-log_then info _ _ w _ (λ w' q. OnlyLogs-pure w' _)

OnlyLogs-read_object :
    (path : CrudPath) (w : World)
    → OnlyLogs (read_object path) w (returns (object_of (open_in w.files (object_file path))))
unfolding read_object
OnlyLogs-read_object path w =
    OnlyLogs-bind _ (read_opened (object_file path)) w (open_in w.files (object_file path)) _
      (OnlyLogs-gets w _) (λ w' q. OnlyLogs-read_opened (object_file path) _ w')

read_object-opens :
    (path : CrudPath) (w : World) (o : Option Node)
    → open_in w.files (object_file path) ≡ o
    → OnlyLogs (read_object path) w (returns (object_of o))
read_object-opens path w o e =
    OnlyLogs-cast _ w _ _ (ap (λ o. returns (object_of o)) e) (OnlyLogs-read_object path w)

write_opened-reads :
    (path : CrudPath) (json : Bytes) (o : Option Bytes) (w : World)
    → o ≡ open_out w.files (object_file path)
    → (write_opened path json o w).0 ≡ returns true
    → open_in (write_opened path json o w).1.files (object_file path) ≡ some (regular json)
unfolding write_opened update log pure ◌>>=◌
write_opened-reads path json none w e h = absurd cc
write_opened-reads path json (some c) w e h =
    open_in-write w.files (object_file path) json c (sym e)

opened-reads :
    (path : CrudPath) (json : Bytes) (w : World)
    → ((gets (λ w. open_out w.files (object_file path)) >>= write_opened path json) w).0
      ≡ returns true
    → open_in
        ((gets (λ w. open_out w.files (object_file path)) >>= write_opened path json) w).1.files
        (object_file path)
      ≡ some (regular json)
unfolding gets ◌>>=◌
opened-reads path json w h =
    write_opened-reads path json (open_out w.files (object_file path)) w refl h

write_object-opens :
    (path : CrudPath) (json : Bytes) (w : World)
    → (write_object path json w).0 ≡ returns true
    → open_in (write_object path json w).1.files (object_file path) ≡ some (regular json)
unfolding write_object
write_object-opens path json =
    let P : World → Type 0 = λ w. open_in w.files (object_file path) ≡ some (regular json) in
    leaves-bind _ _ P true (λ there. leaves-bind (ensure_entity_directory path there) _ P true (λ _.
      leaves-bind _ _ P true
        (λ _. leaves-bind (note_id path path.entity_id) _ P true (λ _. opened-reads path json))))

-- Behind a call of writeObject that returns true, whatever there was before, readObject of the same
-- path returns true with the text that was written, and changes nothing but the log.
pub write_object-read_object :
    (path : CrudPath) (json : Bytes) (w : World)
    → (write_object path json w).0 ≡ returns true
    → OnlyLogs (read_object path) (write_object path json w).1 (returns (some json))
unfolding content_of
write_object-read_object path json w h =
    read_object-opens path _ (some (regular json)) (write_object-opens path json w h)

-- The call as a whole, where the file is there and is removed.
delete_object-removes :
    (path : CrudPath) (w : World) (fs : FileSystem)
    → exists w.files (object_file path) ≡ true
    → remove (object_file path) w.files ≡ some (fs, true)
    → delete_object path w ≡ (returns true, record w { files = fs })
unfolding delete_object exists_object delete_existing removed_object set_files update gets pure
    ◌>>=◌
delete_object-removes path w fs e r =
    ap (λ b. delete_existing path b w) e ∙ ap (λ o. removed_object o w) r

-- Where the path names a file, deleteObject returns true, and readObject of the same path returns
-- false behind it.
pub delete_object-read_object :
    (path : CrudPath) (content : Bytes) (w : World)
    → open_in w.files (object_file path) ≡ some (regular content)
    → ((delete_object path w).0 ≡ returns true)
      × OnlyLogs (read_object path) (delete_object path w).1 (returns none)
delete_object-read_object path content w h =
    let (fs, r, gone) = remove_regular w.files (object_file path) content h in
    let e =
      delete_object-removes path w fs
        (exists_of_open w.files (object_file path) (regular content) h) r in
    (
      ap (λ x. x.0) e,
      subst (λ x. OnlyLogs (read_object path) x.1 (returns none)) (sym e)
          (read_object-opens path (record w { files = fs }) none gone),
    )
