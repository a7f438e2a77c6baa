-- ===== src/Crud/Ids/Ends.antt =====
-- The single steps of generateEntityId and writeEntityId, where they return.
use dinner_is_servered.Prelude.{
  some-injective, Bool, true, false, ◌≡◌, refl, sym, ap, ◌∙◌, inl, inr, ◌⊎◌, [], ◌∷◌, Option, none,
  some, Bytes, Bool-cases,
}
use dinner_is_servered.Logging.{LogSeverity}
use dinner_is_servered.Runtime.{
  World, Outcome, returns, throws, M, ◌>>=◌, ◌>>◌, pure, gets, log, update, raise, filesystem_error,
}
use dinner_is_servered.Runtime.Files.{
  Node, directory, regular, FilePath, FileSystem, parts_of, entry, status, open_in,
}
use dinner_is_servered.Runtime.Disk.{create_directories, open_out, openable, ends_in_slash}
use dinner_is_servered.Runtime.Contents.{text_of, content_at, content_at-written}
use dinner_is_servered.Runtime.Keeps.{Keeps}
use dinner_is_servered.Crud.Ids.{
  caught, catch_filesystem, set_files, or_filesystem_error, make_directory, ensure_directory,
  copy_to,
}
use dinner_is_servered.Crud.Ids.Frame.{content}

status-entry :
    (p : FilePath) (fs fs' : FileSystem) (c : Bytes)
    → status fs p ≡ some (regular c)
    → status fs' p ≡ entry p fs'
unfolding status
status-entry [] fs fs' c k = absurd cc
status-entry ([] ∷ []) fs fs' c k = absurd cc
status-entry ([] ∷ q ∷ ps) fs fs' c k = refl
status-entry ((x ∷ xs) ∷ ps) fs fs' c k = refl

-- A path that once named a file names its entry.
pub open_in-entry :
    (fs : FileSystem) (path c : Bytes)
    → open_in fs path ≡ some (regular c)
    → (fs' : FileSystem) → open_in fs' path ≡ entry (parts_of path) fs'
unfolding open_in
open_in-entry fs [] c h fs' = absurd cc
open_in-entry fs (x ∷ xs) c h fs' = status-entry (parts_of (x ∷ xs)) fs fs' c h

pub text_of-regular : (o : Option Node) (c : Bytes) → text_of o ≡ some c → o ≡ some (regular c)
text_of-regular none c h = absurd cc
text_of-regular (some directory) c h = absurd cc
text_of-regular (some (regular d)) c h = cc

pub copy_to-content :
    (path text : Bytes) (o : Option Node) (fs fs' : FileSystem)
    → copy_to path text o fs ≡ some fs'
    → content_at (parts_of path) fs' ≡ some text
unfolding copy_to
copy_to-content path text none fs fs' h =
    ap (content_at (parts_of path)) (sym (some-injective _ _ h)) ∙ content_at-written path text fs
copy_to-content path text (some directory) fs fs' h = absurd cc
copy_to-content path text (some (regular c)) fs fs' h =
    ap (content_at (parts_of path)) (sym (some-injective _ _ h)) ∙ content_at-written path text fs

-- A change of the files that returned, and what is kept behind it.
or_then-content :
    (q : FilePath) (o : Option FileSystem) (k : M Bool) (text : Bytes) (w : World)
    → ((fs : FileSystem) → o ≡ some fs → content_at q fs ≡ some text)
    → Keeps (content q) k
    → ((or_filesystem_error o >> k) w).0 ≡ returns true
    → content q ((or_filesystem_error o >> k) w).1 ≡ some text
unfolding ◌>>=◌ or_filesystem_error raise set_files update
or_then-content q none k text w h r e = absurd cc
or_then-content q (some fs) k text w h r e = r.keeps (record w { files = fs }) ∙ h fs refl

pub files_then-content :
    (q : FilePath) (f : FileSystem → Option FileSystem) (k : M Bool) (text : Bytes) (w : World)
    → ((fs fs' : FileSystem) → f fs ≡ some fs' → content_at q fs' ≡ some text)
    → Keeps (content q) k
    → ((gets (λ w. w.files) >>= λ fs. or_filesystem_error (f fs) >> k) w).0 ≡ returns true
    → content q ((gets (λ w. w.files) >>= λ fs. or_filesystem_error (f fs) >> k) w).1 ≡ some text
unfolding gets ◌>>=◌
files_then-content q f k text w h r e =
    or_then-content q (f w.files) k text w (λ fs. h w.files fs) r e

pub open_out-cases :
    (fs : FileSystem) (path c : Bytes)
    → open_in fs path ≡ some (regular c)
    → (open_out fs path ≡ none) ⊎ (open_out fs path ≡ some c)
unfolding open_in open_out openable
open_out-cases fs [] c h = absurd cc
open_out-cases fs (x ∷ xs) c h = elim (Bool-cases (ends_in_slash (x ∷ xs))) [
  | inl e ↦ inl (rw e refl)
  | inr e ↦ inr (rw e (rw h refl))
]

-- A call that returns, or throws what a `catch` names.
abbrev IsCaught : Outcome (Unit {0}) → Type 0
IsCaught o = (o ≡ returns tt) ⊎ (o ≡ throws filesystem_error)

or_filesystem_error-IsCaught :
    (o : Option FileSystem) (w : World) → IsCaught (or_filesystem_error o w).0
unfolding or_filesystem_error set_files update raise
or_filesystem_error-IsCaught none w = inr refl
or_filesystem_error-IsCaught (some fs) w = inl refl

catch_filesystem-returns :
    (body handler : M (Unit {0})) (w : World)
    → IsCaught (body w).0
    → ((w : World) → (handler w).0 ≡ returns tt)
    → (catch_filesystem body handler w).0 ≡ returns tt
unfolding catch_filesystem caught
catch_filesystem-returns body handler w (inl e) h = rw (e, catch_filesystem) e
catch_filesystem-returns body handler w (inr e) h = rw (e, catch_filesystem) (h (body w).1)

pub ensure_directory-returns :
    (severity : LogSeverity) (dir : Bytes) (b : Bool) (w : World)
    → (ensure_directory severity dir b w).0 ≡ returns tt
unfolding ensure_directory pure log make_directory gets ◌>>=◌
ensure_directory-returns severity dir true w = refl
ensure_directory-returns severity dir false w =
    catch_filesystem-returns _ _ w (or_filesystem_error-IsCaught (create_directories dir w.files) _)
      (λ w. refl)
