-- ===== src/Runtime/Disk.antt =====
-- How <fstream> and <filesystem> change the files.
use dinner_is_servered.Prelude.{
  Bool, true, false, ◌≡◌, refl, [], ◌∷◌, ◌++◌, Option, none, some, Bytes, ◌==◌, if◌then◌else◌,
  Bool-cases, inl, inr,
}
use dinner_is_servered.Runtime.Files.{
  exists, Node, directory, regular, FilePath, FileSystem, parts_of, same_path, same_path_iff, entry,
  status, open_in,
}

-- An entry, new or in place of the one that is there.
unfoldable pub put : FilePath → Node → FileSystem → FileSystem
put p n [] = (p, n) ∷ []
put p n ((q, m) ∷ fs) =
    let rest = put p n fs in if same_path q p then (p, n) ∷ fs else (q, m) ∷ rest

unfoldable pub delete_entry : FilePath → FileSystem → FileSystem
delete_entry p [] = []
delete_entry p ((q, m) ∷ fs) =
    let rest = delete_entry p fs in if same_path q p then rest else (q, m) ∷ rest

-- The path without its last part.
unfoldable pub parent : FilePath → FilePath
parent [] = []
parent (p ∷ []) = []
parent (p ∷ q ∷ ps) = p ∷ parent (q ∷ ps)

unfoldable pub is_directory : Option Node → Bool
is_directory (some directory) = true
is_directory _ = false

unfoldable pub ends_in_slash : Bytes → Bool
ends_in_slash [] = false
ends_in_slash (c ∷ []) = c == b'/'
ends_in_slash (c ∷ d ∷ s) = ends_in_slash (d ∷ s)

-- The content that a file has when it is opened for writing, or for writing at its end; `none`
-- where it cannot be opened. A file that is not there is made in a directory that is.
unfoldable pub openable : FileSystem → FilePath → Option Node → Option Bytes
openable fs p (some directory) = none
openable fs p (some (regular content)) = some content
openable fs p none = if is_directory (status fs (parent p)) then some [] else none

unfoldable pub open_out : FileSystem → Bytes → Option Bytes
open_out fs path =
    if ends_in_slash path then none else openable fs (parts_of path) (status fs (parts_of path))

-- What a stream that was opened writes.
unfoldable pub write : Bytes → Bytes → FileSystem → FileSystem
write path content fs = put (parts_of path) (regular content) fs

-- The directories of a path that are missing, the outer one first, in front of `done`; `none` where
-- a part is a file.
unfoldable pub make_directories : FilePath → FilePath → FileSystem → Option FileSystem
make_directories done [] fs = some fs
make_directories done (p ∷ ps) fs = elim (status fs (done ++ p ∷ [])) [
  | some (regular content) ↦ none
  | some directory ↦ make_directories (done ++ p ∷ []) ps fs
  | none ↦ make_directories (done ++ p ∷ []) ps (put (done ++ p ∷ []) directory fs)
]

-- `std::filesystem::create_directories`; `none` where it throws
unfoldable pub create_directories : Bytes → FileSystem → Option FileSystem
create_directories [] fs = none
create_directories (c ∷ cs) fs = make_directories [] (parts_of (c ∷ cs)) fs

-- The entries right below a directory.
unfoldable pub below : FilePath → FileSystem → FileSystem
below p [] = []
below p ((q, n) ∷ fs) =
    let rest = below p fs in
    elim q [
      | [] ↦ rest
      | x ∷ xs ↦ if same_path (parent (x ∷ xs)) p then (x ∷ xs, n) ∷ rest else rest
    ]

-- `std::filesystem::remove`: the files that are left, with whether there was a file; `none` where
-- it throws, on a directory that is not empty
unfoldable pub remove_node : FilePath → Option Node → FileSystem → Option (FileSystem × Bool)
remove_node p none fs = some (fs, false)
remove_node p (some (regular content)) fs = some (delete_entry p fs, true)
remove_node p (some directory) fs = elim (below p fs) [
  | [] ↦ some (delete_entry p fs, true)
  | e ∷ es ↦ none
]

unfoldable pub remove : Bytes → FileSystem → Option (FileSystem × Bool)
remove path fs = remove_node (parts_of path) (status fs (parts_of path)) fs

pub entry-put : (p : FilePath) (n : Node) (fs : FileSystem) → entry p (put p n fs) ≡ some n
unfolding entry put
entry-put p n [] = rw ((same_path_iff p p).1 refl) refl
entry-put p n ((q, m) ∷ fs) = elim (Bool-cases (same_path q p)) [
  | inl e ↦ rw (e, put) (rw ((same_path_iff p p).1 refl) refl)
  | inr e ↦ rw (e, put) (rw e (entry-put p n fs))
]

pub entry-delete_entry : (p : FilePath) (fs : FileSystem) → entry p (delete_entry p fs) ≡ none
unfolding entry delete_entry
entry-delete_entry p [] = refl
entry-delete_entry p ((q, m) ∷ fs) = elim (Bool-cases (same_path q p)) [
  | inl e ↦ rw (e, delete_entry) (entry-delete_entry p fs)
  | inr e ↦ rw (e, delete_entry) (rw e (entry-delete_entry p fs))
]

status-put :
    (fs : FileSystem) (p : FilePath) (n : Node) (c : Bytes)
    → openable fs p (status fs p) ≡ some c
    → status (put p n fs) p ≡ some n
unfolding status openable
status-put fs [] n c h = absurd cc
status-put fs ([] ∷ []) n c h = absurd cc
status-put fs ([] ∷ q ∷ ps) n c h = entry-put ([] ∷ q ∷ ps) n fs
status-put fs ((x ∷ xs) ∷ ps) n c h = entry-put ((x ∷ xs) ∷ ps) n fs

no_root :
    (fs : FileSystem) (c : Bytes) → openable fs (parts_of []) (status fs (parts_of [])) ≡ some c → ⊥
unfolding openable status parts_of
no_root fs c h = absurd cc

open_in-put :
    (fs : FileSystem) (path content c : Bytes)
    → openable fs (parts_of path) (status fs (parts_of path)) ≡ some c
    → open_in (put (parts_of path) (regular content) fs) path ≡ some (regular content)
unfolding open_in
open_in-put fs [] content c h = absurd (no_root fs c h)
open_in-put fs (x ∷ xs) content c h = status-put fs (parts_of (x ∷ xs)) (regular content) c h

-- A file that could be opened for writing is read back with what was written.
pub open_in-write :
    (fs : FileSystem) (path content c : Bytes)
    → open_out fs path ≡ some c
    → open_in (write path content fs) path ≡ some (regular content)
unfolding write open_out
open_in-write fs path content c h = elim (Bool-cases (ends_in_slash path)) [
  | inl e ↦ let z : none ≡ some c = rw e at h in absurd cc
  | inr e ↦ open_in-put fs path content c (rw e at h)
]

status-delete_entry :
    (fs : FileSystem) (p : FilePath) (content : Bytes)
    → status fs p ≡ some (regular content)
    → status (delete_entry p fs) p ≡ none
unfolding status
status-delete_entry fs [] content h = absurd cc
status-delete_entry fs ([] ∷ []) content h = absurd cc
status-delete_entry fs ([] ∷ q ∷ ps) content h = entry-delete_entry ([] ∷ q ∷ ps) fs
status-delete_entry fs ((x ∷ xs) ∷ ps) content h = entry-delete_entry ((x ∷ xs) ∷ ps) fs

-- A file that is there is removed, and cannot be opened then.
pub remove_regular :
    (fs : FileSystem) (path content : Bytes)
    → open_in fs path ≡ some (regular content)
    → (fs' : FileSystem) × (remove path fs ≡ some (fs', true)) × (open_in fs' path ≡ none)
unfolding open_in remove remove_node
remove_regular fs [] content h = absurd cc
remove_regular fs (x ∷ xs) content h = (
  delete_entry (parts_of (x ∷ xs)) fs,
  rw h refl,
  status-delete_entry fs (parts_of (x ∷ xs)) content h,
)

pub exists_of_open :
    (fs : FileSystem) (path : Bytes) (n : Node) → open_in fs path ≡ some n → exists fs path ≡ true
unfolding open_in exists
exists_of_open fs [] n h = absurd cc
exists_of_open fs (x ∷ xs) n h = rw h refl
