-- ===== src/Runtime/Files.antt =====
-- The file system, as far as <fstream> and <filesystem> show it: regular files and directories
-- under paths. A path is the list of its parts; the parts that are empty or "." are dropped, and
-- ".." takes the part before it away, whether or not that is a directory. An absolute path begins
-- with an empty part. Permissions, links and a full disk are not modelled.
use mathlib.Core.List.{reverse}
use dinner_is_servered.Prelude.{
  Bool, true, false, ◌&&◌, ◌≡◌, List, [], ◌∷◌, ◌++◌, Option, none, some, Bytes, equal, equal_iff,
  ◌==◌, if◌then◌else◌, arith, ◌↔◌,
}

pub data Node : Type 0 where
  directory : Node
  regular : Bytes → Node

abbrev pub FilePath : Type 0
FilePath = List Bytes

abbrev pub FileSystem : Type 0
FileSystem = List (FilePath × Node)

abbrev dots : Bytes
dots = b'.' ∷ b'.' ∷ []

-- "..", on the parts so far, the last one first
drop_part : FilePath → FilePath
drop_part [] = dots ∷ []
drop_part ([] ∷ rest) = [] ∷ rest
drop_part (part ∷ rest) = if equal part dots then dots ∷ part ∷ rest else rest

add_part : Bytes → FilePath → FilePath
add_part [] parts = parts
add_part (c ∷ cs) parts =
    if equal (c ∷ cs) (b'.' ∷ [])
    then parts
    else if equal (c ∷ cs) dots
    then drop_part parts
    else (c ∷ cs) ∷ parts

split_from : FilePath → Bytes → Bytes → FilePath
split_from parts part [] = add_part part parts
split_from parts part (c ∷ cs) = elim (c == b'/') [
  | true ↦ split_from (add_part part parts) [] cs
  | false ↦ split_from parts (part ++ c ∷ []) cs
]

abbrev is_absolute : Bytes → Bool
is_absolute [] = false
is_absolute (c ∷ cs) = c == b'/'

unfoldable pub parts_of : Bytes → FilePath
unfolding split_from add_part drop_part
parts_of path = reverse (split_from (if is_absolute path then [] ∷ [] else []) [] path)

unfoldable pub same_path : FilePath → FilePath → Bool
same_path [] [] = true
same_path (p ∷ ps) (q ∷ qs) = equal p q && same_path ps qs
same_path _ _ = false

pub same_path_iff : (p q : FilePath) → (same_path p q ≡ true) ↔ (p ≡ q)
unfolding same_path
same_path_iff [] [] = ground arith
same_path_iff (x ∷ p) (y ∷ q) = ground (arith, same_path_iff p q, equal_iff x y)
same_path_iff _ _ = ground arith

unfoldable pub entry : FilePath → FileSystem → Option Node
entry p [] = none
entry p ((q, n) ∷ fs) = if same_path q p then some n else entry p fs

-- The working directory and the root are there always.
unfoldable pub status : FileSystem → FilePath → Option Node
status fs [] = some directory
status fs ([] ∷ []) = some directory
status fs p = entry p fs

abbrev is_some {ℓ} : {A : Type ℓ} → Option A → Bool
is_some none = false
is_some (some a) = true

-- `std::filesystem::exists`
unfoldable pub exists : FileSystem → Bytes → Bool
exists fs [] = false
exists fs path = is_some (status fs (parts_of path))

-- What an `std::ifstream` on the path can read; `none` where `is_open()` fails. Opening a directory
-- succeeds.
unfoldable pub open_in : FileSystem → Bytes → Option Node
open_in fs [] = none
open_in fs path = status fs (parts_of path)
