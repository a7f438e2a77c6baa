-- ===== src/Dispatch/Longest.antt =====
-- The loops that look for the closest matching path.
pub mod Best
pub mod Changes
use dinner_is_servered.Prelude.{
  ℕ, Bool, ◌&&◌, List, [], ◌∷◌, Bytes, begins_with, length, ltb, if◌then◌else◌,
}
use dinner_is_servered.Dispatch.Request.{RequestType, none_found}

-- `longest_size`, `longest_path` and `request_type`
pub record Longest : Type 0 where
  pub size : ℕ
  pub path : Bytes
  pub type : RequestType

abbrev pub nothing : Longest
nothing = record { size = 0; path = []; type = none_found }

-- `result.find(path) == 0 && path.length() > longest_size`
unfoldable pub improves : Bytes → Bytes → ℕ → Bool
improves result path longest_size = begins_with result path && ltb longest_size (length path)

-- One loop, over the paths of one type.
unfoldable pub scan : Bytes → RequestType → List Bytes → Longest → Longest
scan result type [] best = best
scan result type (path ∷ paths) best = scan result type paths (
    if improves result path best.size
    then record { size = length path; path = path; type = type }
    else best)
