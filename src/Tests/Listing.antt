-- ===== src/Tests/Listing.antt =====
-- GET of the entity e without an id.
use dinner_is_servered.Prelude.{◌≡◌, refl, [], ◌∷◌, text, equal}
use dinner_is_servered.Runtime.{World, returns, pure, gets, ◌>>=◌}
use dinner_is_servered.Runtime.Dictionary.{less}
use dinner_is_servered.Runtime.Files.{directory, regular, parts_of, same_path, entry, status}
use dinner_is_servered.Runtime.Disk.{parent, below}
use dinner_is_servered.Crud.Ids.{entity_directory}
use dinner_is_servered.Crud.Manager.{last_part, file_names, insert, sort, names_below, list_objects}
use dinner_is_servered.Tests.Crud.{one, object, stored}

-- Beside e/1: e/9, e/10, and a directory e/s.
abbrev several : World
several = record stored {
  files =
      (parts_of (text "d/e/9"), regular [])
      ∷ (parts_of (text "d/e/10"), regular [])
      ∷ (parts_of (text "d/e/s"), directory)
      ∷ stored.files;
}

-- The order is that of texts, so 10 stands before 9, and a directory is no object.
ten_before_nine : (list_objects (object []) several).0 ≡ returns (one ∷ text "10" ∷ text "9" ∷ [])
unfolding list_objects names_below sort insert file_names last_part below parent entity_directory
    parts_of same_path entry status less equal text pure gets ◌>>=◌
ten_before_nine = refl
