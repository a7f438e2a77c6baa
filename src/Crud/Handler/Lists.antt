-- ===== src/Crud/Handler/Lists.antt =====
-- handle_get without an id.
use dinner_is_servered.Prelude.{List, [], ◌∷◌, ◌++◌, Bytes}
use dinner_is_servered.Dispatch.Request.{Request}
use dinner_is_servered.Http.{Http}
use dinner_is_servered.Crud.Handler.{join}

-- The names in brackets, with ", " between two.
abbrev pub listing_text : List Bytes → Bytes
listing_text names = b'[' ∷ (join names ++ b']' ∷ [])
