-- ===== src/Tests/Refusals.antt =====
-- A POST with an id, which CrudHandler::handle_request refuses.
use dinner_is_servered.Prelude.{◌≡◌, refl, true, false, ◌⊎◌, [], ◌∷◌, text, equal, begins_with}
use dinner_is_servered.Logging.{is_empty}
use dinner_is_servered.Runtime.{returns, pure, crash, gets, log, ◌>>=◌}
use dinner_is_servered.Runtime.Dictionary.{find, at_key}
use dinner_is_servered.Dispatch.Request.{Request, post}
use dinner_is_servered.Dispatch.Target.{normalize, squeeze, trim, trim_loop, trims, back, pop_back}
use dinner_is_servered.Dispatch.Longest.{scan, improves}
use dinner_is_servered.Dispatch.Routes.{
  CrudPath, longest_crud, find_slash, split_index, split_entity, crud_path, get_crud_entity_path,
}
use dinner_is_servered.Crud.Handler.{handle_request}
use dinner_is_servered.Crud.Handler.Refusals.{refused, Refuses}
use dinner_is_servered.Crud.Handler.Accepted.{is_refusal, handle_request-Refuses_exactly}
use dinner_is_servered.Tests.Handlers.{library, laws}
use dinner_is_servered.Tests.Dispatch.{world, entity_request}

abbrev posted_entity : Request
posted_entity = record entity_request { method = post }

abbrev entity : CrudPath
entity = record {
  data_path = at_key world.server_paths.crud (b'/' ∷ b'a' ∷ []);
  entity_name = b'b' ∷ [];
  entity_id = b'1' ∷ [];
}

entity-path : (get_crud_entity_path posted_entity world).0 ≡ returns entity
unfolding get_crud_entity_path crud_path split_entity split_index find_slash longest_crud scan
    improves begins_with at_key find normalize squeeze trim trim_loop trims back pop_back gets log
    pure crash ◌>>=◌ equal text
entity-path = refl

handle_request-Refuses_exactly_example :
    ((refused post (is_empty entity.entity_name) (is_empty entity.entity_id) ≡ true)
      × Refuses library laws (handle_request library posted_entity) world)
    ⊎ ((refused post (is_empty entity.entity_name) (is_empty entity.entity_id) ≡ false)
        × (is_refusal library laws (handle_request library posted_entity world).0 ≡ false))
handle_request-Refuses_exactly_example =
    handle_request-Refuses_exactly library laws posted_entity world entity entity-path
