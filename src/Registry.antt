-- ===== src/Registry.antt =====
-- src/registry.cc, and the calls of it in `main` (src/_main.cc). A factory makes a handler that is
-- used for one request; it stands for what that handler does with the request.
pub mod Factories
use dinner_is_servered.Prelude.{
  ℕ, Bool, true, false, List, [], ◌∷◌, Option, none, some, ◌==◌, if◌then◌else◌, ◌≡◌, ◌≢◌, refl,
}
use dinner_is_servered.Runtime.{M}
use dinner_is_servered.Dispatch.Request.{
  Request, RequestType, static, echo, none_found, crud, health, sleep, app, bogus_type,
}
use dinner_is_servered.Http.{Http}

abbrev pub RequestHandlerFactory : Http → Type 0
RequestHandlerFactory http = Request → M http.Response

-- The value of the enumerator.
abbrev pub enum_value : RequestType → ℕ
enum_value static = 0
enum_value echo = 1
enum_value none_found = 2
enum_value crud = 3
enum_value health = 4
enum_value sleep = 5
enum_value app = 6
enum_value bogus_type = 7

module _ (http : Http) where
  -- `request_handlers_map`
  abbrev pub HandlersMap : Type 0
  HandlersMap = List (RequestType × RequestHandlerFactory http)

  unfoldable pub register_request_handler :
      RequestType → RequestHandlerFactory http → HandlersMap → HandlersMap
  register_request_handler type factory [] = (type, factory) ∷ []
  register_request_handler type factory ((t, f) ∷ map) =
      let rest = register_request_handler type factory map in
      if enum_value t == enum_value type then (type, factory) ∷ map else (t, f) ∷ rest

  -- `none` is the null pointer.
  unfoldable pub get_request_handler :
      RequestType → HandlersMap → Option (RequestHandlerFactory http)
  get_request_handler type [] = none
  get_request_handler type ((t, f) ∷ map) =
      if enum_value t == enum_value type then some f else get_request_handler type map

  -- The seven calls of `main`, with the factory of each type.
  unfoldable pub register_all : (RequestType → RequestHandlerFactory http) → HandlersMap
  register_all factory = register_request_handler app (factory app) (
      register_request_handler sleep (factory sleep) (
        register_request_handler health (factory health) (
          register_request_handler crud (factory crud) (
            register_request_handler none_found (factory none_found) (
              register_request_handler static (factory static)
                (register_request_handler echo (factory echo) []))))))

  -- Behind the calls of `main`, every type but BogusType has its handler.
  pub register_all-get :
      (factory : RequestType → RequestHandlerFactory http) (type : RequestType)
      → type ≢ bogus_type
      → get_request_handler type (register_all factory) ≡ some (factory type)
  unfolding register_all register_request_handler get_request_handler
  register_all-get factory static h = refl
  register_all-get factory echo h = refl
  register_all-get factory none_found h = refl
  register_all-get factory crud h = refl
  register_all-get factory health h = refl
  register_all-get factory sleep h = refl
  register_all-get factory app h = refl
  register_all-get factory bogus_type h = absurd (h refl)
