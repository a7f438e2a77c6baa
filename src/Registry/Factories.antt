-- ===== src/Registry/Factories.antt =====
-- The factories that `main` registers.
use dinner_is_servered.Handlers.Static.{DirectoryEnd}
use dinner_is_servered.Runtime.{crash}
use dinner_is_servered.Dispatch.Request.{
  RequestType, static, echo, none_found, crud, health, sleep, app, bogus_type,
}
use dinner_is_servered.Http.{Http}
use dinner_is_servered.Handlers.Echo
use dinner_is_servered.Handlers.Health
use dinner_is_servered.Handlers.Sleep
use dinner_is_servered.Handlers.NotFound
use dinner_is_servered.Handlers.Static
use dinner_is_servered.Crud.Handler
use dinner_is_servered.App.Answer
use dinner_is_servered.App.Services.{Services}
use dinner_is_servered.Registry.{RequestHandlerFactory}

unfoldable pub factory_of :
    (http : Http) → DirectoryEnd → Services → RequestType → RequestHandlerFactory http
factory_of http directory_end services static = Static.handle_request http directory_end
factory_of http directory_end services echo = Echo.handle_request http
factory_of http directory_end services none_found = NotFound.handle_request http
factory_of http directory_end services crud = Handler.handle_request http
factory_of http directory_end services health = Health.handle_request http
factory_of http directory_end services sleep = Sleep.handle_request http
factory_of http directory_end services app = Answer.handle_request http directory_end services
factory_of http directory_end services bogus_type = λ _. crash
