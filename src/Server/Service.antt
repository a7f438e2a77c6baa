-- ===== src/Server/Service.antt =====
-- What the server promises to its clients: a service that keeps, besides the files and the settings,
-- the requests of each client with their responses. The log, and what is under way, are forgotten.
use dinner_is_servered.Prelude.{ℕ, ◌≡◌, List, [], ◌∷◌, ◌++◌, Bytes, length}
use dinner_is_servered.Runtime.{World, Exception, ServerPaths, returns, throws}
use dinner_is_servered.Runtime.Files.{FileSystem}
use dinner_is_servered.Dispatch.Request.{Request}
use dinner_is_servered.Dispatch.Send.{Socket, dispatch_request}
use dinner_is_servered.Http.{Http}
use dinner_is_servered.Registry.{HandlersMap}
use dinner_is_servered.Server.Steps.{Event, connected, silent, served, broke}

-- the world without the log
pub record Content : Type 0 where
  pub files : FileSystem
  pub server_paths : ServerPaths
  pub api_key : Bytes
  pub chatgpt_url : Bytes

abbrev pub content_of : World → Content
content_of w = record {
  files = w.files;
  server_paths = w.server_paths;
  api_key = w.api_key;
  chatgpt_url = w.chatgpt_url;
}

abbrev pub Transcript : Http → Type 0
Transcript http = List (Request × http.Response)

pub record Service (http : Http) : Type 0 where
  pub content : Content
  pub clients : List (Transcript http)

module _ (http : Http) (handlers : HandlersMap http) where
  -- An event of the service. A client is answered by what dispatch_request returns for exactly its
  -- request, on the files as they are, and no other client's transcript changes.
  pub data Serves (s : Service http) : Event http → Service http → Type 0 where
    idle : Serves s silent s
    connect :
        {t : Service http}
        → t.content ≡ s.content
        → t.clients ≡ s.clients ++ [] ∷ []
        → Serves s connected t
    serve :
        {t : Service http} {n : ℕ} {request : Request} {response : http.Response} (socket : Socket)
        (w : World) (before : List (Transcript http)) (client : Transcript http)
        (behind : List (Transcript http))
        → content_of w ≡ s.content
        → s.clients ≡ before ++ client ∷ behind
        → n ≡ length before
        → (dispatch_request http handlers socket request w).0 ≡ returns response
        → t.content ≡ content_of (dispatch_request http handlers socket request w).1
        → t.clients ≡ before ++ (client ++ (request, response) ∷ []) ∷ behind
        → Serves s (served n request response) t
    break :
        {t : Service http} {n : ℕ} {request : Request} {e : Exception} (socket : Socket) (w : World)
        → content_of w ≡ s.content
        → (dispatch_request http handlers socket request w).0 ≡ throws e
        → t.content ≡ content_of (dispatch_request http handlers socket request w).1
        → t.clients ≡ s.clients
        → Serves s (broke n request e) t

  pub data ServiceRun (s : Service http) : List (Event http) → Service http → Type 0 where
    start : ServiceRun s [] s
    step :
        {events : List (Event http)} {e : Event http} {t u : Service http}
        → ServiceRun s events t
        → Serves t e u
        → ServiceRun s (events ++ e ∷ []) u
