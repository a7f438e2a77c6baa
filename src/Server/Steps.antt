-- ===== src/Server/Steps.antt =====
-- The runs of the server: connections, reads, writes and the signal in any order, with the logging
-- thread in between. An event is what a client can see of a step. That an exception leaves a
-- handler ends the program. A step whose behaviour is undefined is in no run.
use dinner_is_servered.Prelude.{
  ℕ, ◌≡◌, Bool, true, false, List, [], ◌∷◌, ◌++◌, some, none, Bytes, length,
}
use dinner_is_servered.Runtime.{World, Exception, returns, throws}
use dinner_is_servered.Dispatch.Request.{Request}
use dinner_is_servered.Dispatch.Send.{Socket}
use dinner_is_servered.Http.{Http}
use dinner_is_servered.Registry.{HandlersMap}
use dinner_is_servered.Session.{Session, reading, writing, read_into, handle_read, handle_write}
use dinner_is_servered.Server.{Server, handle_accept, logging_round, kill_server}

pub data Event (http : Http) : Type 0 where
  connected silent : Event http
  -- the number of the session, and the request that it is answered for
  served : ℕ → Request → http.Response → Event http
  broke : ℕ → Request → Exception → Event http

module _ (http : Http) where
  -- The threads of the pool still run handlers.
  pub record IsRunning (s : Server http) : Type 0 where
    pub alive : s.aborted ≡ false
    pub unstopped : s.io_stopped ≡ false

  -- A session of the server, and the server with another in its place.
  abbrev pub HasSession :
      Server http → List (Session http) → Session http → List (Session http) → Type 0
  HasSession s before session behind = s.sessions ≡ before ++ session ∷ behind

  abbrev pub put_session :
      Server http → World → List (Session http) → Session http → List (Session http) → Server http
  put_session s world before session behind = record s {
    world = world;
    sessions = before ++ session ∷ behind;
  }

module _ (http : Http) (handlers : HandlersMap http) (receive : Request → Request → Request) where
  pub data Step (s : Server http) : Event http → Server http → Type 0 where
    accept_failed :
        IsRunning http s → s.accepting ≡ true → Step s silent (handle_accept http true s)
    accept : IsRunning http s → s.accepting ≡ true → Step s connected (handle_accept http false s)
    read_failed :
        (socket : Socket) (before : List (Session http)) (session : Session http)
        (behind : List (Session http)) (after : Session http) (b : Bool)
        → IsRunning http s
        → HasSession http s before session behind
        → session.pending ≡ reading
        → (handle_read http handlers true socket session s.world).0 ≡ returns (after, b)
        → Step s silent (
            put_session http s
              (handle_read http handlers true socket session s.world).1
              before
              after
              behind)
    read :
        (socket : Socket) (message : Request) (before : List (Session http))
        (session : Session http) (behind : List (Session http)) (after : Session http) (b : Bool)
        → IsRunning http s
        → HasSession http s before session behind
        → session.pending ≡ reading
        → (handle_read http handlers false socket
            (read_into http receive message session)
            s.world).0
          ≡ returns (after, b)
        → Step s (served (length before) message after.response) (
            put_session http s
              (handle_read http handlers false socket
                (read_into http receive message session)
                s.world).1
              before
              after
              behind)
    read_thrown :
        (socket : Socket) (message : Request) (before : List (Session http))
        (session : Session http) (behind : List (Session http)) (e : Exception)
        → IsRunning http s
        → HasSession http s before session behind
        → session.pending ≡ reading
        → (handle_read http handlers false socket
            (read_into http receive message session)
            s.world).0
          ≡ throws e
        → Step s (broke (length before) message e) (record s {
          world =
              (handle_read http handlers false socket
                (read_into http receive message session)
                s.world).1;
          aborted = true;
        })
    write :
        (failed : Bool) (address : Bytes) (ec : Bool) (before : List (Session http))
        (session : Session http) (behind : List (Session http)) (after : Session http) (b : Bool)
        → IsRunning http s
        → HasSession http s before session behind
        → session.pending ≡ writing
        → (handle_write http failed address ec session s.world).0 ≡ returns (after, b)
        → Step s silent (
            put_session http s
              (handle_write http failed address ec session s.world).1
              before
              after
              behind)
    signal : IsRunning http s → Step s silent (kill_server http s)
    log_round :
        (t : Server http)
        → s.aborted ≡ false
        → s.logging_ended ≡ false
        → logging_round http s ≡ some t
        → Step s silent t
    log_end :
        s.aborted ≡ false
        → s.logging_ended ≡ false
        → logging_round http s ≡ none
        → Step s silent (record s { logging_ended = true })

  -- A run, with its events in order.
  pub data Run (s : Server http) : List (Event http) → Server http → Type 0 where
    start : Run s [] s
    step :
        {events : List (Event http)} {e : Event http} {t u : Server http}
        → Run s events t
        → Step t e u
        → Run s (events ++ e ∷ []) u
