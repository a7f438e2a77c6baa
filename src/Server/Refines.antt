-- ===== src/Server/Refines.antt =====
-- The server keeps what the service promises: every step of a run is an event of the service.
use dinner_is_servered.Prelude.{Bool, ◌≡◌, refl, List, [], Bytes, All}
use dinner_is_servered.Runtime.{World}
use dinner_is_servered.Runtime.Numbers.{ℤ}
use dinner_is_servered.Dispatch.Request.{Request}
use dinner_is_servered.Http.{Http}
use dinner_is_servered.Registry.{HandlersMap}
use dinner_is_servered.Session.{empty_request}
use dinner_is_servered.Server.{
  Server, run, make_server, start_accept, handle_accept, kill_server, log_line,
}
use dinner_is_servered.Server.Steps.{
  Event, connected, silent, served, broke, HasSession, put_session, Step, Run,
}
use dinner_is_servered.Server.Steps
use dinner_is_servered.Server.Service.{
  Content, content_of, Transcript, Service, Serves, idle, connect, serve, break, ServiceRun,
}
use dinner_is_servered.Server.Service
use dinner_is_servered.Server.Sessions.{service_of, IsFresh}
use dinner_is_servered.Server.Answered.{
  IsServed, silent-IsServed, accepted, read_failed, answered, thrown, wrote, logged,
}

module _ (http : Http) (handlers : HandlersMap http) (receive : Request → Request → Request)
    (fresh : (message : Request) → receive empty_request message ≡ message) where
  Step-IsServed :
      (s t : Server http) (e : Event http)
      → All (IsFresh http) s.sessions
      → Step http handlers receive s e t
      → IsServed http handlers receive fresh s e t
  unfolding handle_accept start_accept kill_server log_line
  Step-IsServed s t e h (Steps.accept_failed r a) =
      silent-IsServed http handlers receive fresh s _ refl h
  Step-IsServed s t e h (Steps.accept r a) = accepted http handlers receive fresh s h
  Step-IsServed s t e h (Steps.read_failed socket before session behind after b r i p o) =
      read_failed http handlers receive fresh s socket before behind session after b h i o
  Step-IsServed s t e h (Steps.read socket message before session behind after b r i p o) =
      answered http handlers receive fresh s socket message before behind session after b h i p o
  Step-IsServed s t e h (Steps.read_thrown socket message before session behind x r i p o) =
      thrown http handlers receive fresh s socket message before behind session x h i p o
  Step-IsServed s t e h (Steps.write f address ec before session behind after b r i p o) =
      wrote http handlers receive fresh s f address ec before behind session after b h i o
  Step-IsServed s t e h (Steps.signal r) = silent-IsServed http handlers receive fresh s _ refl h
  Step-IsServed s t e h (Steps.log_round u a l o) = logged http handlers receive fresh s t h o
  Step-IsServed s t e h (Steps.log_end a l o) =
      silent-IsServed http handlers receive fresh s _ refl h

  Run-IsServed :
      (s t : Server http) (events : List (Event http))
      → All (IsFresh http) s.sessions
      → Run http handlers receive s events t
      → ServiceRun http handlers (service_of http s) events (service_of http t)
        × All (IsFresh http) t.sessions
  Run-IsServed s t events h Steps.start = (Service.start, h)
  Run-IsServed s t events h (Steps.step {events = before} {e = e} {t = u} r x) =
      let (run, k) = Run-IsServed s u before h r in
      let last = Step-IsServed u t e k x in (Service.step run last.event, last.stays)

  -- Whatever connects, is read, is written, fails or is logged, and in whatever order: from the
  -- constructor and run on, every run of the server is a run of the service with the same events. So
  -- each client is answered by what dispatch_request returns for exactly the request it sent, one
  -- response for each and in order, and no client's transcript changes by what another sends. What
  -- async_read leaves in an empty message is taken to be the request that was sent.
  pub Run-ServiceRun :
      (beyond : ℤ → Bytes) (raced : Bool) (w : World) (port : ℤ) (t : Server http)
      (events : List (Event http))
      → Run http handlers receive (run http (make_server http beyond raced w port)) events t
      → ServiceRun http handlers
          (record { content = content_of w; clients = [] })
          events
          (service_of http t)
  unfolding run make_server start_accept log_line
  Run-ServiceRun beyond raced w port t events r =
      (Run-IsServed (run http (make_server http beyond raced w port)) t events tt r).0
