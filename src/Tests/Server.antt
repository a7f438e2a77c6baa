-- ===== src/Tests/Server.antt =====
-- Runs of the server and of main.
use dinner_is_servered.Prelude.{suc, ◌≡◌, refl, true, false, [], ◌∷◌, ◌++◌, none, Bytes, text, ap}
use dinner_is_servered.Logging.{info, add_to_buffer}
use dinner_is_servered.Logging.Interleaving.{pending, entry}
use dinner_is_servered.Logging.Flush.{IsSettled}
use dinner_is_servered.Runtime.{returns, pure}
use dinner_is_servered.Runtime.Numbers.{ℤ, pos}
use dinner_is_servered.Runtime.Quiet.{OnlyLogs, bind_returns}
use dinner_is_servered.Dispatch.Request.{Request}
use dinner_is_servered.Dispatch.Send.{dispatch_request}
use dinner_is_servered.Http.{bad_request}
use dinner_is_servered.Dispatch.Send.Handled.{dispatch_request-refused}
use dinner_is_servered.Session.{
  Session, new_session, start, async_read, async_write, read_into, handle_read,
}
use dinner_is_servered.Server.{
  Server, run, make_server, handle_accept, start_accept, log_line, handle_logging, kill_server,
}
use dinner_is_servered.Server.Steps.{Event, connected, served, put_session, Run}
use dinner_is_servered.Server.Steps
use dinner_is_servered.Server.Service.{ServiceRun, content_of}
use dinner_is_servered.Server.Sessions.{service_of}
use dinner_is_servered.Server.Refines.{Run-ServiceRun}
use dinner_is_servered.Server.Shutdown.{HasEnded, kill_server-HasEnded}
use dinner_is_servered.Tests.Dispatch.{world}
use dinner_is_servered.Tests.Handlers.{Reply, library, laws, socket, odd, posted-target}

-- Nothing is known of what stands behind a literal.
abbrev beyond : ℤ → Bytes
beyond port = []

-- What is read takes the place of what was there.
abbrev receive : Request → Request → Request
receive old message = message

abbrev began : Server library
began = run library (make_server library beyond false world (pos 8))

abbrev joined : Server library
joined = handle_accept library false began

abbrev waiting : Session library
waiting = async_read library (new_session library)

abbrev odd_reply :
    (r : Reply) × OnlyLogs (dispatch_request library [] socket odd) joined.world (returns r)
    × (library.result r ≡ bad_request)
    × (library.body r ≡ [])
odd_reply = dispatch_request-refused library laws [] socket odd joined.world posted-target refl

abbrev answered : Session library
answered = async_write library odd_reply.0 (read_into library receive odd waiting)

odd-read :
    (handle_read library [] false socket (read_into library receive odd waiting) joined.world).0
    ≡ returns (answered, true)
unfolding handle_read read_into pure
odd-read =
    ap (λ r. r.0)
      (bind_returns (dispatch_request library [] socket odd) _ joined.world odd_reply.0
        odd_reply.1.outcome)

abbrev replied : Server library
replied =
    put_session library joined
      (handle_read library [] false socket (read_into library receive odd waiting) joined.world).1
      [] answered []

-- A connection, and a request on it.
two_steps : Run library [] receive began (connected ∷ served 0 odd answered.response ∷ []) replied
unfolding run make_server start_accept handle_accept start log_line async_read
two_steps =
    Steps.step
      (Steps.step Steps.start (Steps.accept (record { alive = refl; unstopped = refl }) refl))
      (Steps.read socket odd [] waiting [] answered true (record { alive = refl; unstopped = refl })
        refl refl odd-read)

Run-ServiceRun_example :
    ServiceRun library []
      (record { content = content_of world; clients = [] })
      (connected ∷ served 0 odd answered.response ∷ [])
      (service_of library replied)
Run-ServiceRun_example =
    Run-ServiceRun library [] receive (λ message. refl) beyond false world (pos 8) replied
      (connected ∷ served 0 odd answered.response ∷ []) two_steps

settled : IsSettled began.world.logging_buffer
unfolding run make_server start_accept log_line add_to_buffer
settled = record { index = refl; drained = refl }

running : began.program_terminated ≡ false
unfolding run make_server start_accept log_line
running = refl

kill_server-HasEnded_example :
    (handle_logging library 5 began ≡ none)
    × HasEnded library began
        (pending began.world.logging_buffer
          ++ entry info (text "Recieved interupt signal. Terminating") ∷ [])
        (handle_logging library (suc (suc 5)) (kill_server library began))
kill_server-HasEnded_example = kill_server-HasEnded library 5 began settled running
