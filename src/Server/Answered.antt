-- ===== src/Server/Answered.antt =====
-- The steps of the server, one by one, as events of the service.
use mathlib.Core.List.{map, map-append}
use dinner_is_servered.Runtime.Inversion.{returns-injective}
use dinner_is_servered.Prelude.{
  some-injective, ◌≡◌, refl, sym, ap, ap₂, ◌∙◌, subst, Bool, true, false, List, [], ◌∷◌, ◌++◌, some,
  Bytes, length, All, All-append,
}
use dinner_is_servered.Runtime.{Exception, returns, throws, pure}
use dinner_is_servered.Runtime.Inversion.{>>=-returns}
use dinner_is_servered.Dispatch.Request.{Request}
use dinner_is_servered.Dispatch.Send.{Socket, dispatch_request}
use dinner_is_servered.Http.{Http}
use dinner_is_servered.Registry.{HandlersMap}
use dinner_is_servered.Session.{
  Session, nothing, reading, empty_request, start, async_read, async_write, read_into, handle_read,
  handle_write, written,
}
use dinner_is_servered.Server.{Server, start_accept, handle_accept, log_once, logging_round}
use dinner_is_servered.Server.Steps.{
  Event, connected, silent, served, broke, HasSession, put_session,
}
use dinner_is_servered.Server.Service.{content_of, Serves, idle, connect, serve, break}
use dinner_is_servered.Server.Sessions.{
  Quiet-content, bind_pure-throws, transcript_of, service_of, IsFresh, length-map,
  written-transcript, written-IsFresh, async_write-IsFresh, OnlyLogs-handle_write, map-middle,
  All-replace, All-middle, replaced,
}

module _ (http : Http) (handlers : HandlersMap http) (receive : Request → Request → Request)
    (fresh : (message : Request) → receive empty_request message ≡ message) where
  pub record IsServed (s : Server http) (e : Event http) (t : Server http) : Type 0 where
    pub event : Serves http handlers (service_of http s) e (service_of http t)
    pub stays : All (IsFresh http) t.sessions

  pub silent-IsServed :
      (s t : Server http)
      → service_of http t ≡ service_of http s
      → All (IsFresh http) t.sessions
      → IsServed s silent t
  silent-IsServed s t e h = record {
    event = subst (Serves http handlers (service_of http s) silent) (sym e) idle;
    stays = h;
  }

  put-IsFresh :
      (s : Server http) (before behind : List (Session http)) (session after : Session http)
      → HasSession http s before session behind
      → All (IsFresh http) s.sessions
      → IsFresh http after
      → All (IsFresh http) (before ++ after ∷ behind)
  put-IsFresh s before behind session after i h f =
      All-replace http before behind session after (subst (All (IsFresh http)) i h) f

  pub accepted :
      (s : Server http)
      → All (IsFresh http) s.sessions
      → IsServed s connected (handle_accept http false s)
  unfolding handle_accept start_accept start async_read
  accepted s h = record {
    event = connect refl (map-append (transcript_of http) s.sessions _);
    stays = All-append (IsFresh http) s.sessions _ h ((λ p. refl), tt);
  }

  pub read_failed :
      (s : Server http) (socket : Socket) (before behind : List (Session http))
      (session after : Session http) (b : Bool)
      → All (IsFresh http) s.sessions
      → HasSession http s before session behind
      → (handle_read http handlers true socket session s.world).0 ≡ returns (after, b)
      → IsServed s silent (
          put_session http s
            (handle_read http handlers true socket session s.world).1
            before
            after
            behind)
  unfolding handle_read pure
  read_failed s socket before behind session after b h i o =
      let ended : Session http = record session { pending = nothing } in
      let e : ended ≡ after = cc in
      silent-IsServed s _
        (replaced http s s.world before behind session after i refl
          (sym (ap (λ x. x.transcript) e)))
        (put-IsFresh s before behind session after i h (subst (IsFresh http) e (λ z. absurd cc)))

  was_message :
      (s : Server http) (message : Request) (before behind : List (Session http))
      (session : Session http)
      → All (IsFresh http) s.sessions
      → HasSession http s before session behind
      → session.pending ≡ reading
      → receive session.request message ≡ message
  was_message s message before behind session h i p =
      ap (λ r. receive r message)
        (All-middle http before behind session (subst (All (IsFresh http)) i h) p)
      ∙ fresh message

  pub answered :
      (s : Server http) (socket : Socket) (message : Request) (before behind : List (Session http))
      (session after : Session http) (b : Bool)
      → All (IsFresh http) s.sessions
      → HasSession http s before session behind
      → session.pending ≡ reading
      → (handle_read http handlers false socket (read_into http receive message session) s.world).0
        ≡ returns (after, b)
      → IsServed s (served (length before) message after.response) (
          put_session http s
            (handle_read http handlers false socket
              (read_into http receive message session)
              s.world).1
            before
            after
            behind)
  unfolding handle_read pure read_into async_write
  answered s socket message before behind session after b h i p o =
      let m = was_message s message before behind session h i p in
      let (response, d, w) =
        >>=-returns (dispatch_request http handlers socket (receive session.request message)) _
          s.world (after, b) o in
      let last : (async_write http response (read_into http receive message session), true)
          ≡ (after, b) =
        returns-injective _ _ (sym (ap (λ x. x.0) w) ∙ o) in
      let e = ap (λ x. x.0) last in
      let r : response ≡ after.response = ap (λ x. x.response) e in
      let dispatched = λ (r : Request). dispatch_request http handlers socket r s.world in
      record {
        event =
            serve socket s.world (map (transcript_of http) before) session.transcript
              (map (transcript_of http) behind) refl
              (ap (map (transcript_of http)) i ∙ map-middle http before session behind)
              (sym (length-map http before))
              (subst (λ q. (dispatched q).0 ≡ returns after.response) m (d ∙ ap returns r))
              (ap (λ x. content_of x.1) w ∙ ap (λ q. content_of (dispatched q).1) m)
              (map-middle http before after behind
                ∙ ap (λ t. map (transcript_of http) before ++ t ∷ map (transcript_of http) behind)
                    (sym (ap (λ x. x.transcript) e)
                      ∙ ap₂ (λ q a. session.transcript ++ (q, a) ∷ []) m r));
        stays = put-IsFresh s before behind session after i h (
            subst (IsFresh http) e
              (async_write-IsFresh http response (read_into http receive message session)));
      }

  pub thrown :
      (s : Server http) (socket : Socket) (message : Request) (before behind : List (Session http))
      (session : Session http) (x : Exception)
      → All (IsFresh http) s.sessions
      → HasSession http s before session behind
      → session.pending ≡ reading
      → (handle_read http handlers false socket (read_into http receive message session) s.world).0
        ≡ throws x
      → IsServed s (broke (length before) message x) (record s {
        world =
            (handle_read http handlers false socket
              (read_into http receive message session)
              s.world).1;
        aborted = true;
      })
  unfolding handle_read read_into
  thrown s socket message before behind session x h i p o =
      let m = was_message s message before behind session h i p in
      let (d, w) =
        bind_pure-throws (dispatch_request http handlers socket (receive session.request message)) _
          s.world x o in
      let dispatched = λ (r : Request). dispatch_request http handlers socket r s.world in
      record {
        event =
            break socket s.world refl (subst (λ q. (dispatched q).0 ≡ throws x) m d)
              (ap content_of w ∙ ap (λ q. content_of (dispatched q).1) m) refl;
        stays = h;
      }

  pub wrote :
      (s : Server http) (failed : Bool) (address : Bytes) (ec : Bool)
      (before behind : List (Session http)) (session after : Session http) (b : Bool)
      → All (IsFresh http) s.sessions
      → HasSession http s before session behind
      → (handle_write http failed address ec session s.world).0 ≡ returns (after, b)
      → IsServed s silent (
          put_session http s
            (handle_write http failed address ec session s.world).1
            before
            after
            behind)
  wrote s failed address ec before behind session after b h i o =
      let done = OnlyLogs-handle_write http failed address ec session s.world in
      let k = sym done.outcome ∙ o in
      let e : (written http failed session).0 ≡ after = ap (λ x. x.0) (returns-injective _ _ k) in
      silent-IsServed s _
        (replaced http s (handle_write http failed address ec session s.world).1 before behind
          session after i (Quiet-content done.quiet)
          (sym (ap (λ x. x.transcript) e) ∙ written-transcript http failed session))
        (put-IsFresh s before behind session after i h
          (subst (IsFresh http) e (written-IsFresh http failed session)))

  logged_once :
      (b : Bool) (s t : Server http)
      → All (IsFresh http) s.sessions
      → log_once http b s ≡ some t
      → IsServed s silent t
  unfolding log_once
  logged_once false s t h o = absurd cc
  logged_once true s t h o =
      subst (IsServed s silent) (some-injective _ _ o) (silent-IsServed s _ refl h)

  pub logged :
      (s t : Server http)
      → All (IsFresh http) s.sessions
      → logging_round http s ≡ some t
      → IsServed s silent t
  unfolding logging_round
  logged s t h o = logged_once _ s t h o
