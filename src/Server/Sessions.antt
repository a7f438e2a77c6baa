-- ===== src/Server/Sessions.antt =====
-- The sessions of the server, and what the service sees of them.
use mathlib.Core.List.{map, map-append}
use dinner_is_servered.Prelude.{
  suc, ◌≡◌, refl, sym, ap, ap₂, ◌∙◌, Bool, true, false, List, [], ◌∷◌, ◌++◌, Bytes, length, All,
  inl, inr,
}
use dinner_is_servered.Runtime.{World, M, Exception, returns, throws, undefined, ◌>>=◌, pure}
use dinner_is_servered.Runtime.Quiet.{
  Quiet, OnlyLogs, OnlyLogs-pure, OnlyLogs-log, OnlyLogs-log_then, OnlyLogs-bind,
}
use dinner_is_servered.Runtime.Inversion.{Outcome-cases}
use dinner_is_servered.Http.{Http}
use dinner_is_servered.Session.{
  Session, reading, empty_request, async_read, async_write, handle_write, log_unconnected, written,
}
use dinner_is_servered.Server.{Server}
use dinner_is_servered.Server.Steps.{HasSession, put_session}
use dinner_is_servered.Server.Service.{content_of, Transcript, Service}

pub Quiet-content : {w w' : World} → Quiet w w' → content_of w' ≡ content_of w
Quiet-content q = cc

module _ {A B : Type 0} where
  pub bind_pure-throws :
      (m : M A) (g : A → B) (w : World) (x : Exception)
      → ((m >>= λ a. pure (g a)) w).0 ≡ throws x
      → ((m w).0 ≡ throws x) × (((m >>= λ a. pure (g a)) w).1 ≡ (m w).1)
  unfolding ◌>>=◌ pure
  bind_pure-throws m g w x h = elim (Outcome-cases (m w).0) [
    | inl (a, e) ↦ let z : returns (g a) ≡ throws x = rw (e, ◌>>=◌) at h in absurd cc
    | inr (inl (y, e)) ↦ let z = rw (e, ◌>>=◌) at h in (cc, rw (e, ◌>>=◌) refl)
    | inr (inr e) ↦ let z : undefined ≡ throws x = rw (e, ◌>>=◌) at h in absurd cc
  ]

module _ (http : Http) where
  abbrev pub transcript_of : Session http → Transcript http
  transcript_of session = session.transcript

  abbrev pub service_of : Server http → Service http
  service_of s = record { content = content_of s.world; clients = map transcript_of s.sessions }

  -- A session that reads does so into an empty message.
  abbrev pub IsFresh : Session http → Type 0
  IsFresh session = session.pending ≡ reading → session.request ≡ empty_request

  pub length-map :
      (sessions : List (Session http)) → length (map transcript_of sessions) ≡ length sessions
  length-map [] = refl
  length-map (s ∷ sessions) = ap suc (length-map sessions)

  pub written-transcript :
      (failed : Bool) (s : Session http) → (written http failed s).0.transcript ≡ s.transcript
  unfolding written async_read
  written-transcript false s = refl
  written-transcript true s = refl

  pub written-IsFresh : (failed : Bool) (s : Session http) → IsFresh (written http failed s).0
  unfolding written async_read
  written-IsFresh false s h = refl
  written-IsFresh true s h = absurd cc

  pub async_write-IsFresh :
      (response : http.Response) (s : Session http) → IsFresh (async_write http response s)
  unfolding async_write
  async_write-IsFresh response s h = absurd cc

  OnlyLogs-log_unconnected :
      (b : Bool) (w : World) → OnlyLogs (log_unconnected http b) w (returns tt)
  unfolding log_unconnected
  OnlyLogs-log_unconnected false w = OnlyLogs-pure w tt
  OnlyLogs-log_unconnected true w = OnlyLogs-log w _ _

  pub OnlyLogs-handle_write :
      (failed : Bool) (address : Bytes) (ec : Bool) (s : Session http) (w : World)
      → OnlyLogs (handle_write http failed address ec s) w (returns (written http failed s))
  unfolding handle_write
  OnlyLogs-handle_write failed address ec s w = OnlyLogs-log_then _ _ _ w _ (λ w₁ q₁.
      OnlyLogs-bind (log_unconnected http ec) _ w₁ tt _ (OnlyLogs-log_unconnected ec w₁)
        (λ w₂ q₂. OnlyLogs-pure w₂ _))

  pub map-middle :
      (before : List (Session http)) (session : Session http) (behind : List (Session http))
      → map transcript_of (before ++ session ∷ behind)
        ≡ map transcript_of before ++ session.transcript ∷ map transcript_of behind
  map-middle before session behind = map-append transcript_of before (session ∷ behind)

  pub All-replace :
      (before behind : List (Session http)) (session after : Session http)
      → All IsFresh (before ++ session ∷ behind)
      → IsFresh after
      → All IsFresh (before ++ after ∷ behind)
  All-replace [] behind session after h f = (f, h.1)
  All-replace (s ∷ before) behind session after h f =
      (h.0, All-replace before behind session after h.1 f)

  pub All-middle :
      (before behind : List (Session http)) (session : Session http)
      → All IsFresh (before ++ session ∷ behind)
      → IsFresh session
  All-middle [] behind session h = h.0
  All-middle (s ∷ before) behind session h = All-middle before behind session h.1

  -- The service sees nothing of a step that leaves the content and the transcript as they are.
  pub replaced :
      (s : Server http) (w : World) (before behind : List (Session http))
      (session after : Session http)
      → HasSession http s before session behind
      → content_of w ≡ content_of s.world
      → after.transcript ≡ session.transcript
      → service_of (put_session http s w before after behind) ≡ service_of s
  replaced s w before behind session after h c t =
      ap₂ (λ c l. record { content = c; clients = l }) c
        (map-middle before after behind
          ∙ ap (λ t. map transcript_of before ++ t ∷ map transcript_of behind) t
          ∙ sym (map-middle before session behind)
          ∙ ap (map transcript_of) (sym h))
