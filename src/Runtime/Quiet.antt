-- ===== src/Runtime/Quiet.antt =====
-- Functions that change the world in nothing but the logging buffer, and their outcome.
use dinner_is_servered.Prelude.{◌≡◌, refl, ◌∙◌, Bytes}
use dinner_is_servered.Logging.{LogSeverity}
use dinner_is_servered.Runtime.{
  World, Outcome, Exception, throws, lift, returns, undefined, M, ◌>>=◌, ◌>>◌, pure, crash, gets,
  log,
}

-- All but the logging buffer is as it was.
pub record Quiet (w w' : World) : Type 0 where
  pub files : w'.files ≡ w.files
  pub server_paths : w'.server_paths ≡ w.server_paths
  pub api_key : w'.api_key ≡ w.api_key
  pub chatgpt_url : w'.chatgpt_url ≡ w.chatgpt_url

pub Quiet-refl : (w : World) → Quiet w w
Quiet-refl w = record { files = refl; server_paths = refl; api_key = refl; chatgpt_url = refl }

pub Quiet-trans : {u v w : World} → Quiet u v → Quiet v w → Quiet u w
Quiet-trans p q = record {
  files = q.files ∙ p.files;
  server_paths = q.server_paths ∙ p.server_paths;
  api_key = q.api_key ∙ p.api_key;
  chatgpt_url = q.chatgpt_url ∙ p.chatgpt_url;
}

pub record OnlyLogs {A : Type 0} (m : M A) (w : World) (o : Outcome A) : Type 0 where
  pub outcome : (m w).0 ≡ o
  pub quiet : Quiet w (m w).1

module _ {A : Type 0} (w : World) where
  pub OnlyLogs-pure : (a : A) → OnlyLogs (pure a) w (returns a)
  unfolding pure
  OnlyLogs-pure a = record { outcome = refl; quiet = Quiet-refl w }

  pub OnlyLogs-crash : OnlyLogs (crash {A = A}) w undefined
  unfolding crash
  OnlyLogs-crash = record { outcome = refl; quiet = Quiet-refl w }

  pub OnlyLogs-gets : (f : World → A) → OnlyLogs (gets f) w (returns (f w))
  unfolding gets
  OnlyLogs-gets f = record { outcome = refl; quiet = Quiet-refl w }

pub OnlyLogs-lift : {A : Type 0} (o : Outcome A) (w : World) → OnlyLogs (lift o) w o
unfolding lift
OnlyLogs-lift o w = record { outcome = refl; quiet = Quiet-refl w }

pub OnlyLogs-log :
    (w : World) (severity : LogSeverity) (message : Bytes)
    → OnlyLogs (log severity message) w (returns tt)
unfolding log
OnlyLogs-log w severity message = record {
  outcome = refl;
  quiet = record { files = refl; server_paths = refl; api_key = refl; chatgpt_url = refl };
}

module _ {A B : Type 0} (m : M A) (f : A → M B) (w : World) where
  pub bind_returns : (a : A) → (m w).0 ≡ returns a → (m >>= f) w ≡ f a (m w).1
  unfolding ◌>>=◌
  bind_returns a e = rw (e, ◌>>=◌)

  bind_undefined : (m w).0 ≡ undefined → (m >>= f) w ≡ (undefined, (m w).1)
  unfolding ◌>>=◌
  bind_undefined e = rw (e, ◌>>=◌)

  bind_throws : (e : Exception) → (m w).0 ≡ throws e → (m >>= f) w ≡ (throws e, (m w).1)
  unfolding ◌>>=◌
  bind_throws e h = rw (h, ◌>>=◌)

  pub OnlyLogs-bind_throws :
      (e : Exception) → OnlyLogs m w (throws e) → OnlyLogs (m >>= f) w (throws e)
  OnlyLogs-bind_throws e h =
      let k = bind_throws e h.outcome in record { outcome = rw k refl; quiet = rw k h.quiet }

  pub OnlyLogs-bind :
      (a : A) (o : Outcome B)
      → OnlyLogs m w (returns a)
      → ((w' : World) → Quiet w w' → OnlyLogs (f a) w' o)
      → OnlyLogs (m >>= f) w o
  OnlyLogs-bind a o h k =
      let r = k (m w).1 h.quiet in
      let e = bind_returns a h.outcome in
      record { outcome = rw e r.outcome; quiet = rw e (Quiet-trans h.quiet r.quiet) }

  -- A result that the world in between may decide, with what is known of it.
  pub OnlyLogs-bind_some :
      (P : B → Type 0) (a : A)
      → OnlyLogs m w (returns a)
      → ((w' : World) → Quiet w w' → (b : B) × OnlyLogs (f a) w' (returns b) × P b)
      → (b : B) × OnlyLogs (m >>= f) w (returns b) × P b
  OnlyLogs-bind_some P a h k =
      let (b, r, p) = k (m w).1 h.quiet in
      let e = bind_returns a h.outcome in
      (b, record { outcome = rw e r.outcome; quiet = rw e (Quiet-trans h.quiet r.quiet) }, p)

  pub OnlyLogs-bind_undefined : OnlyLogs m w undefined → OnlyLogs (m >>= f) w undefined
  OnlyLogs-bind_undefined h =
      let e = bind_undefined h.outcome in record { outcome = rw e refl; quiet = rw e h.quiet }

pub OnlyLogs-log_then :
    {B : Type 0} (severity : LogSeverity) (message : Bytes) (k : M B) (w : World) (o : Outcome B)
    → ((w' : World) → Quiet w w' → OnlyLogs k w' o)
    → OnlyLogs (log severity message >> k) w o
OnlyLogs-log_then severity message k w o h =
    OnlyLogs-bind (log severity message) (λ _. k) w tt o (OnlyLogs-log w severity message) h

pub OnlyLogs-cast :
    {A : Type 0} (m : M A) (w : World) (o o' : Outcome A)
    → o ≡ o'
    → OnlyLogs m w o
    → OnlyLogs m w o'
OnlyLogs-cast m w o o' e h = record { outcome = h.outcome ∙ e; quiet = h.quiet }

pub OnlyLogs-log_at :
    {B : Type 0} (severity : LogSeverity) (message : Bytes) (k : M B) (w : World) (o : Outcome B)
    → OnlyLogs k (log severity message w).1 o
    → OnlyLogs (log severity message >> k) w o
unfolding log ◌>>=◌
OnlyLogs-log_at severity message k w o h = record {
  outcome = h.outcome;
  quiet = Quiet-trans (OnlyLogs-log w severity message).quiet h.quiet;
}

pub Quiet-log :
    (w : World) (severity : LogSeverity) (message : Bytes) → Quiet w (log severity message w).1
Quiet-log w severity message = (OnlyLogs-log w severity message).quiet
