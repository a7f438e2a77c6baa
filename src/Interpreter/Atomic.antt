-- ===== src/Interpreter/Atomic.antt =====
-- server_paths_ where setServerPaths does not return.
use dinner_is_servered.Prelude.{
  ◌≡◌, ◌≢◌, inl, inr, refl, Bool, true, false, [], Bytes, text, equal, Bool-cases,
}
use dinner_is_servered.Config.Syntax.{NginxConfigStatement, NginxConfig, nil, cons, tokens}
use dinner_is_servered.Runtime.{World, ServerPaths, returns, ◌>>=◌, lift, update}
use dinner_is_servered.Runtime.Inversion.{Outcome-cases}
use dinner_is_servered.Runtime.Keeps.{
  Keeps, Keeps-bind, Keeps-pure, Keeps-raise, Keeps-lift, Keeps-update, Keeps-lift_bind, Keeps-if,
}
use dinner_is_servered.Interpreter.{
  token_at, no_paths, set_server_paths, Locations, is_used, app_loop, register, check_unused,
  add_location, location_statement, location_loop, server_block, server_statement, server_loop,
}

abbrev paths_of : World → ServerPaths
paths_of w = w.server_paths

app_loop-Keeps : (c : NginxConfig) (url key : Bool) → Keeps paths_of (app_loop c url key)
unfolding app_loop
app_loop-Keeps nil url key = Keeps-pure paths_of tt
app_loop-Keeps (cons s c) url key =
    Keeps-bind paths_of (lift (token_at (tokens s) 0)) _ (Keeps-lift paths_of _) (λ t.
      elim (Bool-cases (equal t (text "api_key"))) [
        | inl e ↦ rw e (elim (Bool-cases key) [
          | inl f ↦ rw f (Keeps-raise paths_of _ _)
          | inr f ↦ rw f (
              Keeps-bind paths_of (lift (token_at (tokens s) 1)) _ (Keeps-lift paths_of _) (λ v.
                Keeps-bind paths_of (update (λ w. record w { api_key = v })) _
                  (Keeps-update paths_of _ (λ w. refl)) (λ _. app_loop-Keeps c url true)))
        ])
        | inr e ↦ rw e (elim (Bool-cases (equal t (text "chatgpt_url"))) [
          | inr f ↦ rw f (app_loop-Keeps c url key)
          | inl f ↦ rw f (elim (Bool-cases url) [
            | inl g ↦ rw g (Keeps-raise paths_of _ _)
            | inr g ↦ rw g (
                Keeps-bind paths_of (lift (token_at (tokens s) 1)) _ (Keeps-lift paths_of _) (λ v.
                  Keeps-bind paths_of (update (λ w. record w { chatgpt_url = v })) _
                    (Keeps-update paths_of _ (λ w. refl)) (λ _. app_loop-Keeps c true key)))
          ])
        ])
      ])

register-Keeps :
    (location location_type : Bytes) (s : NginxConfigStatement) (paths : ServerPaths)
    → Keeps paths_of (register location location_type s paths)
unfolding register
register-Keeps location location_type s paths =
    Keeps-if paths_of (equal location_type (text "EchoHandler")) _ _ (Keeps-pure paths_of _) (
      Keeps-if paths_of (equal location_type (text "StaticHandler")) _ _
        (Keeps-lift_bind paths_of _ _
          (λ child. Keeps-lift_bind paths_of _ _ (λ map. Keeps-pure paths_of _)))
        (Keeps-if paths_of (equal location_type (text "CrudHandler")) _ _
          (Keeps-lift_bind paths_of _ _
            (λ child. Keeps-lift_bind paths_of _ _ (λ map. Keeps-pure paths_of _)))
          (Keeps-if paths_of (equal location_type (text "HealthHandler")) _ _
            (Keeps-pure paths_of _)
            (Keeps-if paths_of (equal location_type (text "SleepHandler")) _ _
              (Keeps-pure paths_of _)
              (Keeps-if paths_of (equal location_type (text "AppHandler")) _ _
                (Keeps-lift_bind paths_of _ _ (λ child.
                  Keeps-bind paths_of (app_loop child false false) _
                    (app_loop-Keeps child false false) (λ _. Keeps-pure paths_of _)))
                (Keeps-pure paths_of _))))))

add_location-Keeps : (s : NginxConfigStatement) (l : Locations) → Keeps paths_of (add_location s l)
unfolding add_location check_unused
add_location-Keeps s l = Keeps-lift_bind paths_of _ _ (λ location.
    Keeps-lift_bind paths_of _ _ (λ location_type.
      Keeps-bind paths_of (check_unused location l.used_locations) _
        (Keeps-if paths_of (is_used location l.used_locations) _ _ (Keeps-raise paths_of _ _)
          (Keeps-pure paths_of _))
        (λ _.
          Keeps-bind paths_of (register location location_type s l.paths) _
            (register-Keeps location location_type s l.paths) (λ paths. Keeps-pure paths_of _))))

location_loop-Keeps : (c : NginxConfig) (l : Locations) → Keeps paths_of (location_loop c l)
unfolding location_loop location_statement
location_loop-Keeps nil l = Keeps-pure paths_of l
location_loop-Keeps (cons s c) l = Keeps-lift_bind paths_of _ _ (λ t.
    Keeps-bind paths_of (location_statement t s l) _
      (Keeps-if paths_of (equal t (text "location")) _ _ (add_location-Keeps s l)
        (Keeps-pure paths_of l))
      (λ m. location_loop-Keeps c m))

server_loop-Keeps : (c : NginxConfig) (l : Locations) → Keeps paths_of (server_loop c l)
unfolding server_loop server_statement server_block
server_loop-Keeps nil l = Keeps-pure paths_of l
server_loop-Keeps (cons s c) l = Keeps-lift_bind paths_of _ _ (λ t.
    Keeps-bind paths_of (server_statement t s l) _
      (Keeps-if paths_of (equal t (text "server")) _ _
        (Keeps-lift_bind paths_of _ _ (λ child. location_loop-Keeps child l))
        (Keeps-pure paths_of l))
      (λ m. server_loop-Keeps c m))

-- When setServerPaths throws, or meets a server, static, crud or app statement that has no block,
-- server_paths_ is as it was.
pub set_server_paths-failed :
    (config : NginxConfig) (w : World)
    → (set_server_paths config w).0 ≢ returns tt
    → (set_server_paths config w).1.server_paths ≡ w.server_paths
unfolding set_server_paths update ◌>>=◌
set_server_paths-failed config w h =
    let start : Locations = record { paths = no_paths; used_locations = [] } in
    elim (Outcome-cases (server_loop config start w).0) [
      | inl (l, e) ↦ absurd (h (rw (e, set_server_paths, ◌>>=◌) refl))
      | inr (inl (x, e)) ↦
          rw (e, set_server_paths, ◌>>=◌) ((server_loop-Keeps config start).keeps w)
      | inr (inr e) ↦ rw (e, set_server_paths, ◌>>=◌) ((server_loop-Keeps config start).keeps w)
    ]
