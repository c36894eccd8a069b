-- ===== src/Main/Bounded.antt =====
-- The versions of the imports in a running process: `moduleVersion` of runtimes/ts/pkg/functions.ts
-- through all steps of Main/Runs.
use litefunctions.Prelude.{◌≡◌, sym, ap, ◌∙◌, subst, ℕ, ◌≤◌, List, [], ◌∷◌, All, inl, inr}
use litefunctions.Prelude.Exec.{Result, ok, Result-cases, >>=-ok}
use litefunctions.JsMap.{JsMap}
use litefunctions.Text.{Text}
use litefunctions.Conf.{Settings}
use litefunctions.Fs.{Fs, FilePath}
use litefunctions.World.{World, Engine, LoadedModule}
use litefunctions.Functions.Repo.{repo_functions_path, sync_repo}
use litefunctions.Functions.Files.{
  ensure_runtime_dir, sync_repo_and_reload, sync_runtime_functions_dir,
}
use litefunctions.Functions.Modules.{invoke_module}
use litefunctions.Functions.Modules.Fresh.{IsBounded, load_module-IsBounded}
use litefunctions.Functions.Modules.Reload.{sync-IsBounded}
use litefunctions.Consumer.{receive, refresh, reconcile_consumers, watch_ts_hook}
use litefunctions.Consumer.Code.{Code, code_of-reconcile_consumers}
use litefunctions.Consumer.Failures.{loaded, sync_repo-loaded, sync-err_loaded}
use litefunctions.State.{Broker, app_state_new}
use litefunctions.State.Streams.{app_state_new-ok}
use litefunctions.Main.{
  Request, Server, readable, requested_name, answer_named, handle_sync_request, main,
}
use litefunctions.Main.Runs.{start, Step, Steps, done, next, message, hook_message, request}

-- It depends on the registry and the version only.
IsBounded-loaded : (w u : World) → loaded u ≡ loaded w → IsBounded w → IsBounded u
IsBounded-loaded w u same h =
    subst
      (λ (l : JsMap LoadedModule × ℕ × List ((FilePath × ℕ) × Result LoadedModule)).
        All (λ i. i.0.1 ≤ l.1) l.2)
      (sym same) h

pub sync_repo-IsBounded :
    (e : Engine) (s : Settings) (w : World) {r : Result (Unit {0})} {w1 : World}
    → IsBounded w
    → sync_repo e s w ≡ (r, w1)
    → IsBounded w1
sync_repo-IsBounded e s w {r} {w1} h pulled =
    IsBounded-loaded w w1
      (ap (λ (p : Result _ × World). loaded p.1) (sym pulled) ∙ sync_repo-loaded e s w) h

module _ (e : Engine) (s : Settings) (w : World) (h : IsBounded w) where
  sync_repo_and_reload-IsBounded : IsBounded (sync_repo_and_reload e s w).1
  unfolding sync_repo_and_reload
  sync_repo_and_reload-IsBounded = elim (Result-cases (sync_repo_and_reload e s w).0) [
    | inr (x, bad) ↦
        IsBounded-loaded w (sync_repo_and_reload e s w).1 (sync-err_loaded e s w {x = x} bad) h
    | inl (n, good) ↦
        let (_, w1, pulled, copied) =
          >>=-ok (sync_repo e s) (λ _. sync_runtime_functions_dir e (repo_functions_path s)) w
            {b = n} {s' = (sync_repo_and_reload e s w).1}
            (λ i. (good i, (sync_repo_and_reload e s w).1)) in
        sync-IsBounded e (repo_functions_path s) w1 {n = n} {w' = (sync_repo_and_reload e s w).1}
          (sync_repo-IsBounded e s w {r = ok tt} {w1 = w1} h pulled) copied
  ]

reconcile_consumers-IsBounded :
    (e : Engine) (s : Settings) (w : World) → IsBounded w → IsBounded (reconcile_consumers e s w).1
reconcile_consumers-IsBounded e s w h =
    IsBounded-loaded w (reconcile_consumers e s w).1
      (ap (λ (k : Code). (k.modules, k.module_version, k.imports))
        (code_of-reconcile_consumers e s w))
      h

refresh-IsBounded :
    (e : Engine) (s : Settings) (w : World) → IsBounded w → IsBounded (refresh e s w)
unfolding refresh
refresh-IsBounded e s w h =
    let synced = sync_repo_and_reload-IsBounded e s w h in
    elim (Result-cases (sync_repo_and_reload e s w).0) [
      | inl (n, good) ↦
          rw (refresh, good)
            (reconcile_consumers-IsBounded e s (sync_repo_and_reload e s w).1 synced)
      | inr (x, bad) ↦ rw (refresh, bad) synced
    ]

answer_named-IsBounded :
    (e : Engine) (v : Server) (req : Request) (n : Text) (w : World)
    → IsBounded w
    → IsBounded (answer_named e v req n w).1
unfolding answer_named invoke_module
answer_named-IsBounded e v req [] w h = h
answer_named-IsBounded e v req (k ∷ n) w h = elim (Result-cases (readable v req)) [
  | inl (raw, good) ↦ rw (answer_named, good) (load_module-IsBounded e (k ∷ n) w h)
  | inr (x, bad) ↦ rw (answer_named, bad) h
]

module _ (e : Engine) (v : Server) (s : Settings) where
  Step-IsBounded : {w u : World} → Step e v s w u → IsBounded w → IsBounded u
  unfolding handle_sync_request receive invoke_module
  Step-IsBounded (message name subject payload w) h = load_module-IsBounded e name w h
  Step-IsBounded (hook_message w) h = refresh-IsBounded e s w h
  Step-IsBounded (request req w) h = answer_named-IsBounded e v req (requested_name s req) w h

  Steps-IsBounded : {w u : World} → Steps e v s w u → IsBounded w → IsBounded u
  Steps-IsBounded (done w) h = h
  Steps-IsBounded (next steps step) h = Step-IsBounded step (Steps-IsBounded steps h)

-- `main` up to its sync, and what comes after it.
main-synced :
    (e : Engine) (v : Server) (b : Broker) (s : Settings) (w : World) {u : World}
    → main e v b s w ≡ (ok tt, u)
    → (w2 : World) × (loaded w2 ≡ loaded w)
      × (u ≡ watch_ts_hook s (reconcile_consumers e s (sync_repo_and_reload e s w2).1).1)
unfolding main ensure_runtime_dir
main-synced e v b s w {u} h =
    let (_, w1, made, h1) = >>=-ok (ensure_runtime_dir e) _ w h in
    let (_, w2, joined, h2) = >>=-ok (app_state_new b s) _ w1 h1 in
    let (n, w3, synced, h3) = >>=-ok (sync_repo_and_reload e s) _ w2 h2 in
    let (_, w4, started, h4) = >>=-ok (reconcile_consumers e s) _ w3 h3 in
    let same : w2 ≡ w1 =
      sym (ap (λ (r : Result _ × World). r.1) joined) ∙ (app_state_new-ok b s w1).1 in
    (
      w2,
      ap loaded same ∙ sym (ap (λ (r : Result _ × World). loaded r.1) made),
      sym (ap (λ (r : Result _ × World). r.1) h4)
          ∙ ap (watch_ts_hook s) (
              sym (ap (λ (r : Result _ × World). r.1) started)
              ∙ ap (λ (r : Result _ × World). (reconcile_consumers e s r.1).1) (sym synced)),
    )

-- From a start that succeeds on, no import has a later version than the present one.
pub main-IsBounded :
    (e : Engine) (v : Server) (b : Broker) (s : Settings) (fs : Fs) {w u : World}
    → main e v b s (start fs) ≡ (ok tt, w)
    → Steps e v s w u
    → IsBounded u
unfolding watch_ts_hook
main-IsBounded e v b s fs {w} {u} started steps =
    let (w2, kept, final) = main-synced e v b s (start fs) {u = w} started in
    Steps-IsBounded e v s steps (
      subst IsBounded (sym final) (
        reconcile_consumers-IsBounded e s (sync_repo_and_reload e s w2).1
          (sync_repo_and_reload-IsBounded e s w2 (IsBounded-loaded (start fs) w2 kept tt))))
