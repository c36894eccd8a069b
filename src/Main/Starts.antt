-- ===== src/Main/Starts.antt =====
-- When `main` (runtimes/ts/main.ts) brings the runtime up, and what runs then.
use litefunctions.Prelude.{ℕ, ◌≡◌, ◌≢◌, refl, subst, true, ◌&&◌, List, [], ◌∷◌, ◌++◌, some}
use litefunctions.Prelude.Exec.{Result, ok}
use litefunctions.Text.{Text, codes, is_some}
use litefunctions.JsMap.{has}
use litefunctions.Conf.{Settings}
use litefunctions.Fs.{Fs, folder, stat, parent, find_node}
use litefunctions.World.{World, Engine, Subscription, hook, subscribe}
use litefunctions.Functions.Repo.{repo_functions_path, runtime_functions_path, sync_repo}
use litefunctions.Functions.Files.{is_stem, ensure_runtime_dir, sync_repo_and_reload}
use litefunctions.Functions.Files.Mirror.{IsMade}
use litefunctions.Functions.Files.Plain.{IsPlain}
use litefunctions.Consumer.{hook_subject, reconcile_consumers, watch_ts_hook}
use litefunctions.Consumer.Consistent.{IsConsistent}
use litefunctions.Consumer.Deploy.{deploy-returns}
use litefunctions.Consumer.Refresh.{IsQuiet, IsConsistent-IsQuiet, ensure_runtime_dir-IsQuiet}
use litefunctions.State.{Broker, stream_subject, app_state_new}
use litefunctions.State.Streams.{is_there, app_state_new-ok}
use litefunctions.Main.{Server, main}
use litefunctions.Main.Runs.{start, start-IsConsistent, main-IsConsistent}

app_state_new-returns :
    (b : Broker) (s : Settings) (w : World)
    → b.connect s.nats_url ≡ ok tt
    → b.manager ≡ ok tt
    → is_there (b.add_stream s.project (stream_subject s ∷ [])) ≡ true
    → app_state_new b s w ≡ (ok tt, w)
app_state_new-returns b s w reached managed there =
    let (iff, same) = app_state_new-ok b s w in λ i. (iff.1 (reached, managed, there) i, same i)

main_steps :
    (e : Engine) (v : Server) (b : Broker) (s : Settings) (w : World) {w1 w2 w3 : World} {n : ℕ}
    → ensure_runtime_dir e w ≡ (ok tt, w1)
    → app_state_new b s w1 ≡ (ok tt, w1)
    → sync_repo_and_reload e s w1 ≡ (ok n, w2)
    → reconcile_consumers e s w2 ≡ (ok tt, w3)
    → v.listen s.http_port ≡ ok tt
    → main e v b s w ≡ (ok tt, watch_ts_hook s w3)
unfolding main
main_steps e v b s w made joined synced started listening =
    rw (made, joined, synced, started, listening) refl

-- The runtime starts. When its folder can be made, the message server is reached and has the
-- project's stream, git brings the repository up to date and the port is free, `main` returns; then a
-- name has a consumer exactly if it is a function's name and the repository holds its file, CONSUMERS
-- is in step with the open subscriptions, and the last of them is that of the hook. The repository's
-- folder of functions is another one than the runtime's and outside of it, and no function file's
-- name is that of a folder in the two.
pub main-starts :
    (e : Engine) (v : Server) (b : Broker) (s : Settings) (fs : Fs) (k : Text) {w1 w2 : World}
    → ensure_runtime_dir e (start fs) ≡ (ok tt, w1)
    → b.connect s.nats_url ≡ ok tt
    → b.manager ≡ ok tt
    → is_there (b.add_stream s.project (stream_subject s ∷ [])) ≡ true
    → sync_repo e s w1 ≡ (ok tt, w2)
    → repo_functions_path s ≢ runtime_functions_path e
    → parent (repo_functions_path s) ≢ runtime_functions_path e
    → IsMade (runtime_functions_path e) w2.fs
    → IsPlain (runtime_functions_path e) w2.fs
    → IsPlain (repo_functions_path s) w2.fs
    → stat (repo_functions_path s) w2.fs ≡ some folder
    → v.listen s.http_port ≡ ok tt
    → (u : World) × (main e v b s (start fs) ≡ (ok tt, u))
      × (has k u.consumers ≡ (
          is_stem k
          && is_some (find_node (repo_functions_path s ++ (k ++ codes ".ts") ∷ []) w2.fs)))
      × IsConsistent s u
      × ((subs : List Subscription) × (sid : ℕ) × (u.client.open_subs
            ≡ subs ++ record { sid = sid; subject = hook_subject s; task = hook } ∷ []))
unfolding watch_ts_hook subscribe
main-starts e v b s fs k {w1} {w2} made reached managed there pulled apart outside folder_made plain
      files is_folder listening =
    let c1 =
      IsConsistent-IsQuiet s (start fs) w1
        (subst (λ (r : Result _ × World). IsQuiet (start fs) r.1) made
          (ensure_runtime_dir-IsQuiet e (start fs)))
        (start-IsConsistent s fs) in
    let (n, w3, w4, reloaded, started, named) =
      deploy-returns e s w1 k {w1 = w2} pulled apart outside folder_made plain files is_folder c1 in
    let runs =
      main_steps e v b s (start fs) made (app_state_new-returns b s w1 reached managed there)
        reloaded started listening in
    (
      watch_ts_hook s w4,
      runs,
      named,
      main-IsConsistent e v b s (start fs) {u = watch_ts_hook s w4} runs (start-IsConsistent s fs),
      (w4.client.open_subs, w4.client.next_sid, refl),
    )
