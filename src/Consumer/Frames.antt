-- ===== src/Consumer/Frames.antt =====
-- What a refresh (runtimes/ts/pkg/consumer.ts and functions.ts) reads of the world: the files,
-- CONSUMERS and the open subscriptions. It does not read what the calls of functions change, the
-- cache of modules and what was published.
use litefunctions.Prelude.{
  ℕ, ◌+◌, ◌≡◌, refl, sym, ap, subst, ◌∙◌, List, [], ◌∷◌, arith, Bool-cases, inl, inr,
}
use litefunctions.Prelude.Exec.{Result, Result-cases, Exec, pure, lift, modify, ◌>>=◌, ◌>>◌}
use litefunctions.Text.{Text, codes}
use litefunctions.JsMap.{JsMap, has, delete, member, set_of}
use litefunctions.Conf.{Settings}
use litefunctions.Fs.{FilePath, Fs, path_text, file_exists}
use litefunctions.World.{World, Engine, subscribe, unsubscribe, without_sid, on_fs}
use litefunctions.Functions.Repo.{
  repo_path, repo_url, repo_functions_path, runtime_functions_path, run, git_in, exit_result,
  reset_to, reset, update, clone, sync_repo,
}
use litefunctions.Functions.Files.{
  replace_files, clear_module_cache, sync_runtime_functions_dir, sync_repo_and_reload,
  list_functions,
}
use litefunctions.Consumer.{
  consume_function, stop_consumer, stop_stale, start_missing, reconcile_consumers,
}
use litefunctions.Consumer.Reconcile.{world-list_functions}

-- The two worlds differ in the cache, the registry and what was published, at most.
pub record IsAlike (w v : World) : Type 0 where
  pub fs : v.fs ≡ w.fs
  pub subs : v.client.open_subs ≡ w.client.open_subs
  pub sids : v.client.next_sid ≡ w.client.next_sid
  pub consumers : v.consumers ≡ w.consumers

pub IsAlike-refl : (w : World) → IsAlike w w
IsAlike-refl w = record { fs = refl; subs = refl; sids = refl; consumers = refl }

pub IsAlike-trans : (w v u : World) → IsAlike w v → IsAlike v u → IsAlike w u
IsAlike-trans w v u p q = record {
  fs = q.fs ∙ p.fs;
  subs = q.subs ∙ p.subs;
  sids = q.sids ∙ p.sids;
  consumers = q.consumers ∙ p.consumers;
}

-- Code that does the same, with the same result, in worlds that are alike.
abbrev pub Respects {ℓ} : {A : Type ℓ} → Exec World A → Type ℓ
Respects m = (w v : World) → IsAlike w v → ((m v).0 ≡ (m w).0) × IsAlike (m w).1 (m v).1

module _ {ℓ κ} {A : Type ℓ} {B : Type κ} where
  pub Respects-bind :
      (m : Exec World A) (f : A → Exec World B)
      → Respects m
      → ((a : A) → Respects (f a))
      → Respects (m >>= f)
  Respects-bind m f p q w v h =
      let (same, alike) = p w v h in
      elim (Result-cases (m w).0) [
        | inl (a, good) ↦ rw (same, good) (q a (m w).1 (m v).1 alike)
        | inr (x, bad) ↦ rw (same, bad) (refl, alike)
      ]

module _ {ℓ} {A : Type ℓ} where
  pub Respects-lift : (r : Result A) → Respects (lift {S = World} r)
  Respects-lift r w v h = (refl, h)

  pub Respects-on_fs : (m : Exec Fs A) → Respects (on_fs m)
  Respects-on_fs m w v h =
      rw h.fs (refl, record { fs = refl; subs = h.subs; sids = h.sids; consumers = h.consumers })

module _ (e : Engine) where
  pub run-Respects : (cmd : List Text) → Respects (run e cmd)
  unfolding run
  run-Respects cmd =
      Respects-bind (on_fs (e.spawn cmd)) (λ x. lift (exit_result cmd x))
        (Respects-on_fs (e.spawn cmd)) (λ x. Respects-lift (exit_result cmd x))

  pub sync_dir-Respects : (source : FilePath) → Respects (sync_runtime_functions_dir e source)
  unfolding sync_runtime_functions_dir clear_module_cache
  sync_dir-Respects source =
      Respects-bind (on_fs (replace_files source (runtime_functions_path e)))
        (λ copied. modify clear_module_cache >> pure copied)
        (Respects-on_fs (replace_files source (runtime_functions_path e)))
        (λ copied w v h.
          (refl, record { fs = h.fs; subs = h.subs; sids = h.sids; consumers = h.consumers }))

  list_functions-Respects : Respects (list_functions e)
  list_functions-Respects w v h = (
    unfold list_functions in ground (arith, h.fs),
    rw (world-list_functions e w, world-list_functions e v) h,
  )

module _ (e : Engine) (s : Settings) where
  pub reset-Respects : Respects (reset e s)
  unfolding reset
  reset-Respects w v h =
      let main = reset_to e s (codes "origin/main") in
      let (same, alike) =
        run-Respects e
          (git_in (repo_path s) (codes "reset" ∷ codes "--hard" ∷ codes "origin/main" ∷ [])) w v
          h in
      elim (Result-cases (main w).0) [
        | inl (u, good) ↦ rw (same, good) (refl, alike)
        | inr (x, bad) ↦ rw (same, bad) (run-Respects e _ (main w).1 (main v).1 alike)
      ]

  pub update-Respects : Respects (update e s)
  unfolding update
  update-Respects =
      Respects-bind
        (run e (git_in (repo_path s) (codes "fetch" ∷ codes "--all" ∷ codes "--prune" ∷ [])))
        (λ _. reset e s) (run-Respects e _) (λ _. reset-Respects)

  pub clone-Respects : Respects (clone e s)
  unfolding clone
  clone-Respects =
      Respects-bind (lift (repo_url e s))
        (λ url. run e (codes "git" ∷ codes "clone" ∷ url ∷ path_text (repo_path s) ∷ []))
        (Respects-lift (repo_url e s)) (λ url. run-Respects e _)

  sync_repo-Respects : Respects (sync_repo e s)
  unfolding sync_repo
  sync_repo-Respects w v h = elim (Bool-cases (file_exists (repo_path s) w.fs)) [
    | inl there ↦ rw (there, ap (file_exists (repo_path s)) h.fs ∙ there) (update-Respects w v h)
    | inr missing ↦
        rw (missing, ap (file_exists (repo_path s)) h.fs ∙ missing) (clone-Respects w v h)
  ]

  pub sync_repo_and_reload-Respects : Respects (sync_repo_and_reload e s)
  unfolding sync_repo_and_reload
  sync_repo_and_reload-Respects =
      Respects-bind (sync_repo e s) (λ _. sync_runtime_functions_dir e (repo_functions_path s))
        sync_repo-Respects (λ _. sync_dir-Respects e (repo_functions_path s))

  stop_stale-IsAlike :
      (entries : JsMap ℕ) (desired : List Text) (w v : World)
      → IsAlike w v
      → IsAlike (stop_stale entries desired w) (stop_stale entries desired v)
  unfolding stop_stale stop_consumer unsubscribe
  stop_stale-IsAlike [] desired w v h = h
  stop_stale-IsAlike ((name, sid) ∷ entries) desired w v h =
      elim (Bool-cases (member name desired)) [
        | inl kept ↦ rw kept (stop_stale-IsAlike entries desired w v h)
        | inr stale ↦ rw stale (
            stop_stale-IsAlike entries desired (stop_consumer name sid w) (stop_consumer name sid v)
              (record {
                fs = h.fs;
                subs = ap (without_sid sid) h.subs;
                sids = h.sids;
                consumers = ap (delete name) h.consumers;
              }))
      ]

  consume_function-IsAlike :
      (name : Text) (w v : World)
      → IsAlike w v
      → IsAlike (consume_function s name w) (consume_function s name v)
  unfolding consume_function subscribe
  consume_function-IsAlike name w v h = record {
    fs = h.fs;
    subs = rw (h.subs, h.sids) refl;
    sids = ap (λ n. n + 1) h.sids;
    consumers = rw (h.consumers, h.sids) refl;
  }

  pub start_missing-IsAlike :
      (names : List Text) (w v : World)
      → IsAlike w v
      → IsAlike (start_missing s names w) (start_missing s names v)
  unfolding start_missing
  start_missing-IsAlike [] w v h = h
  start_missing-IsAlike (name ∷ names) w v h = elim (Bool-cases (has name w.consumers)) [
    | inl there ↦ rw (there, ap (has name) h.consumers ∙ there) (start_missing-IsAlike names w v h)
    | inr missing ↦
        rw (missing, ap (has name) h.consumers ∙ missing)
          (start_missing-IsAlike names (consume_function s name w) (consume_function s name v)
            (consume_function-IsAlike name w v h))
  ]

  -- Both loops of `reconcileConsumers`.
  abbrev pub reconcile_with : List Text → Exec World (Unit {0})
  reconcile_with names = do
    modify (λ w. stop_stale w.consumers (set_of names) w)
    modify (start_missing s (set_of names))

  pub reconcile_with-Respects : (names : List Text) → Respects (reconcile_with names)
  reconcile_with-Respects names w v h = (
    refl,
    start_missing-IsAlike (set_of names) _ _ (
        subst
          (λ entries.
            IsAlike (stop_stale w.consumers (set_of names) w) (stop_stale entries (set_of names) v))
          (sym h.consumers) (stop_stale-IsAlike w.consumers (set_of names) w v h)),
  )

  pub reconcile_consumers-Respects : Respects (reconcile_consumers e s)
  unfolding reconcile_consumers
  reconcile_consumers-Respects =
      Respects-bind (list_functions e) reconcile_with (list_functions-Respects e)
        reconcile_with-Respects
