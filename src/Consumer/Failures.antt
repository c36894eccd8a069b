-- ===== src/Consumer/Failures.antt =====
-- A refresh that fails (runtimes/ts/pkg/consumer.ts): what was loaded goes on.
use litefunctions.Prelude.{
  ℕ, ◌≡◌, refl, sym, subst, ap, ◌∙◌, List, [], ◌∷◌, arith, some, Bool-cases, inl, inr,
}
use litefunctions.Prelude.Exec.{Result, ok, err, Result-cases, Exec, lift, continue, ◌>>=◌}
use litefunctions.Text.{Text, codes}
use litefunctions.JsMap.{JsMap, get}
use litefunctions.Conf.{Settings}
use litefunctions.Fs.{FilePath, file_exists, path_text}
use litefunctions.World.{World, Engine, LoadedModule, on_fs}
use litefunctions.Functions.Repo.{
  repo_path, repo_functions_path, runtime_functions_path, repo_url, git_in, reset_to, exit_result,
  run, reset, update, clone, sync_repo,
}
use litefunctions.Functions.Files.{replace_files, sync_runtime_functions_dir, sync_repo_and_reload}
use litefunctions.Functions.Modules.{load_module}
use litefunctions.Consumer.{refresh, reconcile_consumers}
use litefunctions.Consumer.Refresh.{IsQuiet, sync_repo_and_reload-IsQuiet}

-- The part of the world that loading a module reads and changes, besides the files.
abbrev pub loaded : World → JsMap LoadedModule × ℕ × List ((FilePath × ℕ) × Result LoadedModule)
loaded w = (w.modules, w.module_version, w.imports)

module _ {ℓ κ} {A : Type ℓ} {B : Type κ} where
  bind-loaded :
      (m : Exec World A) (f : A → Exec World B) (w : World)
      → loaded (m w).1 ≡ loaded w
      → ((a : A) (v : World) → loaded (f a v).1 ≡ loaded v)
      → loaded ((m >>= f) w).1 ≡ loaded w
  bind-loaded m f w p q = elim (Result-cases (m w).0) [
    | inl (a, good) ↦ rw good (q a (m w).1 ∙ p)
    | inr (x, bad) ↦ rw bad p
  ]

run-loaded : (e : Engine) (cmd : List Text) (w : World) → loaded (run e cmd w).1 ≡ loaded w
unfolding run
run-loaded e cmd w =
    bind-loaded (on_fs (e.spawn cmd)) (λ x. lift (exit_result cmd x)) w refl (λ x v. refl)

reset-loaded : (e : Engine) (s : Settings) (w : World) → loaded (reset e s w).1 ≡ loaded w
unfolding reset
reset-loaded e s w = elim (Result-cases (reset_to e s (codes "origin/main") w).0) [
  | inl (u, good) ↦ rw good (run-loaded e _ w)
  | inr (x, bad) ↦ rw bad (run-loaded e _ _ ∙ run-loaded e _ w)
]

module _ (e : Engine) (s : Settings) (w : World) where
  pub sync_repo-loaded : loaded (sync_repo e s w).1 ≡ loaded w
  unfolding sync_repo update clone
  sync_repo-loaded = elim (Bool-cases (file_exists (repo_path s) w.fs)) [
    | inl there ↦ rw there (
        bind-loaded
          (run e (git_in (repo_path s) (codes "fetch" ∷ codes "--all" ∷ codes "--prune" ∷ [])))
          (λ _. reset e s) w (run-loaded e _ w) (λ _ v. reset-loaded e s v))
    | inr missing ↦ rw missing (
        bind-loaded (lift (repo_url e s))
          (λ url. run e (codes "git" ∷ codes "clone" ∷ url ∷ path_text (repo_path s) ∷ [])) w refl
          (λ url v. run-loaded e _ v))
  ]

  -- A sync that throws leaves the cache, the version and the engine's registry.
  pub sync-err_loaded :
      {x : Text}
      → (sync_repo_and_reload e s w).0 ≡ err x
      → loaded (sync_repo_and_reload e s w).1 ≡ loaded w
  unfolding sync_repo_and_reload sync_runtime_functions_dir
  sync-err_loaded h = elim (Result-cases (sync_repo e s w).0) [
    | inr (y, bad) ↦ rw bad sync_repo-loaded
    | inl (u, good) ↦
        elim (Result-cases
          (replace_files (repo_functions_path s) (runtime_functions_path e)
            (sync_repo e s w).1.fs).0) [
              | inr (y, bad) ↦ rw (good, bad) sync_repo-loaded
              | inl (n, fine) ↦ absurd (ground (arith, good, fine))
            ]
  ]

refresh_fails :
    (e : Engine) (s : Settings) (w : World) {x : Text}
    → (sync_repo_and_reload e s w).0 ≡ err x
    → refresh e s w ≡ (sync_repo_and_reload e s w).1
unfolding refresh
refresh_fails e s w h =
    ap
      (λ (r : Result ℕ).
        (continue (λ _. reconcile_consumers e s) r (sync_repo_and_reload e s w).1).1)
      h

load_module_hit :
    (e : Engine) (name : Text) (w : World) {m : LoadedModule}
    → get name w.modules ≡ some m
    → (load_module e name w).0 ≡ ok m
unfolding load_module
load_module_hit e name w h = ground arith

-- When a refresh fails in the sync, every function that was loaded is still served with the code that
-- was loaded, and CONSUMERS and the open subscriptions are as before.
pub refresh-failed :
    (e : Engine) (s : Settings) (w : World) (name : Text) {m : LoadedModule} {x : Text}
    → (sync_repo_and_reload e s w).0 ≡ err x
    → get name w.modules ≡ some m
    → ((load_module e name (refresh e s w)).0 ≡ ok m) × IsQuiet w (refresh e s w)
refresh-failed e s w name {m} {x} failure hit =
    subst (λ u. ((load_module e name u).0 ≡ ok m) × IsQuiet w u) (sym (refresh_fails e s w failure))
      (
        load_module_hit e name _ (ap (λ l. get name l.0) (sync-err_loaded e s w failure) ∙ hit),
        sync_repo_and_reload-IsQuiet e s w,
      )
