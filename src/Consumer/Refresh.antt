-- ===== src/Consumer/Refresh.antt =====
-- A refresh by the hook (runtimes/ts/pkg/consumer.ts): the sync of the files leaves CONSUMERS and the
-- connection alone, and the reconciliation after it keeps them in step.
use litefunctions.Prelude.{◌≡◌, refl, ◌∙◌, List, [], ◌∷◌, arith, Bool-cases, inl, inr}
use litefunctions.Prelude.Exec.{err, Result-cases, Exec, lift, ◌>>=◌}
use litefunctions.Text.{Text, codes}
use litefunctions.Conf.{Settings}
use litefunctions.Fs.{FilePath, file_exists, path_text}
use litefunctions.World.{World, Engine}
use litefunctions.Functions.Repo.{
  repo_path, repo_functions_path, repo_url, git_in, reset_to, run, reset, update, clone, sync_repo,
}
use litefunctions.Functions.Files.{
  ensure_runtime_dir, list_functions, sync_runtime_functions_dir, sync_repo_and_reload,
  clear_module_cache,
}
use litefunctions.Consumer.{reconcile_consumers, refresh}
use litefunctions.Consumer.Consistent.{IsConsistent}
use litefunctions.Consumer.Reconcile.{world-list_functions, reconcile_consumers-IsConsistent}

-- The open subscriptions and CONSUMERS are as before.
pub record IsQuiet (w v : World) : Type 0 where
  pub subs : v.client.open_subs ≡ w.client.open_subs
  pub sids : v.client.next_sid ≡ w.client.next_sid
  pub consumers : v.consumers ≡ w.consumers

-- `IsConsistent` is about these two parts only.
pub IsConsistent-IsQuiet :
    (s : Settings) (w v : World) → IsQuiet w v → IsConsistent s w → IsConsistent s v
IsConsistent-IsQuiet s w v q c = record {
  matching = rw (q.subs, q.consumers) c.matching;
  unique = rw q.consumers c.unique;
  distinct = rw q.subs c.distinct;
  below = rw (q.subs, q.sids) c.below;
  subjects = rw q.subs c.subjects;
}

pub IsQuiet-trans : (w v u : World) → IsQuiet w v → IsQuiet v u → IsQuiet w u
IsQuiet-trans w v u p q = record {
  subs = q.subs ∙ p.subs;
  sids = q.sids ∙ p.sids;
  consumers = q.consumers ∙ p.consumers;
}

module _ {ℓ κ} {A : Type ℓ} {B : Type κ} where
  -- Two quiet steps in a row are quiet, also when the first one throws.
  IsQuiet-bind :
      (m : Exec World A) (f : A → Exec World B) (w : World)
      → IsQuiet w (m w).1
      → ((a : A) (v : World) → IsQuiet v (f a v).1)
      → IsQuiet w ((m >>= f) w).1
  IsQuiet-bind m f w p q = elim (Result-cases (m w).0) [
    | inl (a, good) ↦ rw good (IsQuiet-trans w (m w).1 _ p (q a (m w).1))
    | inr (x, bad) ↦ rw bad p
  ]

run-IsQuiet : (e : Engine) (cmd : List Text) (w : World) → IsQuiet w (run e cmd w).1
unfolding run
run-IsQuiet e cmd w = record { subs = ground arith; sids = ground arith; consumers = ground arith }

IsQuiet-refl : (w : World) → IsQuiet w w
IsQuiet-refl w = record { subs = refl; sids = refl; consumers = refl }

reset-IsQuiet : (e : Engine) (s : Settings) (w : World) → IsQuiet w (reset e s w).1
unfolding reset
reset-IsQuiet e s w = elim (Result-cases (reset_to e s (codes "origin/main") w).0) [
  | inl (u, good) ↦ rw good (run-IsQuiet e _ w)
  | inr (x, bad) ↦ rw bad (
      IsQuiet-trans w (reset_to e s (codes "origin/main") w).1 _ (run-IsQuiet e _ w)
        (run-IsQuiet e _ _))
]

sync_repo-IsQuiet : (e : Engine) (s : Settings) (w : World) → IsQuiet w (sync_repo e s w).1
unfolding sync_repo update clone
sync_repo-IsQuiet e s w = elim (Bool-cases (file_exists (repo_path s) w.fs)) [
  | inl there ↦ rw there (
      IsQuiet-bind
        (run e (git_in (repo_path s) (codes "fetch" ∷ codes "--all" ∷ codes "--prune" ∷ [])))
        (λ _. reset e s) w (run-IsQuiet e _ w) (λ _ v. reset-IsQuiet e s v))
  | inr missing ↦ rw missing (
      IsQuiet-bind (lift (repo_url e s))
        (λ url. run e (codes "git" ∷ codes "clone" ∷ url ∷ path_text (repo_path s) ∷ [])) w
        (IsQuiet-refl w) (λ url v. run-IsQuiet e _ v))
]

sync_files-IsQuiet :
    (e : Engine) (source : FilePath) (w : World)
    → IsQuiet w (sync_runtime_functions_dir e source w).1
unfolding sync_runtime_functions_dir clear_module_cache
sync_files-IsQuiet e source w = record {
  subs = ground arith;
  sids = ground arith;
  consumers = ground arith;
}

pub sync_repo_and_reload-IsQuiet :
    (e : Engine) (s : Settings) (w : World) → IsQuiet w (sync_repo_and_reload e s w).1
unfolding sync_repo_and_reload
sync_repo_and_reload-IsQuiet e s w =
    IsQuiet-bind (sync_repo e s) (λ _. sync_runtime_functions_dir e (repo_functions_path s)) w
      (sync_repo-IsQuiet e s w) (λ _ v. sync_files-IsQuiet e (repo_functions_path s) v)

pub ensure_runtime_dir-IsQuiet : (e : Engine) (w : World) → IsQuiet w (ensure_runtime_dir e w).1
unfolding ensure_runtime_dir
ensure_runtime_dir-IsQuiet e w = record { subs = refl; sids = refl; consumers = refl }

pub reconcile_unlisted :
    (e : Engine) (s : Settings) (w : World) {x : Text}
    → (list_functions e w).0 ≡ err x
    → reconcile_consumers e s w ≡ (err x, w)
unfolding reconcile_consumers
reconcile_unlisted e s w h = ground (arith, h, world-list_functions e w)

-- Whether or not the functions can be listed, the reconciliation keeps the two in step.
pub reconcile_always :
    (e : Engine) (s : Settings) (w : World)
    → IsConsistent s w
    → IsConsistent s (reconcile_consumers e s w).1
reconcile_always e s w c = elim (Result-cases (list_functions e w).0) [
  | inl (names, listed) ↦ (reconcile_consumers-IsConsistent e s w names listed c).1
  | inr (x, failure) ↦ rw (reconcile_unlisted e s w failure) c
]

-- A refresh, whether it succeeds or throws on the way, keeps CONSUMERS and the open subscriptions in
-- step.
pub refresh-IsConsistent :
    (e : Engine) (s : Settings) (w : World) → IsConsistent s w → IsConsistent s (refresh e s w)
unfolding refresh
refresh-IsConsistent e s w c =
    let synced = IsConsistent-IsQuiet s w _ (sync_repo_and_reload-IsQuiet e s w) c in
    elim (Result-cases (sync_repo_and_reload e s w).0) [
      | inl (n, good) ↦
          rw (refresh, good) (reconcile_always e s (sync_repo_and_reload e s w).1 synced)
      | inr (x, bad) ↦ rw (refresh, bad) synced
    ]
