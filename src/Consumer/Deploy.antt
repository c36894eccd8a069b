-- ===== src/Consumer/Deploy.antt =====
-- What a refresh (runtimes/ts/pkg/consumer.ts) brings about: the consumers are those of the
-- functions that the repository holds.
use litefunctions.Prelude.{
  ℕ, ◌≡◌, ◌≢◌, refl, ap, ◌∙◌, subst, ◌&&◌, [], ◌∷◌, ◌++◌, arith, some, Bool-cases, inl, inr,
}
use litefunctions.Prelude.Exec.{Result, ok, continue}
use litefunctions.Text.{Text, codes, is_some}
use litefunctions.JsMap.{has}
use litefunctions.Conf.{Settings}
use litefunctions.Fs.{FilePath, folder, stat, parent, find_node, file_exists}
use litefunctions.World.{World, Engine}
use litefunctions.Functions.Repo.{repo_functions_path, runtime_functions_path, sync_repo}
use litefunctions.Functions.Files.{
  is_stem, sync_runtime_functions_dir, sync_repo_and_reload, clear_module_cache,
}
use litefunctions.Functions.Files.Names.{is_stem_iff, is_function_file_of_stem}
use litefunctions.Functions.Files.Mirror.{IsMade, replace_files_mirror}
use litefunctions.Functions.Files.Plain.{IsPlain}
use litefunctions.Functions.Files.Listing.{list_functions-lem}
use litefunctions.Functions.Modules.Reload.{sync-returns, sync-ok}
use litefunctions.Consumer.{reconcile_consumers, refresh}
use litefunctions.Consumer.Consistent.{IsConsistent}
use litefunctions.Consumer.Reconcile.{has-reconcile_consumers, reconcile_consumers-IsConsistent}
use litefunctions.Consumer.Refresh.{
  IsQuiet, IsConsistent-IsQuiet, sync_repo_and_reload-IsQuiet, refresh-IsConsistent,
}

-- After a sync that returned, the runtime's folder holds a function exactly if the source did.
synced_functions :
    (e : Engine) (source : FilePath) (w : World) (k : Text) {n : ℕ} {w1 : World}
    → source ≢ runtime_functions_path e
    → parent source ≢ runtime_functions_path e
    → IsMade (runtime_functions_path e) w.fs
    → stat source w.fs ≡ some folder
    → sync_runtime_functions_dir e source w ≡ (ok n, w1)
    → (is_stem k && is_some (find_node (runtime_functions_path e ++ (k ++ codes ".ts") ∷ []) w1.fs))
      ≡ (is_stem k && is_some (find_node (source ++ (k ++ codes ".ts") ∷ []) w.fs))
unfolding clear_module_cache file_exists
synced_functions e source w k {n} {w1} apart outside made is_folder h =
    elim (Bool-cases (is_stem k)) [
      | inr other ↦ rw other refl
      | inl stem ↦
          let (fs, done, now) = sync-ok e source w {n = n} {w' = w1} h in
          let mirror =
            replace_files_mirror source (runtime_functions_path e) w.fs {n = n} {fs' = fs}
              (k ++ codes ".ts") apart outside made
              (is_function_file_of_stem k ((is_stem_iff k).0 stem)) done in
          rw (stem, now) (ap is_some (mirror ∙ ground (arith, is_folder)))
    ]

pub reload_steps :
    (e : Engine) (s : Settings) (w : World) {w1 w2 : World} {n : ℕ}
    → sync_repo e s w ≡ (ok tt, w1)
    → sync_runtime_functions_dir e (repo_functions_path s) w1 ≡ (ok n, w2)
    → sync_repo_and_reload e s w ≡ (ok n, w2)
unfolding sync_repo_and_reload
reload_steps e s w pulled copied = rw (pulled, copied) refl

pub refresh_steps :
    (e : Engine) (s : Settings) (w : World) {w2 : World} {n : ℕ}
    → sync_repo_and_reload e s w ≡ (ok n, w2)
    → refresh e s w ≡ (reconcile_consumers e s w2).1
unfolding refresh
refresh_steps e s w reloaded =
    ap (λ (r : Result ℕ × World). (continue (λ _. reconcile_consumers e s) r.0 r.1).1) reloaded

-- The sync and the reconciliation after it return, and leave a consumer for each function of the
-- repository.
pub deploy-returns :
    (e : Engine) (s : Settings) (w : World) (k : Text) {w1 : World}
    → sync_repo e s w ≡ (ok tt, w1)
    → repo_functions_path s ≢ runtime_functions_path e
    → parent (repo_functions_path s) ≢ runtime_functions_path e
    → IsMade (runtime_functions_path e) w1.fs
    → IsPlain (runtime_functions_path e) w1.fs
    → IsPlain (repo_functions_path s) w1.fs
    → stat (repo_functions_path s) w1.fs ≡ some folder
    → IsConsistent s w
    → (n : ℕ) × (w2 : World) × (w3 : World) × (sync_repo_and_reload e s w ≡ (ok n, w2))
      × (reconcile_consumers e s w2 ≡ (ok tt, w3))
      × (has k w3.consumers ≡ (
          is_stem k
          && is_some (find_node (repo_functions_path s ++ (k ++ codes ".ts") ∷ []) w1.fs)))
deploy-returns e s w k {w1} pulled apart outside made plain files is_folder c =
    let (n, w2, copied, after) =
      sync-returns e (repo_functions_path s) w1 apart outside made plain files is_folder in
    let reloaded = reload_steps e s w {w1 = w1} {w2 = w2} {n = n} pulled copied in
    let (names, listed, _, _, listing) = list_functions-lem e w2 k after in
    let found = ap (λ (r : Result _ × World). r.0) listed in
    let c2 =
      IsConsistent-IsQuiet s w w2
        (subst (λ (r : Result ℕ × World). IsQuiet w r.1) reloaded
          (sync_repo_and_reload-IsQuiet e s w))
        c in
    let done = (reconcile_consumers-IsConsistent e s w2 names found c2).0 in
    (
      n,
      w2,
      (reconcile_consumers e s w2).1,
      reloaded,
      (λ i. (done i, (reconcile_consumers e s w2).1)),
      has-reconcile_consumers e s w2 names found c2 k
          ∙ listing
          ∙ synced_functions e (repo_functions_path s) w1 k {n = n} {w1 = w2} apart outside made
              is_folder copied,
    )

-- A refresh deploys. When git has brought the repository up to date, the refresh goes through to its
-- end: afterwards a name has a consumer exactly if it is a function's name and the repository holds
-- its file, and CONSUMERS is in step with the open subscriptions. The runtime's folder is made, the
-- repository's folder of functions is another one outside of it, and no function file's name is that
-- of a folder in the two.
pub refresh-deploys :
    (e : Engine) (s : Settings) (w : World) (k : Text) {w1 : World}
    → sync_repo e s w ≡ (ok tt, w1)
    → repo_functions_path s ≢ runtime_functions_path e
    → parent (repo_functions_path s) ≢ runtime_functions_path e
    → IsMade (runtime_functions_path e) w1.fs
    → IsPlain (runtime_functions_path e) w1.fs
    → IsPlain (repo_functions_path s) w1.fs
    → stat (repo_functions_path s) w1.fs ≡ some folder
    → IsConsistent s w
    → (has k (refresh e s w).consumers ≡ (
        is_stem k && is_some (find_node (repo_functions_path s ++ (k ++ codes ".ts") ∷ []) w1.fs)))
      × IsConsistent s (refresh e s w)
refresh-deploys e s w k {w1} pulled apart outside made plain files is_folder c =
    let (n, w2, w3, reloaded, done, named) =
      deploy-returns e s w k {w1 = w1} pulled apart outside made plain files is_folder c in
    (
      ap (λ (u : World). has k u.consumers)
            (refresh_steps e s w {w2 = w2} {n = n} reloaded
              ∙ ap (λ (r : Result _ × World). r.1) done)
          ∙ named,
      refresh-IsConsistent e s w c,
    )
