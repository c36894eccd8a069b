-- ===== src/Consumer/Stages.antt =====
-- A round of the hook's loop (`watchTSHook` of runtimes/ts/pkg/consumer.ts, with `syncRepoAndReload`,
-- `listFunctions` and `reconcileConsumers`) cut at its awaits. A program that `run` spawns does its
-- work between two of them. A name that has a consumer is passed over in a stage of its own, so that
-- there are more places to run in between than in the code.
pub mod Ends
use litefunctions.Prelude.{
  ℕ, ◌≡◌, refl, ap, ◌∙◌, Bool, true, false, List, [], ◌∷◌, ◌++◌, if◌then◌else◌, arith, Bool-cases,
  inl, inr,
}
use litefunctions.Prelude.Exec.{
  Result, ok, err, Result-cases, Exec, pure, lift, gets, modify, ◌>>=◌, ◌>>◌, continue,
}
use litefunctions.Text.{Text, codes}
use litefunctions.JsMap.{has, set_of}
use litefunctions.Conf.{Settings}
use litefunctions.Fs.{FilePath, Fs, file_exists, readdir}
use litefunctions.World.{World, Engine, on_fs}
use litefunctions.Functions.Repo.{
  repo_path, repo_url, repo_functions_path, runtime_functions_path, run, git_in, reset_to, reset,
  update, clone, sync_repo,
}
use litefunctions.Functions.Repo.Sync.{fetch}
use litefunctions.Functions.Files.{
  clear_module_cache, sync_runtime_functions_dir, sync_repo_and_reload, list_functions,
  function_names, sort, replace_files,
}
use litefunctions.Functions.Files.Segments.{
  Phase, making, listing_old, removing, listing_new, copying, writing, clearing, returned,
  file_segment, rest_of, rest_of-file_segment,
}
use litefunctions.Consumer.{
  consume_function, stop_stale, start_missing, reconcile_consumers, refresh,
}
use litefunctions.Consumer.Frames.{
  reconcile_with, Respects, Respects-bind, Respects-on_fs, run-Respects, sync_dir-Respects,
  reset-Respects, update-Respects, clone-Respects, sync_repo_and_reload-Respects,
  reconcile_consumers-Respects, reconcile_with-Respects, start_missing-IsAlike,
}

-- Where the round waits: for the look at the clone, for git, in the sync of the files, for the look
-- at the runtime's folder and its entries, for the loops of `reconcileConsumers` with the names that
-- the second one has still to go through; or it has come to its end.
pub data Stage : Type 0 where
  looking : Stage
  fetching : Stage
  resetting_main : Stage
  resetting_master : Stage
  cloning : Stage
  syncing : Phase → Stage
  seeking : Stage
  listing : Stage
  stopping : List Text → Stage
  starting : List Text → Stage
  ended : Result (Unit {0}) → Stage

-- After a call that may fail.
abbrev pub go_to {ℓ} : {A : Type ℓ} → (A → Stage) → Result A → Stage
go_to f (ok a) = f a
go_to f (err x) = ended (err x)

abbrev pub after_main : Result (Unit {0}) → Stage
after_main (ok u) = syncing making
after_main (err x) = resetting_master

module _ (e : Engine) (s : Settings) where
  abbrev pub files_on : Phase → World → Stage × World
  files_on p w =
      let (p', fs') = file_segment (repo_functions_path s) (runtime_functions_path e) p w.fs in
      (syncing p', record w { fs = fs' })

  -- From one wait to the next. The sync of the files gives a count only where it clears the cache.
  unfoldable pub stage_on : Stage → World → Stage × World
  unfolding file_segment clear_module_cache file_exists readdir repo_path repo_functions_path
      runtime_functions_path run clone function_names set_of sort stop_stale consume_function has
  stage_on looking w = (if file_exists (repo_path s) w.fs then fetching else cloning, w)
  stage_on fetching w = let (r, w') = fetch e s w in (go_to (λ _. resetting_main) r, w')
  stage_on resetting_main w =
      let (r, w') = reset_to e s (codes "origin/main") w in (after_main r, w')
  stage_on resetting_master w =
      let (r, w') = reset_to e s (codes "origin/master") w in (go_to (λ _. syncing making) r, w')
  stage_on cloning w = let (r, w') = clone e s w in (go_to (λ _. syncing making) r, w')
  stage_on (syncing making) w = files_on making w
  stage_on (syncing listing_old) w = files_on listing_old w
  stage_on (syncing (removing old)) w = files_on (removing old) w
  stage_on (syncing listing_new) w = files_on listing_new w
  stage_on (syncing (copying new n)) w = files_on (copying new n) w
  stage_on (syncing (writing entry b new n)) w = files_on (writing entry b new n) w
  stage_on (syncing (clearing n)) w = (seeking, clear_module_cache w)
  stage_on (syncing (returned (ok n))) w = (seeking, clear_module_cache w)
  stage_on (syncing (returned (err x))) w = (ended (err x), w)
  stage_on seeking w =
      (if file_exists (runtime_functions_path e) w.fs then listing else stopping [], w)
  stage_on listing w = (
    go_to (λ entries. stopping (sort (set_of (function_names entries))))
        (readdir (runtime_functions_path e) w.fs),
    w,
  )
  stage_on (stopping names) w = (starting (set_of names), stop_stale w.consumers (set_of names) w)
  stage_on (starting []) w = (ended (ok tt), w)
  stage_on (starting (name ∷ names)) w =
      (starting names, if has name w.consumers then w else consume_function s name w)
  stage_on (ended r) w = (ended r, w)

  -- What is still to be done, as a whole, behind the calls of git, and behind those of the files.
  abbrev pub behind_git : Exec World (Unit {0}) → Exec World (Unit {0})
  behind_git m =
      (m >> sync_runtime_functions_dir e (repo_functions_path s)) >> reconcile_consumers e s

  abbrev pub behind_files : Exec Fs ℕ → Exec World (Unit {0})
  behind_files m = do copied ← on_fs m; modify clear_module_cache; reconcile_consumers e s

  unfoldable pub still : Stage → Exec World (Unit {0})
  unfolding rest_of update reset clone reconcile_consumers readdir
  still looking = sync_repo_and_reload e s >> reconcile_consumers e s
  still fetching = behind_git (update e s)
  still resetting_main = behind_git (reset e s)
  still resetting_master = behind_git (reset_to e s (codes "origin/master"))
  still cloning = behind_git (clone e s)
  still (syncing p) = behind_files (rest_of (repo_functions_path s) (runtime_functions_path e) p)
  still seeking = reconcile_consumers e s
  still listing = λ w.
      continue (λ entries. reconcile_with e s (sort (set_of (function_names entries))))
        (readdir (runtime_functions_path e) w.fs) w
  still (stopping names) = reconcile_with e s names
  still (starting names) = modify (start_missing s names)
  still (ended r) = lift r

  still-files :
      (p : Phase) (w : World) → still (files_on p w).0 (files_on p w).1 ≡ still (syncing p) w
  unfolding still
  still-files p w =
      ap
        (λ (x : Result ℕ × Fs).
          continue (λ _. modify clear_module_cache >> reconcile_consumers e s) x.0
            (record w { fs = x.1 }))
        (rest_of-file_segment (repo_functions_path s) (runtime_functions_path e) p w.fs)

  -- Behind a call of git that has brought the files up to date, the sync of the files begins.
  still-making : (w : World) → still (syncing making) w ≡ behind_git (pure tt) w
  unfolding still sync_runtime_functions_dir rest_of
  still-making w =
      elim (Result-cases
        (replace_files (repo_functions_path s) (runtime_functions_path e) w.fs).0) [
          | inl (n, good) ↦ rw good refl
          | inr (x, bad) ↦ rw bad refl
        ]

  -- A stage does the first part of what is still to be done.
  pub still-stage_on : (t : Stage) (w : World) → still (stage_on t w).0 (stage_on t w).1 ≡ still t w
  unfolding still stage_on sync_repo_and_reload sync_repo update reset clone rest_of list_functions
      reconcile_consumers start_missing
  still-stage_on looking w = elim (Bool-cases (file_exists (repo_path s) w.fs)) [
    | inl there ↦ rw there refl
    | inr missing ↦ rw missing refl
  ]
  still-stage_on fetching w = elim (Result-cases (fetch e s w).0) [
    | inl (u, good) ↦ rw good refl
    | inr (x, bad) ↦ rw bad refl
  ]
  still-stage_on resetting_main w = elim (Result-cases (reset_to e s (codes "origin/main") w).0) [
    | inl (u, good) ↦ rw good (still-making _)
    | inr (x, bad) ↦ rw bad refl
  ]
  still-stage_on resetting_master w =
      elim (Result-cases (reset_to e s (codes "origin/master") w).0) [
        | inl (u, good) ↦ rw good (still-making _)
        | inr (x, bad) ↦ rw bad refl
      ]
  still-stage_on cloning w = elim (Result-cases (clone e s w).0) [
    | inl (u, good) ↦ rw good (still-making _)
    | inr (x, bad) ↦ rw bad refl
  ]
  still-stage_on (syncing making) w = still-files making w
  still-stage_on (syncing listing_old) w = still-files listing_old w
  still-stage_on (syncing (removing old)) w = still-files (removing old) w
  still-stage_on (syncing listing_new) w = still-files listing_new w
  still-stage_on (syncing (copying new n)) w = still-files (copying new n) w
  still-stage_on (syncing (writing entry b new n)) w = still-files (writing entry b new n) w
  still-stage_on (syncing (clearing n)) w = refl
  still-stage_on (syncing (returned (ok n))) w = refl
  still-stage_on (syncing (returned (err x))) w = refl
  still-stage_on seeking w = elim (Bool-cases (file_exists (runtime_functions_path e) w.fs)) [
    | inl there ↦ rw there (elim (Result-cases (readdir (runtime_functions_path e) w.fs)) [
      | inl (entries, good) ↦ rw good refl
      | inr (x, bad) ↦ rw bad refl
    ])
    | inr missing ↦ rw missing refl
  ]
  still-stage_on listing w = elim (Result-cases (readdir (runtime_functions_path e) w.fs)) [
    | inl (entries, good) ↦ rw good refl
    | inr (x, bad) ↦ rw bad refl
  ]
  still-stage_on (stopping names) w = refl
  still-stage_on (starting []) w = refl
  still-stage_on (starting (name ∷ names)) w = refl
  still-stage_on (ended r) w = refl

  behind_git-Respects : (m : Exec World (Unit {0})) → Respects m → Respects (behind_git m)
  behind_git-Respects m h =
      Respects-bind (m >> sync_runtime_functions_dir e (repo_functions_path s))
        (λ _. reconcile_consumers e s)
        (Respects-bind m (λ _. sync_runtime_functions_dir e (repo_functions_path s)) h
          (λ _. sync_dir-Respects e (repo_functions_path s)))
        (λ _. reconcile_consumers-Respects e s)

  -- It does the same in worlds that are alike.
  pub still-Respects : (t : Stage) → Respects (still t)
  unfolding still clear_module_cache
  still-Respects looking =
      Respects-bind (sync_repo_and_reload e s) (λ _. reconcile_consumers e s)
        (sync_repo_and_reload-Respects e s) (λ _. reconcile_consumers-Respects e s)
  still-Respects fetching = behind_git-Respects (update e s) (update-Respects e s)
  still-Respects resetting_main = behind_git-Respects (reset e s) (reset-Respects e s)
  still-Respects resetting_master =
      behind_git-Respects (reset_to e s (codes "origin/master")) (run-Respects e _)
  still-Respects cloning = behind_git-Respects (clone e s) (clone-Respects e s)
  still-Respects (syncing p) =
      let files = rest_of (repo_functions_path s) (runtime_functions_path e) p in
      Respects-bind (on_fs files) (λ _. modify clear_module_cache >> reconcile_consumers e s)
        (Respects-on_fs files)
        (λ _ w v h.
          reconcile_consumers-Respects e s (clear_module_cache w) (clear_module_cache v)
            (record { fs = h.fs; subs = h.subs; sids = h.sids; consumers = h.consumers }))
  still-Respects seeking = reconcile_consumers-Respects e s
  still-Respects listing = λ w v h. elim (Result-cases (readdir (runtime_functions_path e) w.fs)) [
    | inl (entries, good) ↦
        rw (good, ap (readdir (runtime_functions_path e)) h.fs ∙ good)
          (reconcile_with-Respects e s (sort (set_of (function_names entries))) w v h)
    | inr (x, bad) ↦ rw (bad, ap (readdir (runtime_functions_path e)) h.fs ∙ bad) (refl, h)
  ]
  still-Respects (stopping names) = reconcile_with-Respects e s names
  still-Respects (starting names) = λ w v h. (refl, start_missing-IsAlike e s names w v h)
  still-Respects (ended r) = λ w v h. (refl, h)
