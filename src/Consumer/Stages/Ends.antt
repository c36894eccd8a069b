-- ===== src/Consumer/Stages/Ends.antt =====
-- A round of the hook's loop (`watchTSHook` of runtimes/ts/pkg/consumer.ts), cut at its awaits, comes
-- to an end.
use litefunctions.Prelude.{
  ℕ, suc, ◌+◌, ◌-◌, ◌≤◌, ◌≡◌, refl, ap, ◌∙◌, List, [], ◌∷◌, length, arith, Bool-cases, inl, inr,
}
use litefunctions.Prelude.Exec.{Result, ok, err, Result-cases}
use litefunctions.Text.{Text, codes}
use litefunctions.JsMap.{set_of}
use litefunctions.Conf.{Settings}
use litefunctions.Fs.{Fs, file_exists, readdir}
use litefunctions.World.{World, Engine}
use litefunctions.Functions.Repo.{
  repo_path, repo_functions_path, runtime_functions_path, reset_to, clone,
}
use litefunctions.Functions.Repo.Sync.{fetch}
use litefunctions.Functions.Files.{clear_module_cache, function_names, sort}
use litefunctions.Functions.Files.Segments.{
  Phase, making, listing_old, removing, listing_new, copying, writing, clearing, returned,
  file_segment, rest_of, rest_of-file_segment,
}
use litefunctions.Functions.Files.Segments.Ends.{
  cut, removing_left, segments_left, segments_left-cut,
}
use litefunctions.Consumer.{consume_function}
use litefunctions.Consumer.Frames.{IsAlike, run-Respects, clone-Respects}
use litefunctions.Consumer.Stages.{
  Stage, looking, fetching, resetting_main, resetting_master, cloning, syncing, seeking, listing,
  stopping, starting, ended, stage_on, files_on,
}

-- How many stages there are to come, at most, from the listing of the functions on.
abbrev names_left : Result (List Text) → ℕ
names_left (ok entries) = 3 + length (set_of (sort (set_of (function_names entries))))
names_left (err x) = 1

module _ (e : Engine) (s : Settings) where
  abbrev listing_left : Fs → ℕ
  listing_left fs = names_left (readdir (runtime_functions_path e) fs)

  abbrev seeking_left : Fs → ℕ
  seeking_left fs = 3 + listing_left fs

  abbrev syncing_left : Phase → Fs → ℕ
  syncing_left p fs =
      let source = repo_functions_path s in
      let root = runtime_functions_path e in
      segments_left source root p fs + 1 + seeking_left (rest_of source root p fs).1

  abbrev master_left : World → ℕ
  master_left w = 1 + syncing_left making (reset_to e s (codes "origin/master") w).1.fs

  abbrev main_left : World → ℕ
  main_left w =
      let w' = (reset_to e s (codes "origin/main") w).1 in
      1 + syncing_left making w'.fs + master_left w'

  abbrev fetching_left : World → ℕ
  fetching_left w = 1 + main_left (fetch e s w).1

  abbrev cloning_left : World → ℕ
  cloning_left w = 1 + syncing_left making (clone e s w).1.fs

  on_master : (w v : World) → IsAlike w v → master_left v ≡ master_left w
  on_master w v h = ap (λ fs. 1 + syncing_left making fs) ((run-Respects e _ w v h).1.fs)

  on_main : (w v : World) → IsAlike w v → main_left v ≡ main_left w
  on_main w v h =
      let main = reset_to e s (codes "origin/main") in
      let alike = (run-Respects e _ w v h).1 in rw (alike.fs, on_master (main w).1 (main v).1 alike)

  fetched : (w v : World) → IsAlike w v → fetching_left v ≡ fetching_left w
  fetched w v h =
      ap (λ n. 1 + n) (on_main (fetch e s w).1 (fetch e s v).1 ((run-Respects e _ w v h).1))

  cloned : (w v : World) → IsAlike w v → cloning_left v ≡ cloning_left w
  cloned w v h = ap (λ fs. 1 + syncing_left making fs) ((clone-Respects e s w v h).1.fs)

  -- How many stages there are to come, at most.
  unfoldable pub stages_left : Stage → World → ℕ
  unfolding segments_left rest_of readdir clone set_of
  stages_left looking w = 1 + fetching_left w + cloning_left w
  stages_left fetching w = fetching_left w
  stages_left resetting_main w = main_left w
  stages_left resetting_master w = master_left w
  stages_left cloning w = cloning_left w
  stages_left (syncing p) w = syncing_left p w.fs
  stages_left seeking w = seeking_left w.fs
  stages_left listing w = listing_left w.fs
  stages_left (stopping names) w = 2 + length (set_of names)
  stages_left (starting names) w = 1 + length names
  stages_left (ended r) w = 0

  left :
      (p : Phase) (fs : Fs)
      → let source = repo_functions_path s in
        let root = runtime_functions_path e in
        let (p', fs') = cut source root p fs in
        segments_left source root p' fs' ≤ segments_left source root p fs - 1
  left p fs = segments_left-cut (repo_functions_path s) (runtime_functions_path e) p fs

  -- A segment of the sync that does not end it.
  syncing-left :
      (p : Phase) (w : World)
      → (let source = repo_functions_path s in
          let root = runtime_functions_path e in
          let (p', fs') = file_segment source root p w.fs in
          suc (segments_left source root p' fs') ≤ segments_left source root p w.fs)
      → let (t', w') = files_on e s p w in stages_left t' w' ≤ syncing_left p w.fs - 1
  unfolding stages_left
  syncing-left p w h =
      let source = repo_functions_path s in
      let root = runtime_functions_path e in
      rw (rest_of-file_segment source root p w.fs) (omega arith)

  pub stages_left-stage_on :
      (t : Stage) (w : World)
      → let (t', w') = stage_on e s t w in stages_left t' w' ≤ stages_left t w - 1
  unfolding stages_left stage_on segments_left removing_left clear_module_cache consume_function
  stages_left-stage_on looking w = elim (Bool-cases (file_exists (repo_path s) w.fs)) [
    | inl there ↦ rw there (omega arith)
    | inr missing ↦ rw missing (omega arith)
  ]
  stages_left-stage_on fetching w = elim (Result-cases (fetch e s w).0) [
    | inl (u, good) ↦ rw good (omega arith)
    | inr (x, bad) ↦ rw bad (omega arith)
  ]
  stages_left-stage_on resetting_main w =
      elim (Result-cases (reset_to e s (codes "origin/main") w).0) [
        | inl (u, good) ↦ rw good (omega arith)
        | inr (x, bad) ↦ rw bad (omega arith)
      ]
  stages_left-stage_on resetting_master w =
      elim (Result-cases (reset_to e s (codes "origin/master") w).0) [
        | inl (u, good) ↦ rw good (omega arith)
        | inr (x, bad) ↦ rw bad (omega arith)
      ]
  stages_left-stage_on cloning w = elim (Result-cases (clone e s w).0) [
    | inl (u, good) ↦ rw good (omega arith)
    | inr (x, bad) ↦ rw bad (omega arith)
  ]
  stages_left-stage_on (syncing making) w = syncing-left making w (omega (arith, left making w.fs))
  stages_left-stage_on (syncing listing_old) w =
      syncing-left listing_old w (omega (arith, left listing_old w.fs))
  stages_left-stage_on (syncing (removing old)) w =
      syncing-left (removing old) w (omega (arith, left (removing old) w.fs))
  stages_left-stage_on (syncing listing_new) w =
      syncing-left listing_new w (omega (arith, left listing_new w.fs))
  stages_left-stage_on (syncing (copying new n)) w =
      syncing-left (copying new n) w (omega (arith, left (copying new n) w.fs))
  stages_left-stage_on (syncing (writing entry b new n)) w =
      syncing-left (writing entry b new n) w (omega (arith, left (writing entry b new n) w.fs))
  stages_left-stage_on (syncing (clearing n)) w = unfold rest_of in omega arith
  stages_left-stage_on (syncing (returned (ok n))) w = unfold rest_of in omega arith
  stages_left-stage_on (syncing (returned (err x))) w = omega arith
  stages_left-stage_on seeking w = elim (Bool-cases (file_exists (runtime_functions_path e) w.fs)) [
    | inl there ↦ rw there (omega arith)
    | inr missing ↦ rw missing (omega arith)
  ]
  stages_left-stage_on listing w = elim (Result-cases (readdir (runtime_functions_path e) w.fs)) [
    | inl (entries, good) ↦ rw good (omega arith)
    | inr (x, bad) ↦ rw bad (omega arith)
  ]
  stages_left-stage_on (stopping names) w = omega arith
  stages_left-stage_on (starting []) w = omega arith
  stages_left-stage_on (starting (name ∷ names)) w = omega arith
  stages_left-stage_on (ended r) w = omega arith

  pub none-left :
      (t : Stage) (w : World) → stages_left t w ≡ 0 → (r : Result (Unit {0})) × (t ≡ ended r)
  unfolding stages_left
  none-left looking w h = absurd (omega arith)
  none-left fetching w h = absurd (omega arith)
  none-left resetting_main w h = absurd (omega arith)
  none-left resetting_master w h = absurd (omega arith)
  none-left cloning w h = absurd (omega arith)
  none-left (syncing p) w h = absurd (omega arith)
  none-left seeking w h = absurd (omega arith)
  none-left listing w h = absurd (elim (Result-cases (readdir (runtime_functions_path e) w.fs)) [
    | inl (entries, good) ↦ omega (arith, rw good at h)
    | inr (x, bad) ↦ omega (arith, rw bad at h)
  ])
  none-left (stopping names) w h = absurd (omega arith)
  none-left (starting names) w h = absurd (omega arith)
  none-left (ended r) w h = (r, refl)

  -- The count is the same in worlds that are alike.
  pub stages_left-IsAlike :
      (t : Stage) (w v : World) → IsAlike w v → stages_left t v ≡ stages_left t w
  unfolding stages_left
  stages_left-IsAlike looking w v h =
      ap (λ n. 1 + n + cloning_left v) (fetched w v h)
      ∙ ap (λ n. 1 + fetching_left w + n) (cloned w v h)
  stages_left-IsAlike fetching w v h = fetched w v h
  stages_left-IsAlike resetting_main w v h = on_main w v h
  stages_left-IsAlike resetting_master w v h = on_master w v h
  stages_left-IsAlike cloning w v h = cloned w v h
  stages_left-IsAlike (syncing p) w v h = ap (syncing_left p) h.fs
  stages_left-IsAlike seeking w v h = ap seeking_left h.fs
  stages_left-IsAlike listing w v h = ap listing_left h.fs
  stages_left-IsAlike (stopping names) w v h = refl
  stages_left-IsAlike (starting names) w v h = refl
  stages_left-IsAlike (ended r) w v h = refl
