-- ===== src/Consumer/Loops/Reloaded.antt =====
-- A sync of the files under way while the loops of the functions run: what it does to the files, and
-- which code the loops run behind it.
use litefunctions.Prelude.{
  ℕ, ◌+◌, ◌≤◌, ◌≡◌, ◌≢◌, refl, sym, ap, ◌∙◌, Bool, true, false, List, [], ◌∷◌, ◌++◌, arith, some,
}
use litefunctions.Prelude.Exec.{Result}
use litefunctions.Text.{Text, codes}
use litefunctions.Text.Utf8.{Bytes}
use litefunctions.Conf.{Settings}
use litefunctions.JsMap.{get}
use litefunctions.Fs.{FilePath, Fs, file, find_node, parent, file_exists, read_file}
use litefunctions.Fs.Laws.{stat-child}
use litefunctions.World.{World, Engine}
use litefunctions.Functions.Repo.{runtime_functions_path}
use litefunctions.Functions.Files.{clear_module_cache, replace_files}
use litefunctions.Functions.Files.Names.{IsFunctionName, is_function_file_iff}
use litefunctions.Functions.Files.Mirror.{IsMade, replace_files_mirror}
use litefunctions.Functions.Files.Segments.{
  Phase, making, listing_old, removing, listing_new, copying, writing, clearing, returned, rest_of,
  rest_of-file_segment, segment,
}
use litefunctions.Functions.Files.Segments.Ends.{cuts, segments_left, cuts-end, segment-cut}
use litefunctions.Functions.Modules.{function_path}
use litefunctions.Functions.Modules.Reload.{imported_above, function_path-child, All-step}
use litefunctions.Functions.Modules.Loads.{resolving, importing, committing, finished}
use litefunctions.Consumer.Loops.{Round, idle, loading, yielding, Running}
use litefunctions.Consumer.Loops.Turns.{RoundOf}
use litefunctions.Consumer.Loops.Results.{IsServing}
use litefunctions.Consumer.Loops.Reloading.{
  Deploying, Move, other, sync_on, move, moves, syncs, RoundBelow, IsSound, happen-IsSound,
}

module _ (e : Engine) (s : Settings) (source : FilePath) where
  -- The files as the sync, run to its end from here with nothing in between, would leave them, and
  -- what it would return.
  abbrev pub outcome : Deploying → Result ℕ × Fs
  outcome d = rest_of source (runtime_functions_path e) d.phase d.running.world.fs

  outcome-segment :
      (p : Phase) (w : World)
      → let (p', w') = segment e source p w in
        rest_of source (runtime_functions_path e) p' w'.fs
        ≡ rest_of source (runtime_functions_path e) p w.fs
  unfolding segment clear_module_cache rest_of
  outcome-segment making w = rest_of-file_segment source (runtime_functions_path e) making w.fs
  outcome-segment listing_old w =
      rest_of-file_segment source (runtime_functions_path e) listing_old w.fs
  outcome-segment (removing old) w =
      rest_of-file_segment source (runtime_functions_path e) (removing old) w.fs
  outcome-segment listing_new w =
      rest_of-file_segment source (runtime_functions_path e) listing_new w.fs
  outcome-segment (copying new n) w =
      rest_of-file_segment source (runtime_functions_path e) (copying new n) w.fs
  outcome-segment (writing entry b new n) w =
      rest_of-file_segment source (runtime_functions_path e) (writing entry b new n) w.fs
  outcome-segment (clearing n) w = refl
  outcome-segment (returned r) w = refl

  RoundBelow-later : (v v' : ℕ) → v ≤ v' → (r : Round) → RoundBelow v r → RoundBelow v' r
  RoundBelow-later v v' le idle h = tt
  RoundBelow-later v v' le (loading subject payload resolving) h = tt
  RoundBelow-later v v' le (loading subject payload (importing p u)) h = omega arith
  RoundBelow-later v v' le (loading subject payload (committing m)) h = tt
  RoundBelow-later v v' le (loading subject payload (finished r)) h = tt
  RoundBelow-later v v' le (yielding subject outs) h = tt

  segment-IsSound :
      (p : Phase) (r : Running)
      → IsSound r
      → IsSound (record r { world = (segment e source p r.world).1 })
  unfolding segment clear_module_cache
  segment-IsSound (clearing n) r h = record {
    bounded = All-step r.world.module_version r.world.imports h.bounded;
    below = λ k.
        RoundBelow-later r.world.module_version (r.world.module_version + 1) (omega arith)
          (r.loops k).round (h.below k);
  }
  segment-IsSound making r h = record { bounded = h.bounded; below = h.below }
  segment-IsSound listing_old r h = record { bounded = h.bounded; below = h.below }
  segment-IsSound (removing old) r h = record { bounded = h.bounded; below = h.below }
  segment-IsSound listing_new r h = record { bounded = h.bounded; below = h.below }
  segment-IsSound (copying new n) r h = record { bounded = h.bounded; below = h.below }
  segment-IsSound (writing entry b new n) r h = record { bounded = h.bounded; below = h.below }
  segment-IsSound (returned x) r h = record { bounded = h.bounded; below = h.below }

  moves-outcome :
      (ms : List Move) (d : Deploying)
      → IsSound d.running
      → IsSound (moves e s source ms d).running × (outcome (moves e s source ms d) ≡ outcome d)
  unfolding moves
  moves-outcome [] d h = (h, refl)
  moves-outcome (other a ∷ ms) d h =
      let (sound, files) = happen-IsSound e s a d.running h in
      let (sound', same) = moves-outcome ms (move e s source (other a) d) sound in
      (sound', same ∙ ap (rest_of source (runtime_functions_path e) d.phase) files)
  moves-outcome (sync_on ∷ ms) d h =
      let (sound', same) =
        moves-outcome ms (move e s source sync_on d) (segment-IsSound d.phase d.running h) in
      (sound', same ∙ outcome-segment d.phase d.running.world)

  -- From where the sync begins to where it has come, nothing is lost of what it would do.
  pub moves-rest_of :
      (ms : List Move) (d : Deploying) (p : Phase)
      → IsSound d.running
      → d.phase ≡ making
      → (moves e s source ms d).phase ≡ p
      → replace_files source (runtime_functions_path e) d.running.world.fs
        ≡ rest_of source (runtime_functions_path e) p (moves e s source ms d).running.world.fs
  unfolding rest_of
  moves-rest_of ms d p h begins ends =
      let root = runtime_functions_path e in
      let d' = moves e s source ms d in
      ap (λ q. rest_of source root q d.running.world.fs) (sym begins)
      ∙ sym ((moves-outcome ms d h).1)
      ∙ ap (λ q. rest_of source root q d'.running.world.fs) ends

  moves-cuts :
      (ms : List Move) (d : Deploying)
      → IsSound d.running
      → let d' = moves e s source ms d in
        (d'.phase, d'.running.world.fs)
        ≡ cuts source (runtime_functions_path e) (syncs ms) (d.phase, d.running.world.fs)
  unfolding moves syncs cuts
  moves-cuts [] d h = refl
  moves-cuts (other a ∷ ms) d h =
      let root = runtime_functions_path e in
      let (sound, files) = happen-IsSound e s a d.running h in
      moves-cuts ms (move e s source (other a) d) sound
      ∙ ap (λ fs. cuts source root (syncs ms) (d.phase, fs)) files
  moves-cuts (sync_on ∷ ms) d h =
      moves-cuts ms (move e s source sync_on d) (segment-IsSound d.phase d.running h)
      ∙ ap (cuts source (runtime_functions_path e) (syncs ms))
          (segment-cut e source d.phase d.running.world)

  -- The loops of the functions neither hold up nor disturb a sync of the files. However they run in
  -- between, and whatever arrives, once the sync has run on as often as it has segments to come (at
  -- most one for each entry of the runtime's folder, two for each of the source, and six besides),
  -- it has returned: its result, and the files, are those of the sync of the files as a whole, with
  -- nothing in between, from where it began.
  pub moves-returned :
      (ms : List Move) (d : Deploying)
      → IsSound d.running
      → d.phase ≡ making
      → segments_left source (runtime_functions_path e) making d.running.world.fs ≤ syncs ms
      → let (r, fs') = replace_files source (runtime_functions_path e) d.running.world.fs in
        let d' = moves e s source ms d in (d'.phase ≡ returned r) × (d'.running.world.fs ≡ fs')
  unfolding rest_of
  moves-returned ms d h begins enough =
      let root = runtime_functions_path e in
      let (r, ended) =
        cuts-end source root (syncs ms) (d.phase, d.running.world.fs) (rw begins enough) in
      let at_end = ap (λ p. p.0) (moves-cuts ms d h) ∙ ended in
      let same = moves-rest_of ms d (returned r) h begins at_end in
      (at_end ∙ ap (λ p. returned p.0) (sym same), ap (λ p. p.1) (sym same))

-- Whether a loop is in no call that has found its module in the cache, has read the version, or has
-- looked for its file in vain.
abbrev pub is_unread : Round → Bool
is_unread idle = true
is_unread (loading subject payload resolving) = true
is_unread (loading subject payload (importing p u)) = false
is_unread (loading subject payload (committing m)) = false
is_unread (loading subject payload (finished r)) = false
is_unread (yielding subject outs) = true

unread-RoundOf :
    (e : Engine) (name : Text) (b : Bytes) (v : ℕ) (k : Text) (r : Round)
    → (k ≡ name → is_unread r ≡ true)
    → RoundOf e name b v k r
unread-RoundOf e name b v k idle h = tt
unread-RoundOf e name b v k (loading subject payload resolving) h = tt
unread-RoundOf e name b v k (loading subject payload (importing p u)) h =
    λ is. absurd (ground (arith, h is))
unread-RoundOf e name b v k (loading subject payload (committing m)) h =
    λ is. absurd (ground (arith, h is))
unread-RoundOf e name b v k (loading subject payload (finished r)) h =
    λ is. absurd (ground (arith, h is))
unread-RoundOf e name b v k (yielding subject outs) h = tt

module _ (e : Engine) (s : Settings) (source : FilePath) (ms : List Move) (d : Deploying) {n : ℕ}
    (sound : IsSound d.running) (begins : d.phase ≡ making)
    (copied : (moves e s source ms d).phase ≡ clearing n)
    (apart : source ≢ runtime_functions_path e) (outside : parent source ≢ runtime_functions_path e)
    (made : IsMade (runtime_functions_path e) d.running.world.fs) where
  -- Right behind the clearing of the cache, the loops serve the source's code.
  pub clearing-IsServing :
      (name : Text) (b : Bytes)
      → IsFunctionName name
      → file_exists source d.running.world.fs ≡ true
      → find_node (source ++ (name ++ codes ".ts") ∷ []) d.running.world.fs ≡ some (file b)
      → is_unread ((moves e s source ms d).running.loops name).round ≡ true
      → IsServing e name b (move e s source sync_on (moves e s source ms d)).running
  unfolding move segment clear_module_cache read_file get rest_of
  clearing-IsServing name b f there content unread =
      let root = runtime_functions_path e in
      let full = name ++ codes ".ts" in
      let r' = (moves e s source ms d).running in
      let mirror =
        replace_files_mirror source root d.running.world.fs {n = n} {fs' = r'.world.fs} full apart
          outside made ((is_function_file_iff full).1 (name, refl, f))
          (moves-rest_of e s source ms d (clearing n) sound begins copied) in
      rw copied (
        record {
          content =
              rw (function_path-child e name f)
                (ground (arith, stat-child root full r'.world.fs, mirror, there, content));
          cached = λ m hit. cc;
          registered = λ r hit. cc (
              imported_above (function_path e name) r'.world.module_version r'.world.imports
                ((moves-outcome e s source ms d sound).0).bounded);
        },
        λ k.
            unread-RoundOf e name b _ k (r'.loops k).round
              (λ is. ap (λ x. is_unread (r'.loops x).round) is ∙ unread),
      )
