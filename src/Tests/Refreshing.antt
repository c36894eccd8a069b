-- ===== src/Tests/Refreshing.antt =====
-- A round of the hook's loop among the loops of the functions on the small runtime.
use litefunctions.Prelude.{◌≡◌, ◌≤◌, refl, ◌&&◌, List, [], ◌∷◌, ◌++◌, arith}
use litefunctions.Prelude.Exec.{ok, ◌>>◌}
use litefunctions.Text.{codes, text_eq, is_some}
use litefunctions.JsMap.{has}
use litefunctions.Fs.{find_node, path_eq}
use litefunctions.Functions.Repo.{repo_functions_path}
use litefunctions.Functions.Files.{is_stem, sync_repo_and_reload}
use litefunctions.Consumer.{reconcile_consumers, refresh}
use litefunctions.Consumer.Consistent.{IsConsistent}
use litefunctions.Consumer.Frames.{IsAlike}
use litefunctions.Consumer.Stages.{looking, ended}
use litefunctions.Consumer.Stages.Ends.{stages_left}
use litefunctions.Consumer.Loops.{run_on}
use litefunctions.Consumer.Loops.Reloading.{Move, other, sync_on, syncs}
use litefunctions.Consumer.Loops.Refreshing.{
  Refreshing, refresh_moves, refresh_moves-refresh, refresh_moves-deploys,
}
use litefunctions.Main.Runs.{start, start-IsConsistent}
use litefunctions.Tests.Fixtures.{engine, settings, disk}
use litefunctions.Tests.Looping.{running, hi_name, old_name}
use litefunctions.Tests.Starting.{
  apart, outside, made, pulled, is_folder, no_folder_in_root, no_folder_in_source,
}

refreshing : Unit {0}
unfolding stages_left syncs refresh_moves find_node path_eq text_eq
refreshing = tt

-- A call of each function waits when the hook's round begins.
abbrev deploying : Refreshing
deploying = record { running = record running { world = start disk }; stage = looking }

-- A turn of two loops between two stages of the round.
abbrev some_on : List Move
some_on =
    sync_on
    ∷ other (run_on hi_name)
    ∷ sync_on
    ∷ other (run_on old_name)
    ∷ sync_on
    ∷ other (run_on old_name)
    ∷ sync_on
    ∷ other (run_on hi_name)
    ∷ sync_on
    ∷ sync_on
    ∷ sync_on
    ∷ sync_on
    ∷ []

abbrev to_end : List Move
to_end =
    some_on
    ++ (some_on
        ++ (some_on ++ (some_on ++ (some_on ++ (some_on ++ (some_on ++ (some_on ++ some_on)))))))

enough : stages_left engine settings looking (start disk) ≤ syncs to_end
unfolding refreshing
enough = omega arith

refresh_moves-refresh_example :
    let d' = refresh_moves engine settings to_end deploying in
    (d'.stage
      ≡ ended
          ((sync_repo_and_reload engine settings >> reconcile_consumers engine settings)
            (start disk)).0)
    × IsAlike (refresh engine settings (start disk)) d'.running.world
refresh_moves-refresh_example = refresh_moves-refresh engine settings to_end deploying refl enough

refresh_moves-deploys_example :
    let d' = refresh_moves engine settings to_end deploying in
    (d'.stage ≡ ended (ok tt))
    × (has hi_name d'.running.world.consumers ≡ (
        is_stem hi_name
        && is_some
            (find_node (repo_functions_path settings ++ (hi_name ++ codes ".ts") ∷ []) disk)))
    × IsConsistent settings d'.running.world
refresh_moves-deploys_example =
    refresh_moves-deploys engine settings to_end deploying hi_name {w1 = start disk} refl enough
      pulled apart outside made no_folder_in_root no_folder_in_source is_folder
      (start-IsConsistent settings disk)
