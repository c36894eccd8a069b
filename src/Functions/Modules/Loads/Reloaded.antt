-- ===== src/Functions/Modules/Loads/Reloaded.antt =====
-- Concurrent loads behind a reload of the files (runtimes/ts/pkg/functions.ts).
use litefunctions.Prelude.{ℕ, ◌≡◌, ◌≢◌, true, List, [], ◌∷◌, ◌++◌, arith, some, All}
use litefunctions.Prelude.Exec.{ok}
use litefunctions.Text.{Text, codes}
use litefunctions.Text.Utf8.{Bytes}
use litefunctions.Fs.{FilePath, file, folder, stat, find_node, parent, file_exists}
use litefunctions.World.{World, Engine}
use litefunctions.Functions.Repo.{runtime_functions_path}
use litefunctions.Functions.Files.{sync_runtime_functions_dir}
use litefunctions.Functions.Files.Names.{IsFunctionName}
use litefunctions.Functions.Files.Mirror.{IsMade}
use litefunctions.Functions.Files.Plain.{IsPlain}
use litefunctions.Functions.Modules.Fresh.{IsBounded}
use litefunctions.Functions.Modules.Reload.{sync-returns, sync-IsCurrent}
use litefunctions.Functions.Modules.Loads.{Action, Pool, schedule, results_of, none_past}
use litefunctions.Functions.Modules.Loads.Interleaved.{schedule-current}

-- Hot reload while loads are under way. The sync of the files returns, and then, however the event
-- loop interleaves the loads that were begun before it and after it, every load of a function that
-- has ended gave what the source's code evaluates to, where no load of the function was past the
-- reading of the version when the files were replaced. The folders are as hot reload takes them: the
-- runtime's is made, the source is another folder outside of it, no function file's name is that of
-- a folder in the two, and no import was made at a later version than the present one.
pub sync-schedule :
    (e : Engine) (source : FilePath) (p : Pool) (name : Text) (b : Bytes) (actions : List Action)
    → source ≢ runtime_functions_path e
    → parent source ≢ runtime_functions_path e
    → IsMade (runtime_functions_path e) p.world.fs
    → IsPlain (runtime_functions_path e) p.world.fs
    → IsPlain source p.world.fs
    → stat source p.world.fs ≡ some folder
    → IsBounded p.world
    → IsFunctionName name
    → find_node (source ++ (name ++ codes ".ts") ∷ []) p.world.fs ≡ some (file b)
    → none_past name p.loads ≡ true
    → (n : ℕ) × (w1 : World) × (sync_runtime_functions_dir e source p.world ≡ (ok n, w1))
      × All
          (λ r. e.evaluate b ≡ r)
          (results_of name (schedule e actions (record p { world = w1 })).loads)
unfolding file_exists
sync-schedule e source p name b actions apart outside made plain files is_folder bound f content
      fresh =
    let (n, w1, done, _) = sync-returns e source p.world apart outside made plain files is_folder in
    let c =
      sync-IsCurrent e source name b p.world {n = n} {w' = w1} apart outside made bound f
        (ground (arith, is_folder)) content done in
    (n, w1, done, schedule-current e name b actions (record p { world = w1 }) c fresh)
