-- ===== src/Tests/Reloading.antt =====
-- Reloads, loads and paths on the small runtime.
use litefunctions.Prelude.{
  ℕ, ◌≡◌, ◌≢◌, ◌↔◌, refl, true, ◌&&◌, List, [], ◌∷◌, ◌++◌, none, some, arith, All, if◌then◌else◌,
}
use litefunctions.Prelude.Exec.{ok}
use litefunctions.Text.{Text, codes, text_eq, is_some}
use litefunctions.JsMap.{get, member}
use litefunctions.JsMap.Laws.{IsNodup}
use litefunctions.Fs.{
  FilePath, Fs, folder, file, find_node, stat, parent, path_eq, read_file, file_exists,
}
use litefunctions.Value.{str}
use litefunctions.World.{World, RequestLike}
use litefunctions.Functions.Repo.{runtime_functions_path, repo_functions_path}
use litefunctions.Functions.Files.{
  is_stem, is_function_file, replace_files, sync_runtime_functions_dir, list_functions,
}
use litefunctions.Functions.Files.Names.{IsFunctionName, is_function_file_iff}
use litefunctions.Functions.Files.Mirror.{IsMade}
use litefunctions.Functions.Files.Plain.{IsPlain}
use litefunctions.Functions.Files.Returns.{replace_files-mirrors}
use litefunctions.Functions.Files.Listing.{IsSorted, list_functions-lem}
use litefunctions.Functions.Modules.{imported, call_handle, load_module, invoke_module}
use litefunctions.Functions.Modules.Fresh.{load_all}
use litefunctions.Functions.Modules.Reload.{hot_reload}
use litefunctions.Functions.Modules.Paths.{invoke_module-outside}
use litefunctions.Functions.Modules.Loads.{
  resolving, Action, start, resume, Pool, begin, advance, schedule, results_of, none_past,
}
use litefunctions.Functions.Modules.Loads.Reloaded.{sync-schedule}
use litefunctions.Main.Runs
use litefunctions.Tests.Fixtures.{echo, engine, settings, hi, disk, root-IsPlain, source-IsPlain}

files : Unit {0}
unfolding none_past sync_runtime_functions_dir repo_functions_path list_functions invoke_module
    file_exists read_file member text_eq find_node path_eq get imported schedule begin advance
    parent is_function_file is_some
files = tt

abbrev asked : RequestLike
asked = record { json = ok (str []); text = ok []; bytes = ok []; array_buffer = ok [] }

abbrev from : FilePath
from = repo_functions_path settings

abbrev into : FilePath
into = runtime_functions_path engine

apart : from ≢ into
unfolding files
apart = ground arith

outside : parent from ≢ into
unfolding files
outside = ground arith

hi-IsFunctionName : IsFunctionName (codes "hi")
hi-IsFunctionName = (ground arith, (refl, (refl, tt)))

abbrev before : World
before = Runs.start disk

made : IsMade into disk
unfolding files
made = refl

no_folder_into : IsPlain into disk
unfolding files
no_folder_into = root-IsPlain

no_folder_from : IsPlain from disk
unfolding files
no_folder_from = source-IsPlain

is_folder : stat from disk ≡ some folder
unfolding files
is_folder = refl

brings_hi : find_node (from ++ (codes "hi" ++ codes ".ts") ∷ []) disk ≡ some (file hi)
unfolding files
brings_hi = refl

hot_reload_example :
    (n : ℕ) × (w1 : World) × (sync_runtime_functions_dir engine from before ≡ (ok n, w1))
    × ((invoke_module engine
          (codes "hi")
          asked
          (load_all engine (codes "old" ∷ codes "hi" ∷ []) w1)).0
        ≡ call_handle (codes "hi") asked (engine.evaluate hi))
hot_reload_example =
    hot_reload engine from before apart outside made no_folder_into no_folder_from is_folder
      (codes "hi") hi (codes "old" ∷ codes "hi" ∷ []) asked tt hi-IsFunctionName brings_hi

-- A load of the function waits for its file when the folders are compared.
abbrev under_way : Pool
under_way = record { world = before; loads = (codes "hi", resolving) ∷ [] }

under_way-fresh : none_past (codes "hi") under_way.loads ≡ true
unfolding files
under_way-fresh = refl

abbrev goes_on : List Action
goes_on = start (codes "hi") ∷ resume 0 ∷ resume 1 ∷ resume 0 ∷ resume 1 ∷ resume 0 ∷ []

sync-schedule_example :
    (n : ℕ) × (w1 : World) × (sync_runtime_functions_dir engine from before ≡ (ok n, w1))
    × All
        (λ r. engine.evaluate hi ≡ r)
        (results_of (codes "hi") (schedule engine goes_on (record under_way { world = w1 })).loads)
sync-schedule_example =
    sync-schedule engine from under_way (codes "hi") hi goes_on apart outside made no_folder_into
      no_folder_from is_folder tt hi-IsFunctionName brings_hi under_way-fresh

is_file_hi : is_function_file (codes "hi.ts") ≡ true
unfolding files
is_file_hi = refl

no_file : (b : List ℕ) → stat from disk ≢ some (file b)
unfolding files
no_file b = ground arith

replace_files-mirrors_example :
    (n : ℕ) × (fs2 : Fs) × (replace_files from into disk ≡ (ok n, fs2))
    × (find_node (into ++ codes "hi.ts" ∷ []) fs2
        ≡ (if file_exists from disk then find_node (from ++ codes "hi.ts" ∷ []) disk else none))
replace_files-mirrors_example =
    replace_files-mirrors from into disk apart outside made no_folder_into no_folder_from no_file
      (codes "hi.ts") is_file_hi

into_folder : stat into disk ≡ some folder
unfolding files
into_folder = refl

list_functions-lem_example :
    (names : List Text) × (list_functions engine before ≡ (ok names, before))
    × IsSorted names
    × IsNodup names
    × (member (codes "old") names ≡ (
        is_stem (codes "old")
        && is_some (find_node (into ++ (codes "old" ++ codes ".ts") ∷ []) disk)))
list_functions-lem_example = list_functions-lem engine before (codes "old") into_folder

is_function_file_iff_example :
    (is_function_file (codes "a.d.ts") ≡ true)
    ↔ ((stem : Text) × (codes "a.d.ts" ≡ stem ++ codes ".ts") × IsFunctionName stem)
is_function_file_iff_example = is_function_file_iff (codes "a.d.ts")

loads_old :
    load_module engine (codes "old") before
    ≡ (ok (echo (codes "old")), (load_module engine (codes "old") before).1)
unfolding files
loads_old = refl

-- A file of the runtime itself, in the folder above the functions.
abbrev with_runtime : World
with_runtime = Runs.start ((codes "app" ∷ codes "conf.ts" ∷ [], file (codes "c")) ∷ disk)

not_loaded : get (codes "../" ++ codes "conf") with_runtime.modules ≡ none
unfolding files
not_loaded = refl

not_imported : imported (engine.dir ++ (codes "conf" ++ codes ".ts") ∷ []) 1 [] ≡ none
unfolding files
not_imported = refl

conf_content :
    read_file (engine.dir ++ (codes "conf" ++ codes ".ts") ∷ []) with_runtime.fs ≡ ok (codes "c")
unfolding files
conf_content = refl

conf-IsFunctionName : IsFunctionName (codes "conf")
conf-IsFunctionName = (ground arith, (refl, (refl, (refl, (refl, tt)))))

invoke_module-outside_example :
    (invoke_module engine (codes "../" ++ codes "conf") asked with_runtime).0
    ≡ call_handle (codes "../" ++ codes "conf") asked (engine.evaluate (codes "c"))
invoke_module-outside_example =
    invoke_module-outside engine (codes "conf") (codes "c") asked with_runtime conf-IsFunctionName
      not_loaded not_imported conf_content
