-- ===== src/Functions/Modules/Loads/Stale.antt =====
-- A load that a reload overtakes.
use litefunctions.Prelude.{ℕ, ◌≡◌, ap, ◌∙◌, arith, none, some, true, sym, ◌≢◌, [], ◌∷◌, ◌++◌}
use litefunctions.Prelude.Exec.{ok}
use litefunctions.Text.{Text, codes}
use litefunctions.Text.Equality.{text_eq_iff}
use litefunctions.Text.Utf8.{Bytes}
use litefunctions.JsMap.{get}
use litefunctions.JsMap.Laws.{get-set}
use litefunctions.Fs.{FilePath, file, find_node, parent, file_exists, read_file}
use litefunctions.World.{World, Engine, LoadedModule, RequestLike}
use litefunctions.Functions.Files.{sync_runtime_functions_dir}
use litefunctions.Functions.Modules.{
  function_path, imported, import_module, load_module, call_handle, invoke_module, cache_module,
}
use litefunctions.Functions.Modules.Fresh.{IsBounded, read_file-exists, load_module-current}
use litefunctions.Functions.Modules.Reload.{sync-IsCurrent}
use litefunctions.Functions.Repo.{runtime_functions_path}
use litefunctions.Functions.Files.Names.{IsFunctionName}
use litefunctions.Functions.Files.Mirror.{IsMade}
use litefunctions.Functions.Modules.Loads.{Load, committing, begin, advance}
use litefunctions.Functions.Modules.Loads.Whole.{go_on}

module _ (e : Engine) (name : Text) (w : World) where
  -- Two segments take a load of a name that is not cached past its import.
  two_segments :
      {b : Bytes} {m : LoadedModule}
      → get name w.modules ≡ none
      → imported (function_path e name) w.module_version w.imports ≡ none
      → read_file (function_path e name) w.fs ≡ ok b
      → e.evaluate b ≡ ok m
      → (go_on e name (go_on e name (begin name w, w))).0 ≡ committing m
  unfolding begin advance import_module
  two_segments {b} absent fresh content code =
      ground (arith, read_file-exists (function_path e name) w.fs {b = b} content)

  commit_hit :
      (m : LoadedModule) (req : RequestLike)
      → (invoke_module e name req (cache_module name m w)).0 ≡ call_handle name req (ok m)
  unfolding invoke_module load_module cache_module
  commit_hit m req = ground (arith, get-set name name m w.modules, text_eq_iff name name)

-- A reload does not reach a load that is past its import. A load of a name has imported the old code
-- when the files are replaced: right after the reload an invocation would run the new code, but when
-- the load goes on, it puts the old module into the cache that the reload has emptied, and the next
-- invocation runs the old module. The reload is one that brings the new code in: the runtime's folder
-- is made, and the source is another folder outside of it that holds a file for the name.
pub overtaken_load :
    (e : Engine) (name : Text) (w : World) (source : FilePath) (req : RequestLike) {l : Load}
    {w1 w2 : World} {b new : Bytes} {m : LoadedModule} {n : ℕ}
    → get name w.modules ≡ none
    → imported (function_path e name) w.module_version w.imports ≡ none
    → read_file (function_path e name) w.fs ≡ ok b
    → e.evaluate b ≡ ok m
    → go_on e name (go_on e name (begin name w, w)) ≡ (l, w1)
    → source ≢ runtime_functions_path e
    → parent source ≢ runtime_functions_path e
    → IsMade (runtime_functions_path e) w1.fs
    → IsBounded w1
    → IsFunctionName name
    → file_exists source w1.fs ≡ true
    → find_node (source ++ (name ++ codes ".ts") ∷ []) w1.fs ≡ some (file new)
    → sync_runtime_functions_dir e source w1 ≡ (ok n, w2)
    → ((invoke_module e name req w2).0 ≡ call_handle name req (e.evaluate new))
      × ((invoke_module e name req (advance e name l w2).1).0 ≡ call_handle name req (ok m))
unfolding advance
overtaken_load e name w source req {l} {w1} {w2} {b} {new} {m} {n} absent fresh content code waits
      apart outside made bound f there brought synced =
    let c =
      sync-IsCurrent e source name new w1 {n = n} {w' = w2} apart outside made bound f there brought
        synced in
    (
      unfold invoke_module in ap (call_handle name req) (load_module-current e name new w2 c),
      ap (λ k. (invoke_module e name req (advance e name k w2).1).0)
            (sym (ap (λ (p : Load × World). p.0) waits)
              ∙ two_segments e name w {b = b} absent fresh content code)
          ∙ commit_hit e name w2 m req,
    )
