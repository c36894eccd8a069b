-- ===== src/Functions/Modules/Reload.antt =====
-- Which code `invokeModule` (runtimes/ts/pkg/functions.ts) runs after `syncRuntimeFunctionsDir`.
use litefunctions.Prelude.{
  ℕ, ◌+◌, ◌≤◌, ◌≡◌, ◌≢◌, refl, sym, ap, true, List, [], ◌∷◌, ◌++◌, arith, none, some, All,
}
use litefunctions.Prelude.Exec.{Result, ok, err, continue}
use litefunctions.Text.{Text, codes}
use litefunctions.Text.Utf8.{Bytes}
use litefunctions.JsMap.{get}
use litefunctions.Fs.{FilePath, Fs, file, folder, find_node, stat, parent, read_file, file_exists}
use litefunctions.Fs.Laws.{stat-child}
use litefunctions.World.{World, Engine, LoadedModule, RequestLike}
use litefunctions.Functions.Repo.{runtime_functions_path}
use litefunctions.Functions.Files.{replace_files, sync_runtime_functions_dir, clear_module_cache}
use litefunctions.Functions.Files.Names.{
  IsFunctionName, is_function_file_iff, path_join-function_file,
}
use litefunctions.Functions.Files.Mirror.{IsMade, replace_files_mirror}
use litefunctions.Functions.Modules.{function_path, imported, call_handle, invoke_module}
use litefunctions.Functions.Modules.Fresh.{
  IsBounded, IsCurrent, load_module-current, load_all, load_all-IsCurrent,
}
use litefunctions.Functions.Files.Plain.{IsPlain}
use litefunctions.Functions.Files.Returns.{replace_files-returns}

pub imported_above :
    (p : FilePath) (v : ℕ) (l : List ((FilePath × ℕ) × Result LoadedModule))
    → All (λ i. i.0.1 ≤ v) l
    → imported p (v + 1) l ≡ none
unfolding imported
imported_above p v [] h = refl
imported_above p v (((q, u), r) ∷ l) (k, h) = ground (arith, imported_above p v l h)

pub function_path-child :
    (e : Engine) (name : Text)
    → IsFunctionName name
    → function_path e name ≡ runtime_functions_path e ++ (name ++ codes ".ts") ∷ []
unfolding function_path
function_path-child e name f =
    path_join-function_file (runtime_functions_path e) (name ++ codes ".ts")
      ((is_function_file_iff (name ++ codes ".ts")).1 (name, refl, f))

-- The world after a sync that returned: new files, an empty cache and the next version.
pub sync-ok :
    (e : Engine) (source : FilePath) (w : World) {n : ℕ} {w' : World}
    → sync_runtime_functions_dir e source w ≡ (ok n, w')
    → (fs : Fs) × (replace_files source (runtime_functions_path e) w.fs ≡ (ok n, fs))
      × (w' ≡ clear_module_cache (record w { fs = fs }))
unfolding sync_runtime_functions_dir
sync-ok e source w {n} {w'} h =
    sync_split (replace_files source (runtime_functions_path e) w.fs) refl h
  where
    sync_split :
        (p : Result ℕ × Fs)
        → replace_files source (runtime_functions_path e) w.fs ≡ p
        → continue (λ copied w1. (ok copied, clear_module_cache w1)) p.0 (record w { fs = p.1 })
          ≡ (ok n, w')
        → (fs : Fs) × (replace_files source (runtime_functions_path e) w.fs ≡ (ok n, fs))
          × (w' ≡ clear_module_cache (record w { fs = fs }))
    sync_split (ok m, fs) q k =
        let count : m ≡ n = cc k in (fs, rw (← count) q, ap (λ (r : Result ℕ × World). r.1) (sym k))
    sync_split (err x, fs) q k = cc

pub sync-IsCurrent :
    (e : Engine) (source : FilePath) (name : Text) (b : Bytes) (w : World) {n : ℕ} {w' : World}
    → source ≢ runtime_functions_path e
    → parent source ≢ runtime_functions_path e
    → IsMade (runtime_functions_path e) w.fs
    → IsBounded w
    → IsFunctionName name
    → file_exists source w.fs ≡ true
    → find_node (source ++ (name ++ codes ".ts") ∷ []) w.fs ≡ some (file b)
    → sync_runtime_functions_dir e source w ≡ (ok n, w')
    → IsCurrent e name b w'
unfolding clear_module_cache read_file get
sync-IsCurrent e source name b w {n} {w'} apart outside made bound f there content h =
    let (fs, done, now) = sync-ok e source w {n = n} {w' = w'} h in
    let root = runtime_functions_path e in
    let full = name ++ codes ".ts" in
    let mirror =
      replace_files_mirror source root w.fs {n = n} {fs' = fs} full apart outside made
        ((is_function_file_iff full).1 (name, refl, f)) done in
    rw now (record {
      content =
          rw (function_path-child e name f)
            (ground (arith, stat-child root full fs, mirror, there, content));
      cached = λ m hit. cc;
      registered =
          λ r hit. cc (imported_above (function_path e name) w.module_version w.imports bound);
    })

module _ (e : Engine) (source : FilePath) (w : World) (apart : source ≢ runtime_functions_path e)
    (outside : parent source ≢ runtime_functions_path e)
    (made : IsMade (runtime_functions_path e) w.fs)
    (plain : IsPlain (runtime_functions_path e) w.fs) (files : IsPlain source w.fs)
    (is_folder : stat source w.fs ≡ some folder) where
  -- The sync returns, and the runtime's folder is there after it.
  pub sync-returns :
      (n : ℕ) × (w1 : World) × (sync_runtime_functions_dir e source w ≡ (ok n, w1))
      × (stat (runtime_functions_path e) w1.fs ≡ some folder)
  unfolding sync_runtime_functions_dir clear_module_cache
  sync-returns =
      let (n, fs1, done, after) =
        replace_files-returns source (runtime_functions_path e) w.fs apart outside made plain files
          (λ b h. cc (h, is_folder)) in
      (n, clear_module_cache (record w { fs = fs1 }), rw done refl, after)

  -- Hot reload. The sync of the files returns, and then each function of the source runs the code
  -- that the source held, whatever was cached before and whatever is loaded in between: the
  -- invocation calls what that code evaluates to. The runtime's folder is made, and the source is
  -- another folder outside of it; no function file's name is that of a folder in the two; no import
  -- was made at a later version than the present one.
  pub hot_reload :
      (name : Text) (b : Bytes) (ns : List Text) (req : RequestLike)
      → IsBounded w
      → IsFunctionName name
      → find_node (source ++ (name ++ codes ".ts") ∷ []) w.fs ≡ some (file b)
      → (n : ℕ) × (w1 : World) × (sync_runtime_functions_dir e source w ≡ (ok n, w1))
        × ((invoke_module e name req (load_all e ns w1)).0 ≡ call_handle name req (e.evaluate b))
  unfolding invoke_module file_exists
  hot_reload name b ns req bound f content =
      let (n, w1, done, _) = sync-returns in
      let c =
        sync-IsCurrent e source name b w {n = n} {w' = w1} apart outside made bound f
          (ground (arith, is_folder)) content done in
      (
        n,
        w1,
        done,
        ap (call_handle name req)
            (load_module-current e name b (load_all e ns w1) (load_all-IsCurrent e ns name b w1 c)),
      )

pub All-step :
    (v : ℕ) (l : List ((FilePath × ℕ) × Result LoadedModule))
    → All (λ i. i.0.1 ≤ v) l
    → All (λ i. i.0.1 ≤ v + 1) l
All-step v [] h = tt
All-step v (i ∷ l) (p, h) = (omega arith, All-step v l h)

-- A sync keeps every import at a version up to the present one.
pub sync-IsBounded :
    (e : Engine) (source : FilePath) (w : World) {n : ℕ} {w' : World}
    → IsBounded w
    → sync_runtime_functions_dir e source w ≡ (ok n, w')
    → IsBounded w'
unfolding clear_module_cache
sync-IsBounded e source w {n} {w'} h s =
    let (fs, done, now) = sync-ok e source w {n = n} {w' = w'} s in
    rw now (All-step w.module_version w.imports h)
