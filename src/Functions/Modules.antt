-- ===== src/Functions/Modules.antt =====
-- `loadModule` and `invokeModule` of runtimes/ts/pkg/functions.ts: the cache of loaded modules, the
-- import, and the call of a user's `handle`.
pub mod Fresh
pub mod Keeps
pub mod Reload
pub mod Loads
pub mod Cached
pub mod Paths
use litefunctions.Prelude.{
  ℕ, zero, suc, ◌+◌, Bool, true, false, ◌&&◌, List, [], ◌∷◌, ◌++◌, if◌then◌else◌, ◌==◌, Option,
  none, some,
}
use litefunctions.Prelude.Exec.{
  Result, ok, err, Exec, pure, throw, lift, gets, modify, ◌>>=◌, ◌>>◌, continue,
}
use litefunctions.Text.{Text, codes}
use litefunctions.Text.Utf8.{Bytes}
use litefunctions.JsMap.{JsMap, get, set}
use litefunctions.Fs.{FilePath, Fs, path_eq, path_join, path_text, file_exists, read_file}
use litefunctions.Value.{View, view_bytes, slice, Json, obj, end, Value, failed}
use litefunctions.Value.Emit.{Emission, fails, emit}
use litefunctions.World.{World, Engine, LoadedModule, RequestLike}
use litefunctions.Functions.Repo.{runtime_functions_path}

-- `path.join(runtimeFunctionsPath(), name + ".ts")`
unfoldable pub function_path : Engine → Text → FilePath
unfolding path_join runtime_functions_path
function_path e name = path_join (runtime_functions_path e) (name ++ codes ".ts")

abbrev pub not_found : Engine → Text → Text
not_found e name =
    codes "Error: function '"
    ++ (name ++ (codes "' not found in " ++ path_text (runtime_functions_path e)))

-- `resolveFunctionFile`
unfoldable pub resolve_function_file : Engine → Text → Exec World FilePath
unfolding function_path file_exists path_text runtime_functions_path
resolve_function_file e name w =
    if file_exists (function_path e name) w.fs
    then (ok (function_path e name), w)
    else (err (not_found e name), w)

unfoldable pub imported :
    FilePath → ℕ → List ((FilePath × ℕ) × Result LoadedModule) → Option (Result LoadedModule)
unfolding path_eq
imported p v [] = none
imported p v (((q, u), r) ∷ l) = if path_eq q p && u == v then some r else imported p v l

abbrev record_import : FilePath → ℕ → Result LoadedModule → Exec World LoadedModule
record_import p v r w = (r, record w { imports = ((p, v), r) ∷ w.imports })

abbrev import_new : Engine → FilePath → ℕ → Result Bytes → Exec World LoadedModule
import_new e p v (err x) w = (err x, w)
import_new e p v (ok b) w = record_import p v (e.evaluate b) w

-- `import(url + "?v=" + moduleVersion)`: an engine evaluates one URL once, and gives the first
-- outcome again for the same URL.
unfoldable pub import_module : Engine → FilePath → ℕ → Exec World LoadedModule
unfolding imported read_file
import_module e p v w = elim (imported p v w.imports) [
  | some r ↦ (r, w)
  | none ↦ import_new e p v (read_file p w.fs) w
]

-- `modules.set(name, mod)`
unfoldable pub cache_module : Text → LoadedModule → World → World
unfolding set
cache_module name m w = record w { modules = set name m w.modules }

unfoldable pub load_new : Engine → Text → Exec World LoadedModule
unfolding resolve_function_file import_module cache_module
load_new e name = do
  p ← resolve_function_file e name
  version ← gets (λ (w : World). w.module_version)
  m ← import_module e p version
  modify (cache_module name m)
  pure m

-- `loadModule`
unfoldable pub load_module : Engine → Text → Exec World LoadedModule
unfolding get load_new
load_module e name w = elim (get name w.modules) [ some m ↦ (ok m, w) | none ↦ load_new e name w ]

-- `toRequestLike`
unfoldable pub to_request_like : Engine → View → RequestLike
to_request_like e payload = record {
  json =
      if payload.byte_length == 0
      then ok (obj end)
      else e.parse_json (e.decode (view_bytes payload));
  text = ok (e.decode (view_bytes payload));
  bytes = ok (view_bytes payload);
  array_buffer =
      ok (slice payload.byte_offset (payload.byte_offset + payload.byte_length) payload.buffer);
}

abbrev pub no_handle : Text → Text
no_handle name = codes "Error: module '" ++ (name ++ codes "' does not export handle(req)")

abbrev pub emit_result : Result Value → Emission
emit_result (ok v) = emit v
emit_result (err x) = fails x

abbrev pub call_handle : Text → RequestLike → Result LoadedModule → Emission
call_handle name req (err x) = fails x
call_handle name req (ok m) = elim m.handle [
  | none ↦ fails (no_handle name)
  | some f ↦ emit_result (f req)
]

-- `invokeModule`, run to its end: what it yields, and how it ends
unfoldable pub invoke_module : Engine → Text → RequestLike → World → Emission × World
unfolding load_module emit
invoke_module e name req w = let (r, w') = load_module e name w in (call_handle name req r, w')
