-- ===== src/Functions/Files.antt =====
-- The folder of function files in runtimes/ts/pkg/functions.ts: which names are functions, the
-- copy from the repository, and the list of the functions.
pub mod Names
pub mod Loops
pub mod Mirror
pub mod Plain
pub mod Returns
pub mod Listing
pub mod Segments
use litefunctions.Prelude.{
  ℕ, ◌+◌, Bool, true, false, ◌&&◌, ◌||◌, List, [], ◌∷◌, ◌++◌, if◌then◌else◌, ◌==◌, leb, ltb, all,
  Option, none, some,
}
use litefunctions.Prelude.Exec.{
  Result, ok, err, Exec, pure, throw, lift, gets, modify, ◌>>=◌, ◌>>◌, continue,
}
use litefunctions.Text.{Text, codes, strip_suffix, is_some}
use litefunctions.JsMap.{set_of}
use litefunctions.Conf.{Settings}
use litefunctions.Fs.{
  FilePath, Fs, path_join, file_exists, read_file, write_file, rm_force, readdir, mkdir_recursive,
}
use litefunctions.World.{World, Engine, on_fs}
use litefunctions.Functions.Repo.{runtime_functions_path, repo_functions_path, sync_repo}

-- [A-Za-z0-9_-]
abbrev pub is_word : ℕ → Bool
is_word c =
    leb b'A' c && leb c b'Z'
    || leb b'a' c && leb c b'z'
    || leb b'0' c && leb c b'9'
    || c == b'_'
    || c == b'-'

abbrev pub is_stem : Text → Bool
is_stem [] = false
is_stem (c ∷ s) = all is_word (c ∷ s)

-- `/^[A-Za-z0-9_-]+\.ts$/.test(name)`
unfoldable pub matches_regex : Text → Bool
unfolding strip_suffix
matches_regex name = elim (strip_suffix (codes ".ts") name) [
  | some stem ↦ is_stem stem
  | none ↦ false
]

-- `isFunctionFile`
unfoldable pub is_function_file : Text → Bool
unfolding matches_regex is_some
is_function_file name =
    if matches_regex name
    then (if is_some (strip_suffix (codes ".d.ts") name) then false else true)
    else false

-- `ensureRuntimeDir`
unfoldable pub ensure_runtime_dir : Engine → Exec World (Unit {0})
unfolding mkdir_recursive runtime_functions_path
ensure_runtime_dir e = on_fs (mkdir_recursive (runtime_functions_path e))

-- `clearModuleCache`
unfoldable pub clear_module_cache : World → World
clear_module_cache w = record w { modules = []; module_version = w.module_version + 1 }

-- `for (const entry of await readdir(runtimeRoot)) …`: the function files are removed.
unfoldable pub remove_files : FilePath → List Text → Exec Fs (Unit {0})
unfolding rm_force path_join is_function_file
remove_files root [] = pure tt
remove_files root (entry ∷ entries) =
    let rest = remove_files root entries in
    if is_function_file entry then rm_force (path_join root entry) >> rest else rest

unfoldable pub copy_file : FilePath → FilePath → Text → Exec Fs (Unit {0})
unfolding read_file write_file path_join
copy_file source root entry fs =
    let content = read_file (path_join source entry) fs in
    continue (λ b. write_file (path_join root entry) b) content fs

-- `for (const entry of await readdir(sourceRoot)) …`: the function files are copied, and counted.
unfoldable pub copy_files : FilePath → FilePath → List Text → ℕ → Exec Fs ℕ
unfolding copy_file is_function_file
copy_files source root [] copied = pure copied
copy_files source root (entry ∷ entries) copied =
    let copying = copy_files source root entries (copied + 1) in
    let skipping = copy_files source root entries copied in
    if is_function_file entry then copy_file source root entry >> copying else skipping

unfoldable pub replace_files : FilePath → FilePath → Exec Fs ℕ
unfolding mkdir_recursive readdir remove_files copy_files file_exists
replace_files source root = do
  mkdir_recursive root
  old ← λ fs. (readdir root fs, fs)
  remove_files root old
  there ← gets (file_exists source)
  if there then (do new ← (λ fs. (readdir source fs, fs)); copy_files source root new 0) else pure 0

-- `syncRuntimeFunctionsDir`; the result is the count of copied files, which the code logs.
unfoldable pub sync_runtime_functions_dir : Engine → FilePath → Exec World ℕ
unfolding replace_files runtime_functions_path clear_module_cache
sync_runtime_functions_dir e source = do
  copied ← on_fs (replace_files source (runtime_functions_path e))
  modify clear_module_cache
  pure copied

-- `syncRepoAndReload`
unfoldable pub sync_repo_and_reload : Engine → Settings → Exec World ℕ
unfolding sync_repo sync_runtime_functions_dir repo_functions_path
sync_repo_and_reload e s = do sync_repo e s; sync_runtime_functions_dir e (repo_functions_path s)

-- `path.basename(entry, ".ts")` of a name with no slash
unfoldable pub basename_ts : Text → Text
unfolding strip_suffix
basename_ts entry = elim (strip_suffix (codes ".ts") entry) [ some stem ↦ stem | none ↦ entry ]

unfoldable pub function_names : List Text → List Text
unfolding basename_ts is_function_file
function_names [] = []
function_names (entry ∷ entries) =
    let rest = function_names entries in
    if is_function_file entry then basename_ts entry ∷ rest else rest

-- the order of `sort()`: by code units
unfoldable pub text_le : Text → Text → Bool
text_le [] t = true
text_le (a ∷ s) [] = false
text_le (a ∷ s) (b ∷ t) = if ltb a b then true else if a == b then text_le s t else false

unfoldable pub insert : Text → List Text → List Text
unfolding text_le
insert x [] = x ∷ []
insert x (y ∷ ys) = if text_le x y then x ∷ y ∷ ys else y ∷ insert x ys

-- `names.sort()`
unfoldable pub sort : List Text → List Text
unfolding insert
sort [] = []
sort (x ∷ xs) = insert x (sort xs)

abbrev listed : Engine → Exec World (List Text)
listed e = do
  entries ← on_fs (λ fs. (readdir (runtime_functions_path e) fs, fs))
  pure (sort (set_of (function_names entries)))

-- `listFunctions`
unfoldable pub list_functions : Engine → Exec World (List Text)
unfolding file_exists readdir runtime_functions_path function_names set_of sort
list_functions e = do
  there ← gets (λ (w : World). file_exists (runtime_functions_path e) w.fs)
  if there then listed e else pure []
