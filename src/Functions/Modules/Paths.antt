-- ===== src/Functions/Modules/Paths.antt =====
-- Where `resolveFunctionFile` (runtimes/ts/pkg/functions.ts) looks for a function: the name is put into
-- the path as it is.
use litefunctions.Prelude.{◌≡◌, ap, ◌∙◌, [], ◌∷◌, ◌++◌, none}
use litefunctions.Prelude.Exec.{ok}
use litefunctions.Text.{Text, codes, text_eq, split}
use litefunctions.Text.Utf8.{Bytes}
use litefunctions.JsMap.{get}
use litefunctions.Fs.{path_join, resolve, resolve_all, read_file}
use litefunctions.Fs.Laws.{parent-child}
use litefunctions.World.{World, Engine, RequestLike}
use litefunctions.Functions.Repo.{runtime_functions_path}
use litefunctions.Functions.Files.Names.{
  IsFunctionName, is_function_file_of_stem, path_join-function_file,
}
use litefunctions.Functions.Modules.{function_path, imported, call_handle, invoke_module}
use litefunctions.Functions.Modules.Fresh.{IsCurrent, load_module-current}

-- A name that begins with "../" leads out of the folder of functions: the rest of the name is looked
-- up in the folder above it, and may lead further up.
pub function_path-parent :
    (e : Engine) (rest : Text)
    → function_path e (codes "../" ++ rest) ≡ path_join e.dir (rest ++ codes ".ts")
unfolding function_path runtime_functions_path path_join resolve text_eq split
function_path-parent e rest =
    ap (λ p. resolve_all p (split b'/' (rest ++ codes ".ts")))
      (parent-child e.dir (codes "functions"))

outside-IsCurrent :
    (e : Engine) (stem : Text) (b : Bytes) (w : World)
    → IsFunctionName stem
    → get (codes "../" ++ stem) w.modules ≡ none
    → imported (e.dir ++ (stem ++ codes ".ts") ∷ []) w.module_version w.imports ≡ none
    → read_file (e.dir ++ (stem ++ codes ".ts") ∷ []) w.fs ≡ ok b
    → IsCurrent e (codes "../" ++ stem) b w
outside-IsCurrent e stem b w f absent fresh content = record {
  content = ap (λ p. read_file p w.fs) path ∙ content;
  cached = λ m hit. cc (absent, hit);
  registered = λ r hit. cc (path, hit, fresh);
}
  where
    path : function_path e (codes "../" ++ stem) ≡ e.dir ++ (stem ++ codes ".ts") ∷ []
    path =
        function_path-parent e stem
        ∙ path_join-function_file e.dir (stem ++ codes ".ts") (is_function_file_of_stem stem f)

-- A name is not checked when it is called: a call of `../` and a stem, of a module that is neither
-- loaded nor imported at the present version, runs the file of that stem in the folder above the
-- functions, where the runtime's own code is.
pub invoke_module-outside :
    (e : Engine) (stem : Text) (b : Bytes) (req : RequestLike) (w : World)
    → IsFunctionName stem
    → get (codes "../" ++ stem) w.modules ≡ none
    → imported (e.dir ++ (stem ++ codes ".ts") ∷ []) w.module_version w.imports ≡ none
    → read_file (e.dir ++ (stem ++ codes ".ts") ∷ []) w.fs ≡ ok b
    → (invoke_module e (codes "../" ++ stem) req w).0
      ≡ call_handle (codes "../" ++ stem) req (e.evaluate b)
unfolding invoke_module
invoke_module-outside e stem b req w f absent fresh content =
    ap (call_handle (codes "../" ++ stem) req) (
      load_module-current e (codes "../" ++ stem) b w
        (outside-IsCurrent e stem b w f absent fresh content))
