-- ===== src/Main/Window.antt =====
-- Requests (`handleSyncRequest` of runtimes/ts/main.ts) that come in while `syncRuntimeFunctionsDir`
-- (runtimes/ts/pkg/functions.ts) is between the removal of the old files and the copies.
use litefunctions.Prelude.{
  ◌≡◌, ◌≢◌, refl, sym, ap, List, [], ◌∷◌, ◌++◌, arith, none, some, false, ◌∙◌,
}
use litefunctions.Prelude.Exec.{ok}
use litefunctions.Text.{Text, codes}
use litefunctions.Text.Equality.{text_eq_refl}
use litefunctions.Text.Utf8.{Bytes}
use litefunctions.Conf.{Settings}
use litefunctions.JsMap.{get}
use litefunctions.Fs.{FilePath, file, stat, find_node, file_exists, rm_force}
use litefunctions.Fs.Laws.{stat-child, path_eq-child, path_eq_other}
use litefunctions.Value.{View}
use litefunctions.World.{World, Engine, Client}
use litefunctions.Functions.Repo.{runtime_functions_path}
use litefunctions.Functions.Files.Names.{
  IsFunctionName, is_function_file_iff, path_join-function_file,
}
use litefunctions.Functions.Files.Loops.{find_node-rm_force}
use litefunctions.Functions.Files.Segments.{removing, segment}
use litefunctions.Functions.Modules.Reload.{function_path-child}
use litefunctions.Functions.Modules.{function_path, invoke_module}
use litefunctions.Functions.Modules.Keeps.{load_module-IsKept}
use litefunctions.Consumer.{publish_all, receive}
use litefunctions.Main.{
  Request, Server, readable, requested_name, text_response, handle_sync_request,
}
use litefunctions.Main.Answers.{handle_sync_request-missing, load_module-missing}

module _ (e : Engine) (source : FilePath) (name : Text) (old : List Text) (w : World)
    (f : IsFunctionName name) {b : Bytes}
    (there : find_node (runtime_functions_path e ++ (name ++ codes ".ts") ∷ []) w.fs
      ≡ some (file b)) where
  abbrev full : Text
  full = name ++ codes ".ts"

  abbrev after : World
  after = (segment e source (removing (full ∷ old)) w).1

  removed : rm_force (runtime_functions_path e ++ full ∷ []) w.fs ≡ (ok tt, after.fs)
  unfolding segment rm_force
  removed =
      let root = runtime_functions_path e in
      let own = (is_function_file_iff full).1 (name, refl, f) in
      let same = path_join-function_file root full own in
      let found : stat (root ++ full ∷ []) w.fs ≡ some (file b) =
        stat-child root full w.fs ∙ there in
      rw own (rw same (rw found refl))

  kept_modules : after.modules ≡ w.modules
  unfolding segment
  kept_modules = refl

  missing : file_exists (function_path e name) after.fs ≡ false
  unfolding file_exists
  missing =
      let root = runtime_functions_path e in
      rw (function_path-child e name f) (
        ground (
          arith,
          stat-child root full after.fs,
          find_node-rm_force root full w.fs {fs' = after.fs} (root ++ full ∷ []) removed,
          path_eq-child root full full,
          text_eq_refl full,
        ))

  -- Reading the function's file in vain publishes nothing.
  receive-missing :
      (s : Settings) (subject : Text) (payload : View)
      → get name w.modules ≡ none
      → (receive e s name subject payload after).client.published ≡ w.client.published
  unfolding receive invoke_module publish_all segment
  receive-missing s subject payload fresh =
      let calls = load_module-missing e name after (rw kept_modules fresh) missing in
      let kept = (load_module-IsKept e name after).client in
      rw calls (ap (λ (c : Client). c.published) kept)

  -- In a reload there is a point at which a function cannot be found, though the old and the new
  -- version both have it. The runtime's folder holds a function's file, the source holds one for it
  -- too, and the function is not in the cache. Right behind the segment of the sync that removes the
  -- file from the runtime's folder, a synchronous request for the function is answered with 404 and a
  -- text that says that it was not found, a message for it is taken with nothing published, and the
  -- source holds its file as before. The function's name is proper, the two folders lie apart, and the
  -- body of the request arrives.
  pub removing-missing :
      (v : Server) (s : Settings) (req : Request) (subject : Text) (payload : View)
      {raw new : Bytes}
      → readable v req ≡ ok raw
      → requested_name s req ≡ name
      → get name w.modules ≡ none
      → source ≢ runtime_functions_path e
      → find_node (source ++ full ∷ []) w.fs ≡ some (file new)
      → ((handle_sync_request e v s req after).0
          ≡ ok (text_response 404 (codes "function '" ++ (name ++ codes "' not found"))))
        × ((receive e s name subject payload after).client.published ≡ w.client.published)
        × (find_node (source ++ full ∷ []) after.fs ≡ some (file new))
  removing-missing v s req subject payload got named fresh apart brought =
      let root = runtime_functions_path e in
      (
        handle_sync_request-missing e v s req after name got named f.0 (rw kept_modules fresh)
            missing,
        receive-missing s subject payload fresh,
        ground (
          arith,
          find_node-rm_force root full w.fs {fs' = after.fs} (source ++ full ∷ []) removed,
          path_eq_other root source full full (λ h. apart (sym h)),
          brought,
        ),
      )
