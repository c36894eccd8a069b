-- ===== src/Tests/Starting.antt =====
-- The start of the runtime, a deployment and the steps after it, on the small runtime.
use litefunctions.Prelude.{
  ℕ, ◌≡◌, ◌≢◌, refl, true, false, ◌&&◌, List, [], ◌∷◌, ◌++◌, some, arith, Mem,
}
use litefunctions.Prelude.Exec.{ok}
use litefunctions.Text.{codes, text_eq, includes, to_lower_case, is_some}
use litefunctions.JsMap.{get, has, member}
use litefunctions.Fs.{folder, find_node, stat, parent}
use litefunctions.World.{World, Subscription, exec, hook}
use litefunctions.Functions.Repo.{runtime_functions_path, repo_functions_path, sync_repo}
use litefunctions.Functions.Files.{
  is_stem, ensure_runtime_dir, sync_repo_and_reload, list_functions,
}
use litefunctions.Functions.Files.Mirror.{IsMade}
use litefunctions.Functions.Files.Plain.{IsPlain}
use litefunctions.Consumer.{
  exec_subject, hook_subject, reconcile_consumers, watch_ts_hook, receive, refresh,
}
use litefunctions.Consumer.Consistent.{IsConsistent}
use litefunctions.Consumer.Deploy.{refresh-deploys}
use litefunctions.Consumer.Reconcile.{get-reconcile_consumers}
use litefunctions.State.{stream_subject, app_state_new}
use litefunctions.State.Streams.{is_there}
use litefunctions.Main.{main}
use litefunctions.Main.Runs.{start, done, next, hook_message, main-Steps, start-IsConsistent}
use litefunctions.Main.Refines.{NamesStep, functions_in, consumer_names, main-NamesStep}
use litefunctions.Main.Starts.{main-starts}
use litefunctions.Tests.Fixtures.{
  engine, settings, server, broker, disk, root-IsPlain, source-IsPlain,
}

runtime : Unit {0}
unfolding main app_state_new ensure_runtime_dir sync_repo_and_reload reconcile_consumers
    list_functions watch_ts_hook refresh receive to_lower_case includes has member text_eq
runtime = tt

-- The world after the start.
abbrev pub up : World
up = (main engine server broker settings (start disk)).1

pub boots : main engine server broker settings (start disk) ≡ (ok tt, up)
unfolding runtime
boots = refl

after_start : (has (codes "hi") up.consumers ≡ true) × (has (codes "old") up.consumers ≡ false)
unfolding runtime
after_start = (refl, refl)

main-Steps_example : IsConsistent settings (refresh engine settings up)
main-Steps_example =
    main-Steps engine server broker settings disk {w = up} {u = refresh engine settings up} boots
      (next (done up) (hook_message up))

main-NamesStep_example :
    NamesStep
      (functions_in engine (refresh engine settings up).fs)
      (consumer_names up)
      (consumer_names (refresh engine settings up))
main-NamesStep_example =
    main-NamesStep engine server broker settings disk {w = up} {u = up} boots (done up)
      (hook_message up)

pub apart : repo_functions_path settings ≢ runtime_functions_path engine
unfolding runtime
apart = ground arith

pub outside : parent (repo_functions_path settings) ≢ runtime_functions_path engine
unfolding runtime parent
outside = ground arith

pub made : IsMade (runtime_functions_path engine) disk
unfolding runtime
made = refl

folder_made : ensure_runtime_dir engine (start disk) ≡ (ok tt, start disk)
unfolding runtime
folder_made = refl

pub pulled : sync_repo engine settings (start disk) ≡ (ok tt, start disk)
unfolding runtime
pulled = refl

pub is_folder : stat (repo_functions_path settings) disk ≡ some folder
unfolding runtime
is_folder = refl

pub no_folder_in_root : IsPlain (runtime_functions_path engine) disk
unfolding runtime
no_folder_in_root = root-IsPlain

pub no_folder_in_source : IsPlain (repo_functions_path settings) disk
unfolding runtime
no_folder_in_source = source-IsPlain

name_in_use : is_there (broker.add_stream settings.project (stream_subject settings ∷ [])) ≡ true
unfolding runtime
name_in_use = refl

main-starts_example :
    (u : World) × (main engine server broker settings (start disk) ≡ (ok tt, u))
    × (has (codes "hi") u.consumers ≡ (
        is_stem (codes "hi")
        && is_some
            (find_node (repo_functions_path settings ++ (codes "hi" ++ codes ".ts") ∷ []) disk)))
    × IsConsistent settings u
    × ((subs : List Subscription) × (sid : ℕ) × (u.client.open_subs
          ≡ subs ++ record { sid = sid; subject = hook_subject settings; task = hook } ∷ []))
main-starts_example =
    main-starts engine server broker settings disk (codes "hi") {w1 = start disk} {w2 = start disk}
      folder_made refl refl name_in_use pulled apart outside made no_folder_in_root
      no_folder_in_source is_folder refl

refresh-deploys_example :
    (has (codes "hi") (refresh engine settings (start disk)).consumers ≡ (
      is_stem (codes "hi")
      && is_some
          (find_node (repo_functions_path settings ++ (codes "hi" ++ codes ".ts") ∷ []) disk)))
    × IsConsistent settings (refresh engine settings (start disk))
refresh-deploys_example =
    refresh-deploys engine settings (start disk) (codes "hi") {w1 = start disk} pulled apart outside
      made no_folder_in_root no_folder_in_source is_folder (start-IsConsistent settings disk)

listed_hi : (list_functions engine up).0 ≡ ok (codes "hi" ∷ [])
unfolding runtime
listed_hi = refl

up-IsConsistent : IsConsistent settings up
up-IsConsistent = main-Steps engine server broker settings disk {w = up} {u = up} boots (done up)

had_one : get (codes "hi") up.consumers ≡ some 0
unfolding runtime get
had_one = refl

still_listed : member (codes "hi") (codes "hi" ∷ []) ≡ true
unfolding runtime
still_listed = refl

get-reconcile_consumers_example :
    let after = (reconcile_consumers engine settings up).1 in
    let sub : Subscription = record {
      sid = 0;
      subject = exec_subject settings (codes "hi");
      task = exec (codes "hi");
    } in
    (get (codes "hi") after.consumers ≡ some 0)
    × Mem sub up.client.open_subs
    × Mem sub after.client.open_subs
get-reconcile_consumers_example =
    get-reconcile_consumers engine settings up (codes "hi" ∷ []) listed_hi up-IsConsistent
      (codes "hi") {sid = 0} had_one still_listed
