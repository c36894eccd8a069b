-- ===== src/Tests/Loading.antt =====
-- Concurrent loads on the small runtime.
use litefunctions.Prelude.{◌≡◌, ◌≢◌, refl, true, List, [], ◌∷◌, ◌++◌, none, some, arith}
use litefunctions.Prelude.Exec.{ok}
use litefunctions.Text.{codes, text_eq}
use litefunctions.JsMap.{get}
use litefunctions.Fs.{FilePath, file, find_node, parent, path_eq, read_file, file_exists}
use litefunctions.Value.{str}
use litefunctions.World.{World, RequestLike}
use litefunctions.Functions.Repo.{runtime_functions_path, repo_functions_path}
use litefunctions.Functions.Files.{sync_runtime_functions_dir}
use litefunctions.Functions.Files.Names.{IsFunctionName}
use litefunctions.Functions.Files.Mirror.{IsMade}
use litefunctions.Functions.Modules.{
  function_path, imported, call_handle, load_module, invoke_module,
}
use litefunctions.Functions.Modules.Fresh.{IsBounded, IsCurrent}
use litefunctions.Functions.Modules.Loads.{
  resolving, committing, Action, Pool, start, resume, begin, advance, schedule, results_of,
  none_past,
}
use litefunctions.Functions.Modules.Loads.Whole.{go_on}
use litefunctions.Functions.Modules.Loads.Stale.{overtaken_load}
use litefunctions.Main.Runs
use litefunctions.Tests.Fixtures.{echo, engine, settings, root, hi, disk}

loading : Unit {0}
unfolding results_of none_past sync_runtime_functions_dir repo_functions_path invoke_module
    file_exists read_file text_eq find_node path_eq get imported schedule begin advance parent
    load_module
loading = tt

abbrev asked : RequestLike
asked = record { json = ok (str []); text = ok []; bytes = ok []; array_buffer = ok [] }

-- The folder of functions holds an older `hi.ts`.
abbrev pub before : World
before = Runs.start ((root ++ codes "hi.ts" ∷ [], file (codes "older")) ∷ disk)

pub hi-IsCurrent : IsCurrent engine (codes "hi") (codes "older") before
unfolding loading
hi-IsCurrent = record { content = refl; cached = λ m hit. cc; registered = λ r hit. cc }

-- Loads of one function and one of another, interleaved.
abbrev interleaved : List Action
interleaved =
    start (codes "hi")
    ∷ start (codes "old")
    ∷ resume 0
    ∷ resume 1
    ∷ resume 0
    ∷ start (codes "hi")
    ∷ resume 2
    ∷ resume 1
    ∷ resume 0
    ∷ resume 1
    ∷ resume 3
    ∷ resume 2
    ∷ []

-- One load was begun before and waits for its file.
abbrev under_way : Pool
under_way = record { world = before; loads = (codes "hi", resolving) ∷ [] }

under_way-fresh : none_past (codes "hi") under_way.loads ≡ true
unfolding loading
under_way-fresh = refl

-- Two of the three loads of the function have ended, and gave the older code.
two_end :
    results_of (codes "hi") (schedule engine interleaved under_way).loads
    ≡ ok (echo (codes "older")) ∷ ok (echo (codes "older")) ∷ []
unfolding loading
two_end = refl

abbrev pub from : FilePath
from = repo_functions_path settings

abbrev pub into : FilePath
into = runtime_functions_path engine

-- The world in which the load of the older file waits behind its import.
abbrev waiting : World
waiting =
    (go_on engine (codes "hi") (go_on engine (codes "hi") (begin (codes "hi") before, before))).1

waits :
    go_on engine (codes "hi") (go_on engine (codes "hi") (begin (codes "hi") before, before))
    ≡ (committing (echo (codes "older")), waiting)
unfolding loading
waits = refl

absent : get (codes "hi") before.modules ≡ none
unfolding loading
absent = refl

fresh : imported (function_path engine (codes "hi")) before.module_version before.imports ≡ none
unfolding loading
fresh = refl

content : read_file (function_path engine (codes "hi")) before.fs ≡ ok (codes "older")
unfolding loading
content = refl

pub apart : from ≢ into
unfolding loading
apart = ground arith

pub outside : parent from ≢ into
unfolding loading
outside = ground arith

made : IsMade into waiting.fs
unfolding loading
made = refl

bounded : IsBounded waiting
unfolding loading
bounded = omega arith

pub hi-IsFunctionName : IsFunctionName (codes "hi")
hi-IsFunctionName = (ground arith, (refl, (refl, tt)))

pub there : file_exists from waiting.fs ≡ true
unfolding loading
there = refl

brought : find_node (from ++ (codes "hi" ++ codes ".ts") ∷ []) waiting.fs ≡ some (file hi)
unfolding loading
brought = refl

abbrev reloaded : World
reloaded = (sync_runtime_functions_dir engine from waiting).1

reloads : sync_runtime_functions_dir engine from waiting ≡ (ok 1, reloaded)
unfolding loading
reloads = refl

overtaken_load_example :
    ((invoke_module engine (codes "hi") asked reloaded).0
      ≡ call_handle (codes "hi") asked (engine.evaluate hi))
    × ((invoke_module engine
          (codes "hi")
          asked
          (advance engine (codes "hi") (committing (echo (codes "older"))) reloaded).1).0
        ≡ call_handle (codes "hi") asked (ok (echo (codes "older"))))
overtaken_load_example =
    overtaken_load engine (codes "hi") before from asked {l = committing (echo (codes "older"))}
      {w1 = waiting} {w2 = reloaded} {b = codes "older"} {new = hi} {m = echo (codes "older")}
      {n = 1} absent fresh content refl waits apart outside made bounded hi-IsFunctionName there
      brought reloads
