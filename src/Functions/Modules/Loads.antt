-- ===== src/Functions/Modules/Loads.antt =====
-- Concurrent calls of `loadModule` (runtimes/ts/pkg/functions.ts): a load waits at each `await`, and
-- other loads, or a reload of the files, run meanwhile.
pub mod Whole
pub mod Interleaved
pub mod Stale
pub mod Reloaded
use litefunctions.Prelude.{
  ℕ, zero, suc, List, [], ◌∷◌, ◌++◌, Bool, true, false, ◌&&◌, Option, none, some, if◌then◌else◌,
  get_elem?,
}
use litefunctions.Prelude.Exec.{Result, ok, err}
use litefunctions.Text.{Text, text_eq}
use litefunctions.JsMap.{get}
use litefunctions.Fs.{FilePath, file_exists}
use litefunctions.World.{World, Engine, LoadedModule}
use litefunctions.Functions.Modules.{function_path, not_found, import_module, cache_module}

-- Where a call of `loadModule` waits: at the `await` of `resolveFunctionFile`, at that of the import
-- of a file at a version, or behind the import, with the module. Or it has returned or thrown.
pub data Load : Type 0 where
  resolving : Load
  importing : FilePath → ℕ → Load
  committing : LoadedModule → Load
  finished : Result LoadedModule → Load

-- `modules.get(name)`: a hit returns at once.
unfoldable pub begin : Text → World → Load
unfolding get
begin name w = elim (get name w.modules) [ some m ↦ finished (ok m) | none ↦ resolving ]

abbrev pub after_import : Result LoadedModule → Load
after_import (ok m) = committing m
after_import (err x) = finished (err x)

-- What runs from one wait to the next.
unfoldable pub advance : Engine → Text → Load → World → Load × World
unfolding function_path file_exists import_module cache_module
advance e name resolving w =
    if file_exists (function_path e name) w.fs
    then (importing (function_path e name) w.module_version, w)
    else (finished (err (not_found e name)), w)
advance e name (importing p v) w = let (r, w') = import_module e p v w in (after_import r, w')
advance e name (committing m) w = (finished (ok m), cache_module name m w)
advance e name (finished r) w = (finished r, w)

-- The loads that were begun, each with its name, in the order of their beginnings.
pub record Pool : Type 0 where
  pub world : World
  pub loads : List (Text × Load)

-- What the event loop does next: a load of a name begins, or the load at a place goes on.
pub data Action : Type 0 where
  start : Text → Action
  resume : ℕ → Action

abbrev pub set_load : ℕ → Load → List (Text × Load) → List (Text × Load)
set_load i l [] = []
set_load zero l ((n, _) ∷ ls) = (n, l) ∷ ls
set_load (suc i) l (p ∷ ls) = p ∷ set_load i l ls

unfoldable pub act : Engine → Action → Pool → Pool
unfolding begin advance
act e (start name) p = record p { loads = p.loads ++ (name, begin name p.world) ∷ [] }
act e (resume i) p = elim (get_elem? p.loads i) [
  | none ↦ p
  | some (name, l) ↦
      let (l', w') = advance e name l p.world in
      record { world = w'; loads = set_load i l' p.loads }
]

-- A schedule of the event loop.
unfoldable pub schedule : Engine → List Action → Pool → Pool
unfolding act
schedule e [] p = p
schedule e (a ∷ actions) p = schedule e actions (act e a p)

-- What the loads of a name gave that have ended.
unfoldable pub results_of : Text → List (Text × Load) → List (Result LoadedModule)
unfolding text_eq
results_of name [] = []
results_of name ((n, finished r) ∷ ls) =
    let rest = results_of name ls in if text_eq n name then r ∷ rest else rest
results_of name ((n, _) ∷ ls) = results_of name ls

abbrev pub is_resolving : Load → Bool
is_resolving resolving = true
is_resolving _ = false

-- Whether no load of the name has read the version yet.
unfoldable pub none_past : Text → List (Text × Load) → Bool
unfolding text_eq
none_past name [] = true
none_past name ((n, l) ∷ ls) =
    (if text_eq n name then is_resolving l else true) && none_past name ls
