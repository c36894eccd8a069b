-- ===== src/Functions/Modules/Loads/Whole.antt =====
-- A load that nothing interrupts.
use litefunctions.Prelude.{◌≡◌, arith, Bool-cases, Option-cases, inl, inr}
use litefunctions.Prelude.Exec.{Result-cases}
use litefunctions.Text.{Text}
use litefunctions.JsMap.{get}
use litefunctions.Fs.{file_exists}
use litefunctions.World.{World, Engine}
use litefunctions.Functions.Modules.{function_path, import_module, load_new, load_module}
use litefunctions.Functions.Modules.Loads.{Load, finished, begin, advance}

abbrev pub go_on : Engine → Text → Load × World → Load × World
go_on e name (l, w) = advance e name l w

-- A load that nothing interrupts gives what `load_module` gives, in the same world.
pub advance-load_module :
    (e : Engine) (name : Text) (w : World)
    → go_on e name (go_on e name (go_on e name (begin name w, w)))
      ≡ (finished (load_module e name w).0, (load_module e name w).1)
unfolding begin advance load_module load_new
advance-load_module e name w = elim (Option-cases (get name w.modules)) [
  | inr (m, hit) ↦ ground (arith, hit)
  | inl absent ↦ elim (Bool-cases (file_exists (function_path e name) w.fs)) [
    | inr missing ↦ ground (arith, absent, missing)
    | inl there ↦
        elim (Result-cases (import_module e (function_path e name) w.module_version w).0) [
          | inl (m, good) ↦ ground (arith, absent, there, good)
          | inr (x, bad) ↦ ground (arith, absent, there, bad)
        ]
  ]
]
