-- ===== src/Functions/Modules/Cached.antt =====
-- `loadModule` (runtimes/ts/pkg/functions.ts) evaluates a function's file once for each reload.
use litefunctions.Prelude.{
  ◌≡◌, ap, ◌∙◌, List, [], ◌∷◌, arith, some, Bool-cases, Option-cases, inl, inr,
}
use litefunctions.Prelude.Exec.{Result, ok, Result-cases}
use litefunctions.Text.{Text, text_eq}
use litefunctions.Text.Equality.{text_eq_iff}
use litefunctions.JsMap.{get}
use litefunctions.JsMap.Laws.{get-set}
use litefunctions.Fs.{file_exists}
use litefunctions.World.{World, Engine, LoadedModule}
use litefunctions.Functions.Modules.{
  function_path, import_module, cache_module, load_new, load_module,
}
use litefunctions.Functions.Modules.Fresh.{load_all, modules-load_module}

load_new-cached :
    (e : Engine) (name : Text) (w : World) {m : LoadedModule} {w' : World}
    → load_new e name w ≡ (ok m, w')
    → get name w'.modules ≡ some m
unfolding load_new cache_module
load_new-cached e name w {m} {w'} h = elim (Bool-cases (file_exists (function_path e name) w.fs)) [
  | inr missing ↦ absurd (ground (arith, missing))
  | inl there ↦ elim (Result-cases (import_module e (function_path e name) w.module_version w).0) [
    | inr (x, bad) ↦ absurd (ground (arith, there, bad))
    | inl (k, good) ↦ ground (
      arith,
      there,
      good,
      get-set name name k (import_module e (function_path e name) w.module_version w).1.modules,
      text_eq_iff name name,
    )
  ]
]

pub load_module-cached :
    (e : Engine) (name : Text) (w : World) {m : LoadedModule} {w' : World}
    → load_module e name w ≡ (ok m, w')
    → get name w'.modules ≡ some m
unfolding load_module
load_module-cached e name w {m} {w'} h = elim (Option-cases (get name w.modules)) [
  | inl absent ↦ load_new-cached e name w {m = m} {w' = w'} (rw (load_module, absent) at h)
  | inr (k, hit) ↦ ground (arith, hit)
]

module _ (e : Engine) (name : Text) (m : LoadedModule) where
  load_hit : (w : World) → get name w.modules ≡ some m → load_module e name w ≡ (ok m, w)
  unfolding load_module
  load_hit w hit = ground arith

  -- A cached module stays cached through every other load.
  load_kept :
      (n : Text) (w : World)
      → get name w.modules ≡ some m
      → get name (load_module e n w).1.modules ≡ some m
  unfolding load_module
  load_kept n w hit = elim (Bool-cases (text_eq n name)) [
    | inl same ↦
        ap (λ k. get name (load_module e k w).1.modules) ((text_eq_iff n name).0 same)
        ∙ ap (λ (r : Result LoadedModule × World). get name r.1.modules) (load_hit w hit)
        ∙ hit
    | inr other ↦
        modules-load_module e n w (λ mods. get name mods ≡ some m) hit
          (λ k _. get-set n name k w.modules ∙ rw other hit)
  ]

  load_all_kept :
      (ns : List Text) (w : World)
      → get name w.modules ≡ some m
      → get name (load_all e ns w).modules ≡ some m
  unfolding load_all
  load_all_kept [] w hit = hit
  load_all_kept (n ∷ ns) w hit = load_all_kept ns (load_module e n w).1 (load_kept n w hit)

-- Once a function is loaded, whatever is loaded after it, loading it again gives the same module and
-- changes nothing: its file is evaluated no second time.
pub load_module-once :
    (e : Engine) (name : Text) (w : World) (ns : List Text) {m : LoadedModule} {w1 : World}
    → load_module e name w ≡ (ok m, w1)
    → load_module e name (load_all e ns w1) ≡ (ok m, load_all e ns w1)
load_module-once e name w ns {m} {w1} h =
    load_hit e name m (load_all e ns w1)
      (load_all_kept e name m ns w1 (load_module-cached e name w {m = m} {w' = w1} h))
