-- ===== src/Functions/Modules/Keeps.antt =====
-- What loading and calling a function leaves alone.
use litefunctions.Prelude.{ℕ, ◌≡◌, refl, arith, Bool-cases, Option-cases, inl, inr}
use litefunctions.Prelude.Exec.{Result-cases}
use litefunctions.Text.{Text}
use litefunctions.JsMap.{get}
use litefunctions.Fs.{FilePath, file_exists}
use litefunctions.World.{World, Engine, RequestLike}
use litefunctions.Functions.Modules.{
  function_path, resolve_function_file, import_module, load_new, load_module, invoke_module,
}

-- All of the world but the cache and the engine's registry is the same.
pub record IsKept (w v : World) : Type 0 where
  pub fs : v.fs ≡ w.fs
  pub module_version : v.module_version ≡ w.module_version
  pub client : v.client ≡ w.client
  pub consumers : v.consumers ≡ w.consumers

IsKept-refl : (w : World) → IsKept w w
IsKept-refl w = record { fs = refl; module_version = refl; client = refl; consumers = refl }

import_module-IsKept :
    (e : Engine) (p : FilePath) (v : ℕ) (w : World) → IsKept w (import_module e p v w).1
unfolding import_module
import_module-IsKept e p v w = record {
  fs = ground arith;
  module_version = ground arith;
  client = ground arith;
  consumers = ground arith;
}

load_new-IsKept : (e : Engine) (name : Text) (w : World) → IsKept w (load_new e name w).1
unfolding load_new resolve_function_file
load_new-IsKept e name w = elim (Bool-cases (file_exists (function_path e name) w.fs)) [
  | inr missing ↦ rw missing (IsKept-refl w)
  | inl there ↦
      let kept = import_module-IsKept e (function_path e name) w.module_version w in
      elim (Result-cases (import_module e (function_path e name) w.module_version w).0) [
        | inl (m, fine) ↦ rw there (
            rw fine record {
              fs = kept.fs;
              module_version = kept.module_version;
              client = kept.client;
              consumers = kept.consumers;
            })
        | inr (x, bad) ↦ rw there (rw bad kept)
      ]
]

pub load_module-IsKept : (e : Engine) (name : Text) (w : World) → IsKept w (load_module e name w).1
unfolding load_module
load_module-IsKept e name w = elim (Option-cases (get name w.modules)) [
  | inl fresh ↦ rw (load_module, fresh) (load_new-IsKept e name w)
  | inr (m, old) ↦ rw (load_module, old) (IsKept-refl w)
]

pub invoke_module-IsKept :
    (e : Engine) (name : Text) (req : RequestLike) (w : World)
    → IsKept w (invoke_module e name req w).1
unfolding invoke_module
invoke_module-IsKept e name req w = load_module-IsKept e name w
