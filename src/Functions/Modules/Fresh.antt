-- ===== src/Functions/Modules/Fresh.antt =====
-- Which code `loadModule` (runtimes/ts/pkg/functions.ts) gives for a name, and what loads leave.
use litefunctions.Prelude.{
  ℕ, ◌≤◌, ◌≡◌, ap, true, List, [], ◌∷◌, arith, ◌⊎◌, some, subst, Bool-cases, Option-cases, inl, inr,
  All,
}
use litefunctions.Prelude.Exec.{Result, ok, Result-cases}
use litefunctions.Text.{Text, text_eq}
use litefunctions.Text.Equality.{text_eq_iff}
use litefunctions.Text.Utf8.{Bytes}
use litefunctions.JsMap.{JsMap, get, set}
use litefunctions.JsMap.Laws.{get-set}
use litefunctions.Fs.{FilePath, Fs, read_file, file_exists}
use litefunctions.Fs.Laws.{path_eq_iff}
use litefunctions.World.{World, Engine, LoadedModule}
use litefunctions.Functions.Modules.{
  function_path, resolve_function_file, imported, import_module, load_new, load_module,
}

-- Every import was made at a version up to the present one.
abbrev pub IsBounded : World → Type 0
IsBounded w = All (λ i. i.0.1 ≤ w.module_version) w.imports

-- The code that the name stands for is `b`: its file holds `b`, and what was cached or imported for
-- it at the present version came from `b`.
pub record IsCurrent (e : Engine) (name : Text) (b : Bytes) (w : World) : Type 0 where
  pub content : read_file (function_path e name) w.fs ≡ ok b
  pub cached : (m : LoadedModule) → get name w.modules ≡ some m → e.evaluate b ≡ ok m
  pub registered :
      (r : Result LoadedModule)
      → imported (function_path e name) w.module_version w.imports ≡ some r
      → e.evaluate b ≡ r

pub read_file-exists :
    (p : FilePath) (fs : Fs) {b : Bytes} → read_file p fs ≡ ok b → file_exists p fs ≡ true
unfolding read_file file_exists
read_file-exists p fs h = ground arith

pub import_module-current :
    (e : Engine) (name : Text) (b : Bytes) (w : World)
    → IsCurrent e name b w
    → (import_module e (function_path e name) w.module_version w).0 ≡ e.evaluate b
unfolding import_module
import_module-current e name b w c =
    elim (Option-cases (imported (function_path e name) w.module_version w.imports)) [
      | inl fresh ↦ ground (arith, fresh, c.content)
      | inr (r, old) ↦ ground (arith, old, c.registered r old)
    ]

-- Loading gives what the current code evaluates to, or throws what that throws.
pub load_module-current :
    (e : Engine) (name : Text) (b : Bytes) (w : World)
    → IsCurrent e name b w
    → (load_module e name w).0 ≡ e.evaluate b
unfolding load_module load_new
load_module-current e name b w c = elim (Option-cases (get name w.modules)) [
  | inl absent ↦ ground (
    arith,
    absent,
    import_module-current e name b w c,
    read_file-exists (function_path e name) w.fs {b = b} c.content,
  )
  | inr (m, hit) ↦ ground (arith, hit, c.cached m hit)
]

module _ (e : Engine) (n : Text) (w : World) where
  -- A load reads the files and keeps the version.
  pub fs-load_module : (load_module e n w).1.fs ≡ w.fs
  unfolding load_module load_new resolve_function_file import_module
  fs-load_module = ground arith

  pub version-load_module : (load_module e n w).1.module_version ≡ w.module_version
  unfolding load_module load_new resolve_function_file import_module
  version-load_module = ground arith

  -- An import adds nothing to the registry, or one entry at its version.
  pub imports-import_module :
      (p : FilePath) (v : ℕ)
      → ((import_module e p v w).1.imports ≡ w.imports)
        ⊎ ((r : Result LoadedModule) × ((import_module e p v w).1.imports
              ≡ ((p, v), r) ∷ w.imports))
  unfolding import_module
  imports-import_module p v = elim (Option-cases (imported p v w.imports)) [
    | inl fresh ↦ elim (Result-cases (read_file p w.fs)) [
      | inl (b, got) ↦ inr (e.evaluate b, ground (arith, fresh, got))
      | inr (x, bad) ↦ inl (ground (arith, fresh, bad))
    ]
    | inr (r, old) ↦ inl (ground (arith, old))
  ]

  import_module-IsBounded :
      (p : FilePath)
      → IsBounded w
      → All (λ i. i.0.1 ≤ w.module_version) (import_module e p w.module_version w).1.imports
  import_module-IsBounded p h = elim (imports-import_module p w.module_version) [
    | inl same ↦ rw same h
    | inr (r, one) ↦ rw one (omega arith, h)
  ]

  imports-load_module :
      (P : List ((FilePath × ℕ) × Result LoadedModule) → Type 0)
      → P w.imports
      → P (import_module e (function_path e n) w.module_version w).1.imports
      → P (load_module e n w).1.imports
  unfolding load_module load_new resolve_function_file
  imports-load_module P same one = elim (Option-cases (get n w.modules)) [
    | inl absent ↦ elim (Bool-cases (file_exists (function_path e n) w.fs)) [
      | inl there ↦ elim (Result-cases (import_module e (function_path e n) w.module_version w).0) [
        | inl (m, good) ↦ subst P (ground (arith, absent, there, good)) one
        | inr (x, bad) ↦ subst P (ground (arith, absent, there, bad)) one
      ]
      | inr missing ↦ subst P (ground (arith, absent, missing)) same
    ]
    | inr (m, hit) ↦ subst P (ground (arith, hit)) same
  ]

  pub modules-import_module : (p : FilePath) (v : ℕ) → (import_module e p v w).1.modules ≡ w.modules
  unfolding import_module
  modules-import_module p v = ground arith

  -- A load keeps the cache, or puts what the import gave under its name.
  pub modules-load_module :
      (P : JsMap LoadedModule → Type 0)
      → P w.modules
      → ((m : LoadedModule)
          → (import_module e (function_path e n) w.module_version w).0 ≡ ok m
          → P (set n m w.modules))
      → P (load_module e n w).1.modules
  unfolding load_module load_new resolve_function_file
  modules-load_module P same added = elim (Option-cases (get n w.modules)) [
    | inl absent ↦ elim (Bool-cases (file_exists (function_path e n) w.fs)) [
      | inl there ↦ elim (Result-cases (import_module e (function_path e n) w.module_version w).0) [
        | inl (m, good) ↦
            subst P
              (ground (
                arith,
                absent,
                there,
                good,
                modules-import_module (function_path e n) w.module_version,
              ))
              (added m good)
        | inr (x, bad) ↦
            subst P
              (ground (
                arith,
                absent,
                there,
                bad,
                modules-import_module (function_path e n) w.module_version,
              ))
              same
      ]
      | inr missing ↦ subst P (ground (arith, absent, missing)) same
    ]
    | inr (m, hit) ↦ subst P (ground (arith, hit)) same
  ]

  pub load_module-IsBounded : IsBounded w → IsBounded (load_module e n w).1
  load_module-IsBounded h = rw version-load_module (
      imports-load_module (All (λ i. i.0.1 ≤ w.module_version)) h
        (import_module-IsBounded (function_path e n) h))

module _ (e : Engine) (n : Text) (name : Text) (b : Bytes) (w : World)
    (c : IsCurrent e name b w) where
  pub import_registered :
      (p : FilePath) (v : ℕ) (r : Result LoadedModule)
      → imported (function_path e name) w.module_version (import_module e p v w).1.imports ≡ some r
      → e.evaluate b ≡ r
  unfolding import_module imported
  import_registered p v r h =
      ground (arith, path_eq_iff p (function_path e name), c.registered r, c.content)

  load_registered :
      (r : Result LoadedModule)
      → imported (function_path e name) w.module_version (load_module e n w).1.imports ≡ some r
      → e.evaluate b ≡ r
  unfolding load_module load_new resolve_function_file
  load_registered r h =
      ground (arith, c.registered r, import_registered (function_path e n) w.module_version r)

  load_cached :
      (m : LoadedModule) → get name (load_module e n w).1.modules ≡ some m → e.evaluate b ≡ ok m
  load_cached =
      modules-load_module e n w
        (λ mods. (m : LoadedModule) → get name mods ≡ some m → e.evaluate b ≡ ok m) c.cached
        (λ k good m hit. elim (Bool-cases (text_eq n name)) [
          | inl same ↦
              let path = ap (function_path e) ((text_eq_iff n name).0 same) in
              cc (
                import_module-current e name b w c,
                good,
                path,
                hit,
                get-set n name k w.modules,
                same,
              )
          | inr other ↦ c.cached m (rw (get-set n name k w.modules, other) at hit)
        ])

  -- What a name stands for stays current whatever is loaded.
  pub load_module-IsCurrent : IsCurrent e name b (load_module e n w).1
  load_module-IsCurrent = record {
    content = rw fs-load_module c.content;
    cached = load_cached;
    registered = λ r. rw version-load_module (load_registered r);
  }

-- Loads of any functions, one after the other, whether they throw or not.
unfoldable pub load_all : Engine → List Text → World → World
load_all e [] w = w
load_all e (n ∷ ns) w = load_all e ns (load_module e n w).1

pub load_all-IsCurrent :
    (e : Engine) (ns : List Text) (name : Text) (b : Bytes) (w : World)
    → IsCurrent e name b w
    → IsCurrent e name b (load_all e ns w)
unfolding load_all
load_all-IsCurrent e [] name b w c = c
load_all-IsCurrent e (n ∷ ns) name b w c =
    load_all-IsCurrent e ns name b (load_module e n w).1 (load_module-IsCurrent e n name b w c)
