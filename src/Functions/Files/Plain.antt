-- ===== src/Functions/Files/Plain.antt =====
-- The loops of `syncRuntimeFunctionsDir` (runtimes/ts/pkg/functions.ts) return where no folder bears a
-- function file's name.
use litefunctions.Prelude.{
  ℕ, ◌+◌, ◌≡◌, ◌≢◌, refl, sym, ap, ◌∙◌, true, false, List, [], ◌∷◌, ◌++◌, arith, some, Bool-cases,
  Option-cases, inl, inr,
}
use litefunctions.Prelude.Exec.{ok, continue}
use litefunctions.Text.{Text, is_some}
use litefunctions.Text.Equality.{text_eq_iff}
use litefunctions.JsMap.{member}
use litefunctions.Fs.{
  FilePath, Fs, file, folder, path_eq, find_node, stat, path_join, read_file, write_file, rm_force,
  remove_node, put_node, readdir,
}
use litefunctions.Fs.Laws.{stat-child, parent-child, path_eq_other}
use litefunctions.Fs.Folders.{Node-cases, mkdir_recursive_again}
use litefunctions.World.{World, Engine}
use litefunctions.Functions.Repo.{runtime_functions_path}
use litefunctions.Functions.Files.{
  is_function_file, ensure_runtime_dir, remove_files, copy_file, copy_files,
}
use litefunctions.Functions.Files.Names.{path_join-function_file}
use litefunctions.Functions.Files.Mirror.{IsMade, readdir-member}
use litefunctions.Functions.Files.Loops.{
  find_node-rm_force, find_node-write_file, copy_file-continue,
}

-- `ensureRuntimeDir` leaves the runtime's folder, so that making it again changes nothing.
pub ensure_runtime_dir-IsMade :
    (e : Engine) (w : World) {w' : World}
    → ensure_runtime_dir e w ≡ (ok tt, w')
    → IsMade (runtime_functions_path e) w'.fs
unfolding ensure_runtime_dir
ensure_runtime_dir-IsMade e w {w'} h =
    mkdir_recursive_again (runtime_functions_path e) w.fs {fs' = w'.fs} (ground arith)

-- No folder stands under a function file's name.
abbrev pub IsPlain : FilePath → Fs → Type 0
IsPlain p fs = (a : Text) → is_function_file a ≡ true → find_node (p ++ a ∷ []) fs ≢ some folder

pub path_eq_longer : (p : FilePath) (a : Text) → path_eq (p ++ a ∷ []) p ≡ false
unfolding path_eq
path_eq_longer [] a = refl
path_eq_longer (b ∷ p) a = ground (arith, path_eq_longer p a)

module _ (root : FilePath) where
  pub rm_force-ok :
      (x : Text) (fs : Fs)
      → is_function_file x ≡ true
      → IsPlain root fs
      → (fs1 : Fs) × (rm_force (path_join root x) fs ≡ (ok tt, fs1))
  unfolding rm_force
  rm_force-ok x fs v plain = elim (Option-cases (find_node (root ++ x ∷ []) fs)) [
    | inl absent ↦
        (fs, ground (arith, path_join-function_file root x v, stat-child root x fs, absent))
    | inr (n, there) ↦ elim (Node-cases n) [
      | inl is_folder ↦ absurd (plain x v (there ∙ ap some is_folder))
      | inr (b, is_file) ↦ (
        remove_node (root ++ x ∷ []) fs,
        ground (arith, path_join-function_file root x v, stat-child root x fs, there, is_file),
      )
    ]
  ]

  pub IsPlain-rm_force :
      (x : Text) (fs : Fs) {fs1 : Fs}
      → is_function_file x ≡ true
      → IsPlain root fs
      → rm_force (path_join root x) fs ≡ (ok tt, fs1)
      → IsPlain root fs1
  IsPlain-rm_force x fs {fs1} v plain h a w found = plain a w (
      ground (
        arith,
        find_node-rm_force root x fs {fs' = fs1} (root ++ a ∷ [])
            (rw (path_join-function_file root x v) at h),
      ))

  -- The loop that removes returns.
  pub remove_files-ok :
      (es : List Text) (fs : Fs)
      → IsPlain root fs
      → (fs1 : Fs) × (remove_files root es fs ≡ (ok tt, fs1)) × IsPlain root fs1
  unfolding remove_files
  remove_files-ok [] fs plain = (fs, refl, plain)
  remove_files-ok (x ∷ es) fs plain = elim (Bool-cases (is_function_file x)) [
    | inr skipped ↦ rw skipped (remove_files-ok es fs plain)
    | inl v ↦
        let (fs1, removed) = rm_force-ok x fs v plain in
        let (fs2, rest, q) =
          remove_files-ok es fs1 (IsPlain-rm_force x fs {fs1 = fs1} v plain removed) in
        (fs2, ground (arith, v, removed, rest), q)
  ]

pub read_file_of :
    (p : FilePath) (a : Text) (fs : Fs) {b : List ℕ}
    → find_node (p ++ a ∷ []) fs ≡ some (file b)
    → read_file (p ++ a ∷ []) fs ≡ ok b
unfolding read_file
read_file_of p a fs h = ground (arith, stat-child p a fs, h)

-- A written file leaves the folder that it is in.
pub stat_written :
    (p : FilePath) (x : Text) (b : List ℕ) (fs : Fs) {fs1 : Fs}
    → write_file (p ++ x ∷ []) b fs ≡ (ok tt, fs1)
    → stat p fs1 ≡ stat p fs
unfolding stat
stat_written [] x b fs put = refl
stat_written (c ∷ p) x b fs {fs1} put =
    find_node-write_file (c ∷ p) x fs {fs' = fs1} (c ∷ p) b put ∙ rw (path_eq_longer (c ∷ p) x) refl

module _ (source root : FilePath) (apart : source ≢ root) where
  pub write_file-ok :
      (x : Text) (b : List ℕ) (fs : Fs)
      → is_function_file x ≡ true
      → IsPlain root fs
      → stat root fs ≡ some folder
      → write_file (root ++ x ∷ []) b fs ≡ (ok tt, put_node (root ++ x ∷ []) (file b) fs)
  unfolding write_file
  write_file-ok x b fs v plain top = elim (Option-cases (find_node (root ++ x ∷ []) fs)) [
    | inl absent ↦ rw (parent-child root x, top, stat-child root x fs, absent) refl
    | inr (n, there) ↦ elim (Node-cases n) [
      | inl is_folder ↦ absurd (plain x v (there ∙ ap some is_folder))
      | inr (c, is_file) ↦ rw (parent-child root x, top, stat-child root x fs, there, is_file) refl
    ]
  ]

  pub copy_file-returns :
      (x : Text) (b : List ℕ) (fs : Fs)
      → is_function_file x ≡ true
      → IsPlain root fs
      → stat root fs ≡ some folder
      → find_node (source ++ x ∷ []) fs ≡ some (file b)
      → (fs1 : Fs) × (copy_file source root x fs ≡ (ok tt, fs1))
        × (write_file (root ++ x ∷ []) b fs ≡ (ok tt, fs1))
  unfolding write_file
  copy_file-returns x b fs v plain top there =
      let put = write_file-ok x b fs v plain top in
      (
        put_node (root ++ x ∷ []) (file b) fs,
        copy_file-continue source root x fs v
            ∙ ap (λ r. continue (λ c. write_file (root ++ x ∷ []) c) r fs)
                (read_file_of source x fs there)
            ∙ put,
        put,
      )

  -- What a written file leaves for the next ones.
  pub written_next :
      (x : Text) (b : List ℕ) (fs : Fs) {fs1 : Fs}
      → is_function_file x ≡ true
      → write_file (root ++ x ∷ []) b fs ≡ (ok tt, fs1)
      → IsPlain root fs
      → stat root fs ≡ some folder
      → IsPlain root fs1 × (stat root fs1 ≡ some folder)
  written_next x b fs {fs1} v put plain top = (
    λ a w found.
        plain a w
          (ground (arith, find_node-write_file root x fs {fs' = fs1} (root ++ a ∷ []) b put)),
    stat_written root x b fs put ∙ top,
  )

  -- Each listed function file is a file in the source.
  abbrev pub IsListing : List Text → Fs → Type 0
  IsListing es fs =
      (a : Text)
      → is_function_file a ≡ true
      → member a es ≡ true
      → (b : List ℕ) × (find_node (source ++ a ∷ []) fs ≡ some (file b))

  -- The loop that copies returns.
  pub copy_files-ok :
      (es : List Text) (n : ℕ) (fs : Fs)
      → IsPlain root fs
      → stat root fs ≡ some folder
      → IsListing es fs
      → (m : ℕ) × (fs1 : Fs) × (copy_files source root es n fs ≡ (ok m, fs1))
        × (stat root fs1 ≡ some folder)
  unfolding copy_files member
  copy_files-ok [] n fs plain top files = (n, fs, refl, top)
  copy_files-ok (x ∷ es) n fs plain top files = elim (Bool-cases (is_function_file x)) [
    | inr skipped ↦
        rw skipped
          (copy_files-ok es n fs plain top (λ a v l. files a v (ground (arith, text_eq_iff x a))))
    | inl v ↦
        let (b, there) = files x v (ground (arith, text_eq_iff x x)) in
        let (fs1, copied, put) = copy_file-returns x b fs v plain top there in
        let (plain1, top1) = written_next x b fs {fs1 = fs1} v put plain top in
        let (m, fs2, rest, after) = copy_files-ok es (n + 1) fs1 plain1 top1 (λ a w l.
          let (c, was) = files a w (ground (arith, text_eq_iff x a)) in
          (
            c,
            find_node-write_file root x fs {fs' = fs1} (source ++ a ∷ []) b put
                ∙ rw (path_eq_other root source x a (λ q. apart (sym q))) was,
          )) in
        (m, fs2, ground (arith, v, copied, rest), after)
  ]

  pub listing :
      (fs : Fs) (es : List Text) → readdir source fs ≡ ok es → IsPlain source fs → IsListing es fs
  unfolding is_some
  listing fs es listed plain a v l = elim (Option-cases (find_node (source ++ a ∷ []) fs)) [
    | inl absent ↦
        absurd (ground (arith, readdir-member source fs {names = es} a listed, l, absent))
    | inr (n, there) ↦ elim (Node-cases n) [
      | inl is_folder ↦ absurd (plain a v (there ∙ ap some is_folder))
      | inr (b, is_file) ↦ (b, there ∙ ap some is_file)
    ]
  ]
