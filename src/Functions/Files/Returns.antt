-- ===== src/Functions/Files/Returns.antt =====
-- When `syncRuntimeFunctionsDir` (runtimes/ts/pkg/functions.ts) returns, and what it leaves then.
use litefunctions.Prelude.{
  ℕ, ◌≡◌, ◌≢◌, refl, sym, ap, ◌∙◌, true, false, List, [], ◌∷◌, ◌++◌, if◌then◌else◌, arith, none,
  some, Bool-cases, Option-cases, inl, inr,
}
use litefunctions.Prelude.Exec.{ok}
use litefunctions.Text.{Text}
use litefunctions.Fs.{
  FilePath, Fs, file, folder, path_eq, find_node, stat, parent, readdir, child_names, file_exists,
}
use litefunctions.Fs.Laws.{path_eq_iff, parent-child, path_eq_other}
use litefunctions.Fs.Folders.{Node-cases, stat-mkdir_recursive}
use litefunctions.Functions.Files.{is_function_file, remove_files, replace_files}
use litefunctions.Functions.Files.Mirror.{IsMade, copy_phase, replace_files_mirror}
use litefunctions.Functions.Files.Loops.{find_node-remove_files_other}
use litefunctions.Functions.Files.Plain.{
  IsPlain, path_eq_longer, remove_files-ok, copy_files-ok, listing,
}

path_eq_outside :
    (root q : FilePath) (a : Text) → parent q ≢ root → path_eq (root ++ a ∷ []) q ≡ false
path_eq_outside root q a outside = elim (Bool-cases (path_eq (root ++ a ∷ []) q)) [
  | inl same ↦
      absurd
        (outside (cc (parent-child root a, ap parent ((path_eq_iff (root ++ a ∷ []) q).0 same))))
  | inr other ↦ other
]

stat-remove_files :
    (root : FilePath) (es : List Text) (fs : Fs) {fs1 : Fs} (q : FilePath)
    → ((a : Text) → path_eq (root ++ a ∷ []) q ≡ false)
    → remove_files root es fs ≡ (ok tt, fs1)
    → stat q fs1 ≡ stat q fs
unfolding stat
stat-remove_files root es fs [] away h = refl
stat-remove_files root es fs {fs1} (c ∷ q) away h =
    find_node-remove_files_other root es fs {fs' = fs1} (c ∷ q) away h

readdir_of_folder :
    (p : FilePath) (fs : Fs) → stat p fs ≡ some folder → readdir p fs ≡ ok (child_names p fs)
unfolding readdir
readdir_of_folder p fs h = ground (arith, h)

folder_of_exists :
    (p : FilePath) (fs : Fs)
    → file_exists p fs ≡ true
    → ((b : List ℕ) → stat p fs ≢ some (file b))
    → stat p fs ≡ some folder
unfolding file_exists
folder_of_exists p fs h no_file = elim (Option-cases (stat p fs)) [
  | inl absent ↦ absurd (ground (arith, absent))
  | inr (n, there) ↦ elim (Node-cases n) [
    | inr (b, is_file) ↦ absurd (no_file b (there ∙ ap some is_file))
    | inl is_folder ↦ there ∙ ap some is_folder
  ]
]

module _ (source root : FilePath) (fs : Fs) (apart : source ≢ root) (outside : parent source ≢ root)
    (made : IsMade root fs) (plain : IsPlain root fs) (files : IsPlain source fs)
    (no_file : (b : List ℕ) → stat source fs ≢ some (file b)) where
  copy_phase-ok :
      (fs1 : Fs)
      → remove_files root (child_names root fs) fs ≡ (ok tt, fs1)
      → IsPlain root fs1
      → (n : ℕ) × (fs2 : Fs) × (copy_phase source root (file_exists source fs1) fs1 ≡ (ok n, fs2))
        × (stat root fs2 ≡ some folder)
  copy_phase-ok fs1 removed plain1 =
      let top =
        stat-remove_files root (child_names root fs) fs {fs1 = fs1} root (path_eq_longer root)
          removed
        ∙ stat-mkdir_recursive root fs {fs' = fs} made in
      elim (Bool-cases (file_exists source fs1)) [
        | inr gone ↦ rw gone (0, fs1, refl, top)
        | inl there ↦
            let same =
              stat-remove_files root (child_names root fs) fs {fs1 = fs1} source
                (λ a. path_eq_outside root source a outside) removed in
            let is_folder = folder_of_exists source fs1 there (λ b h. no_file b (sym same ∙ h)) in
            let listed = readdir_of_folder source fs1 is_folder in
            let plain2 : IsPlain source fs1 = (λ a v h. files a v (
              sym (
                find_node-remove_files_other root (child_names root fs) fs {fs' = fs1}
                  (source ++ a ∷ []) (λ c. path_eq_other root source c a (λ q. apart (sym q)))
                  removed)
              ∙ h)) in
            rw (there, listed)
              (copy_files-ok source root apart (child_names source fs1) 0 fs1 plain1 top
                (listing source root apart fs1 (child_names source fs1) listed plain2))
      ]

  pub replace_files-returns :
      (n : ℕ) × (fs2 : Fs) × (replace_files source root fs ≡ (ok n, fs2))
      × (stat root fs2 ≡ some folder)
  unfolding replace_files
  replace_files-returns =
      let (fs1, removed, plain1) = remove_files-ok root (child_names root fs) fs plain in
      let (n, fs2, copied, after) = copy_phase-ok fs1 removed plain1 in
      (
        n,
        fs2,
        rw (made, readdir_of_folder root fs (stat-mkdir_recursive root fs {fs' = fs} made), removed)
            copied,
        after,
      )

  -- The replacement of the files returns, and then there is under each function file's name in the
  -- runtime's folder exactly what the source held under it, and nothing if there is no source. The
  -- runtime's folder is made before, the source is another folder outside of it or is not there, and
  -- no function file's name is that of a folder in the two.
  pub replace_files-mirrors :
      (a : Text)
      → is_function_file a ≡ true
      → (n : ℕ) × (fs2 : Fs) × (replace_files source root fs ≡ (ok n, fs2))
        × (find_node (root ++ a ∷ []) fs2
            ≡ (if file_exists source fs then find_node (source ++ a ∷ []) fs else none))
  replace_files-mirrors a v =
      let (n, fs2, done, _) = replace_files-returns in
      (
        n,
        fs2,
        done,
        replace_files_mirror source root fs {n = n} {fs' = fs2} a apart outside made v done,
      )
