-- ===== src/Functions/Files/Mirror.antt =====
-- After `syncRuntimeFunctionsDir` (runtimes/ts/pkg/functions.ts) the runtime's folder holds the function
-- files of the source, and no other.
use litefunctions.Prelude.{
  ℕ, ◌≡◌, ◌≢◌, refl, sym, ap, Bool, true, false, List, [], ◌∷◌, ◌++◌, if◌then◌else◌, arith, none,
  Bool-cases, inl, inr,
}
use litefunctions.Prelude.Exec.{ok, Exec, ◌>>=◌, >>=-ok}
use litefunctions.Text.{Text, is_some}
use litefunctions.JsMap.{member}
use litefunctions.Fs.{
  FilePath, Fs, path_eq, find_node, stat, parent, readdir, mkdir_recursive, file_exists,
}
use litefunctions.Fs.Laws.{path_eq_iff, parent-child, path_eq_other, member-child_names}
use litefunctions.Functions.Files.{is_function_file, remove_files, copy_files, replace_files}
use litefunctions.Functions.Files.Loops.{
  find_node-remove_files, find_node-remove_files_other, find_node-copy_files,
}

abbrev pub list_dir : FilePath → Exec Fs (List Text)
list_dir p fs = (readdir p fs, fs)

abbrev pub copy_phase : FilePath → FilePath → Bool → Exec Fs ℕ
copy_phase source root there =
    if there then list_dir source >>= (λ new. copy_files source root new 0) else (λ fs. (ok 0, fs))

-- The runtime's folder is there, so that making it changes nothing.
abbrev pub IsMade : FilePath → Fs → Type 0
IsMade root fs = mkdir_recursive root fs ≡ (ok tt, fs)

replace_files-ok :
    (source root : FilePath) (fs : Fs) {n : ℕ} {fs' : Fs}
    → IsMade root fs
    → replace_files source root fs ≡ (ok n, fs')
    → (old : List Text) × (fs2 : Fs) × (readdir root fs ≡ ok old)
      × (remove_files root old fs ≡ (ok tt, fs2))
      × (copy_phase source root (file_exists source fs2) fs2 ≡ (ok n, fs'))
unfolding replace_files
replace_files-ok source root fs made h =
    let (_, fs1, m, h1) = >>=-ok (mkdir_recursive root) _ fs h in
    let (old, fs1', l, h2) = >>=-ok (list_dir root) _ fs1 h1 in
    let (_, fs2, r, h3) = >>=-ok (remove_files root old) _ fs1' h2 in
    (old, fs2, ground (arith, made, m, l), ground (arith, made, m, l, r), h3)

pub readdir-member :
    (p : FilePath) (fs : Fs) {names : List Text} (a : Text)
    → readdir p fs ≡ ok names
    → member a names ≡ is_some (find_node (p ++ a ∷ []) fs)
unfolding readdir
readdir-member p fs a h = ground (arith, member-child_names p a fs)

copied_over :
    (source root : FilePath) (fs : Fs) {n : ℕ} {fs' : Fs} (a : Text)
    → source ≢ root
    → is_function_file a ≡ true
    → find_node (root ++ a ∷ []) fs ≡ none
    → copy_phase source root (file_exists source fs) fs ≡ (ok n, fs')
    → find_node (root ++ a ∷ []) fs'
      ≡ (if file_exists source fs then find_node (source ++ a ∷ []) fs else none)
unfolding is_some
copied_over source root fs {n} {fs'} a apart v gone h = elim (Bool-cases (file_exists source fs)) [
  | inl there ↦
      let (new, fs1, l, rest) =
        >>=-ok (list_dir source) (λ new. copy_files source root new 0) fs (rw there at h) in
      ground (
        arith,
        there,
        l,
        gone,
        readdir-member source fs {names = new} a (ground (arith, l)),
        find_node-copy_files source root apart new 0 fs1 a v rest,
      )
  | inr absent ↦ ground (arith, absent, gone)
]

pub file_exists_other :
    (source root : FilePath) (old : List Text) (fs : Fs) {fs2 : Fs}
    → parent source ≢ root
    → remove_files root old fs ≡ (ok tt, fs2)
    → file_exists source fs2 ≡ file_exists source fs
unfolding file_exists stat
file_exists_other [] root old fs outside h = refl
file_exists_other (c ∷ source) root old fs outside h =
    rw (find_node-remove_files_other root old fs (c ∷ source) away h, file_exists)
  where
    away : (a : Text) → path_eq (root ++ a ∷ []) (c ∷ source) ≡ false
    away a = elim (Bool-cases (path_eq (root ++ a ∷ []) (c ∷ source))) [
      | inl same ↦ absurd (
          outside (
            cc (
              parent-child root a,
              ap parent ((path_eq_iff (root ++ a ∷ []) (c ∷ source)).0 same),
            )))
      | inr other ↦ other
    ]

-- When the replacement of the files returns, there is under each function file's name in the
-- runtime's folder exactly what the source held under it, and nothing if there is no source. The
-- runtime's folder must be there before, and the source must be another folder outside of it.
pub replace_files_mirror :
    (source root : FilePath) (fs : Fs) {n : ℕ} {fs' : Fs} (a : Text)
    → source ≢ root
    → parent source ≢ root
    → IsMade root fs
    → is_function_file a ≡ true
    → replace_files source root fs ≡ (ok n, fs')
    → find_node (root ++ a ∷ []) fs'
      ≡ (if file_exists source fs then find_node (source ++ a ∷ []) fs else none)
unfolding is_some
replace_files_mirror source root fs {n} {fs'} a apart outside made v h =
    let (old, fs2, l, r, c) = replace_files-ok source root fs made h in
    ground (
      arith,
      copied_over source root fs2 {n = n} {fs' = fs'} a apart v
          (ground (
            arith,
            find_node-remove_files root old fs {fs' = fs2} a v r,
            readdir-member root fs a l,
          ))
          c,
      file_exists_other source root old fs {fs2 = fs2} outside r,
      find_node-remove_files_other root old fs {fs' = fs2} (source ++ a ∷ [])
          (λ b. path_eq_other root source b a (λ e. apart (sym e))) r,
    )
