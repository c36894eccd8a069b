-- ===== src/Functions/Files/Loops.antt =====
-- The loops of `syncRuntimeFunctionsDir` (runtimes/ts/pkg/functions.ts) that remove and copy the function
-- files: what each leaves in the file tree.
use litefunctions.Prelude.{
  ℕ, ◌+◌, ◌≡◌, ◌≢◌, refl, sym, true, false, List, [], ◌∷◌, ◌++◌, if◌then◌else◌, arith, none, some,
  Bool-cases, inl, inr,
}
use litefunctions.Prelude.Exec.{Result, ok, err, continue, >>=-ok}
use litefunctions.Text.{Text}
use litefunctions.Text.Equality.{text_eq_iff}
use litefunctions.JsMap.{member}
use litefunctions.Fs.{
  FilePath, Fs, file, path_eq, find_node, path_join, read_file, write_file, rm_force,
}
use litefunctions.Fs.Laws.{
  path_eq_iff, find_node-put_node, find_node-remove_node, stat-child, path_eq-child, path_eq_other,
}
use litefunctions.Functions.Files.{is_function_file, remove_files, copy_file, copy_files}
use litefunctions.Functions.Files.Names.{path_join-function_file}

module _ (p : FilePath) (a : Text) (fs : Fs) {fs' : Fs} where
  -- What `rm` of a file leaves.
  pub find_node-rm_force :
      (q : FilePath)
      → rm_force (p ++ a ∷ []) fs ≡ (ok tt, fs')
      → find_node q fs' ≡ (if path_eq (p ++ a ∷ []) q then none else find_node q fs)
  unfolding rm_force
  find_node-rm_force q h = ground (
    arith,
    stat-child p a fs,
    find_node-remove_node (p ++ a ∷ []) q fs,
    path_eq_iff (p ++ a ∷ []) q,
  )

  pub find_node-write_file :
      (q : FilePath) (b : List ℕ)
      → write_file (p ++ a ∷ []) b fs ≡ (ok tt, fs')
      → find_node q fs' ≡ (if path_eq (p ++ a ∷ []) q then some (file b) else find_node q fs)
  unfolding write_file
  find_node-write_file q b h = ground (arith, find_node-put_node (p ++ a ∷ []) q (file b) fs)

pub find_node_of_read_file :
    (p : FilePath) (a : Text) (fs : Fs) {b : List ℕ}
    → read_file (p ++ a ∷ []) fs ≡ ok b
    → find_node (p ++ a ∷ []) fs ≡ some (file b)
unfolding read_file
find_node_of_read_file p a fs h = ground (arith, stat-child p a fs)

-- The loop that removes: each listed function file is gone, and all else is as before.
module _ (root : FilePath) where
  pub find_node-remove_files :
      (es : List Text) (fs : Fs) {fs' : Fs} (a : Text)
      → is_function_file a ≡ true
      → remove_files root es fs ≡ (ok tt, fs')
      → find_node (root ++ a ∷ []) fs'
        ≡ (if member a es then none else find_node (root ++ a ∷ []) fs)
  unfolding remove_files member
  find_node-remove_files [] fs a v h = ground arith
  find_node-remove_files (x ∷ es) fs {fs'} a v h = elim (Bool-cases (is_function_file x)) [
    | inl yes' ↦
        let (u, fs1, removed, rest) =
          >>=-ok (rm_force (path_join root x)) (λ _. remove_files root es) fs (rw yes' at h) in
        ground (
          arith,
          find_node-rm_force root x fs {fs' = fs1} (root ++ a ∷ [])
              (rw (path_join-function_file root x yes') at removed),
          path_eq-child root x a,
          find_node-remove_files es fs1 a v rest,
        )
    | inr no' ↦ ground (arith, no', text_eq_iff x a, find_node-remove_files es fs a v (rw no' at h))
  ]

  -- What stands in another folder is left alone.
  pub find_node-remove_files_other :
      (es : List Text) (fs : Fs) {fs' : Fs} (q : FilePath)
      → ((a : Text) → path_eq (root ++ a ∷ []) q ≡ false)
      → remove_files root es fs ≡ (ok tt, fs')
      → find_node q fs' ≡ find_node q fs
  unfolding remove_files
  find_node-remove_files_other [] fs q away h = ground arith
  find_node-remove_files_other (x ∷ es) fs {fs'} q away h = elim (Bool-cases (is_function_file x)) [
    | inl yes' ↦
        let (u, fs1, removed, rest) =
          >>=-ok (rm_force (path_join root x)) (λ _. remove_files root es) fs (rw yes' at h) in
        ground (
          arith,
          find_node-rm_force root x fs {fs' = fs1} q
              (rw (path_join-function_file root x yes') at removed),
          away x,
          find_node-remove_files_other es fs1 q away rest,
        )
    | inr no' ↦ find_node-remove_files_other es fs q away (rw no' at h)
  ]

pub copy_file-continue :
    (source root : FilePath) (x : Text) (fs : Fs)
    → is_function_file x ≡ true
    → copy_file source root x fs
      ≡ continue (λ b. write_file (root ++ x ∷ []) b) (read_file (source ++ x ∷ []) fs) fs
unfolding copy_file
copy_file-continue source root x fs v =
    rw (path_join-function_file source x v, path_join-function_file root x v)

pub written :
    (p : FilePath) (r : Result (List ℕ)) (fs : Fs) {fs' : Fs}
    → continue (λ b. write_file p b) r fs ≡ (ok tt, fs')
    → (b : List ℕ) × (r ≡ ok b) × (write_file p b fs ≡ (ok tt, fs'))
written p (ok b) fs h = (b, refl, h)
written p (err e) fs h = cc

-- One copy: the file of the source stands under its name in the runtime's folder.
pub copy_file-ok :
    (source root : FilePath) (x : Text) (fs : Fs) {fs' : Fs}
    → is_function_file x ≡ true
    → copy_file source root x fs ≡ (ok tt, fs')
    → (b : List ℕ) × (find_node (source ++ x ∷ []) fs ≡ some (file b))
      × (write_file (root ++ x ∷ []) b fs ≡ (ok tt, fs'))
copy_file-ok source root x fs v h =
    let (b, got, put) =
      written (root ++ x ∷ []) (read_file (source ++ x ∷ []) fs) fs
        (rw (copy_file-continue source root x fs v) at h) in
    (b, find_node_of_read_file source x fs got, put)

module _ (source root : FilePath) (apart : source ≢ root) where
  -- The loop that copies: under each listed name stands what the source holds under it.
  pub find_node-copy_files :
      (es : List Text) (n : ℕ) (fs : Fs) {m : ℕ} {fs' : Fs} (a : Text)
      → is_function_file a ≡ true
      → copy_files source root es n fs ≡ (ok m, fs')
      → (find_node (root ++ a ∷ []) fs' ≡ (
          if member a es then find_node (source ++ a ∷ []) fs else find_node (root ++ a ∷ []) fs))
        × (find_node (source ++ a ∷ []) fs' ≡ find_node (source ++ a ∷ []) fs)
  unfolding copy_files member
  find_node-copy_files [] n fs a v h = ground arith
  find_node-copy_files (x ∷ es) n fs {m} {fs'} a v h = elim (Bool-cases (is_function_file x)) [
    | inl yes' ↦
        let (u, fs1, copied, rest) =
          >>=-ok (copy_file source root x) (λ _. copy_files source root es (n + 1)) fs
            (rw yes' at h) in
        let (b, got, put) = copy_file-ok source root x fs {fs' = fs1} yes' copied in
        ground (
          arith,
          got,
          find_node-write_file root x fs {fs' = fs1} (root ++ a ∷ []) b put,
          find_node-write_file root x fs {fs' = fs1} (source ++ a ∷ []) b put,
          path_eq-child root x a,
          path_eq_other root source x a (λ e. apart (sym e)),
          text_eq_iff x a,
          find_node-copy_files es (n + 1) fs1 a v rest,
        )
    | inr no' ↦ ground (arith, no', text_eq_iff x a, find_node-copy_files es n fs a v (rw no' at h))
  ]
