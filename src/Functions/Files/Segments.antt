-- ===== src/Functions/Files/Segments.antt =====
-- `syncRuntimeFunctionsDir` (runtimes/ts/pkg/functions.ts) cut at its awaits: what runs from one wait
-- to the next, so that other code may run in between. An entry that is no function file is passed
-- over in a segment of its own, so that there are more places to run in between than in the code.
pub mod Ends
use litefunctions.Prelude.{
  ℕ, zero, suc, ◌+◌, ◌≡◌, refl, sym, ap, ◌∙◌, true, false, List, [], ◌∷◌, arith, inl, inr,
  Bool-cases, if◌then◌else◌,
}
use litefunctions.Prelude.Exec.{
  Result, ok, err, Result-cases, Exec, pure, gets, ◌>>=◌, ◌>>◌, continue,
}
use litefunctions.Text.{Text}
use litefunctions.Text.Utf8.{Bytes}
use litefunctions.Fs.{
  FilePath, Fs, path_join, file_exists, read_file, write_file, rm_force, readdir, mkdir_recursive,
}
use litefunctions.World.{World, Engine}
use litefunctions.Functions.Repo.{runtime_functions_path}
use litefunctions.Functions.Files.{
  is_function_file, clear_module_cache, remove_files, copy_file, copy_files, replace_files,
}

-- Where the sync waits, with what it still has to do: the entries of the runtime's folder that it
-- goes through, those of the source, and a file's content that it has read.
pub data Phase : Type 0 where
  making : Phase
  listing_old : Phase
  removing : List Text → Phase
  listing_new : Phase
  copying : List Text → ℕ → Phase
  writing : Text → Bytes → List Text → ℕ → Phase
  clearing : ℕ → Phase
  returned : Result ℕ → Phase

-- After a call that may fail.
abbrev pub proceed {ℓ} : {A : Type ℓ} → (A → Phase) → Result A → Phase
proceed f (ok a) = f a
proceed f (err x) = returned (err x)

module _ (source root : FilePath) where
  -- One segment, up to the clearing of the cache.
  unfoldable pub file_segment : Phase → Fs → Phase × Fs
  unfolding mkdir_recursive readdir rm_force path_join is_function_file file_exists read_file
      write_file
  file_segment making fs =
      let (r, fs') = mkdir_recursive root fs in (proceed (λ _. listing_old) r, fs')
  file_segment listing_old fs = (proceed removing (readdir root fs), fs)
  file_segment (removing []) fs = (if file_exists source fs then listing_new else clearing 0, fs)
  file_segment (removing (entry ∷ entries)) fs =
      if is_function_file entry
      then (let (r, fs') = rm_force (path_join root entry) fs in
          (proceed (λ _. removing entries) r, fs'))
      else (removing entries, fs)
  file_segment listing_new fs = (proceed (λ new. copying new 0) (readdir source fs), fs)
  file_segment (copying [] n) fs = (clearing n, fs)
  file_segment (copying (entry ∷ entries) n) fs =
      if is_function_file entry
      then (proceed (λ b. writing entry b entries n) (read_file (path_join source entry) fs), fs)
      else (copying entries n, fs)
  file_segment (writing entry b entries n) fs =
      let (r, fs') = write_file (path_join root entry) b fs in
      (proceed (λ _. copying entries (n + 1)) r, fs')
  file_segment (clearing n) fs = (clearing n, fs)
  file_segment (returned r) fs = (returned r, fs)

  -- What the sync has still to do, as a whole.
  unfoldable pub rest_of : Phase → Exec Fs ℕ
  unfolding replace_files copy_files remove_files
  rest_of making = replace_files source root
  rest_of listing_old = do
    old ← λ fs. (readdir root fs, fs)
    remove_files root old
    there ← gets (file_exists source)
    if there
        then (do new ← (λ fs. (readdir source fs, fs)); copy_files source root new 0)
        else pure 0
  rest_of (removing old) = do
    remove_files root old
    there ← gets (file_exists source)
    if there
        then (do new ← (λ fs. (readdir source fs, fs)); copy_files source root new 0)
        else pure 0
  rest_of listing_new = do new ← (λ fs. (readdir source fs, fs)); copy_files source root new 0
  rest_of (copying new n) = copy_files source root new n
  rest_of (writing entry b entries n) = do
    write_file (path_join root entry) b
    copy_files source root entries (n + 1)
  rest_of (clearing n) = pure n
  rest_of (returned r) = λ fs. (r, fs)

  -- A segment does the first part of what was to be done.
  pub rest_of-file_segment :
      (p : Phase) (fs : Fs) → rest_of (file_segment p fs).0 (file_segment p fs).1 ≡ rest_of p fs
  unfolding rest_of file_segment copy_file
  rest_of-file_segment making fs = elim (Result-cases (mkdir_recursive root fs).0) [
    | inl (u, good) ↦ rw good refl
    | inr (x, bad) ↦ rw bad refl
  ]
  rest_of-file_segment listing_old fs = elim (Result-cases (readdir root fs)) [
    | inl (u, good) ↦ rw good refl
    | inr (x, bad) ↦ rw bad refl
  ]
  rest_of-file_segment (removing []) fs = elim (Bool-cases (file_exists source fs)) [
    | inl there ↦ rw there refl
    | inr missing ↦ rw missing refl
  ]
  rest_of-file_segment (removing (entry ∷ entries)) fs =
      elim (Bool-cases (is_function_file entry)) [
        | inr other ↦ rw other refl
        | inl own ↦ elim (Result-cases (rm_force (path_join root entry) fs).0) [
          | inl (u, good) ↦ rw own (rw good refl)
          | inr (x, bad) ↦ rw own (rw bad refl)
        ]
      ]
  rest_of-file_segment listing_new fs = elim (Result-cases (readdir source fs)) [
    | inl (u, good) ↦ rw good refl
    | inr (x, bad) ↦ rw bad refl
  ]
  rest_of-file_segment (copying [] n) fs = refl
  rest_of-file_segment (copying (entry ∷ entries) n) fs =
      elim (Bool-cases (is_function_file entry)) [
        | inr other ↦ rw other refl
        | inl own ↦ elim (Result-cases (read_file (path_join source entry) fs)) [
          | inl (b, good) ↦ rw own (rw good refl)
          | inr (x, bad) ↦ rw own (rw bad refl)
        ]
      ]
  rest_of-file_segment (writing entry b entries n) fs =
      elim (Result-cases (write_file (path_join root entry) b fs).0) [
        | inl (u, good) ↦ rw good refl
        | inr (x, bad) ↦ rw bad refl
      ]
  rest_of-file_segment (clearing n) fs = refl
  rest_of-file_segment (returned r) fs = refl

-- One segment of the sync in the world: the cache is cleared behind the last of the files.
unfoldable pub segment : Engine → FilePath → Phase → World → Phase × World
unfolding file_segment clear_module_cache runtime_functions_path
segment e source (clearing n) w = (returned (ok n), clear_module_cache w)
segment e source p w =
    let (p', fs') = file_segment source (runtime_functions_path e) p w.fs in
    (p', record w { fs = fs' })
