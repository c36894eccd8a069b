-- ===== src/Functions/Files/Segments/Ends.antt =====
-- `syncRuntimeFunctionsDir` (runtimes/ts/pkg/functions.ts), cut at its awaits, comes to an end.
use litefunctions.Prelude.{
  ℕ, zero, suc, ◌+◌, ◌≤◌, ◌≡◌, ◌-◌, ◌*◌, length, refl, List, [], ◌∷◌, arith, inl, inr, Bool-cases,
}
use litefunctions.Prelude.Exec.{Result, ok, err, Result-cases}
use litefunctions.Text.{Text}
use litefunctions.Fs.{
  FilePath, Fs, path_join, file_exists, read_file, write_file, rm_force, readdir, mkdir_recursive,
}
use litefunctions.World.{World, Engine}
use litefunctions.Functions.Repo.{runtime_functions_path}
use litefunctions.Functions.Files.{is_function_file, remove_files, clear_module_cache}
use litefunctions.Functions.Files.Segments.{
  Phase, making, listing_old, removing, listing_new, copying, writing, clearing, returned,
  file_segment, segment,
}

module _ (source root : FilePath) where
  -- What a segment does to the files, that of the clearing included.
  abbrev pub cut : Phase → Fs → Phase × Fs
  cut (clearing n) fs = (returned (ok n), fs)
  cut making fs = file_segment source root making fs
  cut listing_old fs = file_segment source root listing_old fs
  cut (removing old) fs = file_segment source root (removing old) fs
  cut listing_new fs = file_segment source root listing_new fs
  cut (copying new n) fs = file_segment source root (copying new n) fs
  cut (writing entry b new n) fs = file_segment source root (writing entry b new n) fs
  cut (returned r) fs = file_segment source root (returned r) fs

  -- A number of segments.
  unfoldable pub cuts : ℕ → Phase × Fs → Phase × Fs
  unfolding file_segment
  cuts zero p = p
  cuts (suc k) (p, fs) = cuts k (cut p fs)

  -- How many segments there are to come, at most: one for each entry of the runtime's folder, two
  -- for each of the source, and those in between.
  abbrev pub entry_count : Result (List Text) → ℕ
  entry_count (ok entries) = length entries
  entry_count (err x) = 0

  unfoldable pub removing_left : List Text → Fs → ℕ
  removing_left old fs =
      4 + length old + 2 * entry_count (readdir source (remove_files root old fs).1)

  unfoldable listing_left : Result (List Text) → Fs → ℕ
  listing_left (ok old) fs = removing_left old fs
  listing_left (err x) fs = 0

  unfoldable pub segments_left : Phase → Fs → ℕ
  unfolding removing_left listing_left remove_files readdir mkdir_recursive
  segments_left making fs =
      let fs' = (mkdir_recursive root fs).1 in 2 + listing_left (readdir root fs') fs'
  segments_left listing_old fs = 1 + listing_left (readdir root fs) fs
  segments_left (removing old) fs = removing_left old fs
  segments_left listing_new fs = 3 + 2 * entry_count (readdir source fs)
  segments_left (copying new n) fs = 2 + 2 * length new
  segments_left (writing entry b new n) fs = 3 + 2 * length new
  segments_left (clearing n) fs = 1
  segments_left (returned r) fs = 0

  pub segments_left-cut :
      (p : Phase) (fs : Fs) → segments_left (cut p fs).0 (cut p fs).1 ≤ segments_left p fs - 1
  unfolding file_segment segments_left remove_files listing_left removing_left
  segments_left-cut making fs = elim (Result-cases (mkdir_recursive root fs).0) [
    | inr (x, bad) ↦ rw bad (omega arith)
    | inl (u, good) ↦ rw good (omega arith)
  ]
  segments_left-cut listing_old fs = elim (Result-cases (readdir root fs)) [
    | inr (x, bad) ↦ rw bad (omega arith)
    | inl (old, good) ↦ rw good (omega arith)
  ]
  segments_left-cut (removing []) fs = elim (Bool-cases (file_exists source fs)) [
    | inl there ↦ rw there (omega arith)
    | inr missing ↦ rw missing (omega arith)
  ]
  segments_left-cut (removing (entry ∷ old)) fs = elim (Bool-cases (is_function_file entry)) [
    | inr other ↦ rw other (omega arith)
    | inl own ↦ elim (Result-cases (rm_force (path_join root entry) fs).0) [
      | inr (x, bad) ↦ rw own (rw bad (omega arith))
      | inl (u, good) ↦ rw own (rw good (omega arith))
    ]
  ]
  segments_left-cut listing_new fs = elim (Result-cases (readdir source fs)) [
    | inr (x, bad) ↦ rw bad (omega arith)
    | inl (new, good) ↦ rw good (omega arith)
  ]
  segments_left-cut (copying [] n) fs = omega arith
  segments_left-cut (copying (entry ∷ new) n) fs = elim (Bool-cases (is_function_file entry)) [
    | inr other ↦ rw other (omega arith)
    | inl own ↦ elim (Result-cases (read_file (path_join source entry) fs)) [
      | inr (x, bad) ↦ rw own (rw bad (omega arith))
      | inl (b, good) ↦ rw own (rw good (omega arith))
    ]
  ]
  segments_left-cut (writing entry b new n) fs =
      elim (Result-cases (write_file (path_join root entry) b fs).0) [
        | inr (x, bad) ↦ rw bad (omega arith)
        | inl (u, good) ↦ rw good (omega arith)
      ]
  segments_left-cut (clearing n) fs = omega arith
  segments_left-cut (returned r) fs = omega arith

  none-left : (p : Phase) (fs : Fs) → segments_left p fs ≡ 0 → (r : Result ℕ) × (p ≡ returned r)
  unfolding segments_left listing_left removing_left
  none-left making fs h = absurd (omega arith)
  none-left listing_old fs h = absurd (omega arith)
  none-left (removing old) fs h = absurd (omega arith)
  none-left listing_new fs h = absurd (omega arith)
  none-left (copying new n) fs h = absurd (omega arith)
  none-left (writing entry b new n) fs h = absurd (omega arith)
  none-left (clearing n) fs h = absurd (omega arith)
  none-left (returned r) fs h = (r, refl)

  -- That many segments are enough for the sync to return.
  pub cuts-end :
      (k : ℕ) (p : Phase × Fs)
      → segments_left p.0 p.1 ≤ k
      → (r : Result ℕ) × ((cuts k p).0 ≡ returned r)
  unfolding cuts
  cuts-end zero (p, fs) h = none-left p fs (omega arith)
  cuts-end (suc k) (p, fs) h = cuts-end k (cut p fs) (omega (arith, segments_left-cut p fs))

pub segment-cut :
    (e : Engine) (source : FilePath) (p : Phase) (w : World)
    → let (p', w') = segment e source p w in
      (p', w'.fs) ≡ cut source (runtime_functions_path e) p w.fs
unfolding segment clear_module_cache
segment-cut e source making w = refl
segment-cut e source listing_old w = refl
segment-cut e source (removing old) w = refl
segment-cut e source listing_new w = refl
segment-cut e source (copying new n) w = refl
segment-cut e source (writing entry b new n) w = refl
segment-cut e source (clearing n) w = refl
segment-cut e source (returned r) w = refl
