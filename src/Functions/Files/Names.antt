-- ===== src/Functions/Files/Names.antt =====
-- Which names are function files.
use litefunctions.Prelude.{
  ℕ, ◌≡◌, ◌≢◌, ◌↔◌, refl, true, [], ◌∷◌, ◌++◌, All, all, arith, none, some, Option-cases, inl, inr,
}
use litefunctions.Text.{Text, codes, text_eq, strip_suffix}
use litefunctions.Text.Split.{Lacks, split_of_Lacks}
use litefunctions.Text.Search.{strip_suffix-eq}
use litefunctions.Fs.{FilePath, path_join, resolve}
use litefunctions.Functions.Files.{is_word, is_stem, is_function_file, basename_ts}

-- A function's name: one or more letters, digits, "_" and "-".
abbrev pub IsFunctionName : Text → Type 0
IsFunctionName s = (s ≢ []) × All (λ c. is_word c ≡ true) s

all-All : (s : Text) → all is_word s ≡ true → All (λ c. is_word c ≡ true) s
all-All [] h = tt
all-All (c ∷ s) h = ground (arith, all-All s)

All-all : (s : Text) → All (λ c. is_word c ≡ true) s → all is_word s ≡ true
All-all [] h = refl
All-all (c ∷ s) (p, h) = ground (arith, All-all s h)

pub is_stem_iff : (s : Text) → (is_stem s ≡ true) ↔ IsFunctionName s
is_stem_iff [] = ground arith
is_stem_iff (c ∷ s) = (λ h. (ground arith, all-All (c ∷ s) h), λ h. All-all (c ∷ s) h.1)

word-ne-dot : (c : ℕ) → is_word c ≡ true → (c ≢ b'.') × (c ≢ b'/')
word-ne-dot c h = ground arith

-- The extension is taken off a name that holds no dot before it.
pub strip_ts :
    (stem : Text)
    → All (λ c. is_word c ≡ true) stem
    → strip_suffix (codes ".ts") (stem ++ codes ".ts") ≡ some stem
unfolding strip_suffix text_eq
strip_ts [] h = refl
strip_ts (c ∷ stem) (p, h) = ground (arith, word-ne-dot c p, strip_ts stem h)

strip_d_ts :
    (stem : Text)
    → All (λ c. is_word c ≡ true) stem
    → strip_suffix (codes ".d.ts") (stem ++ codes ".ts") ≡ none
unfolding strip_suffix text_eq
strip_d_ts [] h = refl
strip_d_ts (c ∷ stem) (p, h) = ground (arith, word-ne-dot c p, strip_d_ts stem h)

is_function_file-stem :
    (name : Text)
    → is_function_file name ≡ true
    → (stem : Text) × (name ≡ stem ++ codes ".ts") × IsFunctionName stem
unfolding is_function_file
is_function_file-stem name h = elim (Option-cases (strip_suffix (codes ".ts") name)) [
  | inl missing ↦ absurd (ground (arith, missing))
  | inr (stem, found) ↦
      (stem, strip_suffix-eq (codes ".ts") name found, (is_stem_iff stem).0 (ground (arith, found)))
]

pub is_function_file_of_stem :
    (stem : Text) → IsFunctionName stem → is_function_file (stem ++ codes ".ts") ≡ true
unfolding is_function_file
is_function_file_of_stem stem (ne, w) =
    ground (arith, strip_ts stem w, strip_d_ts stem w, (is_stem_iff stem).1 (ne, w))

-- `isFunctionFile` accepts exactly a function's name with ".ts" behind it: the second test, for
-- ".d.ts", refuses nothing that the regular expression accepts.
pub is_function_file_iff :
    (name : Text)
    → (is_function_file name ≡ true)
      ↔ ((stem : Text) × (name ≡ stem ++ codes ".ts") × IsFunctionName stem)
is_function_file_iff name =
    (is_function_file-stem name, λ (stem, e, f). rw e (is_function_file_of_stem stem f))

pub basename_ts-stem :
    (stem : Text) → IsFunctionName stem → basename_ts (stem ++ codes ".ts") ≡ stem
unfolding basename_ts
basename_ts-stem stem (_, h) = ground (arith, strip_ts stem h)

Lacks_slash : (s : Text) → All (λ c. is_word c ≡ true) s → Lacks b'/' (s ++ codes ".ts")
Lacks_slash [] h = omega arith
Lacks_slash (c ∷ s) (p, h) = ((word-ne-dot c p).1, Lacks_slash s h)

resolve_file :
    (p : FilePath) (stem : Text)
    → IsFunctionName stem
    → resolve p (stem ++ codes ".ts") ≡ p ++ (stem ++ codes ".ts") ∷ []
unfolding resolve text_eq
resolve_file p [] (ne, h) = absurd (ne refl)
resolve_file p (c ∷ s) (ne, (q, h)) = ground (arith, word-ne-dot c q)

-- A function file stands directly in the folder that its name is joined to.
pub path_join-function_file :
    (p : FilePath) (name : Text) → is_function_file name ≡ true → path_join p name ≡ p ++ name ∷ []
unfolding path_join
path_join-function_file p name h =
    let (stem, e, f) = is_function_file-stem name h in
    rw e (
      rw (split_of_Lacks b'/' (stem ++ codes ".ts") (Lacks_slash stem f.1)) (resolve_file p stem f))
