-- ===== src/Functions/Files/Listing.antt =====
-- `listFunctions` (runtimes/ts/pkg/functions.ts): which names it gives, and in which order.
use litefunctions.Prelude.{
  ◌≡◌, refl, sym, ap, ◌∙◌, true, false, ◌&&◌, ◌||◌, List, [], ◌∷◌, ◌++◌, if◌then◌else◌, arith, some,
  Bool-cases, inl, inr,
}
use litefunctions.Prelude.Exec.{ok}
use litefunctions.Text.{Text, codes, text_eq, is_some, strip_suffix}
use litefunctions.Text.Equality.{text_eq_iff}
use litefunctions.JsMap.{member, set_of}
use litefunctions.JsMap.Laws.{IsNodup, member-set_of, set_of-IsNodup}
use litefunctions.Fs.{folder, stat, find_node, readdir, child_names, file_exists}
use litefunctions.Fs.Laws.{member-child_names}
use litefunctions.World.{World, Engine}
use litefunctions.Functions.Repo.{runtime_functions_path}
use litefunctions.Functions.Files.{
  is_stem, is_function_file, basename_ts, function_names, text_le, insert, sort, list_functions,
}
use litefunctions.Functions.Files.Names.{
  IsFunctionName, is_stem_iff, strip_ts, is_function_file_iff, is_function_file_of_stem,
  basename_ts-stem,
}

ts_append_eq :
    (s k : Text)
    → IsFunctionName s
    → IsFunctionName k
    → text_eq (s ++ codes ".ts") (k ++ codes ".ts") ≡ text_eq s k
ts_append_eq s k f g = elim (Bool-cases (text_eq s k)) [
  | inl same ↦ rw same (
      (text_eq_iff (s ++ codes ".ts") (k ++ codes ".ts")).1
        (ap (λ t. t ++ codes ".ts") ((text_eq_iff s k).0 same)))
  | inr other ↦ elim (Bool-cases (text_eq (s ++ codes ".ts") (k ++ codes ".ts"))) [
    | inr apart ↦ rw (other, apart) refl
    | inl same ↦
        let e = (text_eq_iff (s ++ codes ".ts") (k ++ codes ".ts")).0 same in
        let same_stem : s ≡ k =
          cc (strip_ts s f.1, strip_ts k g.1, ap (strip_suffix (codes ".ts")) e) in
        absurd (ground (arith, text_eq_iff s k, same_stem, other))
  ]
]

-- One entry of the folder adds its stem, if it is a function file.
entry_step :
    (k entry : Text)
    → (if is_function_file entry then text_eq (basename_ts entry) k else false)
      ≡ (is_stem k && text_eq entry (k ++ codes ".ts"))
entry_step k entry = elim (Bool-cases (is_function_file entry)) [
  | inl v ↦
      let (stem, e, f) = (is_function_file_iff entry).0 v in
      elim (Bool-cases (is_stem k)) [
        | inl g ↦
            rw (v, g)
              (ap (λ t. text_eq (basename_ts t) k) e
                ∙ ap (λ t. text_eq t k) (basename_ts-stem stem f)
                ∙ sym (ts_append_eq stem k f ((is_stem_iff k).0 g))
                ∙ ap (λ t. text_eq t (k ++ codes ".ts")) (sym e))
        | inr g ↦ ground (
          arith,
          v,
          g,
          ap basename_ts e,
          basename_ts-stem stem f,
          text_eq_iff (basename_ts entry) k,
          (is_stem_iff stem).1 f,
          ap is_stem {x = stem} {y = k},
        )
      ]
  | inr v ↦ ground (
    arith,
    v,
    text_eq_iff entry (k ++ codes ".ts"),
    is_function_file_of_stem k,
    is_stem_iff k,
    ap is_function_file {x = entry} {y = k ++ codes ".ts"},
  )
]

member-function_names :
    (k : Text) (entries : List Text)
    → member k (function_names entries) ≡ (is_stem k && member (k ++ codes ".ts") entries)
unfolding member function_names
member-function_names k [] = ground arith
member-function_names k (entry ∷ entries) =
    ground (arith, entry_step k entry, member-function_names k entries)

text_le_total : (s t : Text) → text_le s t ≡ false → text_le t s ≡ true
unfolding text_le
text_le_total [] t h = ground arith
text_le_total (a ∷ s) [] h = refl
text_le_total (a ∷ s) (b ∷ t) h = ground (arith, text_le_total s t)

abbrev pub IsSorted : List Text → Type 0
IsSorted [] = Unit
IsSorted (x ∷ []) = Unit
IsSorted (x ∷ y ∷ ys) = (text_le x y ≡ true) × IsSorted (y ∷ ys)

insert-IsSorted : (x : Text) (ys : List Text) → IsSorted ys → IsSorted (insert x ys)
unfolding insert
insert-IsSorted x [] h = tt
insert-IsSorted x (y ∷ []) h = elim (Bool-cases (text_le x y)) [
  | inl first ↦ rw first (first, tt)
  | inr later ↦ rw later (text_le_total x y later, tt)
]
insert-IsSorted x (y ∷ z ∷ ys) (p, h) = elim (Bool-cases (text_le x y)) [
  | inl first ↦ rw first (first, (p, h))
  | inr later ↦ elim (Bool-cases (text_le x z)) [
    | inl second ↦ rw (later, second) (text_le_total x y later, (second, h))
    | inr last ↦ rw (later, last) (p, rw last at (insert-IsSorted x (z ∷ ys) h))
  ]
]

pub sort-IsSorted : (xs : List Text) → IsSorted (sort xs)
unfolding sort
sort-IsSorted [] = tt
sort-IsSorted (x ∷ xs) = insert-IsSorted x (sort xs) (sort-IsSorted xs)

member-insert :
    (k x : Text) (ys : List Text) → member k (insert x ys) ≡ (text_eq x k || member k ys)
unfolding member insert
member-insert k x [] = refl
member-insert k x (y ∷ ys) = ground (arith, member-insert k x ys)

pub member-sort : (k : Text) (xs : List Text) → member k (sort xs) ≡ member k xs
unfolding member sort
member-sort k [] = refl
member-sort k (x ∷ xs) = ground (arith, member-insert k x (sort xs), member-sort k xs)

insert-IsNodup :
    (x : Text) (ys : List Text) → member x ys ≡ false → IsNodup ys → IsNodup (insert x ys)
unfolding member insert
insert-IsNodup x [] out d = ground arith
insert-IsNodup x (y ∷ ys) out (p, d) =
    ground (arith, member-insert y x ys, text_eq_iff x y, text_eq_iff y x, insert-IsNodup x ys)

pub sort-IsNodup : (xs : List Text) → IsNodup xs → IsNodup (sort xs)
unfolding sort
sort-IsNodup [] d = d
sort-IsNodup (x ∷ xs) (out, d) =
    insert-IsNodup x (sort xs) (member-sort x xs ∙ out) (sort-IsNodup xs d)

-- `listFunctions` of a folder that is there returns the names of its function files, sorted and each
-- once, and leaves the world: `k` is among them exactly if it is a function's name and there is a
-- `k.ts` in the folder.
pub list_functions-lem :
    (e : Engine) (w : World) (k : Text)
    → stat (runtime_functions_path e) w.fs ≡ some folder
    → (names : List Text) × (list_functions e w ≡ (ok names, w))
      × IsSorted names
      × IsNodup names
      × (member k names ≡ (
          is_stem k
          && is_some (find_node (runtime_functions_path e ++ (k ++ codes ".ts") ∷ []) w.fs)))
unfolding list_functions file_exists readdir
list_functions-lem e w k made =
    let root = runtime_functions_path e in
    let found = set_of (function_names (child_names root w.fs)) in
    (
      sort found,
      ground (arith, made),
      sort-IsSorted found,
      sort-IsNodup found (set_of-IsNodup (function_names (child_names root w.fs))),
      member-sort k found
          ∙ member-set_of k (function_names (child_names root w.fs))
          ∙ member-function_names k (child_names root w.fs)
          ∙ ap (λ b. is_stem k && b) (member-child_names root (k ++ codes ".ts") w.fs),
    )
