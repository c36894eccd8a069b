-- ===== src/Fs/Folders.antt =====
-- `mkdir(p, { recursive: true })`: it leaves a folder, and is done the second time.
use litefunctions.Prelude.{
  ◌≡◌, refl, ap, ◌∙◌, subst, List, [], ◌∷◌, ◌++◌, some, if◌then◌else◌, arith, append-nil,
  append_assoc, Option-cases, inl, inr, ◌⊎◌,
}
use litefunctions.Prelude.Exec.{Result, ok, err}
use litefunctions.Text.{Text}
use litefunctions.Fs.{
  FilePath, Fs, Node, file, folder, path_eq, put_node, stat, make_over, mkdir_from, mkdir_recursive,
}
use litefunctions.Fs.Laws.{path_eq_iff, find_node-put_node}

pub Node-cases : (n : Node) → (n ≡ folder) ⊎ ((b : List _) × (n ≡ file b))
Node-cases folder = inl refl
Node-cases (file b) = inr (b, refl)

stat-put_node :
    (p r : FilePath) (fs : Fs)
    → stat r (put_node p folder fs) ≡ (if path_eq p r then some folder else stat r fs)
unfolding stat
stat-put_node p [] fs = ground arith
stat-put_node p (a ∷ r) fs = find_node-put_node p (a ∷ r) folder fs

-- Making one folder leaves it a folder, and the other folders too.
stat-make_over :
    (p r : FilePath) (fs : Fs) {fs' : Fs}
    → make_over p (stat p fs) fs ≡ (ok tt, fs')
    → (stat p fs' ≡ some folder) × ((stat r fs ≡ some folder) → (stat r fs' ≡ some folder))
stat-make_over p r fs {fs'} done = elim (Option-cases (stat p fs)) [
  | inl absent ↦
      let made : put_node p folder fs ≡ fs' = cc (rw absent at done) in
      subst (λ x. (stat p x ≡ some folder) × ((stat r fs ≡ some folder) → (stat r x ≡ some folder)))
        made
        (
          ground (arith, stat-put_node p p fs, path_eq_iff p p),
          λ h. ground (arith, stat-put_node p r fs),
        )
  | inr (n, there) ↦ elim (Node-cases n) [
    | inl is_folder ↦
        let same : fs ≡ fs' = cc (rw (there, is_folder) at done) in
        (rw (← same) (there ∙ ap some is_folder), λ h. rw (← same) h)
    | inr (b, is_file) ↦ absurd (cc (rw (there, is_file) at done))
  ]
]

-- What stands behind the first folder is made after it.
mkdir_from-ok :
    (p q : FilePath) (a : Text) (fs : Fs) {fs' : Fs}
    → mkdir_from p (a ∷ q) fs ≡ (ok tt, fs')
    → (fs1 : Fs) × (make_over p (stat p fs) fs ≡ (ok tt, fs1))
      × (mkdir_from (p ++ a ∷ []) q fs1 ≡ (ok tt, fs'))
unfolding mkdir_from
mkdir_from-ok p q a fs {fs'} h = split_ok (make_over p (stat p fs) fs) refl h
  where
    split_ok :
        (m : Result (Unit {0}) × Fs)
        → make_over p (stat p fs) fs ≡ m
        → (elim m.0 [ ok _ ↦ mkdir_from (p ++ a ∷ []) q m.1 | err e ↦ (err e, m.1) ]) ≡ (ok tt, fs')
        → (fs1 : Fs) × (make_over p (stat p fs) fs ≡ (ok tt, fs1))
          × (mkdir_from (p ++ a ∷ []) q fs1 ≡ (ok tt, fs'))
    split_ok (ok tt, fs1) e k = (fs1, e, k)
    split_ok (err x, fs1) e k = absurd (cc k)

stat-mkdir_from_kept :
    (p q r : FilePath) (fs : Fs) {fs' : Fs}
    → mkdir_from p q fs ≡ (ok tt, fs')
    → stat r fs ≡ some folder
    → stat r fs' ≡ some folder
stat-mkdir_from_kept p [] r fs {fs'} done h =
    (stat-make_over p r fs {fs' = fs'} (unfold mkdir_from in done)).1 h
stat-mkdir_from_kept p (a ∷ q) r fs done h =
    let (fs1, made, rest) = mkdir_from-ok p q a fs done in
    stat-mkdir_from_kept (p ++ a ∷ []) q r fs1 rest ((stat-make_over p r fs made).1 h)

stat-mkdir_from :
    (p q : FilePath) (fs : Fs) {fs' : Fs}
    → mkdir_from p q fs ≡ (ok tt, fs')
    → stat (p ++ q) fs' ≡ some folder
stat-mkdir_from p [] fs {fs'} done =
    rw (append-nil p) ((stat-make_over p p fs {fs' = fs'} (unfold mkdir_from in done)).0)
stat-mkdir_from p (a ∷ q) fs {fs'} done =
    let (fs1, made, rest) = mkdir_from-ok p q a fs done in
    rw (← append_assoc p (a ∷ []) q) (stat-mkdir_from (p ++ a ∷ []) q fs1 {fs' = fs'} rest)

mkdir_from_again :
    (p q : FilePath) (fs : Fs) {fs' : Fs}
    → mkdir_from p q fs ≡ (ok tt, fs')
    → mkdir_from p q fs' ≡ (ok tt, fs')
unfolding mkdir_from
mkdir_from_again p [] fs {fs'} done = rw ((stat-make_over p p fs done).0) refl
mkdir_from_again p (a ∷ q) fs {fs'} done =
    let (fs1, made, rest) = mkdir_from-ok p q a fs done in
    let here =
      stat-mkdir_from_kept (p ++ a ∷ []) q p fs1 {fs' = fs'} rest
        ((stat-make_over p p fs made).0) in
    ground (arith, here, mkdir_from_again (p ++ a ∷ []) q fs1 {fs' = fs'} rest)

-- A folder that was made is there.
pub stat-mkdir_recursive :
    (p : FilePath) (fs : Fs) {fs' : Fs}
    → mkdir_recursive p fs ≡ (ok tt, fs')
    → stat p fs' ≡ some folder
unfolding mkdir_recursive
stat-mkdir_recursive p fs {fs'} h = stat-mkdir_from [] p fs {fs' = fs'} h

-- Making it again changes nothing.
pub mkdir_recursive_again :
    (p : FilePath) (fs : Fs) {fs' : Fs}
    → mkdir_recursive p fs ≡ (ok tt, fs')
    → mkdir_recursive p fs' ≡ (ok tt, fs')
unfolding mkdir_recursive
mkdir_recursive_again p fs {fs'} h = mkdir_from_again [] p fs {fs' = fs'} h
