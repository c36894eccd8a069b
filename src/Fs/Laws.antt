-- ===== src/Fs/Laws.antt =====
-- The laws of the file tree.
use litefunctions.Prelude.{
  ◌≡◌, ◌≢◌, refl, ◌↔◌, ap, true, false, [], ◌∷◌, ◌++◌, Option, none, some, if◌then◌else◌, arith,
  Bool-cases, inl, inr,
}
use litefunctions.Text.{Text, text_eq, is_some}
use litefunctions.Text.Equality.{text_eq_iff}
use litefunctions.JsMap.{member}
use litefunctions.Fs.{
  FilePath, Fs, Node, path_eq, find_node, put_node, remove_node, stat, child_name, child_names,
  parent,
}

pub path_eq-eq : (p q : FilePath) → path_eq p q ≡ true → p ≡ q
unfolding path_eq
path_eq-eq [] [] h = refl
path_eq-eq [] (b ∷ q) h = cc
path_eq-eq (a ∷ p) [] h = cc
path_eq-eq (a ∷ p) (b ∷ q) h = ground (arith, text_eq_iff a b, path_eq-eq p q)

path_eq_refl : (p : FilePath) → path_eq p p ≡ true
unfolding path_eq
path_eq_refl [] = refl
path_eq_refl (a ∷ p) = ground (arith, text_eq_iff a a, path_eq_refl p)

pub path_eq_iff : (p q : FilePath) → (path_eq p q ≡ true) ↔ (p ≡ q)
path_eq_iff p q = (path_eq-eq p q, λ e. rw e (path_eq_refl q))

pub find_node-put_node :
    (p q : FilePath) (n : Node) (fs : Fs)
    → find_node q (put_node p n fs) ≡ (if path_eq p q then some n else find_node q fs)
unfolding find_node put_node
find_node-put_node p q n [] = refl
find_node-put_node p q n ((r, m) ∷ fs) =
    ground (arith, path_eq_iff p q, path_eq_iff r p, path_eq_iff r q, find_node-put_node p q n fs)

pub find_node-remove_node :
    (p q : FilePath) (fs : Fs)
    → find_node q (remove_node p fs) ≡ (if path_eq p q then none else find_node q fs)
unfolding find_node remove_node
find_node-remove_node p q [] = ground arith
find_node-remove_node p q ((r, m) ∷ fs) =
    ground (arith, path_eq_iff p q, path_eq_iff r p, path_eq_iff r q, find_node-remove_node p q fs)

pub stat-child :
    (p : FilePath) (a : Text) (fs : Fs) → stat (p ++ a ∷ []) fs ≡ find_node (p ++ a ∷ []) fs
unfolding stat
stat-child [] a fs = refl
stat-child (b ∷ p) a fs = refl

pub parent-child : (p : FilePath) (a : Text) → parent (p ++ a ∷ []) ≡ p
unfolding parent
parent-child [] a = refl
parent-child (b ∷ []) a = refl
parent-child (b ∷ c ∷ p) a = ap (λ q. b ∷ q) (parent-child (c ∷ p) a)

-- Paths of one folder are equal exactly if their names are.
pub path_eq-child : (p : FilePath) (a b : Text) → path_eq (p ++ a ∷ []) (p ++ b ∷ []) ≡ text_eq a b
unfolding path_eq
path_eq-child [] a b = ground arith
path_eq-child (c ∷ p) a b = ground (arith, text_eq_iff c c, path_eq-child p a b)

pub path_eq_other :
    (p q : FilePath) (a b : Text) → p ≢ q → path_eq (p ++ a ∷ []) (q ++ b ∷ []) ≡ false
path_eq_other p q a b h = elim (Bool-cases (path_eq (p ++ a ∷ []) (q ++ b ∷ []))) [
  | inl same ↦ absurd (
      h (
        cc (
          parent-child p a,
          parent-child q b,
          ap parent (path_eq-eq (p ++ a ∷ []) (q ++ b ∷ []) same),
        )))
  | inr other ↦ other
]

pub child_name_iff :
    (p q : FilePath) (a : Text) → (child_name p q ≡ some a) ↔ (path_eq q (p ++ a ∷ []) ≡ true)
unfolding child_name path_eq
child_name_iff [] [] a = ground arith
child_name_iff [] (b ∷ []) a = ground (arith, text_eq_iff b a)
child_name_iff [] (b ∷ c ∷ q) a = ground arith
child_name_iff (c ∷ p) [] a = ground arith
child_name_iff (c ∷ p) (b ∷ q) a =
    ground (arith, text_eq_iff c b, text_eq_iff b c, child_name_iff p q a)

-- A name is listed in a folder exactly if there is something under it.
pub member-child_names :
    (p : FilePath) (a : Text) (fs : Fs)
    → member a (child_names p fs) ≡ is_some (find_node (p ++ a ∷ []) fs)
unfolding child_names find_node member is_some
member-child_names p a [] = refl
member-child_names p a ((q, n) ∷ fs) = member_step (child_name p q) refl (member-child_names p a fs)
  where
    member_step :
        (o : Option Text)
        → child_name p q ≡ o
        → member a (child_names p fs) ≡ is_some (find_node (p ++ a ∷ []) fs)
        → member a (child_names p ((q, n) ∷ fs)) ≡ is_some (find_node (p ++ a ∷ []) ((q, n) ∷ fs))
    member_step none e ih = ground (arith, child_name_iff p q a)
    member_step (some b) e ih = ground (arith, child_name_iff p q a, text_eq_iff b a)
