-- ===== src/JsMap/Laws.antt =====
-- The laws of `Map` and `Set`.
use litefunctions.Prelude.{
  ◌≡◌, refl, true, false, ◌||◌, List, [], ◌∷◌, ◌++◌, none, some, if◌then◌else◌, arith, Bool-cases,
  inl, inr,
}
use litefunctions.Text.{Text, text_eq, is_some}
use litefunctions.Text.Equality.{text_eq_iff}
use litefunctions.JsMap.{JsMap, get, has, set, delete, keys, member, add, set_of, set_of_from}

-- No key stands twice.
abbrev pub IsNodup : List Text → Type 0
IsNodup [] = Unit
IsNodup (k ∷ ks) = (member k ks ≡ false) × IsNodup ks

module _ {ℓ} {V : Type ℓ} where
  pub get-set :
      (k j : Text) (v : V) (m : JsMap V)
      → get j (set k v m) ≡ (if text_eq k j then some v else get j m)
  unfolding get set
  get-set k j v [] = refl
  get-set k j v ((i, w) ∷ m) =
      ground (arith, text_eq_iff k j, text_eq_iff i k, text_eq_iff i j, get-set k j v m)

  pub has-keys : (k : Text) (m : JsMap V) → has k m ≡ member k (keys m)
  unfolding has keys member
  has-keys k [] = refl
  has-keys k ((j, v) ∷ m) = ground (arith, has-keys k m)

  pub has-set : (k j : Text) (v : V) (m : JsMap V) → has j (set k v m) ≡ (text_eq k j || has j m)
  unfolding has set
  has-set k j v [] = refl
  has-set k j v ((i, w) ∷ m) =
      ground (arith, text_eq_iff k j, text_eq_iff i k, text_eq_iff i j, has-set k j v m)

  pub has-get : (k : Text) (m : JsMap V) → has k m ≡ is_some (get k m)
  unfolding get has is_some
  has-get k [] = refl
  has-get k ((j, w) ∷ m) = ground (arith, has-get k m)

  pub has_of_get : (k : Text) (m : JsMap V) {v : V} → get k m ≡ some v → has k m ≡ true
  unfolding get has
  has_of_get k [] h = cc
  has_of_get k ((j, w) ∷ m) {v} h = ground (arith, has_of_get k m {v = v})

  pub get_of_not_has : (k : Text) (m : JsMap V) → has k m ≡ false → get k m ≡ none
  unfolding get has
  get_of_not_has k [] h = refl
  get_of_not_has k ((j, w) ∷ m) h = ground (arith, get_of_not_has k m)

  member-keys-set :
      (k j : Text) (v : V) (m : JsMap V)
      → member j (keys (set k v m)) ≡ (text_eq k j || member j (keys m))
  unfolding keys set member
  member-keys-set k j v [] = refl
  member-keys-set k j v ((i, w) ∷ m) =
      ground (arith, text_eq_iff k j, text_eq_iff i k, text_eq_iff i j, member-keys-set k j v m)

  pub set-IsNodup : (k : Text) (v : V) (m : JsMap V) → IsNodup (keys m) → IsNodup (keys (set k v m))
  unfolding keys set member
  set-IsNodup k v [] h = ground arith
  set-IsNodup k v ((i, w) ∷ m) (p, h) =
      ground (arith, text_eq_iff i k, text_eq_iff k i, member-keys-set k i v m, set-IsNodup k v m h)

  pub member-keys-delete_le :
      (k j : Text) (m : JsMap V) → member j (keys m) ≡ false → member j (keys (delete k m)) ≡ false
  unfolding keys delete member
  member-keys-delete_le k j [] h = h
  member-keys-delete_le k j ((i, w) ∷ m) h = ground (arith, member-keys-delete_le k j m)

  pub delete-IsNodup : (k : Text) (m : JsMap V) → IsNodup (keys m) → IsNodup (keys (delete k m))
  unfolding keys delete member
  delete-IsNodup k [] h = h
  delete-IsNodup k ((i, w) ∷ m) (p, h) =
      ground (arith, member-keys-delete_le k i m p, delete-IsNodup k m h)

  pub get-delete :
      (k j : Text) (m : JsMap V)
      → IsNodup (keys m)
      → get j (delete k m) ≡ (if text_eq k j then none else get j m)
  unfolding get delete keys
  get-delete k j [] h = ground arith
  get-delete k j ((i, w) ∷ m) (p, h) = ground (
    arith,
    text_eq_iff k j,
    text_eq_iff i k,
    text_eq_iff i j,
    get-delete k j m h,
    get_of_not_has j m,
    has-keys j m,
  )

pub member-append : (k : Text) (s t : List Text) → member k (s ++ t) ≡ (member k s || member k t)
unfolding member
member-append k [] t = refl
member-append k (j ∷ s) t = ground (arith, member-append k s t)

pub member-add : (k j : Text) (s : List Text) → member j (add k s) ≡ (text_eq k j || member j s)
unfolding add member
member-add k j s = ground (arith, text_eq_iff k j, member-append j s (k ∷ []))

concat-IsNodup : (k : Text) (s : List Text) → member k s ≡ false → IsNodup s → IsNodup (s ++ k ∷ [])
unfolding member
concat-IsNodup k [] h d = ground arith
concat-IsNodup k (j ∷ s) h (p, d) =
    ground (arith, member-append j s (k ∷ []), text_eq_iff k j, text_eq_iff j k, concat-IsNodup k s)

pub add-IsNodup : (k : Text) (s : List Text) → IsNodup s → IsNodup (add k s)
unfolding add
add-IsNodup k s h = elim (Bool-cases (member k s)) [
  | inl old ↦ rw old h
  | inr new ↦ rw new (concat-IsNodup k s new h)
]

pub member-set_of_from :
    (k : Text) (s xs : List Text) → member k (set_of_from s xs) ≡ (member k s || member k xs)
unfolding set_of_from member
member-set_of_from k s [] = ground arith
member-set_of_from k s (x ∷ xs) =
    ground (arith, member-set_of_from k (add x s) xs, member-add x k s)

-- A set holds what the list holds, and nothing twice.
pub member-set_of : (k : Text) (xs : List Text) → member k (set_of xs) ≡ member k xs
unfolding set_of member
member-set_of k xs = member-set_of_from k [] xs

set_of_from-IsNodup : (s xs : List Text) → IsNodup s → IsNodup (set_of_from s xs)
unfolding set_of_from
set_of_from-IsNodup s [] h = h
set_of_from-IsNodup s (x ∷ xs) h = set_of_from-IsNodup (add x s) xs (add-IsNodup x s h)

pub set_of-IsNodup : (xs : List Text) → IsNodup (set_of xs)
unfolding set_of
set_of-IsNodup xs = set_of_from-IsNodup [] xs tt
