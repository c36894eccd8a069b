-- ===== src/Functions/Modules/Loads/Interleaved.antt =====
-- Any interleaving of loads between two reloads: which code they give.
use litefunctions.Prelude.{
  ℕ, zero, suc, ◌≡◌, refl, sym, ap, ◌∙◌, List, [], ◌∷◌, arith, Option, none, some, All, All-append,
  true, Bool-cases, Option-cases, inl, inr, get_elem?, subst,
}
use litefunctions.Prelude.Exec.{ok, Result-cases}
use litefunctions.Text.{Text, text_eq}
use litefunctions.Text.Equality.{text_eq_iff}
use litefunctions.Text.Utf8.{Bytes}
use litefunctions.JsMap.{get}
use litefunctions.JsMap.Laws.{get-set}
use litefunctions.Fs.{FilePath, file_exists}
use litefunctions.World.{World, Engine, LoadedModule}
use litefunctions.Functions.Modules.{function_path, import_module, cache_module}
use litefunctions.Functions.Modules.Fresh.{
  IsCurrent, import_module-current, import_registered, modules-import_module, read_file-exists,
}
use litefunctions.Functions.Modules.Loads.{
  Load, resolving, importing, committing, finished, begin, after_import, advance, Pool, Action,
  start, resume, set_load, act, schedule, results_of, is_resolving, none_past,
}

-- What a load of `name` may hold where the name stands for the code `b` at the version `v`.
abbrev pub IsOf : Engine → Text → Bytes → ℕ → Text × Load → Type 0
IsOf e name b v (n, resolving) = Unit
IsOf e name b v (n, importing p u) = n ≡ name → (p ≡ function_path e name) × (u ≡ v)
IsOf e name b v (n, committing m) = n ≡ name → e.evaluate b ≡ ok m
IsOf e name b v (n, finished r) = n ≡ name → e.evaluate b ≡ r

module _ (e : Engine) (p : FilePath) (v : ℕ) (w : World) where
  pub fs-import_module : (import_module e p v w).1.fs ≡ w.fs
  unfolding import_module
  fs-import_module = ground arith

  pub version-import_module : (import_module e p v w).1.module_version ≡ w.module_version
  unfolding import_module
  version-import_module = ground arith

module _ (e : Engine) (name : Text) (b : Bytes) (w : World) (c : IsCurrent e name b w) where
  import_module-IsCurrent : (p : FilePath) (v : ℕ) → IsCurrent e name b (import_module e p v w).1
  import_module-IsCurrent p v = record {
    content = rw (fs-import_module e p v w) c.content;
    cached = rw (modules-import_module e name w p v) c.cached;
    registered =
        λ r. rw (version-import_module e p v w) (import_registered e name name b w c p v r);
  }

  cache_module-IsCurrent :
      (n : Text) (m : LoadedModule)
      → (n ≡ name → e.evaluate b ≡ ok m)
      → IsCurrent e name b (cache_module n m w)
  unfolding cache_module
  cache_module-IsCurrent n m same = record {
    content = c.content;
    cached = λ k hit. elim (Bool-cases (text_eq n name)) [
      | inl is ↦ cc (same ((text_eq_iff n name).0 is), hit, get-set n name m w.modules, is)
      | inr other ↦ c.cached k (rw (get-set n name m w.modules, other) at hit)
    ];
    registered = c.registered;
  }

  after_import-IsOf :
      (n : Text) (p : FilePath) (u v : ℕ)
      → (n ≡ name → (p ≡ function_path e name) × (u ≡ w.module_version))
      → IsOf e name b v (n, after_import (import_module e p u w).0)
  after_import-IsOf n p u v same = elim (Result-cases (import_module e p u w).0) [
    | inl (m, good) ↦ rw good (λ is. right is ∙ good)
    | inr (x, bad) ↦ rw bad (λ is. right is ∙ bad)
  ]
    where
      right : n ≡ name → e.evaluate b ≡ (import_module e p u w).0
      right is =
          let (path, version) = same is in
          sym (rw (path, version) (import_module-current e name b w c))

  -- One segment of a load keeps what is current, and the version.
  pub advance-IsCurrent :
      (n : Text) (l : Load)
      → IsOf e name b w.module_version (n, l)
      → IsCurrent e name b (advance e n l w).1
        × IsOf e name b w.module_version (n, (advance e n l w).0)
        × ((advance e n l w).1.module_version ≡ w.module_version)
  unfolding advance
  advance-IsCurrent n resolving h = elim (Bool-cases (file_exists (function_path e n) w.fs)) [
    | inl there ↦ rw there (c, λ is. (ap (function_path e) is, refl), refl)
    | inr missing ↦ rw missing (
      c,
      λ is. absurd (
          cc (
            read_file-exists (function_path e name) w.fs {b = b} c.content,
            ap (λ k. file_exists (function_path e k) w.fs) is,
            missing,
          )),
      refl,
    )
  ]
  advance-IsCurrent n (importing p u) h = (
    import_module-IsCurrent p u,
    after_import-IsOf n p u w.module_version h,
    version-import_module e p u w,
  )
  advance-IsCurrent n (committing m) h =
      (cache_module-IsCurrent n m h, h, unfold cache_module in refl)
  advance-IsCurrent n (finished r) h = (c, h, refl)

  pub begin-IsOf : (n : Text) → IsOf e name b w.module_version (n, begin n w)
  unfolding begin
  begin-IsOf n = elim (Option-cases (get n w.modules)) [
    | inl absent ↦ rw (begin, absent) tt
    | inr (m, hit) ↦ rw (begin, hit) (λ is. c.cached m (ap (λ k. get k w.modules) (sym is) ∙ hit))
  ]

-- Each load of the pool fits what is current.
abbrev pub IsFit : Engine → Text → Bytes → Pool → Type 0
IsFit e name b p = IsCurrent e name b p.world × All (IsOf e name b p.world.module_version) p.loads

get_elem?-All {ℓ κ} :
    {A : Type ℓ} (P : A → Type κ) (i : ℕ) (xs : List A) {x : A}
    → get_elem? xs i ≡ some x
    → All P xs
    → P x
get_elem?-All P i [] h a = absurd (cc h)
get_elem?-All P zero (y ∷ xs) h (p, a) = subst P (cc h) p
get_elem?-All P (suc i) (y ∷ xs) h (p, a) = get_elem?-All P i xs h a

set_load-All :
    (e : Engine) (name : Text) (b : Bytes) (v i : ℕ) (n : Text) (l l' : Load)
    (ls : List (Text × Load))
    → get_elem? ls i ≡ some (n, l)
    → IsOf e name b v (n, l')
    → All (IsOf e name b v) ls
    → All (IsOf e name b v) (set_load i l' ls)
set_load-All e name b v i n l l' [] h q a = tt
set_load-All e name b v zero n l l' ((k, _) ∷ ls) h q (p, a) = (
  subst (λ x. IsOf e name b v (x, l')) (sym (ap (λ (o : Option (Text × Load)). name_of o) h)) q,
  a,
)
  where
    name_of : Option (Text × Load) → Text
    name_of none = []
    name_of (some (x, _)) = x
set_load-All e name b v (suc i) n l l' (y ∷ ls) h q (p, a) =
    (p, set_load-All e name b v i n l l' ls h q a)

act-IsFit :
    (e : Engine) (name : Text) (b : Bytes) (a : Action) (p : Pool)
    → IsFit e name b p
    → IsFit e name b (act e a p)
unfolding act
act-IsFit e name b (start n) p (c, h) =
    (c, All-append _ p.loads _ h (begin-IsOf e name b p.world c n, tt))
act-IsFit e name b (resume i) p (c, h) = elim (Option-cases (get_elem? p.loads i)) [
  | inl absent ↦ rw (act, absent) (c, h)
  | inr ((n, l), here) ↦
      let (c', q, v) =
        advance-IsCurrent e name b p.world c n l (get_elem?-All _ i p.loads here h) in
      rw (act, here)
        (c', rw v (set_load-All e name b p.world.module_version i n l _ p.loads here q h))
]

schedule-IsFit :
    (e : Engine) (name : Text) (b : Bytes) (actions : List Action) (p : Pool)
    → IsFit e name b p
    → IsFit e name b (schedule e actions p)
unfolding schedule
schedule-IsFit e name b [] p h = h
schedule-IsFit e name b (a ∷ actions) p h =
    schedule-IsFit e name b actions (act e a p) (act-IsFit e name b a p h)

-- The head and the rest of `none_past`.
none_past-cons :
    (name n : Text) (l : Load) (ls : List (Text × Load))
    → none_past name ((n, l) ∷ ls) ≡ true
    → (n ≡ name → is_resolving l ≡ true) × (none_past name ls ≡ true)
unfolding none_past
none_past-cons name n l ls h = elim (Bool-cases (text_eq n name)) [
  | inl same ↦ ground (arith, text_eq_iff n name)
  | inr other ↦ ground (arith, text_eq_iff n name)
]

IsOf-resolving :
    (e : Engine) (name : Text) (b : Bytes) (v : ℕ) (n : Text) (l : Load)
    → (n ≡ name → is_resolving l ≡ true)
    → IsOf e name b v (n, l)
IsOf-resolving e name b v n resolving h = tt
IsOf-resolving e name b v n (importing p u) h = λ is. absurd (ground (arith, h is))
IsOf-resolving e name b v n (committing m) h = λ is. absurd (ground (arith, h is))
IsOf-resolving e name b v n (finished r) h = λ is. absurd (ground (arith, h is))

none_past-IsOf :
    (e : Engine) (name : Text) (b : Bytes) (v : ℕ) (ls : List (Text × Load))
    → none_past name ls ≡ true
    → All (IsOf e name b v) ls
none_past-IsOf e name b v [] h = tt
none_past-IsOf e name b v ((n, l) ∷ ls) h =
    let (first, rest) = none_past-cons name n l ls h in
    (IsOf-resolving e name b v n l first, none_past-IsOf e name b v ls rest)

results_of-All :
    (e : Engine) (name : Text) (b : Bytes) (v : ℕ) (ls : List (Text × Load))
    → All (IsOf e name b v) ls
    → All (λ r. e.evaluate b ≡ r) (results_of name ls)
unfolding results_of
results_of-All e name b v [] h = tt
results_of-All e name b v ((n, finished r) ∷ ls) (p, h) = elim (Bool-cases (text_eq n name)) [
  | inl same ↦ rw same (p ((text_eq_iff n name).0 same), results_of-All e name b v ls h)
  | inr other ↦ rw other (results_of-All e name b v ls h)
]
results_of-All e name b v ((n, resolving) ∷ ls) (p, h) = results_of-All e name b v ls h
results_of-All e name b v ((n, importing q u) ∷ ls) (p, h) = results_of-All e name b v ls h
results_of-All e name b v ((n, committing m) ∷ ls) (p, h) = results_of-All e name b v ls h

-- However the event loop interleaves loads, of this name and of others: where a name stands for the
-- code `b`, and each load of the name that was begun before has not yet read the version or looked
-- for its file, every load of the name that has ended gave what `b` evaluates to.
pub schedule-current :
    (e : Engine) (name : Text) (b : Bytes) (actions : List Action) (p : Pool)
    → IsCurrent e name b p.world
    → none_past name p.loads ≡ true
    → All (λ r. e.evaluate b ≡ r) (results_of name (schedule e actions p).loads)
schedule-current e name b actions p c h =
    let (_, fit) =
      schedule-IsFit e name b actions p
        (c, none_past-IsOf e name b p.world.module_version p.loads h) in
    results_of-All e name b _ (schedule e actions p).loads fit
