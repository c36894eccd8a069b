-- ===== src/Text/Search.antt =====
-- `startsWith`, `endsWith` and `includes`.
use litefunctions.Prelude.{
  ◌≡◌, refl, sym, true, [], ◌∷◌, ◌++◌, some, arith, append_assoc, ap, ◌∙◌, subst, Option-cases, inl,
  inr,
}
use litefunctions.Text.{Text, strip_prefix, strip_suffix, includes, is_some}
use litefunctions.Text.Equality.{text_eq_iff}

pub strip_prefix-append : (p s : Text) → strip_prefix p (p ++ s) ≡ some s
unfolding strip_prefix
strip_prefix-append [] s = refl
strip_prefix-append (a ∷ p) s = ground (arith, strip_prefix-append p s)

pub strip_prefix-eq : (p s : Text) {r : Text} → strip_prefix p s ≡ some r → s ≡ p ++ r
unfolding strip_prefix
strip_prefix-eq [] s h = ground arith
strip_prefix-eq (a ∷ p) [] h = cc
strip_prefix-eq (a ∷ p) (b ∷ s) {r} h = ground (arith, strip_prefix-eq p s {r = r})

pub strip_suffix-eq : (p s : Text) {r : Text} → strip_suffix p s ≡ some r → s ≡ r ++ p
unfolding strip_suffix
strip_suffix-eq p [] h = ground (arith, text_eq_iff p [])
strip_suffix-eq p (c ∷ s) {r = []} h =
    ground (arith, text_eq_iff p (c ∷ s), strip_suffix-eq p s {r = []})
strip_suffix-eq p (c ∷ s) {r = d ∷ r} h =
    ground (arith, text_eq_iff p (c ∷ s), strip_suffix-eq p s {r = r})

pub includes-append : (a p b : Text) → includes p (a ++ (p ++ b)) ≡ true
unfolding includes
includes-append [] [] [] = refl
includes-append [] [] (c ∷ b) = refl
includes-append [] (x ∷ p) b = unfold is_some in rw (strip_prefix-append (x ∷ p) b)
includes-append (c ∷ a) p b = ground (arith, includes-append a p b)

pub includes-eq : (p s : Text) → includes p s ≡ true → (a : Text) × (b : Text) × (s ≡ a ++ (p ++ b))
unfolding includes is_some
includes-eq p [] h = elim (Option-cases (strip_prefix p [])) [
  | inl none_here ↦ absurd (cc (none_here, h))
  | inr (r, here) ↦ ([], r, strip_prefix-eq p [] here)
]
includes-eq p (c ∷ s) h = elim (Option-cases (strip_prefix p (c ∷ s))) [
  | inl none_here ↦
      let (a, b, e) = includes-eq p s (rw none_here at h) in (c ∷ a, b, ap (λ l. c ∷ l) e)
  | inr (r, here) ↦ ([], r, strip_prefix-eq p (c ∷ s) here)
]

-- A text that includes another one includes what that one includes.
pub includes-part : (a p b s : Text) → includes (a ++ (p ++ b)) s ≡ true → includes p s ≡ true
includes-part a p b s h =
    let (l, r, e) = includes-eq (a ++ (p ++ b)) s h in
    subst (λ t. includes p t ≡ true) (sym (e ∙ regroup l r)) (includes-append (l ++ a) p (b ++ r))
  where
    regroup : (l r : Text) → l ++ ((a ++ (p ++ b)) ++ r) ≡ (l ++ a) ++ (p ++ (b ++ r))
    regroup l r =
        ap (λ t. l ++ t) (append_assoc a (p ++ b) r ∙ ap (λ t. a ++ t) (append_assoc p b r))
        ∙ sym (append_assoc l a (p ++ (b ++ r)))
