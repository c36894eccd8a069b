-- ===== src/Consumer/Subjects.antt =====
-- Which messages reach the subscriptions of runtimes/ts/pkg/consumer.ts. The message server decides
-- whether a subject is one of a subscription's: its rule is a parameter.
use litefunctions.Prelude.{
  ◌≡◌, ◌≢◌, refl, ◌∙◌, Bool, true, false, ◌||◌, ◌&&◌, List, [], ◌∷◌, All, arith, inl, inr,
  Bool-cases, subst,
}
use litefunctions.Text.{Text, codes, text_eq, split}
use litefunctions.Text.Equality.{text_eq_iff, text_eq_refl}
use litefunctions.Text.Split.{Lacks, split-append}
use litefunctions.Conf.{Settings}
use litefunctions.Functions.Files.{is_word}
use litefunctions.Functions.Files.Names.{IsFunctionName}
use litefunctions.Consumer.{exec_subject, hook_subject}
use litefunctions.Consumer.Messages.{call_subject, split-call_subject}

-- Token by token, where a token `*` of the pattern stands for any one token.
abbrev pub tokens_match : List Text → List Text → Bool
tokens_match [] [] = true
tokens_match [] (t ∷ ts) = false
tokens_match (p ∷ ps) [] = false
tokens_match (p ∷ ps) (t ∷ ts) = (text_eq p (codes "*") || text_eq p t) && tokens_match ps ts

-- A token of a pattern, but for the wildcard `>` of a last token.
abbrev pub IsToken : Text → Type 0
IsToken t = (t ≢ []) × (t ≢ codes ">")

-- What the documentation of the message server says of subjects, as far as the patterns here go:
-- tokens are separated by dots and are not empty, and a pattern without `>` matches token by token.
pub record IsSubjectRule (matches : Text → Text → Bool) : Type 0 where
  pub by_tokens :
      (pattern subject : Text)
      → All IsToken (split b'.' pattern)
      → All (λ t. t ≢ []) (split b'.' subject)
      → matches pattern subject ≡ tokens_match (split b'.' pattern) (split b'.' subject)

-- A part of a call's subject.
abbrev pub IsPart : Text → Type 0
IsPart t = (t ≢ []) × Lacks b'.' t

-- The name of a project that can be the first token of a subject.
abbrev pub IsProject : Text → Type 0
IsProject t = IsToken t × Lacks b'.' t

word-IsToken : (t : Text) → IsFunctionName t → IsToken t
word-IsToken t (ne, w) =
    (ne, λ h. absurd (ground (arith, (subst (All (λ c. is_word c ≡ true)) h w).0)))

text_eq_star : (t : Text) → IsFunctionName t → text_eq t (codes "*") ≡ false
text_eq_star t (_, w) = elim (Bool-cases (text_eq t (codes "*"))) [
  | inr other ↦ other
  | inl same ↦ absurd (
      ground
        (arith, (subst (All (λ c. is_word c ≡ true)) ((text_eq_iff t (codes "*")).0 same) w).0))
]

pub word-Lacks_dot : (t : Text) → All (λ c. is_word c ≡ true) t → Lacks b'.' t
word-Lacks_dot [] h = tt
word-Lacks_dot (c ∷ t) (p, h) = (ground arith, word-Lacks_dot t h)

split-exec_subject :
    (s : Settings) (k : Text)
    → IsProject s.project
    → IsFunctionName k
    → split b'.' (exec_subject s k) ≡ s.project ∷ k ∷ codes "exec" ∷ codes "ts" ∷ codes "*" ∷ []
split-exec_subject s k (_, p) (_, w) =
    split-call_subject s.project k (codes "*") (word-Lacks_dot k w) (omega arith, tt) p

split-hook_subject :
    (s : Settings)
    → IsProject s.project
    → split b'.' (hook_subject s) ≡ s.project ∷ codes "hook" ∷ codes "ts" ∷ []
split-hook_subject s (_, p) =
    rw (split-append b'.' s.project (codes "hook.ts") p) (unfold split in refl)

exec_tokens :
    (s : Settings)
    → IsProject s.project
    → (k : Text) → IsFunctionName k
    → All IsToken (split b'.' (exec_subject s k))
exec_tokens s project k f = rw (split-exec_subject s k project f) (
  project.0,
  (
    word-IsToken k f,
    (
      (ground arith, ground arith),
      ((ground arith, ground arith), ((ground arith, ground arith), tt)),
    ),
  ),
)

module _ (matches : Text → Text → Bool) (rule : IsSubjectRule matches) (s : Settings)
    (project : IsProject s.project) (name req_id : Text) (n : IsPart name) (r : IsPart req_id) where
  call_tokens :
      split b'.' (call_subject s.project name req_id)
      ≡ s.project ∷ name ∷ codes "exec" ∷ codes "ts" ∷ req_id ∷ []
  call_tokens = split-call_subject s.project name req_id n.1 r.1 project.1

  call_filled : All (λ t. t ≢ []) (split b'.' (call_subject s.project name req_id))
  call_filled = rw call_tokens (project.0.0, (n.0, (ground arith, (ground arith, (r.0, tt)))))

  -- The subscription of a function takes the calls of this function.
  pub matches-exec_subject :
      (k : Text)
      → IsFunctionName k
      → matches (exec_subject s k) (call_subject s.project name req_id) ≡ text_eq k name
  matches-exec_subject k f =
      rule.by_tokens (exec_subject s k) (call_subject s.project name req_id)
        (exec_tokens s project k f) call_filled
      ∙ rw (split-exec_subject s k project f) (
          rw call_tokens
            (rw (text_eq_refl s.project) (rw (text_eq_star k f) (unfold text_eq in ground arith))))

  -- The subscription of the hook takes no call.
  pub matches-hook_subject : matches (hook_subject s) (call_subject s.project name req_id) ≡ false
  matches-hook_subject =
      rule.by_tokens (hook_subject s) (call_subject s.project name req_id)
        (rw (split-hook_subject s project)
          (project.0, ((ground arith, ground arith), ((ground arith, ground arith), tt))))
        call_filled
      ∙ rw (split-hook_subject s project) (rw call_tokens (unfold text_eq in ground arith))

module _ (matches : Text → Text → Bool) (rule : IsSubjectRule matches) (s : Settings)
    (project : IsProject s.project) where
  hook_filled : All (λ t. t ≢ []) (split b'.' (hook_subject s))
  hook_filled = rw (split-hook_subject s project) (project.0.0, (ground arith, (ground arith, tt)))

  -- The subscription of the hook takes the hook's message.
  pub hook_subject-matches : matches (hook_subject s) (hook_subject s) ≡ true
  hook_subject-matches =
      rule.by_tokens (hook_subject s) (hook_subject s)
        (rw (split-hook_subject s project)
          (project.0, ((ground arith, ground arith), ((ground arith, ground arith), tt))))
        hook_filled
      ∙ rw (split-hook_subject s project)
          (rw (text_eq_refl s.project) (unfold text_eq in ground arith))

  -- The subscription of a function does not.
  pub exec_subject-matches_hook :
      (k : Text) → IsFunctionName k → matches (exec_subject s k) (hook_subject s) ≡ false
  exec_subject-matches_hook k f =
      rule.by_tokens (exec_subject s k) (hook_subject s) (exec_tokens s project k f) hook_filled
      ∙ rw (split-exec_subject s k project f)
          (rw (split-hook_subject s project) (unfold text_eq in ground arith))
