-- ===== src/Consumer/Loops/Courses.antt =====
-- Whole courses of events between two reloads: the results of a function are neither lost nor
-- doubled nor out of order, and its loop gets through its calls.
use litefunctions.Prelude.{
  ◌+◌, ◌-◌, ◌≤◌, ◌≡◌, refl, sym, ap, ◌∙◌, subst, List, [], ◌∷◌, ◌++◌, All, arith, inl, inr,
  Bool-cases, append-nil, append_assoc,
}
use litefunctions.Text.{Text, text_eq}
use litefunctions.Text.Equality.{text_eq_iff}
use litefunctions.Text.Split.{Lacks}
use litefunctions.Text.Utf8.{Bytes}
use litefunctions.Conf.{Settings}
use litefunctions.Value.{View}
use litefunctions.World.{Engine}
use litefunctions.Consumer.Loops.{
  Round, idle, loading, yielding, Loop, turn, Running, Event, arrive, run_on, happen, course,
}
use litefunctions.Consumer.Loops.Turns.{all_results, owed, rank, rank-turn, calls_rank}
use litefunctions.Consumer.Loops.Results.{
  results_for, arrived, turns, name_of, IsServing, happen-IsServing, account, account-happen,
  all_results-append,
}

arrived-cons :
    (name : Text) (a : Event) (events : List Event)
    → arrived name (a ∷ events) ≡ arrived name (a ∷ []) ++ arrived name events
unfolding arrived
arrived-cons name (run_on n) events = refl
arrived-cons name (arrive n subject payload) events = ground arith

-- A loop that waits for a message, with none left.
abbrev pub at_rest : Loop
at_rest = record { waiting = []; round = idle }

turns-cons :
    (name : Text) (a : Event) (events : List Event)
    → turns name (a ∷ events) ≡ turns name (a ∷ []) + turns name events
unfolding turns
turns-cons name (run_on n) events = omega arith
turns-cons name (arrive n subject payload) events = omega arith

append-eq-nil {ℓ} : {A : Type ℓ} (xs ys : List A) → xs ++ ys ≡ [] → (xs ≡ []) × (ys ≡ [])
append-eq-nil [] ys h = (refl, h)
append-eq-nil (x ∷ xs) ys h = absurd (cc h)

module _ (e : Engine) (s : Settings) (name : Text) (b : Bytes)
    (project : Lacks b'.' s.project) where
  -- The account after an event, with what arrives behind it.
  pub account-cons :
      (a : Event) (events : List Event) (r : Running)
      → IsServing e name b r
      → Lacks b'.' (name_of a)
      → account e s name b project (happen e s a r) ++ all_results e s b name (arrived name events)
        ≡ account e s name b project r ++ all_results e s b name (arrived name (a ∷ events))
  account-cons a events r h first =
      let one = all_results e s b name (arrived name (a ∷ [])) in
      let more = all_results e s b name (arrived name events) in
      ap (λ l. l ++ more) (account-happen e s name b project a r h first)
      ∙ append_assoc (account e s name b project r) one more
      ∙ ap (◌++◌ (account e s name b project r)) (
          sym (all_results-append e s b name (arrived name (a ∷ [])) (arrived name events))
          ∙ ap (all_results e s b name) (sym (arrived-cons name a events)))

  course-account :
      (events : List Event) (r : Running)
      → IsServing e name b r
      → All (λ a. Lacks b'.' (name_of a)) events
      → account e s name b project (course e s events r)
        ≡ account e s name b project r ++ all_results e s b name (arrived name events)
  unfolding course
  course-account [] r h names = unfold arrived all_results in sym (append-nil _)
  course-account (a ∷ events) r h (first, names) =
      course-account events (happen e s a r) (happen-IsServing e s name b a r h) names
      ∙ account-cons a events r h first

  rank-happen :
      (a : Event) (r : Running)
      → IsServing e name b r
      → arrived name (a ∷ []) ≡ []
      → rank e b name ((happen e s a r).loops name)
        ≤ rank e b name (r.loops name) - turns name (a ∷ [])
  unfolding happen arrived turns
  rank-happen (run_on n) r (c, h) none_new = elim (Bool-cases (text_eq n name)) [
    | inr other ↦ rw other (omega arith)
    | inl same ↦ rw same (
        subst
          (λ k. rank e b name (turn e s k (r.loops k) r.world).0 ≤ rank e b name (r.loops name) - 1)
          (sym ((text_eq_iff n name).0 same))
          (rank-turn e b name s r.world (r.loops name).waiting (r.loops name).round (h name)))
  ]
  rank-happen (arrive n subject payload) r h none_new = elim (Bool-cases (text_eq n name)) [
    | inr other ↦ rw other (omega arith)
    | inl same ↦ absurd (cc (rw same at none_new))
  ]

  course-rank :
      (events : List Event) (r : Running)
      → IsServing e name b r
      → arrived name events ≡ []
      → rank e b name ((course e s events r).loops name)
        ≤ rank e b name (r.loops name) - turns name events
  unfolding course turns
  course-rank [] r h none_new = omega arith
  course-rank (a ∷ events) r h none_new =
      let (first, rest) =
        append-eq-nil (arrived name (a ∷ [])) (arrived name events)
          (sym (arrived-cons name a events) ∙ none_new) in
      omega (
        arith,
        rank-happen a r h first,
        course-rank events (happen e s a r) (happen-IsServing e s name b a r h) rest,
        turns-cons name a events,
      )

  rank-zero :
      (r : Round) (q : List (Text × View))
      → rank e b name (record { waiting = q; round = r }) ≡ 0
      → ◌≡◌ {A = Loop} (record { waiting = q; round = r }) at_rest
        × (owed e s b name (record { waiting = q; round = r }) ≡ [])
  unfolding calls_rank all_results
  rank-zero idle [] h = (refl, refl)
  rank-zero idle ((subject, payload) ∷ q) h = absurd (omega arith)
  rank-zero (loading subject payload l) q h = absurd (omega arith)
  rank-zero (yielding subject outs) q h = absurd (omega arith)

  -- Between two reloads nothing is lost, doubled or out of order. However the loops of the functions
  -- take turns, and whatever messages arrive meanwhile, what is published for a function, and behind it
  -- what its loop has still to publish, is what was published and owed before, and behind that the
  -- results of each message that arrived for the function, in the order of arrival: all the outputs
  -- that the function's current code gives for it, in order, on the subject with the id of the call.
  -- No load of the function that is under way holds another code, and neither the project nor a
  -- function's name has a dot.
  pub course-results :
      (events : List Event) (r : Running)
      → IsServing e name b r
      → All (λ a. Lacks b'.' (name_of a)) events
      → let after = course e s events r in
        results_for name after.world.client.published ++ owed e s b name (after.loops name)
        ≡ (results_for name r.world.client.published ++ owed e s b name (r.loops name))
          ++ all_results e s b name (arrived name events)
  course-results events r h names = course-account events r h names

  -- A loop gets through its calls. Where no message arrives for a function, and its loop runs on as
  -- often as its rank (six turns for a call that waits, and one for each output), whatever the other
  -- loops do in between, the loop ends up waiting for a message with none left, and all that it owed
  -- has been published for the function, in order. No load of the function that is under way holds
  -- another code than its present one, and neither the project nor a function's name has a dot.
  pub course-done :
      (events : List Event) (r : Running)
      → IsServing e name b r
      → All (λ a. Lacks b'.' (name_of a)) events
      → arrived name events ≡ []
      → rank e b name (r.loops name) ≤ turns name events
      → let after = course e s events r in
        (after.loops name ≡ at_rest)
        × (results_for name after.world.client.published
            ≡ results_for name r.world.client.published ++ owed e s b name (r.loops name))
  course-done events r h names none_new enough =
      let after = course e s events r in
      let l = after.loops name in
      let (rests, paid) =
        rank-zero l.round l.waiting (omega (arith, course-rank events r h none_new)) in
      let published = results_for name after.world.client.published in
      let before = account e s name b project r in
      (
        rests,
        sym (append-nil published)
            ∙ ap (◌++◌ published) (sym paid)
            ∙ course-account events r h names
            ∙ ap (λ q. before ++ all_results e s b name q) none_new
            ∙ (unfold all_results in append-nil before),
      )
