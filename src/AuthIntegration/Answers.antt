-- ===== src/AuthIntegration/Answers.antt =====
-- internal/authintegration/handler.go: what an authenticator reads in the answers to its questions.
use mathlib.Core.List.{mem-cons_of_mem, mem-cons_self}
use libcontainerssh.Common.{
  ◌≡◌, refl, ◌≢◌, ◌∙◌, sym, subst, String, str_eq, eq_iff, true, false, List, [], ◌∷◌, ◌++◌, none,
  some, arith, Mem,
}
use libcontainerssh.Message.{Labels, set_label}
use libcontainerssh.AuthIntegration.Interface.{KeyboardInteractiveQuestion, Challenge}
use libcontainerssh.AuthIntegration.Questions.{
  lookup, answer_or_empty, collect, read_answers, adapt,
}

str_eq_refl : (s : String) → str_eq s s ≡ true
str_eq_refl s = grind (arith, eq_iff)

str_eq-ne : (s t : String) → s ≢ t → str_eq s t ≡ false
str_eq-ne s t h = grind (arith, eq_iff)

pub lookup-set_label :
    (key value : String) (m : Labels) → lookup key (set_label key value m) ≡ some value
unfolding lookup set_label
lookup-set_label key value [] = ground (arith, str_eq_refl key)
lookup-set_label key value ((k, v) ∷ rest) =
    ground (arith, str_eq_refl key, lookup-set_label key value rest)

pub lookup-set_label_of_ne :
    (key other value : String) (m : Labels)
    → other ≢ key
    → lookup key (set_label other value m) ≡ lookup key m
unfolding lookup set_label
lookup-set_label_of_ne key other value [] h = ground (arith, str_eq-ne other key h)
lookup-set_label_of_ne key other value ((k, v) ∷ rest) h =
    grind (arith, eq_iff, lookup-set_label_of_ne key other value rest h)

-- The answers to further questions leave what stands under another id.
lookup-collect_of_ne :
    (key : String) (a answers : Labels) (questions : List KeyboardInteractiveQuestion)
    → ((q : KeyboardInteractiveQuestion) → Mem q questions → q.id ≢ key)
    → lookup key (collect a questions answers) ≡ lookup key answers
unfolding collect
lookup-collect_of_ne key a answers [] h = refl
lookup-collect_of_ne key a answers (question ∷ questions) h =
    lookup-collect_of_ne key a (set_label question.id (answer_or_empty a question) answers)
      questions (λ q m. h q (mem-cons_of_mem question m))
    ∙ lookup-set_label_of_ne key question.id (answer_or_empty a question) answers
        (h question mem-cons_self)

lookup-collect :
    (a answers : Labels) (before after : List KeyboardInteractiveQuestion)
    (question : KeyboardInteractiveQuestion)
    → ((q : KeyboardInteractiveQuestion) → Mem q after → q.id ≢ question.id)
    → lookup question.id (collect a (before ++ (question ∷ after)) answers)
      ≡ some (answer_or_empty a question)
unfolding collect
lookup-collect a answers [] after question h =
    lookup-collect_of_ne question.id a (set_label question.id (answer_or_empty a question) answers)
      after h
    ∙ lookup-set_label question.id (answer_or_empty a question) answers
lookup-collect a answers (first ∷ before) after question h =
    lookup-collect a (set_label first.id (answer_or_empty a first) answers) before after question h

-- Where the challenge is answered, the authenticator finds under the id of a question the client's
-- answer to it, or the empty text if there is none, unless a later question has the same id; with
-- ids left empty, that is the answer to the last question only.
pub adapt-lookup :
    {S : Type 0} (challenge : Challenge S) (instruction : String)
    (before after : List KeyboardInteractiveQuestion) (question : KeyboardInteractiveQuestion)
    (s s' : S) (a : Labels)
    → challenge instruction (before ++ (question ∷ after)) s ≡ ((a, none), s')
    → ((q : KeyboardInteractiveQuestion) → Mem q after → q.id ≢ question.id)
    → let ((answers, failed), s'') = adapt challenge instruction (before ++ (question ∷ after)) s in
      (lookup question.id answers ≡ some (answer_or_empty a question))
      × (failed ≡ none)
      × (s'' ≡ s')
unfolding adapt
adapt-lookup challenge instruction before after question s s' a e h =
    subst
      (λ x.
        let ((answers, failed), s'') = read_answers (before ++ (question ∷ after)) x in
        (lookup question.id answers ≡ some (answer_or_empty a question))
        × (failed ≡ none)
        × (s'' ≡ s'))
      (sym e) (lookup-collect a [] before after question h, refl, refl)
