-- ===== src/SshServer/Keyboard.antt =====
-- internal/sshserver/serverImpl.go and internal/authintegration/handler.go: a keyboard-interactive
-- challenge on its way from the authenticator to the client and back.
use mathlib.Core.List.{mem-cons_of_mem, mem-cons_self}
use libcontainerssh.Common.{
  ◌≡◌, refl, ◌≢◌, ◌∙◌, ap, String, eq_iff, List, [], ◌∷◌, ◌++◌, map, Mem, none, some, arith, length,
}
use libcontainerssh.Message.{Labels, set_label}
use libcontainerssh.AuthIntegration.Interface.{KeyboardInteractiveQuestion}
use libcontainerssh.AuthIntegration.Questions.{lookup, get_id, answer_or_empty, adapt}
use libcontainerssh.AuthIntegration.Answers.{adapt-lookup, lookup-set_label, lookup-set_label_of_ne}
use libcontainerssh.SshServer.Authenticators.{Prompt, fill_answers, challenge_wrapper}

-- The answers to further questions leave what stands under another id.
lookup-fill_answers_of_ne :
    (key : String) (questions : List KeyboardInteractiveQuestion) (answers : List String)
    (filled : Labels)
    → ((q : KeyboardInteractiveQuestion) → Mem q questions → get_id q ≢ key)
    → lookup key (fill_answers questions answers filled) ≡ lookup key filled
unfolding fill_answers
lookup-fill_answers_of_ne key [] answers filled h = refl
lookup-fill_answers_of_ne key (question ∷ questions) [] filled h = refl
lookup-fill_answers_of_ne key (question ∷ questions) (raw ∷ answers) filled h =
    lookup-fill_answers_of_ne key questions answers (set_label (get_id question) raw filled)
      (λ q m. h q (mem-cons_of_mem question m))
    ∙ lookup-set_label_of_ne key (get_id question) raw filled (h question mem-cons_self)

lookup-fill_answers :
    (before after : List KeyboardInteractiveQuestion) (question : KeyboardInteractiveQuestion)
    (first rest : List String) (raw : String) (filled : Labels)
    → length first ≡ length before
    → ((q : KeyboardInteractiveQuestion) → Mem q after → get_id q ≢ get_id question)
    → lookup
        (get_id question)
        (fill_answers (before ++ (question ∷ after)) (first ++ (raw ∷ rest)) filled)
      ≡ some raw
unfolding fill_answers
lookup-fill_answers [] after question [] rest raw filled e h =
    lookup-fill_answers_of_ne (get_id question) after rest (set_label (get_id question) raw filled)
      h
    ∙ lookup-set_label (get_id question) raw filled
lookup-fill_answers [] after question (a ∷ first) rest raw filled e h = absurd (omega (arith, e))
lookup-fill_answers (q ∷ before) after question [] rest raw filled e h = absurd (omega (arith, e))
lookup-fill_answers (q ∷ before) after question (a ∷ first) rest raw filled e h =
    lookup-fill_answers before after question first rest raw (set_label (get_id q) a filled)
      (omega (arith, e)) h

answer_or_empty-lookup :
    (a : Labels) (question : KeyboardInteractiveQuestion) (raw : String)
    → lookup (get_id question) a ≡ some raw
    → answer_or_empty a question ≡ raw
unfolding answer_or_empty
answer_or_empty-lookup a question raw e = ground (arith, e)

get_id-id :
    (question : KeyboardInteractiveQuestion) → question.id ≢ "" → get_id question ≡ question.id
unfolding get_id
get_id-id question h = grind (arith, eq_iff)

-- What the client types to a question is what the authenticator finds under the question's id, if the
-- client answers all the questions up to this one, the id is not empty, and no later question has
-- this id, or this text where it has no id.
pub adapt-challenge_wrapper :
    {S : Type 0} (prompt : Prompt S) (user instruction : String)
    (before after : List KeyboardInteractiveQuestion) (question : KeyboardInteractiveQuestion)
    (s s' : S) (first rest : List String) (raw : String)
    → let questions = before ++ (question ∷ after) in
      prompt user instruction
          (map (λ q. q.question) questions)
          (map (λ q. q.echo_response) questions)
          s
        ≡ ((first ++ (raw ∷ rest), none), s')
      → length first ≡ length before
      → question.id ≢ ""
      → ((q : KeyboardInteractiveQuestion)
          → Mem q after
          → (q.id ≢ question.id) × (get_id q ≢ question.id))
      → let ((answers, failed), s'') =
          adapt (challenge_wrapper prompt user) instruction (before ++ (question ∷ after)) s in
        (lookup question.id answers ≡ some raw) × (failed ≡ none) × (s'' ≡ s')
unfolding challenge_wrapper
adapt-challenge_wrapper prompt user instruction before after question s s' first rest raw e same
      named other =
    let questions = before ++ (question ∷ after) in
    let typed = first ++ (raw ∷ rest) in
    let id : get_id question ≡ question.id = get_id-id question named in
    let filled = fill_answers questions typed [] in
    let (found, went, later) =
      adapt-lookup (challenge_wrapper prompt user) instruction before after question s s' filled
        (ap (λ r. ((fill_answers questions r.0.0 [], r.0.1), r.1)) e) (λ q m. (other q m).0) in
    (
      found
          ∙ ap some (
              answer_or_empty-lookup filled question raw (
                lookup-fill_answers before after question first rest raw [] same
                  (λ q m h. (other q m).1 (h ∙ id)))),
      went,
      later,
    )
