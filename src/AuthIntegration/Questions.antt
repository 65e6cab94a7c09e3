-- ===== src/AuthIntegration/Questions.antt =====
-- internal/authintegration/handler.go and internal/sshserver/handler.go: the questions that an
-- authenticator asks the client, and the answers that it gets.
use libcontainerssh.Common.{String, str_eq, if◌then◌else◌, List, [], ◌∷◌, Option, none, some}
use libcontainerssh.Message.{Message, Labels, set_label}
use libcontainerssh.AuthIntegration.Interface.{KeyboardInteractiveQuestion, Challenge}

-- A Go map is read by its key.
unfoldable pub lookup : String → Labels → Option String
lookup key [] = none
lookup key ((k, v) ∷ rest) = if str_eq k key then some v else lookup key rest

-- `getID` of the SSH server's questions.
unfoldable pub get_id : KeyboardInteractiveQuestion → String
get_id k = if str_eq k.id "" then k.question else k.id

-- `Get`, with the empty text where it fails.
unfoldable pub answer_or_empty : Labels → KeyboardInteractiveQuestion → String
unfolding lookup get_id
answer_or_empty answers question = elim (lookup (get_id question) answers) [
  | some val ↦ val
  | none ↦ ""
]

-- The loop that fills the map of the answers.
unfoldable pub collect : Labels → List KeyboardInteractiveQuestion → Labels → Labels
unfolding answer_or_empty set_label
collect a [] answers = answers
collect a (question ∷ questions) answers =
    collect a questions (set_label question.id (answer_or_empty a question) answers)

unfoldable pub read_answers :
    {S : Type 0}
    → List KeyboardInteractiveQuestion
    → (Labels × Option Message) × S
    → (Labels × Option Message) × S
unfolding collect
read_answers questions ((a, some err), s) = (([], some err), s)
read_answers questions ((a, none), s) = ((collect a questions [], none), s)

-- The function that the authenticator is given to ask by.
unfoldable pub adapt : {S : Type 0} → Challenge S → Challenge S
unfolding read_answers
adapt challenge instruction questions s = read_answers questions (challenge instruction questions s)
