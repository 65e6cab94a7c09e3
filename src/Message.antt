-- ===== src/Message.antt =====
-- message/message.go and internal/sshserver/rejection.go: the errors that the parts of the program
-- hand to each other, and the entries that they write to the log.
use Prim.Native.String.{◌++◌ as str_append}
use libcontainerssh.Common.{String, str_eq, if◌then◌else◌, List, [], ◌∷◌, ◌++◌}

-- A Go map from label names to label values.
abbrev pub Labels : Type 0
Labels = List (String × String)

unfoldable pub set_label : String → String → Labels → Labels
set_label name value [] = (name, value) ∷ []
set_label name value ((n, v) ∷ rest) =
    if str_eq n name then (name, value) ∷ rest else (n, v) ∷ set_label name value rest

pub record Body : Type 0 where
  pub code : String
  pub user_message : String
  pub explanation : String
  pub labels : Labels

-- The reasons that the SSH protocol has for refusing a channel.
pub data RejectionReason : Type 0 where
  prohibited connection_failed unknown_channel_type resource_shortage : RejectionReason

-- A `plain` message, a `wrapping` one with its cause, the `rejection` of a channel, the security
-- layer's `ErrTooManySessions` with its labels, and a `foreign` error, which comes from elsewhere and
-- has a text only.
pub data Message : Type 0 where
  plain : Body → Message
  wrapping : Body → Message → Message
  rejection : RejectionReason → Body → Message
  err_too_many_sessions : Labels → Message
  foreign : String → Message

-- `Error()` of each kind.
unfoldable pub error_text : Message → String
error_text (plain b) = b.explanation
error_text (wrapping b cause) = b.explanation
error_text (rejection r b) = b.explanation
error_text (err_too_many_sessions ls) = "Too many sessions."
error_text (foreign text) = text

-- `Code()`; an error that is no message has none.
unfoldable pub code_of : Message → String
code_of (plain b) = b.code
code_of (wrapping b cause) = b.code
code_of (rejection r b) = b.code
code_of (err_too_many_sessions ls) = "SECURITY_MAX_SESSIONS"
code_of (foreign text) = ""

unfoldable pub user_message : String → String → String → Message
user_message code user explanation =
    plain (record { code = code; user_message = user; explanation = explanation; labels = [] })

-- The cause's text is appended to the explanation in brackets.
unfoldable pub wrap_user : Message → String → String → String → Message
unfolding error_text
wrap_user cause code user explanation =
    wrapping
      (record {
        code = code;
        user_message = user;
        explanation = str_append explanation (str_append " (" (str_append (error_text cause) ")"));
        labels = [];
      })
      cause

unfoldable pub new_message : String → String → Message
unfolding user_message
new_message code explanation = user_message code "Internal Error" explanation

unfoldable pub wrap : Message → String → String → Message
unfolding wrap_user
wrap cause code explanation = wrap_user cause code "Internal Error" explanation

unfoldable pub new_channel_rejection : RejectionReason → String → String → String → Message
new_channel_rejection reason code user explanation =
    rejection reason
      (record { code = code; user_message = user; explanation = explanation; labels = [] })

label_body : String → String → Body → Body
unfolding set_label
label_body name value b = record b { labels = set_label name value b.labels }

-- `Label(name, value)`.
unfoldable pub label : String → String → Message → Message
unfolding label_body set_label
label name value (plain b) = plain (label_body name value b)
label name value (wrapping b cause) = wrapping (label_body name value b) cause
label name value (rejection r b) = rejection r (label_body name value b)
label name value (err_too_many_sessions ls) = err_too_many_sessions (set_label name value ls)
label name value (foreign text) = foreign text

pub data Level : Type 0 where
  debug info warning error : Level

-- One line of the log.
pub record LogEntry : Type 0 where
  pub level : Level
  pub content : Message

-- The log, oldest entry first.
abbrev pub Log : Type 0
Log = List LogEntry

abbrev pub write_log : Level → Message → Log → Log
write_log l m log = log ++ (record { level = l; content = m } ∷ [])
