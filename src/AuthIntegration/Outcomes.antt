-- ===== src/AuthIntegration/Outcomes.antt =====
-- internal/authintegration/handler.go: what an attempt to authenticate is answered with, in terms of
-- what the authenticator finds and the behaviour that is set.
use libcontainerssh.Common.{
  ◌≡◌, refl, ◌∙◌, ap, sym, subst, String, if◌then◌else◌, Bool, true, false, Option, none, some,
  Option-cases, inl, inr, arith,
}
use libcontainerssh.Message.{Message, code_of, user_message}
use libcontainerssh.Metadata.{ConnectionAuthPendingMetadata}
use libcontainerssh.AuthIntegration.Interface.{
  AuthResponse, auth_success, auth_failure, auth_unavailable, AuthResult, AuthenticationContext,
  Credentials, password, pub_key, keyboard_interactive, Authenticators, NetworkConnectionHandler,
}
use libcontainerssh.AuthIntegration.Questions.{adapt}
use libcontainerssh.AuthIntegration.Authentication.{
  Behavior, passthrough_on_failure, passthrough_on_success, passthrough_on_unavailable, AuthHandler,
  dismiss, disabled, pass_through, conclude_password, conclude, on_auth, on_auth_password,
  on_auth_pub_key, on_auth_keyboard_interactive,
}

-- The authenticator for the credentials, if there is one, and what it finds.
unfoldable pub consult :
    {S : Type 0}
    → Authenticators S
    → Credentials S
    → ConnectionAuthPendingMetadata
    → S
    → Option (AuthenticationContext × S)
unfolding adapt
consult authenticators (password word) meta s = elim authenticators.password_authenticator [
  | none ↦ none
  | some authenticate ↦ some (authenticate meta word s)
]
consult authenticators (pub_key key) meta s = elim authenticators.public_key_authenticator [
  | none ↦ none
  | some authenticate ↦ some (authenticate meta key s)
]
consult authenticators (keyboard_interactive challenge) meta s =
    elim authenticators.keyboard_interactive_authenticator [
      | none ↦ none
      | some authenticate ↦ some (authenticate meta (adapt challenge) s)
    ]

-- An authentication succeeds, fails, or could not be carried out.
abbrev pub verdict : AuthenticationContext → AuthResponse
verdict context =
    if context.success
    then auth_success
    else elim context.error [ none ↦ auth_failure | some err ↦ auth_unavailable ]

-- The behaviours as they are documented.
abbrev pub passes : Behavior → AuthResponse → Bool
passes passthrough_on_success auth_success = true
passes passthrough_on_failure auth_failure = true
passes passthrough_on_unavailable auth_unavailable = true
passes _ _ = false

abbrev pub error_code : Option Message → Option String
error_code none = none
error_code (some m) = some (code_of m)

module _ {H S : Type 0} (behavior : Behavior) (authenticators : Authenticators S)
    (backend : NetworkConnectionHandler H S) where
  -- The end of each method, from what its authenticator found.
  unfoldable pub settle :
      Credentials S
      → ConnectionAuthPendingMetadata
      → AuthHandler H
      → S
      → Option (AuthenticationContext × S)
      → AuthResult × AuthHandler H × S
  unfolding disabled conclude_password conclude
  settle (password word) meta h s none =
      disabled behavior authenticators backend "Password authentication is disabled." meta h s
  settle (pub_key key) meta h s none =
      disabled behavior authenticators backend "Public key authentication is disabled." meta h s
  settle (keyboard_interactive challenge) meta h s none =
      disabled behavior authenticators backend "Keyboard-interactive authentication is disabled."
        meta h s
  settle (password word) meta h s (some found) =
      conclude_password behavior authenticators backend word meta h found
  settle credentials meta h s (some found) =
      conclude behavior authenticators backend credentials meta h found

  -- Refused without an authenticator, and with the state that is given.
  abbrev IsDisabled : AuthHandler H → S → AuthResult × AuthHandler H × S → Type 0
  IsDisabled h s ((answer, after, err), h', s') =
      (answer ≡ auth_unavailable)
      × (error_code err ≡ some "SSH_AUTH_UNAVAILABLE")
      × (h' ≡ h)
      × (s' ≡ s)

  -- Answered as the context says, without a call of the backend.
  abbrev Answers :
      AuthHandler H → AuthenticationContext → S → AuthResult × AuthHandler H × S → Type 0
  Answers h context s ((answer, after, err), h', s') =
      (answer ≡ verdict context) × (h' ≡ record h { auth_context = some context }) × (s' ≡ s)

  settle-IsDisabled :
      (credentials : Credentials S) (meta : ConnectionAuthPendingMetadata) (h : AuthHandler H)
      (s : S)
      → IsDisabled h
          (dismiss behavior authenticators backend h s)
          (settle credentials meta h s none)
  unfolding settle user_message code_of
  settle-IsDisabled (password word) meta h s = (refl, refl, refl, refl)
  settle-IsDisabled (pub_key key) meta h s = (refl, refl, refl, refl)
  settle-IsDisabled (keyboard_interactive challenge) meta h s = (refl, refl, refl, refl)

  module _ (meta : ConnectionAuthPendingMetadata) (h : AuthHandler H) (s : S)
      (context : AuthenticationContext) (s' : S) where
    settle-pass_through :
        (credentials : Credentials S)
        → passes behavior (verdict context) ≡ true
        → settle credentials meta h s (some (context, s'))
          ≡ pass_through behavior authenticators backend credentials meta
              (record h { auth_context = some context })
              s'
    unfolding settle
    settle-pass_through (password word) p = ground arith
    settle-pass_through (pub_key key) p = ground arith
    settle-pass_through (keyboard_interactive challenge) p = ground arith

    settle-Answers :
        (credentials : Credentials S)
        → passes behavior (verdict context) ≡ false
        → Answers h context s' (settle credentials meta h s (some (context, s')))
    unfolding settle
    settle-Answers (password word) p = ground arith
    settle-Answers (pub_key key) p = ground arith
    settle-Answers (keyboard_interactive challenge) p = ground arith

  module _ (credentials : Credentials S) (meta : ConnectionAuthPendingMetadata) (h : AuthHandler H)
      (s : S) where
    abbrev pub start : S
    start = dismiss behavior authenticators backend h s

    pub on_auth-settle :
        on_auth behavior authenticators backend credentials meta h s
        ≡ settle credentials meta h s (consult authenticators credentials meta start)
    unfolding settle on_auth on_auth_password on_auth_pub_key on_auth_keyboard_interactive consult
    on_auth-settle =
        elim credentials
          as (λ c.
            on_auth behavior authenticators backend c meta h s
            ≡ settle c meta h s (consult authenticators c meta start)) [
              | password word ↦ elim (Option-cases authenticators.password_authenticator) [
                | inl e ↦ rw e refl
                | inr (f, e) ↦ rw e refl
              ]
              | pub_key key ↦ elim (Option-cases authenticators.public_key_authenticator) [
                | inl e ↦ rw e refl
                | inr (f, e) ↦ rw e refl
              ]
              | keyboard_interactive challenge ↦
                  elim (Option-cases authenticators.keyboard_interactive_authenticator) [
                    | inl e ↦ rw e refl
                    | inr (f, e) ↦ rw e refl
                  ]
            ]

    -- Without an authenticator for the credentials the attempt is answered as unavailable, with the
    -- error code for it, the backend is not called, and the context of the last attempt is told that
    -- it is over.
    pub on_auth_disabled :
        consult authenticators credentials meta start ≡ none
        → let ((answer, after, err), h', s') =
            on_auth behavior authenticators backend credentials meta h s in
          (answer ≡ auth_unavailable)
          × (error_code err ≡ some "SSH_AUTH_UNAVAILABLE")
          × (h' ≡ h)
          × (s' ≡ start)
    on_auth_disabled e =
        subst (IsDisabled h start) (sym (on_auth-settle ∙ ap (settle credentials meta h s) e))
          (settle-IsDisabled credentials meta h s)

    -- Where the behaviour asks for it, the attempt gets what the backend does and answers.
    pub on_auth-pass_through :
        (context : AuthenticationContext) (s' : S)
        → consult authenticators credentials meta start ≡ some (context, s')
        → passes behavior (verdict context) ≡ true
        → on_auth behavior authenticators backend credentials meta h s
          ≡ pass_through behavior authenticators backend credentials meta
              (record h { auth_context = some context })
              s'
    on_auth-pass_through context s' e p =
        on_auth-settle
        ∙ ap (settle credentials meta h s) e
        ∙ settle-pass_through meta h s context s' credentials p

    -- Else it is answered as the authenticator says, and the backend is not called.
    pub on_auth-verdict :
        (context : AuthenticationContext) (s' : S)
        → consult authenticators credentials meta start ≡ some (context, s')
        → passes behavior (verdict context) ≡ false
        → let ((answer, after, err), h', s'') =
            on_auth behavior authenticators backend credentials meta h s in
          (answer ≡ verdict context) × (h' ≡ record h { auth_context = some context }) × (s'' ≡ s')
    on_auth-verdict context s' e p =
        subst (Answers h context s') (sym (on_auth-settle ∙ ap (settle credentials meta h s) e))
          (settle-Answers meta h s context s' credentials p)
