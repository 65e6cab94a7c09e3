-- ===== src/SshServer/Reached.antt =====
-- internal/sshserver/serverImpl.go: what the callbacks leave of the handler of a network connection.
use mathlib.Core.Option.{some_inj}
use libcontainerssh.Common.{ℕ, ◌≡◌, refl, ◌∙◌, ap, String, Option, none, some, arith, returns, ◌⊎◌}
use libcontainerssh.Message.{Message}
use libcontainerssh.Metadata.{
  ConnectionMetadata, ConnectionAuthPendingMetadata, ConnectionAuthenticatedMetadata,
  start_authentication,
}
use libcontainerssh.AuthIntegration.Interface.{
  auth_success, auth_failure, auth_unavailable, AuthResult, Credentials, password, pub_key,
  keyboard_interactive, NetworkConnectionHandler,
}
use libcontainerssh.SshServer.Authenticators.{
  Client, Permissions, GssApi, Gate, Method, password_method, pub_key_method,
  keyboard_interactive_method, Attempt, by_password, by_pub_key, by_keyboard_interactive, by_gssapi,
  challenge_wrapper, note_auth, judge, authenticate, permit, callback, refuse_login, conclude_login,
  allow_login_callback, callbacks,
}
use libcontainerssh.SshServer.Library.{Reaches, at_start, outside_moves, called}

-- The callbacks do nothing to the handler but ask it about the credentials.
module _ {G H S : Type 0} (connection : NetworkConnectionHandler H S) (count : H → ℕ)
    (attempts : (credentials : Credentials S) (meta : ConnectionAuthPendingMetadata) (h : H) (s : S)
      → count (connection.on_auth credentials meta h s).1 ≡ count h)
    (marshal : ConnectionAuthenticatedMetadata → Message ⊎ String) (meta : ConnectionMetadata) where
  judge-handler :
      (method : Method) (authenticating : ConnectionAuthPendingMetadata) (result : AuthResult)
      (gate gate' : Gate G H S) (answer : Option Permissions × Option Message)
      → permit connection marshal meta
          (judge connection marshal meta method authenticating result gate)
        ≡ returns (answer, gate')
      → gate'.handler ≡ gate.handler
  unfolding judge permit note_auth
  judge-handler method authenticating (auth_success, after, e) gate gate' answer h = ground arith
  judge-handler method authenticating (auth_failure, after, e) gate gate' answer h = ground arith
  judge-handler method authenticating (auth_unavailable, after, some e) gate gate' answer h =
      ground arith
  judge-handler method authenticating (auth_unavailable, after, none) gate gate' answer h = cc

  callback-count :
      (method : Method) (client : Client) (credentials : Credentials S) (gate gate' : Gate G H S)
      (answer : Option Permissions × Option Message)
      → callback connection marshal meta method client credentials gate ≡ returns (answer, gate')
      → count gate'.handler ≡ count gate.handler
  unfolding callback authenticate
  callback-count method client credentials gate gate' answer e =
      let authenticating = start_authentication meta client.client_version client.user in
      let (result, h, s) =
        connection.on_auth credentials authenticating gate.handler gate.outside in
      ap count (
        judge-handler method authenticating result (record gate { handler = h; outside = s }) gate'
          answer e)
      ∙ attempts credentials authenticating gate.handler gate.outside

  allow_login_callback-handler :
      (server : GssApi G S) (client : Client) (gate gate' : Gate G H S)
      (answer : Option Permissions × Option Message)
      → allow_login_callback connection marshal meta server client gate ≡ returns (answer, gate')
      → gate'.handler ≡ gate.handler
  unfolding allow_login_callback refuse_login conclude_login permit note_auth
  allow_login_callback-handler server client gate gate' answer e = ground arith

  callbacks-count :
      (server : Option (GssApi G S)) (client : Client) (attempt : Attempt S)
      (gate gate' : Gate G H S) (answer : Option Permissions × Option Message)
      → callbacks connection marshal meta server client attempt gate
        ≡ some (returns (answer, gate'))
      → count gate'.handler ≡ count gate.handler
  unfolding callbacks
  callbacks-count server client (by_password word) gate gate' answer e =
      callback-count password_method client (password word) gate gate' answer (some_inj.0 e)
  callbacks-count server client (by_pub_key key) gate gate' answer e =
      callback-count pub_key_method client (pub_key key) gate gate' answer (some_inj.0 e)
  callbacks-count server client (by_keyboard_interactive prompt) gate gate' answer e =
      callback-count keyboard_interactive_method client
        (keyboard_interactive (challenge_wrapper prompt client.user)) gate gate' answer
        (some_inj.0 e)
  callbacks-count none client by_gssapi gate gate' answer e = cc
  callbacks-count (some server) client by_gssapi gate gate' answer e =
      ap count (allow_login_callback-handler server client gate gate' answer (some_inj.0 e))

  pub Reaches-count :
      (server : Option (GssApi G S)) (start gate : Gate G H S)
      → Reaches (callbacks connection marshal meta server) start gate
      → count gate.handler ≡ count start.handler
  Reaches-count server start _ at_start = refl
  Reaches-count server start _ (outside_moves s r) = Reaches-count server start _ r
  Reaches-count server start _ (called {gate} {gate'} client attempt answer r e) =
      callbacks-count server client attempt gate gate' answer e ∙ Reaches-count server start gate r
