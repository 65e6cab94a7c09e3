-- ===== src/SshServer/Library.antt =====
-- golang.org/x/crypto/ssh: what the server relies on in the library, which is not part of the program.
use libcontainerssh.Common.{◌≡◌, String, Option, some, returns, ◌⊎◌, inr}
use libcontainerssh.Message.{Message}
use libcontainerssh.SshServer.Authenticators.{Client, Permissions, Gate, Attempt}
use libcontainerssh.SshServer.Handshake.{Callbacks, ServerConn, NewServerConn}

-- How the state may come about while the library authenticates: by its calls of the callbacks, and by
-- what happens outside.
pub data Reaches {G H S : Type 0} (cbs : Callbacks G H S) (start : Gate G H S)
    : Gate G H S → Type 0 where
  at_start : Reaches cbs start start
  outside_moves :
      {gate : Gate G H S} (s : S)
      → Reaches cbs start gate
      → Reaches cbs start (record gate { outside = s })
  called :
      {gate gate' : Gate G H S} (client : Client) (attempt : Attempt S)
      (answer : Option Permissions × Option Message)
      → Reaches cbs start gate
      → cbs client attempt gate ≡ some (returns (answer, gate'))
      → Reaches cbs start gate'

-- The library gives a connection only permissions that a callback has given.
abbrev pub PassesOn : {G H S : Type 0} → NewServerConn G H S → Type 0
PassesOn {G} {H} {S} new_server_conn =
    (cbs : Callbacks G H S) (start gate' : Gate G H S) (conn : ServerConn) (text : String)
    → new_server_conn cbs start ≡ returns (inr conn, gate')
    → conn.extension ≡ some text
    → (client : Client) × (attempt : Attempt S) × (gate : Gate G H S) × (after : Gate G H S)
      × (err : Option Message) × Reaches cbs start gate
      × (cbs client attempt gate ≡ some (returns ((some (record { metadata = text }), err), after)))

-- All that the library does to the state is to call the callbacks, while things happen outside.
abbrev pub OnlyCalls : {G H S : Type 0} → NewServerConn G H S → Type 0
OnlyCalls {G} {H} {S} new_server_conn =
    (cbs : Callbacks G H S) (start gate' : Gate G H S) (result : Message ⊎ ServerConn)
    → new_server_conn cbs start ≡ returns (result, gate')
    → Reaches cbs start gate'
