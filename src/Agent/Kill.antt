-- ===== src/Agent/Kill.antt =====
-- agentprotocol/server.go: `Kill`, which ends a forwarding context.
pub mod Balance
pub mod Finish
use libcontainerssh.Common.{ℕ, if◌then◌else◌, String, List, [], ◌∷◌, Option, map}
use libcontainerssh.Agent.Protocol.{Packet}
use libcontainerssh.Agent.State.{Connection, ForwardCtx, Outcome, returns, blocks, panics}
use libcontainerssh.Agent.Connection.{Answer, close, close_imm}
use libcontainerssh.Agent.Forward.{no_more_connections, dropped}

-- One call after the other.
infixl 5 ◌>>=◌
abbrev pub ◌>>=◌ : Outcome ForwardCtx → (ForwardCtx → Outcome ForwardCtx) → Outcome ForwardCtx
returns x >>= f = f x
blocks >>= f = blocks
panics >>= f = panics

abbrev pub keys : List (ℕ × Connection) → List ℕ
keys = map (λ entry. entry.0)

-- A loop over connections that calls a method of each and does not use the answers.
unfoldable pub for_each :
    (ℕ → ForwardCtx → Outcome (Answer × ForwardCtx)) → List ℕ → ForwardCtx → Outcome ForwardCtx
for_each method [] x = returns x
for_each method (k ∷ ks) x = dropped (method k x) >>= for_each method ks

-- The first part of `Kill`, which runs at once.
unfoldable pub kill_begin : (List Packet → Packet → Option String) → ForwardCtx → Outcome ForwardCtx
unfolding for_each
kill_begin encode x =
    (if x.stopped then returns x else dropped (no_more_connections encode x)) >>= λ x'.
    for_each (close encode) (keys x'.conn_map) x'

-- The second part, which runs five seconds later.
unfoldable pub kill_timeout : ForwardCtx → Outcome ForwardCtx
unfolding for_each
kill_timeout x = for_each close_imm (keys x.conn_map) x
