-- ===== src/Agent/Kill/Finish.antt =====
-- agentprotocol/server.go: `Kill` comes to its end, `WaitFinish` included.
use libcontainerssh.Common.{
  ℕ, ◌≡◌, refl, ◌==◌, if◌then◌else◌, Bool, true, false, List, [], ◌∷◌, All, none, some, arith, ◌||◌,
}
use libcontainerssh.Agent.State.{
  Connection, ForwardCtx, Outcome, returns, blocks, panics, find, idle,
}
use libcontainerssh.Agent.Connection.{Answer, close, close_imm}
use libcontainerssh.Agent.Forward.{dropped, no_more_connections}
use libcontainerssh.Agent.Run.{Op, Codec, step, run, wait_finish}
use libcontainerssh.Agent.Ledger.{find-store, is_open, opened}
use libcontainerssh.Agent.Kill.Balance.{
  IsMap, Balanced, IsReady, Stepped, is_quiet, close-IsReady, close_imm-IsReady, step-Balanced,
}
use libcontainerssh.Agent.Kill.{◌>>=◌, keys, for_each, kill_begin, kill_timeout}

-- An outcome that is a return to a balanced state.
abbrev Done : Outcome ForwardCtx → Type 0
Done (returns x) = Balanced x
Done blocks = ⊥
Done panics = ⊥

-- The same, and nothing is waited for.
abbrev DoneReady : Outcome ForwardCtx → Type 0
DoneReady (returns x) = IsReady x
DoneReady blocks = ⊥
DoneReady panics = ⊥

close-DoneReady :
    (codec : Codec) (k : ℕ) (x : ForwardCtx)
    → IsReady x
    → DoneReady (dropped (close codec.encode k x))
unfolding close
close-DoneReady codec k x b = ground (arith, close-IsReady codec k x b)

close_imm-DoneReady : (k : ℕ) (x : ForwardCtx) → IsReady x → DoneReady (dropped (close_imm k x))
unfolding close_imm
close_imm-DoneReady k x b = ground (arith, close_imm-IsReady k x b)

bind-DoneReady :
    (o : Outcome ForwardCtx) (f : ForwardCtx → Outcome ForwardCtx)
    → DoneReady o
    → ((x : ForwardCtx) → IsReady x → DoneReady (f x))
    → DoneReady (o >>= f)
bind-DoneReady (returns x) f d h = h x d
bind-DoneReady blocks f d h = d
bind-DoneReady panics f d h = d

for_each-DoneReady :
    (method : ℕ → ForwardCtx → Outcome (Answer × ForwardCtx))
    → ((k : ℕ) (x : ForwardCtx) → IsReady x → DoneReady (dropped (method k x)))
    → (ks : List ℕ) (x : ForwardCtx) → IsReady x
    → DoneReady (for_each method ks x)
unfolding for_each
for_each-DoneReady method h [] x b = b
for_each-DoneReady method h (k ∷ ks) x b =
    bind-DoneReady (dropped (method k x)) (for_each method ks) (h k x b)
      (λ y. for_each-DoneReady method h ks y)

abbrev open_at : ℕ → ForwardCtx → ℕ
open_at j x = elim (find j x.conn_map) [ none ↦ 0 | some c ↦ is_open c.state ]

abbrev among : ℕ → List ℕ → Bool
among j [] = false
among j (k ∷ ks) = k == j || among j ks

-- What closing at once does to the connection of key `j`.
abbrev Shut : ℕ → Bool → ForwardCtx → Outcome ForwardCtx → Type 0
Shut j hit x (returns y) = open_at j y ≡ (if hit then 0 else open_at j x)
Shut j hit x blocks = Unit
Shut j hit x panics = Unit

close_imm-Shut : (j k : ℕ) (x : ForwardCtx) → Shut j (k == j) x (dropped (close_imm k x))
unfolding close_imm
close_imm-Shut j k x = grind (arith, find-store)

Shut-bind :
    (j k : ℕ) (ks : List ℕ) (x : ForwardCtx) (o : Outcome ForwardCtx)
    → Shut j (k == j) x o
    → ((y : ForwardCtx) → Shut j (among j ks) y (for_each close_imm ks y))
    → Shut j (among j (k ∷ ks)) x (o >>= for_each close_imm ks)
Shut-bind j k ks x (returns y) s h = weaken (for_each close_imm ks y) (h y)
  where
    weaken : (p : Outcome ForwardCtx) → Shut j (among j ks) y p → Shut j (among j (k ∷ ks)) x p
    weaken (returns z) t = ground arith
    weaken blocks t = tt
    weaken panics t = tt
Shut-bind j k ks x blocks s h = tt
Shut-bind j k ks x panics s h = tt

for_each-Shut :
    (j : ℕ) (ks : List ℕ) (x : ForwardCtx) → Shut j (among j ks) x (for_each close_imm ks x)
unfolding for_each
for_each-Shut j [] x = refl
for_each-Shut j (k ∷ ks) x =
    Shut-bind j k ks x (dropped (close_imm k x)) (close_imm-Shut j k x) (for_each-Shut j ks)

-- A key that is not among the map's has no connection.
find_not_among : (j : ℕ) (m : List (ℕ × Connection)) → among j (keys m) ≡ false → find j m ≡ none
unfolding find
find_not_among j [] h = refl
find_not_among j ((k, c) ∷ m) h = ground (arith, find_not_among j m)

opened_zero :
    (m : List (ℕ × Connection))
    → IsMap m
    → ((j : ℕ) (c : Connection) → find j m ≡ some c → is_open c.state ≡ 0)
    → opened m ≡ 0
unfolding find
opened_zero [] h z = refl
opened_zero ((k, c) ∷ m) h z =
    let head = z k c (ground arith) in
    omega (arith, opened_zero m h.1 (λ j d e. z j d (ground arith)), head)

all-Shut :
    (x y : ForwardCtx)
    → ((j : ℕ) → Shut j (among j (keys x.conn_map)) x (returns y))
    → (j : ℕ) (c : Connection) → find j y.conn_map ≡ some c
    → is_open c.state ≡ 0
all-Shut x y s j c e = ground (arith, s j, find_not_among j x.conn_map)

-- An outcome that is a return to a state with no open connection, from where `WaitFinish` returns.
abbrev Finished : Outcome ForwardCtx → Type 0
Finished (returns y) = (opened y.conn_map ≡ 0) × (wait_finish y ≡ returns y)
Finished blocks = ⊥
Finished panics = ⊥

finish :
    (x : ForwardCtx) (o : Outcome ForwardCtx)
    → DoneReady o
    → ((j : ℕ) → Shut j (among j (keys x.conn_map)) x o)
    → Finished o
unfolding wait_finish
finish x (returns y) (b, w) s =
    let none_open : opened y.conn_map ≡ 0 = opened_zero y.conn_map b.mapped (all-Shut x y s) in
    (none_open, ground arith)
finish x blocks b s = b
finish x panics b s = b

kill_timeout-Finished : (x : ForwardCtx) → IsReady x → Finished (kill_timeout x)
unfolding kill_timeout
kill_timeout-Finished x b =
    finish x (for_each close_imm (keys x.conn_map) x)
      (for_each-DoneReady close_imm close_imm-DoneReady (keys x.conn_map) x b)
      (λ j. for_each-Shut j (keys x.conn_map) x)

no_more-DoneReady :
    (codec : Codec) (x : ForwardCtx)
    → IsReady x
    → DoneReady (if x.stopped then returns x else dropped (no_more_connections codec.encode x))
unfolding no_more_connections
no_more-DoneReady codec x b = ground arith

kill_begin-DoneReady :
    (codec : Codec) (x : ForwardCtx) → IsReady x → DoneReady (kill_begin codec.encode x)
unfolding kill_begin
kill_begin-DoneReady codec x b =
    bind-DoneReady _ (λ y. for_each (close codec.encode) (keys y.conn_map) y)
      (no_more-DoneReady codec x b)
      (λ y c. for_each-DoneReady (close codec.encode) (close-DoneReady codec) (keys y.conn_map) y c)

run-step-Done :
    (codec : Codec) (op : Op) (ops : List Op) (x : ForwardCtx) (o : Outcome (Answer × ForwardCtx))
    → step codec op x ≡ o
    → Stepped o
    → Balanced x
    → ((y : ForwardCtx) → Balanced y → Done (run codec ops y))
    → Done (run codec (op ∷ ops) x)
unfolding run
run-step-Done codec op ops x (returns (answer, y)) e s b rest = rw (e, run) (rest y s)
run-step-Done codec op ops x blocks e s b rest = rw (e, run) (rest x b)
run-step-Done codec op ops x panics e s b rest = absurd s

run-Done :
    (codec : Codec) (ops : List Op) (x : ForwardCtx)
    → All (λ op. is_quiet op ≡ true) ops
    → Balanced x
    → Done (run codec ops x)
unfolding run
run-Done codec [] x q b = b
run-Done codec (op ∷ ops) x (q, qs) b =
    run-step-Done codec op ops x (step codec op x) refl (step-Balanced codec op x q b) b
      (λ y c. run-Done codec ops y qs c)

-- A goroutine that waits in no state that an outcome returns to.
abbrev EndsIdle : Outcome ForwardCtx → Type 0
EndsIdle (returns y) = y.waits ≡ idle
EndsIdle blocks = Unit
EndsIdle panics = Unit

bind-Done :
    (o : Outcome ForwardCtx) (f : ForwardCtx → Outcome ForwardCtx)
    → DoneReady o
    → ((x : ForwardCtx) → Balanced x → Done (f x))
    → Done (o >>= f)
bind-Done (returns x) f d h = h x d.0
bind-Done blocks f d h = d
bind-Done panics f d h = d

bind-Finished :
    (o : Outcome ForwardCtx) (f : ForwardCtx → Outcome ForwardCtx)
    → Done o
    → EndsIdle o
    → ((x : ForwardCtx) → IsReady x → Finished (f x))
    → Finished (o >>= f)
bind-Finished (returns x) f d w h = h x (d, w)
bind-Finished blocks f d w h = d
bind-Finished panics f d w h = d

-- Kill comes to its end: it closes the connections, in the five seconds that follow there are any
-- packets and calls but rejections, new connections and a second end, it closes at once what is
-- still open, and then WaitFinish returns, with every connection closed. This starts from a context
-- whose wait group counts exactly its open connections, and whose map has one entry for each key, and
-- the goroutine for packets waits for no reader when Kill begins, nor five seconds later.
pub kill_finishes :
    (codec : Codec) (ops : List Op) (x : ForwardCtx)
    → Balanced x
    → x.waits ≡ idle
    → All (λ op. is_quiet op ≡ true) ops
    → EndsIdle (kill_begin codec.encode x >>= run codec ops)
    → (y : ForwardCtx) × ((kill_begin codec.encode x
          >>= run codec ops
          >>= kill_timeout
          >>= wait_finish)
        ≡ returns y)
      × (opened y.conn_map ≡ 0)
kill_finishes codec ops x b w q later =
    ended (kill_begin codec.encode x >>= run codec ops >>= kill_timeout) (
      bind-Finished (kill_begin codec.encode x >>= run codec ops) kill_timeout
        (bind-Done (kill_begin codec.encode x) (run codec ops) (kill_begin-DoneReady codec x (b, w))
          (λ y c. run-Done codec ops y q c))
        later kill_timeout-Finished)
  where
    ended :
        (o : Outcome ForwardCtx)
        → Finished o
        → (y : ForwardCtx) × ((o >>= wait_finish) ≡ returns y) × (opened y.conn_map ≡ 0)
    ended (returns y) f = (y, f.1, f.0)
    ended blocks f = elim f [ ]
    ended panics f = elim f [ ]
