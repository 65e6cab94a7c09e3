-- ===== src/Agent/WaitGroup.antt =====
-- agentprotocol/server.go: what every sequence of packets and calls leaves of the wait group, and so
-- whether `WaitFinish` returns.
use libcontainerssh.Common.{
  ℕ, ◌<◌, ◌≡◌, refl, ◌≢◌, ◌⊎◌, inl, inr, false, List, [], ◌∷◌, All, some, arith,
}
use libcontainerssh.Agent.State.{
  Connection, waitinit, closed, ForwardCtx, Outcome, returns, blocks, panics, find, is_writing,
}
use libcontainerssh.Agent.Connection.{Answer, reject}
use libcontainerssh.Agent.Forward.{no_more_connections}
use libcontainerssh.Agent.Run.{Op, rejects, ends, Codec, step, run, wait_finish}
use libcontainerssh.Agent.Ledger.{Inv, Kept, step-Safe, opened, opened-store}

-- The outcome of a call, and of a run, where `stop` says what is known if the program panics.
abbrev Stepped : Type 0 → ForwardCtx → Outcome (Answer × ForwardCtx) → Type 0
Stepped stop x (returns (answer, x')) = Kept x x'
Stepped stop x blocks = Unit
Stepped stop x panics = stop

abbrev Ran : Type 0 → ForwardCtx → Outcome ForwardCtx → Type 0
Ran stop x (returns x') = Kept x x'
Ran stop x blocks = ⊥
Ran stop x panics = stop

Ran-of_Kept :
    (stop : Type 0) {x y : ForwardCtx} (o : Outcome ForwardCtx)
    → Kept x y
    → Ran stop y o
    → Ran stop x o
Ran-of_Kept stop (returns z) k r = ground arith
Ran-of_Kept stop blocks k r = r
Ran-of_Kept stop panics k r = r

-- A call that returns with more in the group than there are open connections.
abbrev Surplus : Outcome (Answer × ForwardCtx) → Type 0
Surplus (returns (answer, y)) = Inv y × (opened y.conn_map < y.wait_group)
Surplus blocks = ⊥
Surplus panics = ⊥

-- A run that ends in a panic, or where `WaitFinish` waits for ever.
abbrev Hangs : Outcome ForwardCtx → Type 0
Hangs (returns y) = wait_finish y ≡ blocks
Hangs blocks = ⊥
Hangs panics = Unit

Hangs-of_Ran :
    (x : ForwardCtx) (o : Outcome ForwardCtx)
    → opened x.conn_map < x.wait_group
    → Ran Unit x o
    → Hangs o
unfolding wait_finish
Hangs-of_Ran x (returns y) s k = ground arith
Hangs-of_Ran x blocks s k = k
Hangs-of_Ran x panics s k = k

module _ (codec : Codec) where
  open codec use {encode}

  ends-Stepped : (x : ForwardCtx) → Inv x → Stepped Unit x (no_more_connections encode x)
  unfolding no_more_connections
  ends-Stepped x v = ground arith

  step-Stepped : (op : Op) (x : ForwardCtx) → Inv x → Stepped Unit x (step codec op x)
  unfolding step
  step-Stepped ends x v = ends-Stepped x v
  step-Stepped op x v = ground (arith, step-Safe codec op x v (λ e. cc))

  -- One step of `run`, by what the call does.
  run-step :
      (stop : Type 0) (op : Op) (ops : List Op) (x : ForwardCtx)
      → Inv x
      → ((y : ForwardCtx) → Inv y → Ran stop y (run codec ops y))
      → (o : Outcome (Answer × ForwardCtx)) → step codec op x ≡ o
      → Stepped stop x o
      → Ran stop x (run codec (op ∷ ops) x)
  unfolding run
  run-step stop op ops x v rest (returns (answer, y)) e k =
      rw (e, run) (Ran-of_Kept stop _ k (rest y (ground arith)))
  run-step stop op ops x v rest blocks e k = rw (e, run) (rest x v)
  run-step stop op ops x v rest panics e k = rw (e, run) k

  run-Ran : (ops : List Op) (x : ForwardCtx) → Inv x → Ran Unit x (run codec ops x)
  unfolding run
  run-Ran [] x v = ground arith
  run-Ran (op ∷ ops) x v =
      run-step Unit op ops x v (run-Ran ops) (step codec op x) refl (step-Stepped op x v)

  run-Ran_of_no_ends :
      (ops : List Op) (x : ForwardCtx)
      → All (λ op. op ≢ ends) ops
      → Inv x
      → Ran ⊥ x (run codec ops x)
  unfolding run
  run-Ran_of_no_ends [] x h v = ground arith
  run-Ran_of_no_ends (op ∷ ops) x (h, hs) v =
      run-step ⊥ op ops x v (λ y. run-Ran_of_no_ends ops y hs) (step codec op x) refl
        (ground (arith, step-Safe codec op x v (λ e. absurd (h e))))

  -- No sequence of packets from the other side and of calls on connections or for new ones panics,
  -- if NoMoreConnections is not among the calls: it runs to a state in which the wait group still
  -- covers all connections that are not closed, and the channel is closed exactly if the context is
  -- stopped. This starts from a state where both hold.
  pub run-Inv :
      (ops : List Op) (x : ForwardCtx)
      → All (λ op. op ≢ ends) ops
      → Inv x
      → (x' : ForwardCtx) × (run codec ops x ≡ returns x') × Inv x'
  run-Inv ops x h v = ran (run codec ops x) refl (run-Ran_of_no_ends ops x h v)
    where
      ran :
          (o : Outcome ForwardCtx)
          → run codec ops x ≡ o
          → Ran ⊥ x o
          → (x' : ForwardCtx) × (run codec ops x ≡ returns x') × Inv x'
      ran (returns x') e k = (x', e, ground arith)
      ran blocks e k = elim k [ ]
      ran panics e k = elim k [ ]

  reject-Surplus :
      (k : ℕ) (c : Connection) (x : ForwardCtx)
      → Inv x
      → find k x.conn_map ≡ some c
      → c.initiator ≡ false
      → c.state ≡ waitinit
      → is_writing k x.waits ≡ false
      → Surplus (step codec (rejects k) x)
  unfolding step reject
  reject-Surplus k c x v e i s w =
      ground (arith, opened-store k (record c { state = closed }) x.conn_map)

  after-Surplus :
      (op : Op) (ops : List Op) (x : ForwardCtx) (o : Outcome (Answer × ForwardCtx))
      → step codec op x ≡ o
      → Surplus o
      → Hangs (run codec (op ∷ ops) x)
  unfolding run
  after-Surplus op ops x (returns (answer, y)) e (v, s) =
      rw (e, run) (Hangs-of_Ran y _ s (run-Ran ops y v))
  after-Surplus op ops x blocks e s = absurd s
  after-Surplus op ops x panics e s = absurd s

  -- After Reject has refused a connection of the other side that waits for an answer, WaitFinish does
  -- not return any more, whatever packets and calls follow: the run ends in a panic or in a state
  -- where it waits for ever. The wait group covers the open connections at first, and the lock of the
  -- connection is free.
  pub reject_hangs :
      (k : ℕ) (c : Connection) (x : ForwardCtx) (ops : List Op)
      → Inv x
      → find k x.conn_map ≡ some c
      → c.initiator ≡ false
      → c.state ≡ waitinit
      → is_writing k x.waits ≡ false
      → (run codec (rejects k ∷ ops) x ≡ panics)
        ⊎ ((y : ForwardCtx) × (run codec (rejects k ∷ ops) x ≡ returns y)
            × (wait_finish y ≡ blocks))
  reject_hangs k c x ops v e i s w =
      hangs (run codec (rejects k ∷ ops) x) refl
        (after-Surplus (rejects k) ops x _ refl (reject-Surplus k c x v e i s w))
    where
      hangs :
          (o : Outcome ForwardCtx)
          → run codec (rejects k ∷ ops) x ≡ o
          → Hangs o
          → (run codec (rejects k ∷ ops) x ≡ panics)
            ⊎ ((y : ForwardCtx) × (run codec (rejects k ∷ ops) x ≡ returns y)
                × (wait_finish y ≡ blocks))
      hangs (returns y) q h = inr (y, q, h)
      hangs blocks q h = absurd h
      hangs panics q h = inl q
