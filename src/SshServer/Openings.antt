-- ===== src/SshServer/Openings.antt =====
-- internal/sshserver/serverImpl.go: which channels are answered, in whatever order the goroutines that
-- open them go on.
use libcontainerssh.Common.{
  ℕ, zero, suc, ◌+◌, ◌==◌, ◌≡◌, refl, String, str_eq, if◌then◌else◌, List, [], Bool, true, false,
  Bool-cases, inl, inr, ◌∷◌, ◌++◌, Option, none, some, arith,
}
use libcontainerssh.Message.{Message, unknown_channel_type}
use libcontainerssh.Security.Connection.{ConnectionBackend, Response, done, refused, channel}
use libcontainerssh.SshServer.Payloads.{Unmarshal}
use libcontainerssh.SshServer.Channels.{
  NewChannel, reason_of, user_text, ChannelAnswer, accept_channel, turn_down, Hub, Opening, Turn,
  takes, asks, concludes, Lobby, pick, has_goroutine, note_in, respond, turned_down,
  conclude_opening, ask_handler, handle_session_channel, undecoded, if_decoded,
  handle_direct_forwarding_channel, handle_direct_stream_local_channel, handle_unsupported_channel,
  handle_channel, go_on, take_channel, ask_picked, conclude_picked, turn, handle_channels,
}

-- A sum over a list.
unfoldable pub total {ℓ} : {A : Type ℓ} → (A → ℕ) → List A → ℕ
total weight [] = 0
total weight (x ∷ xs) = weight x + total weight xs

total-append {ℓ} :
    {A : Type ℓ} (weight : A → ℕ) (xs ys : List A)
    → total weight (xs ++ ys) ≡ total weight xs + total weight ys
unfolding total
total-append weight [] ys = omega arith
total-append weight (x ∷ xs) ys = omega (arith, total-append weight xs ys)

-- What is picked leaves the rest of the sum.
abbrev Picks {ℓ} : {A : Type ℓ} → (A → ℕ) → List A → Option (A × List A) → Type 0
Picks weight xs none = Unit
Picks weight xs (some (x, rest)) = total weight xs ≡ weight x + total weight rest

Picks-past {ℓ} :
    {A : Type ℓ} (weight : A → ℕ) (x : A) (xs : List A) (o : Option (A × List A))
    → Picks weight xs o
    → Picks weight (x ∷ xs) (elim o [ none ↦ none | some p ↦ some (p.0, x ∷ p.1) ])
unfolding total
Picks-past weight x xs none h = tt
Picks-past weight x xs (some p) h = omega (arith, h)

pick-Picks {ℓ} : {A : Type ℓ} (weight : A → ℕ) (n : ℕ) (xs : List A) → Picks weight xs (pick n xs)
unfolding total pick
pick-Picks weight n [] = tt
pick-Picks weight zero (x ∷ xs) = refl
pick-Picks weight (suc n) (x ∷ xs) = Picks-past weight x xs (pick n xs) (pick-Picks weight n xs)

module _ (n : ℕ) where
  -- Whether this is the number looked at.
  abbrev pub is_it : ℕ → ℕ
  is_it id = if id == n then 1 else 0

  abbrev pub when_none : Option Message → ℕ → ℕ
  when_none none id = is_it id
  when_none (some err) id = 0

  abbrev pub answered_with : ChannelAnswer → ℕ
  answered_with (accept_channel id) = is_it id
  answered_with (turn_down id reason text) = is_it id

  -- How many of the answers are for the number.
  abbrev pub answers_for : {S : Type 0} → Hub S → ℕ
  answers_for hub = total answered_with hub.answers

  module _ (ssh : Unmarshal) where
    -- A channel with a goroutine is to be answered, unless its payload cannot be decoded.
    abbrev pub from_goroutine : ℕ × NewChannel → ℕ
    from_goroutine (id, new) =
        if str_eq new.channel_type "session"
        then is_it id
        else if str_eq new.channel_type "direct-tcpip"
        then when_none (ssh.read_tcp_channel new.extra_data).1 id
        else when_none (ssh.read_stream_channel new.extra_data).1 id

    -- How many answers for the number a turn asks for: of a channel of another type, one.
    abbrev pub asks_for : Turn → ℕ
    asks_for (takes id new) = if has_goroutine new then from_goroutine (id, new) else is_it id
    asks_for _ = 0

    -- How many answers for the number the goroutines have still to give.
    abbrev pub still_owed : {S : Type 0} → Lobby S → ℕ
    still_owed l = total from_goroutine l.started + total (λ o. is_it o.id) l.asked

    module _ {S : Type 0} (digits : ℕ → String) (accept_error reject_error : ℕ → Option Message)
        (handler : ConnectionBackend S) (connection_id : String) where
      respond-answers :
          (answer : ChannelAnswer) (hub : Hub S)
          → total answered_with (hub.answers ++ (answer ∷ []))
            ≡ answers_for hub + answered_with answer
      unfolding total
      respond-answers answer hub =
          omega (arith, total-append answered_with hub.answers (answer ∷ []))

      conclude_opening-answers :
          (kind rejected_text failed_text : String) (id : ℕ) (channel_type : String)
          (answer : Response) (hub : Hub S)
          → answers_for (
              conclude_opening ssh digits accept_error reject_error handler connection_id kind
                rejected_text failed_text id channel_type answer hub)
            ≡ answers_for hub + is_it id
      unfolding conclude_opening turned_down note_in respond
      conclude_opening-answers kind rejected_text failed_text id channel_type (refused rejected)
            hub =
          ground
            (arith, respond-answers (turn_down id (reason_of rejected) (user_text rejected)) hub)
      conclude_opening-answers kind rejected_text failed_text id channel_type (channel opened) hub =
          ground (arith, respond-answers (accept_channel id) hub)
      conclude_opening-answers kind rejected_text failed_text id channel_type done hub =
          ground (arith, respond-answers (accept_channel id) hub)

      -- A goroutine has answered nothing so far, and owes this many answers for the number.
      abbrev Owes : ℕ → Hub S → Option Opening × Hub S → Type 0
      Owes owed hub (none, hub') = (answers_for hub' ≡ answers_for hub) × (owed ≡ 0)
      Owes owed hub (some o, hub') = (answers_for hub' ≡ answers_for hub) × (owed ≡ is_it o.id)

      if_decoded-Owes :
          (failed : Option Message) (next : Hub S → Option Opening × Hub S) (id : ℕ) (hub : Hub S)
          → Owes (is_it id) hub (next hub)
          → Owes (when_none failed id) hub (
              if_decoded ssh digits accept_error reject_error handler connection_id failed next hub)
      unfolding if_decoded undecoded note_in
      if_decoded-Owes none next id hub h = h
      if_decoded-Owes (some err) next id hub h = (refl, refl)

      handle_channel-Owes :
          (id : ℕ) (new : NewChannel) (hub : Hub S)
          → Owes
              (from_goroutine (id, new))
              hub
              (handle_channel ssh digits accept_error reject_error handler connection_id id new hub)
      unfolding handle_channel handle_session_channel handle_direct_forwarding_channel
          handle_direct_stream_local_channel ask_handler
      handle_channel-Owes id new hub = elim (Bool-cases (str_eq new.channel_type "session")) [
        | inl e ↦ rw e (refl, refl)
        | inr e ↦ elim (Bool-cases (str_eq new.channel_type "direct-tcpip")) [
          | inl f ↦
              rw (e, f)
                (if_decoded-Owes (ssh.read_tcp_channel new.extra_data).1 _ id hub (refl, refl))
          | inr f ↦
              rw (e, f)
                (if_decoded-Owes (ssh.read_stream_channel new.extra_data).1 _ id hub (refl, refl))
        ]
      ]

      go_on-answers :
          (owed : ℕ) (hub : Hub S) (started : List (ℕ × NewChannel)) (asked : List Opening)
          (r : Option Opening × Hub S)
          → Owes owed hub r
          → let l =
              go_on ssh digits accept_error reject_error handler connection_id started asked r in
            answers_for l.hub + still_owed l
            ≡ answers_for hub
              + (owed + total from_goroutine started)
              + total (λ o. is_it o.id) asked
      unfolding go_on total
      go_on-answers owed hub started asked (none, hub') h = omega (arith, h.0, h.1)
      go_on-answers owed hub started asked (some o, hub') h =
          omega (arith, h.0, h.1, total-append (λ o. is_it o.id) asked (o ∷ []))

      take_channel-answers :
          (id : ℕ) (new : NewChannel) (with_goroutine : Bool) (l : Lobby S)
          → let l' =
              take_channel ssh digits accept_error reject_error handler connection_id id new
                with_goroutine l in
            answers_for l'.hub + still_owed l'
            ≡ answers_for l.hub
              + still_owed l
              + (if with_goroutine then from_goroutine (id, new) else is_it id)
      unfolding take_channel total handle_unsupported_channel note_in respond
      take_channel-answers id new true l =
          omega (arith, total-append from_goroutine l.started ((id, new) ∷ []))
      take_channel-answers id new false l = omega (
        arith,
        respond-answers (turn_down id unknown_channel_type "unsupported channel type") l.hub,
      )

      ask_picked-answers :
          (picked : Option ((ℕ × NewChannel) × List (ℕ × NewChannel))) (l : Lobby S)
          → Picks from_goroutine l.started picked
          → let l' =
              ask_picked ssh digits accept_error reject_error handler connection_id picked l in
            answers_for l'.hub + still_owed l' ≡ answers_for l.hub + still_owed l
      unfolding ask_picked
      ask_picked-answers none l h = refl
      ask_picked-answers (some ((id, new), others)) l h = omega (
        arith,
        h,
        go_on-answers (from_goroutine (id, new)) l.hub others l.asked _
            (handle_channel-Owes id new l.hub),
      )

      conclude_picked-answers :
          (picked : Option (Opening × List Opening)) (l : Lobby S)
          → Picks (λ o. is_it o.id) l.asked picked
          → let l' =
              conclude_picked ssh digits accept_error reject_error handler connection_id picked l in
            answers_for l'.hub + still_owed l' ≡ answers_for l.hub + still_owed l
      unfolding conclude_picked
      conclude_picked-answers none l h = refl
      conclude_picked-answers (some (o, others)) l h = omega (
        arith,
        h,
        conclude_opening-answers o.kind o.rejected_text o.failed_text o.id o.channel_type o.answer
            l.hub,
      )

      turn-answers :
          (t : Turn) (l : Lobby S)
          → let l' = turn ssh digits accept_error reject_error handler connection_id t l in
            answers_for l'.hub + still_owed l' ≡ answers_for l.hub + still_owed l + asks_for t
      unfolding turn
      turn-answers (takes id new) l = take_channel-answers id new (has_goroutine new) l
      turn-answers (asks k) l =
          omega
            (arith, ask_picked-answers (pick k l.started) l (pick-Picks from_goroutine k l.started))
      turn-answers (concludes k) l = omega (
        arith,
        conclude_picked-answers (pick k l.asked) l (pick-Picks (λ o. is_it o.id) k l.asked),
      )

      -- However the turns of the loop and of the goroutines come one after the other, and whatever
      -- numbers the loop reads for the channels: for each number, the answers that were given and those
      -- that goroutines have still to give are together those of before and one for each channel that
      -- was taken with that number, whether it is accepted or turned down, but none for a forwarded
      -- channel with a payload that cannot be decoded.
      pub handle_channels-answers :
          (turns : List Turn) (l : Lobby S)
          → let l' =
              handle_channels ssh digits accept_error reject_error handler connection_id turns l in
            answers_for l'.hub + still_owed l'
            ≡ answers_for l.hub + still_owed l + total asks_for turns
      unfolding handle_channels total
      handle_channels-answers [] l = omega arith
      handle_channels-answers (t ∷ turns) l = omega (
        arith,
        handle_channels-answers turns
            (turn ssh digits accept_error reject_error handler connection_id t l),
        turn-answers t l,
      )
