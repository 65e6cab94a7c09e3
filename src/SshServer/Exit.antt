-- ===== src/SshServer/Exit.antt =====
-- internal/sshserver/channelWrapper.go: what goes out on a channel, whatever the backend calls.
use libcontainerssh.Common.{
  ℕ, ◌+◌, ◌≤◌, ◌≡◌, refl, ◌∙◌, String, Bool, true, false, ◌||◌, List, [], ◌∷◌, ◌++◌, Bool-cases,
  ◌⊎◌, inl, inr, subst, Option, none, some, arith, Call, returns, panics, returns_inj, and_then,
}
use libcontainerssh.SshServer.ChannelWrapper.{
  Sent, exit_status, exit_signal, close_write, close, Failure, eof, failed, ChannelWrapper, Method,
  send_exit_status, send_exit_signal, do_close_write, do_close, on_close, complain, send, note_exit,
  note_signal, exit_status_open, exit_signal_open, close_write_open, run_open, run, run_all,
}

abbrev pub bit : Bool → ℕ
bit true = 1
bit false = 0

abbrev pub is_status : Sent → ℕ
is_status (exit_status exit_code) = 1
is_status _ = 0

abbrev pub is_signal : Sent → ℕ
is_signal (exit_signal signal core_dumped error_message language_tag) = 1
is_signal _ = 0

abbrev pub is_close : Sent → Bool
is_close close = true
is_close _ = false

-- How many of a kind there are.
unfoldable pub count : (Sent → ℕ) → List Sent → ℕ
count kind [] = 0
count kind (x ∷ xs) = kind x + count kind xs

-- Nothing but a further close comes after a close.
unfoldable pub IsTidy : Bool → List Sent → Type 0
IsTidy closed [] = Unit
IsTidy closed (x ∷ xs) = (closed ≡ true → is_close x ≡ true) × IsTidy (closed || is_close x) xs

-- Whether there has been a close.
unfoldable pub is_over : Bool → List Sent → Bool
is_over closed [] = closed
is_over closed (x ∷ xs) = is_over (closed || is_close x) xs

count-append :
    (kind : Sent → ℕ) (xs : List Sent) (x : Sent)
    → count kind (xs ++ (x ∷ [])) ≡ count kind xs + kind x
unfolding count
count-append kind [] x = omega arith
count-append kind (y ∷ ys) x = omega (arith, count-append kind ys x)

IsTidy-append :
    (closed : Bool) (xs : List Sent) (x : Sent)
    → IsTidy closed xs
    → (is_over closed xs ≡ true → is_close x ≡ true)
    → IsTidy closed (xs ++ (x ∷ []))
unfolding IsTidy is_over
IsTidy-append closed [] x tidy h = (h, _)
IsTidy-append closed (y ∷ ys) x (first, tidy) h =
    (first, IsTidy-append (closed || is_close y) ys x tidy h)

is_over-append :
    (closed : Bool) (xs : List Sent) (x : Sent)
    → is_over closed (xs ++ (x ∷ [])) ≡ (is_over closed xs || is_close x)
unfolding is_over
is_over-append closed [] x = refl
is_over-append closed (y ∷ ys) x = is_over-append (closed || is_close y) ys x

-- What is so between the calls.
abbrev pub IsOrderly : ChannelWrapper → Type 0
IsOrderly c =
    (count is_status c.sent ≡ bit c.exit_sent)
    × (count is_signal c.sent ≡ bit c.exit_signal_sent)
    × IsTidy false c.sent
    × (is_over false c.sent ≡ true → c.closed ≡ true)

module _ (digits : ℕ → String) (library : List Sent → Sent → Option Failure) where
  complain-IsOrderly :
      (answer : Option Failure) (c : ChannelWrapper)
      → IsOrderly c
      → IsOrderly (complain digits library answer c)
  unfolding complain
  complain-IsOrderly none c h = h
  complain-IsOrderly (some eof) c h = h
  complain-IsOrderly (some (failed err)) c h = h

  -- A message that is sent in order: by then its flag is set, and the channel is not closed.
  send-IsOrderly :
      (message : Sent) (c : ChannelWrapper)
      → (count is_status c.sent + is_status message ≡ bit c.exit_sent)
      → (count is_signal c.sent + is_signal message ≡ bit c.exit_signal_sent)
      → IsTidy false c.sent
      → (is_over false c.sent ≡ true → is_close message ≡ true)
      → (is_close message ≡ true → c.closed ≡ true)
      → (is_over false c.sent ≡ true → c.closed ≡ true)
      → IsOrderly (send digits library message c)
  unfolding send
  send-IsOrderly message c status signal tidy last closes over = (
    count-append is_status c.sent message ∙ status,
    count-append is_signal c.sent message ∙ signal,
    IsTidy-append false c.sent message tidy last,
    (λ e. ground (arith, is_over-append false c.sent message, e, closes, over)),
  )

  exit_status_open-IsOrderly :
      (exit_code : ℕ) (c : ChannelWrapper)
      → IsOrderly c
      → IsOrderly (exit_status_open digits library exit_code c)
  unfolding exit_status_open note_exit
  exit_status_open-IsOrderly exit_code c (status, signal, tidy, over) =
      elim (Bool-cases (c.exit_sent || c.closed)) [
        | inl e ↦ rw e (status, signal, tidy, over)
        | inr e ↦
            let (unsent, unclosed) : (c.exit_sent ≡ false) × (c.closed ≡ false) =
              ground (arith, e) in
            rw e (
              complain-IsOrderly (library c.sent (exit_status exit_code)) _ (
                send-IsOrderly (exit_status exit_code)
                  (record (note_exit digits library exit_code c) { exit_sent = true })
                  (ground (arith, status, unsent)) (omega (arith, signal)) tidy
                  (λ f. ground (arith, over f, unclosed)) (λ f. cc) over))
      ]

  exit_signal_open-IsOrderly :
      (name : String) (core_dumped : Bool) (error_message language_tag : String)
      (c : ChannelWrapper)
      → IsOrderly c
      → IsOrderly (exit_signal_open digits library name core_dumped error_message language_tag c)
  unfolding exit_signal_open note_signal
  exit_signal_open-IsOrderly name core_dumped error_message language_tag c
        (status, signal, tidy, over) =
      let message = exit_signal name core_dumped error_message language_tag in
      elim (Bool-cases (c.exit_signal_sent || c.closed)) [
        | inl e ↦ rw e (status, signal, tidy, over)
        | inr e ↦
            let (unsent, unclosed) : (c.exit_signal_sent ≡ false) × (c.closed ≡ false) =
              ground (arith, e) in
            rw e (
              complain-IsOrderly (library c.sent message) _ (
                send-IsOrderly message
                  (record (note_signal digits library name core_dumped c) {
                    exit_signal_sent = true;
                  })
                  (omega (arith, status)) (ground (arith, signal, unsent)) tidy
                  (λ f. ground (arith, over f, unclosed)) (λ f. cc) over))
      ]

  close_write_open-IsOrderly :
      (c : ChannelWrapper) → IsOrderly c → IsOrderly (close_write_open digits library c)
  unfolding close_write_open
  close_write_open-IsOrderly c (status, signal, tidy, over) =
      elim (Bool-cases (c.closed || c.closed_write)) [
        | inl e ↦ rw e (status, signal, tidy, over)
        | inr e ↦
            let unclosed : c.closed ≡ false = ground (arith, e) in
            rw e (
              send-IsOrderly close_write c (omega (arith, status)) (omega (arith, signal)) tidy
                (λ f. ground (arith, over f, unclosed)) (λ f. cc) over)
      ]

  run_open-IsOrderly :
      (method : Method) (c : ChannelWrapper)
      → IsOrderly c
      → IsOrderly (run_open digits library method c)
  unfolding run_open
  run_open-IsOrderly (send_exit_status exit_code) c h = exit_status_open-IsOrderly exit_code c h
  run_open-IsOrderly (send_exit_signal signal core_dumped error_message language_tag) c h =
      exit_signal_open-IsOrderly signal core_dumped error_message language_tag c h
  run_open-IsOrderly do_close_write c h = close_write_open-IsOrderly c h
  run_open-IsOrderly do_close c (status, signal, tidy, over) =
      send-IsOrderly close (record c { closed = true }) (omega (arith, status))
        (omega (arith, signal)) tidy (λ e. refl) (λ e. refl) (λ e. refl)
  run_open-IsOrderly on_close c (status, signal, tidy, over) = (status, signal, tidy, (λ e. refl))

  run-cases :
      (method : Method) (c : ChannelWrapper)
      → (run digits library method c ≡ panics)
        ⊎ (run digits library method c ≡ returns (run_open digits library method c))
  unfolding run
  run-cases on_close c = inr refl
  run-cases (send_exit_status exit_code) c = ground arith
  run-cases (send_exit_signal signal core_dumped error_message language_tag) c = ground arith
  run-cases do_close_write c = ground arith
  run-cases do_close c = ground arith

  pub run_all-IsOrderly :
      (methods : List Method) (c c' : ChannelWrapper)
      → IsOrderly c
      → run_all digits library methods c ≡ returns c'
      → IsOrderly c'
  unfolding run_all
  run_all-IsOrderly [] c c' h e = subst IsOrderly (returns_inj e) h
  run_all-IsOrderly (method ∷ methods) c c' h e =
      let run_rest : Call ChannelWrapper → Type 0 =
        λ r. and_then r (run_all digits library methods) ≡ returns c' in
      elim (run-cases method c) [
        | inl p ↦ let stuck : panics ≡ returns c' = subst run_rest p e in cc
        | inr p ↦
            run_all-IsOrderly methods (run_open digits library method c) c'
              (run_open-IsOrderly method c h) (subst run_rest p e)
      ]

  -- Whatever the backend calls on a new channel, in whatever order, if nothing panics: at most one
  -- exit status and at most one exit signal go out, and after a close nothing but a further close.
  pub run_all-sent :
      (methods : List Method) (c c' : ChannelWrapper)
      → c.sent ≡ []
      → c.exit_sent ≡ false
      → c.exit_signal_sent ≡ false
      → run_all digits library methods c ≡ returns c'
      → (count is_status c'.sent ≤ 1) × (count is_signal c'.sent ≤ 1) × IsTidy false c'.sent
  unfolding count IsTidy is_over
  run_all-sent methods c c' nothing no_status no_signal e =
      let start : IsOrderly c = rw (nothing, no_status, no_signal) (refl, refl, _, (λ h. cc)) in
      let (status, signal, tidy, over) = run_all-IsOrderly methods c c' start e in
      (ground (arith, status), ground (arith, signal), tidy)
