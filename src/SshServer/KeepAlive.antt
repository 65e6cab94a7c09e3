-- ===== src/SshServer/KeepAlive.antt =====
-- internal/sshserver/serverImpl.go: the goroutine of `handleConnection` that sends keepalives.
use libcontainerssh.Common.{
  ℕ, zero, suc, ◌+◌, ◌≤◌, ◌<◌, leb, ◌≡◌, if◌then◌else◌, Option, none, some, ◌≢◌,
}
use libcontainerssh.Message.{Message, Log, debug, wrap, write_log}

-- `answers` is the error, if there is one, of the keepalive in each round; the rounds are counted from
-- 0, and `fuel` is how many are looked at. The result is the round in which the connection is closed,
-- if there is one among these, and the log.
module _ (count_max : ℕ) (answers : ℕ → Option Message) where
  -- What a round does with the keepalive's answer; `rest` is the next rounds.
  unfoldable pub after_answer :
      Option Message → ℕ → ℕ → (ℕ → Log → Option ℕ × Log) → Log → Option ℕ × Log
  unfolding wrap
  after_answer none round missed_alives rest log = rest 0 log
  after_answer (some err) round missed_alives rest log =
      let noted = write_log debug (wrap err "SSH_KEEPALIVE_NORESP" "Keepalive error") log in
      let later = rest (missed_alives + 1) noted in
      if leb count_max (missed_alives + 1) then (some round, noted) else later

  unfoldable pub keep_alive : ℕ → ℕ → ℕ → Log → Option ℕ × Log
  unfolding after_answer
  keep_alive zero round missed_alives log = (none, log)
  keep_alive (suc fuel) round missed_alives log =
      after_answer (answers round) round missed_alives (keep_alive fuel (round + 1)) log

  -- The client is not heard in a round.
  abbrev pub IsMissed : ℕ → Type 0
  IsMissed n = answers n ≢ none

  -- As many rounds as may be missed are over with this one, and all of them were missed.
  abbrev pub IsDead : ℕ → Type 0
  IsDead round =
      (count_max ≤ round + 1) × ((n : ℕ) → round < n + count_max → n ≤ round → IsMissed n)

  -- The connection is closed before the bound, in the first round in which the client is dead.
  abbrev pub IsClosedBefore : ℕ → Option ℕ → Type 0
  IsClosedBefore bound closed =
      (round : ℕ) × (closed ≡ some round)
      × (round < bound)
      × IsDead round
      × ((earlier : ℕ) → earlier < round → ¬ IsDead earlier)

  -- What is known before a round: the rounds that count as missed are, the one before them is not, and
  -- the client was not dead in any round before.
  record Counted (round missed_alives : ℕ) : Type 0 where
    missed : (n : ℕ) → round ≤ n + missed_alives → n < round → IsMissed n
    heard : (n : ℕ) → round ≡ n + missed_alives + 1 → answers n ≡ none
    alive : (earlier : ℕ) → earlier < round → ¬ IsDead earlier
    within : missed_alives ≤ round
