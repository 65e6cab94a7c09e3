-- ===== src/Asciinema/Examples.antt =====
-- Concrete recordings, and the theorems at them.
use libcontainerssh.Common.{
  ◌≡◌, refl, String, str_eq, if◌then◌else◌, List, [], ◌∷◌, Option, none, some,
}
use libcontainerssh.Message.{Message}
use libcontainerssh.Asciinema.Encoder.{
  Header, Line, header_line, stdin, stdout, connect, exec, io, handshake_successful, AuditMessage,
  initial, encode, encode_messages,
}
use libcontainerssh.Asciinema.Closing.{encode_closes}
use libcontainerssh.Asciinema.Recording.{frames, encode_records, encode_messages-metadata}

-- A storage that takes everything, and a provider that knows one address.
abbrev takes : List Line → Line → Option String
takes lines line = none

abbrev marshals : Line → Option String
marshals line = none

abbrev closes : List Line → Option Message
closes lines = none

abbrev country_of : String → String
country_of ip = if str_eq ip "127.0.0.1" then "DE" else "XX"

abbrev session : List AuditMessage
session =
    record { timestamp = 2000000000; payload = connect "127.0.0.1" }
    ∷ record { timestamp = 3000000000; payload = exec "ls" }
    ∷ record { timestamp = 3500000000; payload = io stdin (1 ∷ []) }
    ∷ record { timestamp = 4000000000; payload = io stdout (2 ∷ []) }
    ∷ []

encode_records_example :
    (h : Header) × ((encode country_of marshals takes closes session).1.lines
      ≡ header_line h ∷ frames 0 session)
unfolding encode encode_messages
encode_records_example = encode_records country_of marshals takes closes session refl

encode_closes_example :
    ((encode country_of marshals takes closes session).1.closed ≡ 1)
    × ((encode country_of marshals takes closes session).1.log ≡ [])
encode_closes_example = encode_closes country_of marshals takes closes session

encode_messages-metadata_example :
    (encode_messages country_of marshals takes
      (record { timestamp = 2000000000; payload = connect "127.0.0.1" }
        ∷ record { timestamp = 3000000000; payload = handshake_successful "foo" }
        ∷ [])
      (none, initial)).1.metadata
    ≡ record { start_time = 2; source_ip = "127.0.0.1"; country = "XX"; username = none }
      ∷ record { start_time = 2; source_ip = "127.0.0.1"; country = "DE"; username = some "foo" }
      ∷ []
encode_messages-metadata_example =
    encode_messages-metadata country_of marshals takes 2000000000 3000000000 "127.0.0.1" "foo"
