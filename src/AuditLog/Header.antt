-- ===== src/AuditLog/Header.antt =====
-- internal/auditlog/codec/binary/header.go: the header of a binary audit log, written and read.
-- Bytes are numbers below 256. A reader is the bytes that are left in it, and fails at its end only.
use Prim.Native.Nat.{◌/◌}
use libcontainerssh.Common.{
  ℕ, zero, suc, ◌+◌, ◌-◌, ◌*◌, ◌%◌, ltb, ◌==◌, if◌then◌else◌, Bool, true, false, not, ◌&&◌, List,
  [], ◌∷◌, ◌++◌, length,
}

-- The bytes of "ContainerSSH-Auditlog".
abbrev pub file_format_magic : List ℕ
file_format_magic =
    67 ∷ 111 ∷ 110 ∷ 116 ∷ 97 ∷ 105 ∷ 110 ∷ 101 ∷ 114 ∷ 83 ∷ 83 ∷ 72 ∷ 45 ∷ 65 ∷ 117 ∷ 100 ∷ 105
    ∷ 116 ∷ 108 ∷ 111 ∷ 103 ∷ []

abbrev pub file_format_length : ℕ
file_format_length = 32

abbrev pub current_version : ℕ
current_version = 2

unfoldable pub zeros : ℕ → List ℕ
zeros zero = []
zeros (suc n) = 0 ∷ zeros n

-- What init leaves in the variable: the magic string, filled up with zeros.
unfoldable pub file_format_bytes : List ℕ
file_format_bytes = file_format_magic ++ zeros (file_format_length - length file_format_magic)

pub record Header : Type 0 where
  pub magic : List ℕ
  pub version : ℕ

-- The bytes of a number, the lowest first, and the number of such bytes.
unfoldable pub put_uint : ℕ → ℕ → List ℕ
put_uint zero v = []
put_uint (suc n) v = v % 256 ∷ put_uint n (v / 256)

unfoldable pub get_uint : List ℕ → ℕ
get_uint [] = 0
get_uint (b ∷ bs) = b + 256 * get_uint bs

-- The magic of the header itself is not written: the bytes are those of the variable.
unfoldable pub get_bytes : Header → List ℕ
get_bytes h = file_format_bytes ++ put_uint 8 h.version

unfoldable pub new_header : ℕ → Header
new_header v = record { magic = file_format_bytes; version = v }

unfoldable pub take : ℕ → List ℕ → List ℕ
take zero xs = []
take (suc n) [] = []
take (suc n) (x ∷ xs) = x ∷ take n xs

unfoldable pub drop : ℕ → List ℕ → List ℕ
drop zero xs = xs
drop (suc n) [] = []
drop (suc n) (x ∷ xs) = drop n xs

unfoldable pub bytes_equal : List ℕ → List ℕ → Bool
bytes_equal [] [] = true
bytes_equal [] (y ∷ ys) = false
bytes_equal (x ∷ xs) [] = false
bytes_equal (x ∷ xs) (y ∷ ys) = (x == y) && bytes_equal xs ys

-- What is read: an error, or the version and what is left in the reader.
pub data HeaderRead : Type 0 where
  eof : HeaderRead
  unexpected_eof : HeaderRead
  invalid_format : List ℕ → HeaderRead
  unsupported_version : ℕ → HeaderRead
  read : ℕ → List ℕ → HeaderRead

unfoldable pub check_version : ℕ → ℕ → List ℕ → HeaderRead
check_version version max_version rest =
    if ltb max_version version then unsupported_version version else read version rest

unfoldable pub check_header : List ℕ → ℕ → List ℕ → HeaderRead
check_header header_bytes max_version rest =
    if not (bytes_equal (take file_format_length header_bytes) file_format_bytes)
    then invalid_format (take file_format_length header_bytes)
    else check_version (get_uint (drop file_format_length header_bytes)) max_version rest

-- ReadAtLeast says EOF of an empty reader, and unexpected EOF of one that ends too early.
unfoldable pub too_short : List ℕ → HeaderRead
too_short [] = eof
too_short (b ∷ bs) = unexpected_eof

unfoldable pub read_header : List ℕ → ℕ → HeaderRead
read_header reader max_version =
    if ltb (length reader) (file_format_length + 8)
    then too_short reader
    else check_header (take (file_format_length + 8) reader) max_version
        (drop (file_format_length + 8) reader)
