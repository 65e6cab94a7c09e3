-- ===== src/AuditLog/Examples.antt =====
-- Runs of the header of a binary audit log, and a witness.
use libcontainerssh.Common.{ℕ, ◌≤◌, ◌≡◌, refl, ◌↔◌, List, [], ◌∷◌, ◌++◌, arith}
use libcontainerssh.AuditLog.Header.{
  current_version, file_format_bytes, zeros, put_uint, get_uint, get_bytes, new_header, take, drop,
  bytes_equal, eof, unexpected_eof, unsupported_version, read, check_version, check_header,
  too_short, read_header,
}
use libcontainerssh.AuditLog.RoundTrip.{read_header_iff}

-- The header of version 2 with two bytes behind it is accepted, and the two bytes are left.
reads_current :
    read_header (get_bytes (new_header current_version) ++ (7 ∷ 8 ∷ [])) 2 ≡ read 2 (7 ∷ 8 ∷ [])
unfolding read_header check_header check_version get_bytes new_header file_format_bytes zeros
    put_uint get_uint take drop bytes_equal
reads_current = refl

refuses_later : read_header (get_bytes (new_header 259)) 2 ≡ unsupported_version 259
unfolding read_header check_header check_version get_bytes new_header file_format_bytes zeros
    put_uint get_uint take drop bytes_equal
refuses_later = refl

refuses_short : read_header (67 ∷ []) 2 ≡ unexpected_eof
unfolding read_header too_short
refuses_short = refl

refuses_empty : read_header [] 2 ≡ eof
unfolding read_header too_short
refuses_empty = refl

abbrev stored : List ℕ
unfolding get_bytes new_header file_format_bytes zeros put_uint
stored = get_bytes (new_header 2) ++ (7 ∷ 8 ∷ [])

read_header_iff_example :
    (read_header stored 2 ≡ read 2 (7 ∷ 8 ∷ []))
    ↔ ((2 ≤ 2) × (stored ≡ get_bytes (new_header 2) ++ (7 ∷ 8 ∷ [])))
unfolding get_bytes new_header file_format_bytes zeros put_uint
read_header_iff_example = read_header_iff stored (7 ∷ 8 ∷ []) 2 2 (omega arith) (omega arith)
