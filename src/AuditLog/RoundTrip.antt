-- ===== src/AuditLog/RoundTrip.antt =====
-- internal/auditlog/codec/binary/header.go: what is written as a header is what is read as one.
use Prim.Native.Nat.{◌/◌}
use native.Mathlib.Decide.{dec_lt}
use libcontainerssh.Common.{
  ℕ, zero, suc, ◌+◌, ◌*◌, ◌%◌, ◌^◌, ◌≤◌, ◌<◌, ◌≡◌, refl, sym, ap, ◌∙◌, ◌↔◌, ◌≢◌, ltb, Bool-cases,
  inl, inr, ◌-◌, true, false, List, [], ◌∷◌, ◌++◌, length, length-append, All, arith,
}
use libcontainerssh.AuditLog.Header.{
  put_uint, get_uint, zeros, file_format_bytes, get_bytes, new_header, take, drop, bytes_equal,
  read, check_version, check_header, too_short, read_header,
}

take-append : (xs ys : List ℕ) (n : ℕ) → length xs ≡ n → take n (xs ++ ys) ≡ xs
unfolding take
take-append [] ys zero h = refl
take-append [] ys (suc n) h = absurd (omega arith)
take-append (x ∷ xs) ys zero h = absurd (omega arith)
take-append (x ∷ xs) ys (suc n) h = ap (λ r. x ∷ r) (take-append xs ys n (omega arith))

drop-append : (xs ys : List ℕ) (n : ℕ) → length xs ≡ n → drop n (xs ++ ys) ≡ ys
unfolding drop
drop-append [] ys zero h = refl
drop-append [] ys (suc n) h = absurd (omega arith)
drop-append (x ∷ xs) ys zero h = absurd (omega arith)
drop-append (x ∷ xs) ys (suc n) h = drop-append xs ys n (omega arith)

take-drop : (n : ℕ) (xs : List ℕ) → take n xs ++ drop n xs ≡ xs
unfolding take drop
take-drop zero xs = refl
take-drop (suc n) [] = refl
take-drop (suc n) (x ∷ xs) = ap (λ r. x ∷ r) (take-drop n xs)

length-take : (n : ℕ) (xs : List ℕ) → n ≤ length xs → length (take n xs) ≡ n
unfolding take
length-take zero xs h = refl
length-take (suc n) [] h = absurd (omega arith)
length-take (suc n) (x ∷ xs) h = omega (arith, length-take n xs (omega arith))

bytes_equal_iff : (xs ys : List ℕ) → (bytes_equal xs ys ≡ true) ↔ (xs ≡ ys)
unfolding bytes_equal
bytes_equal_iff [] [] = ground arith
bytes_equal_iff [] (y ∷ ys) = ground arith
bytes_equal_iff (x ∷ xs) [] = ground arith
bytes_equal_iff (x ∷ xs) (y ∷ ys) = ground (arith, bytes_equal_iff xs ys)

length-put_uint : (n v : ℕ) → length (put_uint n v) ≡ n
unfolding put_uint
length-put_uint zero v = refl
length-put_uint (suc n) v = omega (arith, length-put_uint n (v / 256))

get_uint-put_uint : (n v : ℕ) → v < 256 ^ n → get_uint (put_uint n v) ≡ v
unfolding get_uint put_uint
get_uint-put_uint zero v h = omega arith
get_uint-put_uint (suc n) v h = omega (arith, get_uint-put_uint n (v / 256) (omega arith))

put_uint-get_uint :
    (bs : List ℕ) (n : ℕ) → length bs ≡ n → All (λ b. b < 256) bs → put_uint n (get_uint bs) ≡ bs
unfolding get_uint put_uint
put_uint-get_uint [] zero h k = refl
put_uint-get_uint [] (suc n) h k = absurd (omega arith)
put_uint-get_uint (b ∷ bs) zero h k = absurd (omega arith)
put_uint-get_uint (b ∷ bs) (suc n) h k =
    let low : (b + 256 * get_uint bs) % 256 ≡ b = omega (arith, k.0) in
    let high : (b + 256 * get_uint bs) / 256 ≡ get_uint bs = omega (arith, k.0) in
    cc (low, high, put_uint-get_uint bs n (omega arith) k.1)

-- Every element of the list is a byte.
abbrev IsBytes : List ℕ → Type 0
IsBytes = All (λ b. b < 256)

IsBytes-take : (n : ℕ) (xs : List ℕ) → IsBytes xs → IsBytes (take n xs)
unfolding take
IsBytes-take zero xs h = tt
IsBytes-take (suc n) [] h = tt
IsBytes-take (suc n) (x ∷ xs) h = (h.0, IsBytes-take n xs h.1)

IsBytes-drop : (n : ℕ) (xs : List ℕ) → IsBytes xs → IsBytes (drop n xs)
unfolding drop
IsBytes-drop zero xs h = h
IsBytes-drop (suc n) [] h = h
IsBytes-drop (suc n) (x ∷ xs) h = IsBytes-drop n xs h.1

length-drop : (n : ℕ) (xs : List ℕ) → length (drop n xs) ≡ length xs - n
unfolding drop
length-drop zero xs = omega arith
length-drop (suc n) [] = omega arith
length-drop (suc n) (x ∷ xs) = omega (arith, length-drop n xs)

length-file_format_bytes : length file_format_bytes ≡ 32
unfolding file_format_bytes zeros
length-file_format_bytes = refl

-- The 40 bytes of a header with room behind them pass as the header alone does.
read_header-append :
    (header rest : List ℕ) (max : ℕ)
    → length header ≡ 40
    → read_header (header ++ rest) max ≡ check_header header max rest
unfolding read_header
read_header-append header rest max h =
    let long : ltb (length (header ++ rest)) 40 ≡ false =
      ground (arith, length-append header rest) in
    cc (long, take-append header rest 40 h, drop-append header rest 40 h)

-- A reader of at least 40 bytes is the magic, the version and the rest.
read_header-parts :
    (reader : List ℕ) (max : ℕ)
    → 40 ≤ length reader
    → read_header reader max ≡ check_header (take 40 reader) max (drop 40 reader)
unfolding read_header
read_header-parts reader max h = let long : ltb (length reader) 40 ≡ false = ground arith in cc long

check_version_iff :
    (version max v : ℕ) (rest left : List ℕ)
    → (check_version version max rest ≡ read v left) ↔ ((version ≡ v) × (v ≤ max) × (rest ≡ left))
unfolding check_version
check_version_iff version max v rest left = ground arith

length-get_bytes : (v : ℕ) → length (get_bytes (new_header v)) ≡ 40
unfolding get_bytes new_header
length-get_bytes v = omega (
  arith,
  length-append file_format_bytes (put_uint 8 v),
  length-file_format_bytes,
  length-put_uint 8 v,
)

-- The header of a version that is supported and fits in 64 bits passes the checks.
check_header-get_bytes :
    (v max : ℕ) (rest : List ℕ)
    → v ≤ max
    → max < 2 ^ 64
    → check_header (get_bytes (new_header v)) max rest ≡ read v rest
unfolding check_header get_bytes new_header
check_header-get_bytes v max rest h m =
    let version : get_uint (put_uint 8 v) ≡ v = get_uint-put_uint 8 v (omega arith) in
    let checked = (check_version_iff v max v rest rest).1 (refl, h, refl) in
    cc (
      take-append file_format_bytes (put_uint 8 v) 32 length-file_format_bytes,
      drop-append file_format_bytes (put_uint 8 v) 32 length-file_format_bytes,
      (bytes_equal_iff file_format_bytes file_format_bytes).1 refl,
      version,
      checked,
    )

-- Bytes that pass the checks are the header of the version that they give.
check_header-read :
    (header rest left : List ℕ) (max v : ℕ)
    → length header ≡ 40
    → IsBytes header
    → check_header header max rest ≡ read v left
    → (v ≤ max) × (header ≡ get_bytes (new_header v)) × (rest ≡ left)
unfolding check_header get_bytes new_header
check_header-read header rest left max v h k e =
    elim (Bool-cases (bytes_equal (take 32 header) file_format_bytes)) [
      | inl same ↦
          let checked : check_version (get_uint (drop 32 header)) max rest ≡ read v left =
            cc (e, same) in
          let parts = (check_version_iff (get_uint (drop 32 header)) max v rest left).0 checked in
          let version : put_uint 8 (get_uint (drop 32 header)) ≡ drop 32 header =
            put_uint-get_uint (drop 32 header) 8 (omega (arith, length-drop 32 header))
              (IsBytes-drop 32 header k) in
          (
            parts.1,
            cc (
              take-drop 32 header,
              (bytes_equal_iff (take 32 header) file_format_bytes).0 same,
              version,
              parts.0,
            ),
            parts.2,
          )
      | inr differ ↦ absurd (ground (arith, e))
    ]

-- A reader of fewer bytes than a header gives an error.
read_header-short :
    (reader left : List ℕ) (max v : ℕ) → length reader < 40 → read_header reader max ≢ read v left
unfolding read_header too_short
read_header-short [] left max v h = λ e. ground (arith, e)
read_header-short (b ∷ bs) left max v h = λ e. ground (arith, e)

-- A reader of bytes, under a largest version of 64 bits, gives a version and what is left exactly if
-- the version is supported and the reader is the header that is written for it, with that behind.
pub read_header_iff :
    (reader left : List ℕ) (max v : ℕ)
    → All (λ b. b < 256) reader
    → max < 2 ^ 64
    → (read_header reader max ≡ read v left)
      ↔ ((v ≤ max) × (reader ≡ get_bytes (new_header v) ++ left))
read_header_iff reader left max v k m = (forth, back)
  where
    forth :
        read_header reader max ≡ read v left
        → (v ≤ max) × (reader ≡ get_bytes (new_header v) ++ left)
    forth e = elim (dec_lt (length reader) 40) [
      | yes short ↦ absurd (read_header-short reader left max v short e)
      | no long ↦
          let parts =
            check_header-read (take 40 reader) (drop 40 reader) left max v
              (length-take 40 reader (omega arith)) (IsBytes-take 40 reader k)
              (sym (read_header-parts reader max (omega arith)) ∙ e) in
          (parts.0, cc (take-drop 40 reader, parts.1, parts.2))
    ]

    back :
        (v ≤ max) × (reader ≡ get_bytes (new_header v) ++ left)
        → read_header reader max ≡ read v left
    back e =
        ap (λ r. read_header r max) e.1
        ∙ read_header-append _ left max (length-get_bytes v)
        ∙ check_header-get_bytes v max left e.0 m
