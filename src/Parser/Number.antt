-- ===== src/Parser/Number.antt =====
-- libaftermath-core/src/parser.h: the reading of number literals.
use aftermath.Base.{
  ℕ, ◌+◌, ◌-◌, Bool, true, not, ◌&&◌, ◌||◌, none, some, List, [], ◌∷◌, ◌==◌, if◌then◌else◌,
}
use aftermath.Parser.Chars.{isdigit}
use aftermath.Parser.{Parser, Read, expect_chars, scan, read_word, skip_ws, next}

-- am_parser_read_any_uint
unfoldable pub read_any_uint : Parser → Read
unfolding read_word isdigit
read_any_uint = read_word isdigit isdigit

-- Digits and a suffix of three characters, with `sign` more in front of the token.
unfoldable pub read_suffixed : ℕ → List ℕ → Parser → Read
read_suffixed sign suffix p =
    let (t, p') = read_any_uint p in
    let (found, p'') = expect_chars p' suffix in
    elim t [
      | none ↦ (none, p')
      | some t ↦
          if not found
          then (none, p'')
          else (some (record { str = t.str - sign; len = t.len + 3 + sign }), p'')
    ]

-- am_parser_read_int64
unfoldable pub read_int64 : Parser → Read
read_int64 p = elim p.rest [
  | [] ↦ (none, p)
  | x ∷ rest ↦
      if x == b'-'
      then read_suffixed 1 (b'i' ∷ b'6' ∷ b'4' ∷ []) (next p rest)
      else read_suffixed 0 (b'i' ∷ b'6' ∷ b'4' ∷ []) p
]

-- am_parser_read_uint64
unfoldable pub read_uint64 : Parser → Read
read_uint64 p = read_suffixed 0 (b'u' ∷ b'6' ∷ b'4' ∷ []) p

-- am_parser_read_next_int64
unfoldable pub read_next_int64 : Parser → Read
read_next_int64 p = read_int64 (skip_ws p)

-- am_parser_read_next_uint64
unfoldable pub read_next_uint64 : Parser → Read
read_next_uint64 p = read_uint64 (skip_ws p)

-- am_parser_peek_int64
unfoldable pub peek_int64 : Parser → Read
unfolding read_int64
peek_int64 p = ((read_int64 p).0, p)

-- am_parser_peek_uint64
unfoldable pub peek_uint64 : Parser → Read
unfolding read_uint64
peek_uint64 p = ((read_uint64 p).0, p)

-- The loop of am_parser_read_double: the length, whether a dot was read, and the parser.
unfoldable pub double_loop : ℕ → List ℕ → ℕ → Bool → ℕ × Bool × Parser
unfolding isdigit
double_loop curr [] len dot_read = (len, dot_read, record { curr = curr; rest = [] })
double_loop curr (x ∷ rest) len dot_read =
    let further = double_loop (curr + 1) rest (len + 1) (if x == b'.' then true else dot_read) in
    if isdigit x || (not dot_read && x == b'.')
    then further
    else (len, dot_read, record { curr = curr; rest = x ∷ rest })

-- am_parser_read_double
unfoldable pub read_double : Parser → Read
unfolding isdigit
read_double p = elim p.rest [
  | [] ↦ (none, p)
  | x ∷ rest ↦
      let (len, dot_read, p') = double_loop (p.curr + 1) rest 1 (x == b'.') in
      if not (isdigit x) && not (x == b'.') && not (x == b'-')
      then (none, p)
      else if not dot_read || len == 1 || (x == b'-' && len == 2)
      then (none, p')
      else (some (record { str = p.curr; len = len }), p')
]

-- am_parser_read_next_double
unfoldable pub read_next_double : Parser → Read
read_next_double p = read_double (skip_ws p)

-- am_parser_peek_double
unfoldable pub peek_double : Parser → Read
unfolding read_double
peek_double p = ((read_double p).0, p)

-- A unit prefix: K, M, G, T or P.
abbrev is_unit : ℕ → Bool
is_unit x = x == b'K' || x == b'M' || x == b'G' || x == b'T' || x == b'P'

-- am_parser_read_double_with_unit
unfoldable pub read_double_with_unit : Parser → Read
unfolding scan isdigit
read_double_with_unit p = elim p.rest [
  | [] ↦ (none, p)
  | x ∷ rest ↦
      let (len, p') = scan isdigit (p.curr + 1) rest 1 in
      if not (isdigit x) then (none, p) else elim p'.rest [
        | [] ↦ (some (record { str = p.curr; len = len }), p')
        | u ∷ rest' ↦
            if is_unit u
            then (some (record { str = p.curr; len = len + 1 }), next p' rest')
            else (some (record { str = p.curr; len = len }), p')
      ]
]

-- am_parser_read_next_double_with_unit
unfoldable pub read_next_double_with_unit : Parser → Read
read_next_double_with_unit p = read_double_with_unit (skip_ws p)
