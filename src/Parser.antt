-- ===== src/Parser.antt =====
-- libaftermath-core/src/parser.h: a cursor over a sequence of characters, and the reading of words,
-- strings and single characters. `curr` is the distance of the C pointer from the start, and `rest` is
-- what lies between the pointer and the end. A function that reads a token returns it, `none` for the
-- return value 1, beside the parser as it is then; a failed read may have moved it.
pub mod Chars
pub mod Number
pub mod Words
pub mod Literals
pub mod Consumed
use aftermath.Base.{
  ℕ, zero, suc, ◌+◌, ◌-◌, Bool, true, false, not, ◌&&◌, ◌||◌, Option, none, some, List, [], ◌∷◌,
  ◌==◌, if◌then◌else◌, length, take, drop,
}
use aftermath.Parser.Chars.{
  isblank, isident_start_char, isident_next_char, isgroup_name_start_char, isgroup_name_next_char,
}

-- `struct am_parser`
pub record Parser : Type 0 where
  pub curr : ℕ
  pub rest : List ℕ

-- `struct am_parser_token`: the place of the first character, and the number of characters.
pub record Token : Type 0 where
  pub str : ℕ
  pub len : ℕ

abbrev pub Read : Type 0
Read = Option Token × Parser

-- The characters of a token of `text`.
abbrev pub chars : List ℕ → Token → List ℕ
chars text t = take t.len (drop t.str text)

-- am_parser_init
unfoldable pub init : List ℕ → Parser
init start = record { curr = 0; rest = start }

-- am_parser_reached_end
unfoldable pub reached_end : Parser → Bool
reached_end p = length p.rest == 0

-- strncmp(a, b, n) == 0, for a zero-terminated `b`, on the first `n` characters of `a`.
unfoldable pub same_chars : List ℕ → List ℕ → Bool
same_chars [] b = true
same_chars (x ∷ a) [] = x == 0
same_chars (x ∷ a) (y ∷ b) = x == y && (x == 0 || same_chars a b)

-- am_parser_token_equals_str, on the characters of the token.
unfoldable pub token_equals_str : List ℕ → List ℕ → Bool
unfolding same_chars
token_equals_str t str = same_chars t str

-- am_parser_token_equals_str_oneof
unfoldable pub token_equals_str_oneof : List ℕ → List (List ℕ) → Bool
unfolding same_chars
token_equals_str_oneof t [] = false
token_equals_str_oneof t (str ∷ sstr) = same_chars t str || token_equals_str_oneof t sstr

-- am_parser_token_equals_char
unfoldable pub token_equals_char : List ℕ → ℕ → Bool
token_equals_char (x ∷ []) c = x == c
token_equals_char _ c = false

contains : List ℕ → ℕ → Bool
contains [] x = false
contains (c ∷ chars) x = x == c || contains chars x

-- am_parser_token_equals_char_oneof
unfoldable pub token_equals_char_oneof : List ℕ → List ℕ → Bool
unfolding contains
token_equals_char_oneof (x ∷ []) chars = contains chars x
token_equals_char_oneof _ chars = false

-- One step of the cursor over the character in front.
abbrev pub next : Parser → List ℕ → Parser
next p rest = record { curr = p.curr + 1; rest = rest }

-- The loop of am_parser_expect_chars.
unfoldable pub expect_from : ℕ → List ℕ → List ℕ → Bool × Parser
expect_from curr rest [] = (true, record { curr = curr; rest = rest })
expect_from curr [] (y ∷ str) = (false, record { curr = curr; rest = [] })
expect_from curr (x ∷ rest) (y ∷ str) =
    let further = expect_from (curr + 1) rest str in
    if x == y then further else (false, record { curr = curr; rest = x ∷ rest })

-- am_parser_expect_chars; `true` is the return value 0.
unfoldable pub expect_chars : Parser → List ℕ → Bool × Parser
unfolding expect_from
expect_chars p str = expect_from p.curr p.rest str

-- while(curr != end && test(*curr)) { len++; curr++; }
unfoldable pub scan : (ℕ → Bool) → ℕ → List ℕ → ℕ → ℕ × Parser
scan test curr [] len = (len, record { curr = curr; rest = [] })
scan test curr (x ∷ rest) len =
    let further = scan test (curr + 1) rest (len + 1) in
    if test x then further else (len, record { curr = curr; rest = x ∷ rest })

-- am_parser_skip_ws
unfoldable pub skip_ws : Parser → Parser
unfolding scan isblank
skip_ws p = (scan (λ c. isblank c || c == b'\n') p.curr p.rest 0).1

-- The shape of am_parser_read_identifier, am_parser_read_group_name and am_parser_read_any_uint: a
-- first character, and then as many further ones as there are.
unfoldable pub read_word : (ℕ → Bool) → (ℕ → Bool) → Parser → Read
unfolding scan
read_word first further p = elim p.rest [
  | [] ↦ (none, p)
  | x ∷ rest ↦
      let (len, p') = scan further (p.curr + 1) rest 1 in
      if not (first x) then (none, p) else (some (record { str = p.curr; len = len }), p')
]

-- am_parser_read_identifier
unfoldable pub read_identifier : Parser → Read
unfolding read_word isident_start_char isident_next_char
read_identifier = read_word isident_start_char isident_next_char

-- am_parser_read_next_identifier
unfoldable pub read_next_identifier : Parser → Read
read_next_identifier p = read_identifier (skip_ws p)

-- am_parser_read_group_name
unfoldable pub read_group_name : Parser → Read
unfolding read_word isgroup_name_start_char isgroup_name_next_char
read_group_name = read_word isgroup_name_start_char isgroup_name_next_char

-- am_parser_read_next_group_name
unfoldable pub read_next_group_name : Parser → Read
read_next_group_name p = read_group_name (skip_ws p)

-- am_parser_read_any_char
unfoldable pub read_any_char : Parser → Read
read_any_char p = elim p.rest [
  | [] ↦ (none, p)
  | x ∷ rest ↦ (some (record { str = p.curr; len = 1 }), next p rest)
]

-- am_parser_peek_any_char
unfoldable pub peek_any_char : Parser → Read
unfolding read_any_char
peek_any_char p = ((read_any_char p).0, p)

-- am_parser_read_next_any_char
unfoldable pub read_next_any_char : Parser → Read
read_next_any_char p = read_any_char (skip_ws p)

-- am_parser_read_char
unfoldable pub read_char : Parser → ℕ → Read
read_char p c = elim p.rest [
  | [] ↦ (none, p)
  | x ∷ rest ↦
      if not (x == c) then (none, p) else (some (record { str = p.curr; len = 1 }), next p rest)
]

-- am_parser_peek_char
unfoldable pub peek_char : Parser → ℕ → Read
unfolding read_char
peek_char p c = ((read_char p c).0, p)

-- am_parser_read_next_char
unfoldable pub read_next_char : Parser → ℕ → Read
read_next_char p c = read_char (skip_ws p) c

-- The loop of am_parser_read_string, `len` characters behind the opening quote.
unfoldable pub string_loop : ℕ → List ℕ → ℕ → Bool → Read
string_loop str [] len last_bs = (none, record { curr = str + len; rest = [] })
string_loop str (x ∷ rest) len last_bs =
    let further = string_loop str rest (len + 1) (if x == b'\\' then not last_bs else false) in
    if not (x == b'\\') && not last_bs && x == b'"'
    then (some (record { str = str; len = len + 1 }), record { curr = str + len + 1; rest = rest })
    else further

-- am_parser_read_string
unfoldable pub read_string : Parser → Read
unfolding string_loop
read_string p = elim p.rest [
  | [] ↦ (none, p)
  | x ∷ rest ↦ if not (x == b'"') then (none, p) else string_loop p.curr rest 1 false
]

-- am_parser_read_next_string
unfoldable pub read_next_string : Parser → Read
read_next_string p = read_string (skip_ws p)

-- am_parser_find_char: whether there is a result, and the parser. `past_end` is the character behind
-- the end, which the code reads where the loop reached the end.
unfoldable pub find_char : ℕ → Parser → ℕ → Bool × Parser
unfolding scan
find_char past_end p c =
    let p' = (scan (λ x. not (x == c)) p.curr p.rest 0).1 in
    elim p'.rest [ [] ↦ (past_end == c, p') | x ∷ rest ↦ (x == c, p') ]
