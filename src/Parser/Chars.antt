-- ===== src/Parser/Chars.antt =====
-- The character tests of libaftermath-core/src/parser.h, on bytes. The tests of <ctype.h> are those of
-- the C locale.
use aftermath.Base.{ℕ, Bool, ◌&&◌, ◌||◌, leb, ◌==◌}

abbrev within : ℕ → ℕ → ℕ → Bool
within lo hi c = leb lo c && leb c hi

unfoldable pub isdigit : ℕ → Bool
isdigit c = within b'0' b'9' c

unfoldable pub isalpha : ℕ → Bool
isalpha c = within b'a' b'z' c || within b'A' b'Z' c

unfoldable pub isalnum : ℕ → Bool
unfolding isalpha isdigit
isalnum c = isalpha c || isdigit c

unfoldable pub isblank : ℕ → Bool
isblank c = c == b' ' || c == b'\t'

-- isident_start_char
unfoldable pub isident_start_char : ℕ → Bool
unfolding isalpha
isident_start_char c = isalpha c || c == b'_'

-- isident_next_char
unfoldable pub isident_next_char : ℕ → Bool
unfolding isalnum
isident_next_char c = isalnum c || c == b'_'

-- isgroup_name_start_char
unfoldable pub isgroup_name_start_char : ℕ → Bool
unfolding isident_start_char
isgroup_name_start_char c = isident_start_char c

-- isgroup_name_next_char
unfoldable pub isgroup_name_next_char : ℕ → Bool
unfolding isalnum
isgroup_name_next_char c =
    isalnum c || c == b'_' || c == b':' || c == b'<' || c == b'>' || c == b'*' || c == b','
