-- ===== src/ParseStatus.antt =====
-- libaftermath-core/src/parse_status.h and parse_status.c: the result of a parser for its user, with the
-- place of an error. The message is opaque, and a place is the number of characters in front of it.
pub mod Location
use aftermath.Base.{ℕ, ◌+◌, ◌%◌, ◌^◌, Bool, true, false, List, [], ◌∷◌, ◌==◌, take}

-- `struct am_parse_status`; `failed` is AM_PARSE_RESULT_ERROR, and `base` is the text.
pub record ParseStatus : Type 0 where
  pub failed : Bool
  pub errmsg : List ℕ
  pub line : ℕ
  pub character : ℕ
  pub source_name : List ℕ
  pub base : List ℕ

-- am_parse_status_init; the array for the name of the source has 128 characters.
unfoldable pub init : List ℕ → List ℕ → ParseStatus
init source_name base = record {
  failed = false;
  errmsg = [];
  line = 0;
  character = 0;
  source_name = take 127 source_name;
  base = base;
}

-- The loop of am_parse_status_update_location, over the characters in front of the place. The numbers
-- are unsigned integers of 32 bits.
unfoldable pub location_loop : List ℕ → ℕ → ℕ → ℕ × ℕ
location_loop [] line character = (line, character)
location_loop (c ∷ cs) line character = elim (c == b'\n') [
  | true ↦ location_loop cs ((line + 1) % 2 ^ 32) 0
  | false ↦ location_loop cs line ((character + 1) % 2 ^ 32)
]

-- am_parse_status_update_location, for a place in the text.
unfoldable pub update_location : ParseStatus → ℕ → ParseStatus
update_location s loc =
    let (line, character) = location_loop (take loc s.base) 1 0 in
    record {
      failed = s.failed;
      errmsg = s.errmsg;
      line = line;
      character = character;
      source_name = s.source_name;
      base = s.base;
    }

-- am_parse_status_set_errorv, with the message as it is formatted: vsnprintf writes 126 characters of
-- it at most.
unfoldable pub set_error : ParseStatus → ℕ → List ℕ → ParseStatus
set_error s loc message =
    let s' = update_location s loc in
    record {
      failed = true;
      errmsg = take 126 message;
      line = s'.line;
      character = s'.character;
      source_name = s'.source_name;
      base = s'.base;
    }
