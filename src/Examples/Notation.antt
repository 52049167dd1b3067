-- ===== src/Examples/Notation.antt =====
-- The object notation and the texts of ansi_extras.h at concrete inputs.
use aftermath.Base.{true, ◌++◌, ℕ, ◌≡◌, ◌⊎◌, refl, false, none, some, List, [], ◌∷◌, arith, length}
use aftermath.Base.Int.{negsuc}
use aftermath.AnsiExtras.{escape_string, unescape_stringn}
use aftermath.AnsiExtras.Escape.{unescape_stringn-escape_string}
use aftermath.Parser.Words.{at}
use aftermath.Parser.Chars.{
  isdigit, isalpha, isident_start_char, isident_next_char, isgroup_name_start_char,
}
use aftermath.ObjectNotation.{
  Node, group, list, string, int64, uint64, double, Members, no_member, add_member, Items, no_item,
  add_item,
}
use aftermath.ObjectNotation.Parse.{parse}
use aftermath.ObjectNotation.Save.{save_fp}
use aftermath.ObjectNotation.Tokens.{Gives}
use aftermath.ObjectNotation.DoubleTokens.{fixed}
use aftermath.ObjectNotation.PrintedTexts.{IsPrintable}
use aftermath.ObjectNotation.RoundTrip.{parse-save_fp}
use aftermath.ObjectNotation.Yields.{Yields, IsTree}
use aftermath.ObjectNotation.Total.{parse-IsTree}
use aftermath.ObjectNotation.GroupMembers.{
  get_member_def, move_members, has_at_most_members, Conflict, or_else, move_members_lem,
  has_at_most_members_two,
}
use aftermath.ObjectNotation.Build.{verb, build_end, built, build}
use aftermath.ObjectNotation.Spelled.{verb_of, args_of, HasTexts}
use aftermath.ObjectNotation.Built.{build-args_of}
use aftermath.ObjectNotation.Eval.{eval, eval_node}
use aftermath.ObjectNotation.Indexes.{eval_node-list}
use aftermath.ParseStatus.{ParseStatus, set_error}
use aftermath.ParseStatus.Location.{set_error_lem}
use aftermath.ObjectNotation.Paths.{path, follow, eval-follow}

-- 1.5, as `%f` prints it, and the conversion that goes with it.
abbrev one_and_a_half : ℕ
one_and_a_half = 0x3FF8000000000000

abbrev zeros : List ℕ
zeros = b'5' ∷ b'0' ∷ b'0' ∷ b'0' ∷ b'0' ∷ b'0' ∷ []

abbrev print_double : ℕ → List ℕ
print_double v = fixed false b'1' [] zeros

abbrev strtod : List ℕ → ℕ × ℕ
strtod s = (one_and_a_half, length s)

-- g { a: [1u64, -2i64], s: "x\n", d: 1.500000, h { b: [] } }
abbrev inner : Node
inner = group (b'h' ∷ []) (add_member (b'b' ∷ []) (list no_item) no_member)

abbrev numbers : Items
numbers = add_item (uint64 1) (add_item (int64 (negsuc 1)) no_item)

abbrev members : Members
members = add_member (b'a' ∷ []) (list numbers) (
    add_member (b's' ∷ []) (string (b'x' ∷ b'\n' ∷ []))
      (add_member (b'd' ∷ []) (double one_and_a_half) (add_member (b'h' ∷ []) inner no_member)))

abbrev tree : Node
tree = group (b'g' ∷ []) members

tree-IsPrintable : IsPrintable print_double strtod tree
unfolding IsPrintable isident_start_char isident_next_char isgroup_name_start_char isalpha isdigit
tree-IsPrintable = (
  (refl, tt),
  (
    (refl, tt),
    (omega arith, (omega arith, tt)),
    (
      (refl, tt),
      (refl, (refl, tt)),
      (
        (refl, tt),
        (
          false,
          b'1',
          [],
          zeros,
          refl,
          (refl, tt),
          (refl, (refl, (refl, (refl, (refl, (refl, tt)))))),
          refl,
          refl,
        ),
        ((refl, tt), ((refl, tt), ((refl, tt), tt, tt)), tt),
      ),
    ),
  ),
)

parse-save_fp_example : Gives (parse strtod (save_fp print_double tree)) tree []
parse-save_fp_example = parse-save_fp print_double strtod tree tree-IsPrintable

-- A list that does not end.
parse-IsTree_example : Yields IsTree 5 (parse strtod (b'[' ∷ b'1' ∷ b'u' ∷ b'6' ∷ b'4' ∷ []))
parse-IsTree_example = parse-IsTree strtod (b'[' ∷ b'1' ∷ b'u' ∷ b'6' ∷ b'4' ∷ [])

eval-follow_example :
    eval tree (path (b'h' ∷ []) ((b'b' ∷ []) ∷ [])) ≡ follow tree ((b'h' ∷ []) ∷ (b'b' ∷ []) ∷ [])
unfolding isgroup_name_start_char isident_start_char isalpha
eval-follow_example = eval-follow tree (b'h' ∷ []) ((b'b' ∷ []) ∷ []) (refl, tt) ((refl, tt), tt)

-- [1u64]
eval_node-list_example :
    eval_node (list numbers) (at 0 (b'[' ∷ b'1' ∷ b'u' ∷ b'6' ∷ b'4' ∷ b']' ∷ [])) ≡ none
eval_node-list_example =
    eval_node-list numbers (at 0 (b'[' ∷ b'1' ∷ b'u' ∷ b'6' ∷ b'4' ∷ b']' ∷ []))

abbrev others : Members
others = add_member (b'c' ∷ []) (uint64 7) no_member

move_members_lem_example :
    ((move_members members others ≡ none) × Conflict members others)
    ⊎ ((dst' : Members) × (move_members members others ≡ some (dst', no_member))
        × ¬ Conflict members others
        × ((name : List ℕ)
            → get_member_def dst' name
              ≡ or_else (get_member_def members name) (get_member_def others name)))
move_members_lem_example = move_members_lem members others

-- A group with the one member `c`, asked for at most `c` and `e`.
has_at_most_members_two_example :
    has_at_most_members others ((b'c' ∷ []) ∷ (b'e' ∷ []) ∷ []) ≡ false
has_at_most_members_two_example =
    has_at_most_members_two (b'c' ∷ []) (uint64 7) no_member (b'c' ∷ []) (b'e' ∷ []) []
      (λ e. ground (arith, e))

unescape_stringn-escape_string_example :
    unescape_stringn (escape_string (b'a' ∷ b'\n' ∷ 1 ∷ b'"' ∷ []))
    ≡ some (b'a' ∷ b'\n' ∷ 1 ∷ b'"' ∷ [])
unescape_stringn-escape_string_example =
    unescape_stringn-escape_string (b'a' ∷ b'\n' ∷ 1 ∷ b'"' ∷ []) (refl, (refl, (refl, (refl, tt))))

tree-HasTexts : HasTexts tree
unfolding HasTexts
tree-HasTexts = (
  (refl, tt),
  (
    (refl, tt),
    (tt, (tt, tt)),
    (
      (refl, tt),
      (refl, (refl, tt)),
      ((refl, tt), tt, ((refl, tt), ((refl, tt), ((refl, tt), tt, tt)), tt)),
    ),
  ),
)

build-args_of_example :
    build (verb (verb_of tree) ∷ args_of tree ++ verb build_end ∷ [])
    ≡ built tree (verb build_end ∷ [])
build-args_of_example = build-args_of tree (verb build_end ∷ []) tree-HasTexts

-- The text `a`, newline, `bc`, with an error at its `c`.
abbrev status : ParseStatus
status = record {
  failed = false;
  errmsg = [];
  line = 0;
  character = 0;
  source_name = [];
  base = b'a' ∷ b'\n' ∷ b'b' ∷ b'c' ∷ [];
}

set_error_lem_example :
    let s' = set_error status 3 (b'!' ∷ []) in
    (s'.line ≡ 2) × (s'.character ≡ 1) × (s'.failed ≡ true) × (s'.errmsg ≡ b'!' ∷ [])
set_error_lem_example =
    set_error_lem status ((b'a' ∷ []) ∷ []) (b'b' ∷ []) (b'c' ∷ []) (b'!' ∷ []) refl
      ((refl, tt), tt) (refl, tt) (omega arith)
