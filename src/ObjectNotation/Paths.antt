-- ===== src/ObjectNotation/Paths.antt =====
-- The evaluation of a path of names finds what following the names from group to group finds.
use aftermath.Base.{
  ℕ, ◌+◌, ◌≡◌, refl, ap, sym, ◌∙◌, true, false, Option, none, some, List, [], ◌∷◌, ◌++◌, arith,
  Bool-cases, inl, inr,
}
use aftermath.AnsiExtras.{strn1eq}
use aftermath.Parser.{Parser, init, reached_end, read_next_char, read_char, read_next_group_name}
use aftermath.Parser.Chars.{isblank, isdigit, isalpha, isalnum, isgroup_name_next_char}
use aftermath.Parser.Words.{Stops, at}
use aftermath.ObjectNotation.{
  Node, group, member, list, string, int64, uint64, double, Members, no_member, add_member,
}
use aftermath.ObjectNotation.Tokens.{skip_ws_stop, take-length}
use aftermath.ObjectNotation.PrintedGroups.{IsGroupName, group_name-Takes}
use aftermath.ObjectNotation.GroupMembers.{get_member_def, strn1eq_iff}
use aftermath.ObjectNotation.Eval.{read_chars, skip_dot, eval_dot, eval_node, eval_members, eval}
use aftermath.ObjectNotation.Indexes.{eval_node-list}

-- The node at the end of a path of names: each name is that of a member of the group before it.
unfoldable pub follow : Node → List (List ℕ) → Option Node
follow n [] = some n
follow (group name members) (x ∷ xs) = elim (get_member_def members x) [
  | none ↦ none
  | some def ↦ follow def xs
]
follow (member name def) (x ∷ xs) = none
follow (list items) (x ∷ xs) = none
follow (string value) (x ∷ xs) = none
follow (int64 value) (x ∷ xs) = none
follow (uint64 value) (x ∷ xs) = none
follow (double value) (x ∷ xs) = none

-- The text of further names, each behind a dot.
abbrev dotted : List (List ℕ) → List ℕ
dotted [] = []
dotted (x ∷ xs) = b'.' ∷ (x ++ dotted xs)

-- The text of a path: the names with dots between them.
abbrev pub path : List ℕ → List (List ℕ) → List ℕ
path x xs = x ++ dotted xs

abbrev pub AreGroupNames : List (List ℕ) → Type 0
AreGroupNames [] = Unit {0}
AreGroupNames (x ∷ xs) = IsGroupName x × AreGroupNames xs

dotted-Stops : (xs : List (List ℕ)) → Stops isgroup_name_next_char (dotted xs)
unfolding isgroup_name_next_char isalnum isalpha isdigit
dotted-Stops [] = tt
dotted-Stops (x ∷ xs) = refl

name_chars :
    (c : ℕ) (x tail : List ℕ)
    → IsGroupName x
    → Stops isgroup_name_next_char tail
    → (c' : ℕ) × (read_chars read_next_group_name (at c (x ++ tail)) ≡ some (x, at c' tail))
name_chars c x tail h s =
    let (c', e) = group_name-Takes x tail h s c in (c', ground (arith, e, take-length x tail))

strn1eq_sym : (a b : List ℕ) → strn1eq a b ≡ strn1eq b a
strn1eq_sym a b = elim (Bool-cases (strn1eq a b)) [
  | inl e ↦ e ∙ sym ((strn1eq_iff b a).1 (sym ((strn1eq_iff a b).0 e)))
  | inr e ↦ elim (Bool-cases (strn1eq b a)) [
    | inl f ↦ (strn1eq_iff a b).1 (sym ((strn1eq_iff b a).0 f)) ∙ sym f
    | inr f ↦ e ∙ sym f
  ]
]

-- The evaluation behind a name, which follows the other names.
abbrev Follows : List (List ℕ) → Type 0
Follows xs = (n : Node) (c : ℕ) → eval_dot (eval_node n) n (at c (dotted xs)) ≡ follow n xs

eval_members_step :
    (m : List ℕ) (def : Node) (members : Members) (x : List ℕ) (p : Parser)
    → eval_members (add_member m def members) x p ≡ elim (strn1eq x m) [
      | true ↦ eval_dot (eval_node def) def p
      | false ↦ eval_members members x p
    ]
unfolding eval_members
eval_members_step m def members x p = refl

members_follow :
    (xs : List (List ℕ)) (members : Members) (x : List ℕ) (c : ℕ)
    → Follows xs
    → eval_members members x (at c (dotted xs))
      ≡ elim (get_member_def members x) [ none ↦ none | some def ↦ follow def xs ]
unfolding get_member_def
members_follow xs no_member x c k = unfold eval_members in refl
members_follow xs (add_member m def members) x c k = elim (Bool-cases (strn1eq m x)) [
  | inl e ↦ rw (eval_members_step m def members x (at c (dotted xs)), strn1eq_sym x m, e) (k def c)
  | inr e ↦
      rw (eval_members_step m def members x (at c (dotted xs)), strn1eq_sym x m, e)
        (members_follow xs members x c k)
]

group_follow :
    (xs : List (List ℕ)) (x : List ℕ) (n : Node) (c : ℕ)
    → IsGroupName x
    → Follows xs
    → eval_node n (at c (path x xs)) ≡ follow n (x ∷ xs)
unfolding follow eval_node read_next_group_name
group_follow xs x (list items) c h k = eval_node-list items (at c (path x xs))
group_follow xs x (member name def) c h k = refl
group_follow xs x (string value) c h k = refl
group_follow xs x (int64 value) c h k = refl
group_follow xs x (uint64 value) c h k = refl
group_follow xs x (double value) c h k = refl
group_follow xs x (group name members) c h k =
    let (c', e) = name_chars c x (dotted xs) h (dotted-Stops xs) in
    let chosen : eval_node (group name members) (at c (path x xs))
        ≡ eval_members members x (at c' (dotted xs)) =
      ap (λ o. elim o [ none ↦ none | some (chars, p') ↦ eval_members members chars p' ]) e in
    chosen ∙ members_follow xs members x c' k

end_follow : Follows []
unfolding eval_dot follow reached_end
end_follow n c = refl

dot_read :
    (c : ℕ) (rest : List ℕ)
    → read_next_char (at c (b'.' ∷ rest)) b'.'
      ≡ (some (record { str = c; len = 1 }), at (c + 1) rest)
unfolding read_next_char read_char
dot_read c rest = rw (skip_ws_stop c b'.' rest (unfold isblank in refl)) refl

skip_dot_group :
    (name : List ℕ) (members : Members) (c : ℕ) (rest : List ℕ)
    → skip_dot (group name members) (at c (b'.' ∷ rest)) ≡ some (at (c + 1) rest)
unfolding skip_dot
skip_dot_group name members c rest =
    ap (λ r. elim r.0 [ none ↦ none | some t ↦ some r.1 ]) (dot_read c rest)

more_left : (c x : ℕ) (rest : List ℕ) → reached_end (at c (x ∷ rest)) ≡ false
unfolding reached_end
more_left c x rest = ground arith

eval_dot_step :
    (n : Node) (c x : ℕ) (rest : List ℕ)
    → eval_dot (eval_node n) n (at c (x ∷ rest))
      ≡ elim (skip_dot n (at c (x ∷ rest))) [ none ↦ none | some p ↦ eval_node n p ]
unfolding eval_dot
eval_dot_step n c x rest = rw (eval_dot, more_left c x rest) refl

dot_step :
    (y : List ℕ) (ys : List (List ℕ)) (n : Node) (c : ℕ)
    → ((n : Node) (c : ℕ) → eval_node n (at c (path y ys)) ≡ follow n (y ∷ ys))
    → elim (skip_dot n (at c (b'.' ∷ path y ys))) [ none ↦ none | some p ↦ eval_node n p ]
      ≡ follow n (y ∷ ys)
dot_step y ys (group name members) c ih =
    rw (skip_dot_group name members c (path y ys)) (ih (group name members) (c + 1))
dot_step y ys (list items) c ih =
    unfold skip_dot follow in eval_node-list items (at c (b'.' ∷ path y ys))
dot_step y ys (member name def) c ih = unfold eval_node skip_dot follow in refl
dot_step y ys (string value) c ih = unfold eval_node skip_dot follow in refl
dot_step y ys (int64 value) c ih = unfold eval_node skip_dot follow in refl
dot_step y ys (uint64 value) c ih = unfold eval_node skip_dot follow in refl
dot_step y ys (double value) c ih = unfold eval_node skip_dot follow in refl

dot_follow :
    (y : List ℕ) (ys : List (List ℕ))
    → ((n : Node) (c : ℕ) → eval_node n (at c (path y ys)) ≡ follow n (y ∷ ys))
    → Follows (y ∷ ys)
dot_follow y ys ih n c = eval_dot_step n c b'.' (path y ys) ∙ dot_step y ys n c ih

path-follow :
    (xs : List (List ℕ)) (x : List ℕ) (n : Node) (c : ℕ)
    → IsGroupName x
    → AreGroupNames xs
    → eval_node n (at c (path x xs)) ≡ follow n (x ∷ xs)
path-follow [] x n c h k = group_follow [] x n c h end_follow
path-follow (y ∷ ys) x n c h k =
    group_follow (y ∷ ys) x n c h (dot_follow y ys (λ m d. path-follow ys y m d k.0 k.1))

-- The evaluation of names with dots between them gives the node that the names lead to, each the name
-- of a member of the group before it, or nothing where they lead nowhere.
pub eval-follow :
    (n : Node) (x : List ℕ) (xs : List (List ℕ))
    → IsGroupName x
    → AreGroupNames xs
    → eval n (path x xs) ≡ follow n (x ∷ xs)
unfolding eval init
eval-follow n x xs h k = path-follow xs x n 0 h k
