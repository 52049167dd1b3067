-- ===== src/ObjectNotation/PrintedLists.antt =====
-- The loops of the parser over the printed items of a list and the printed members of a group.
use aftermath.Base.{ℕ, zero, suc, ◌≡◌, refl, false, List, [], ◌∷◌, ◌++◌}
use aftermath.Parser.{Parser, skip_ws}
use aftermath.Parser.Chars.{isblank}
use aftermath.Parser.Words.{All, at, is_ws}
use aftermath.ObjectNotation.{Node, list, Items, no_item, add_item}
use aftermath.ObjectNotation.Parse.{
  Message, Result, read_separator, peek_char_or, end_in_list, expected_list_next,
  expected_list_start, expected_list_end, parse_items, parse_list, parse_node, parse_by_char,
}
use aftermath.ObjectNotation.Save.{tabs}
use aftermath.ObjectNotation.Tokens.{
  Gives, and_then-Gives, peek_char_or-Gives, read_next_char_or-Gives, read_next_char_or-closing,
  read_separator-close,
}
use aftermath.ObjectNotation.NumberTokens.{ParsesTo, parse_node-ParsesTo}

pub tabs-blank : (n : ℕ) → All is_ws (tabs n)
unfolding isblank
tabs-blank zero = tt
tabs-blank (suc n) = (refl, tabs-blank n)

pub peek_text :
    (m : Message) (c : ℕ) (blanks text rest : List ℕ) (x : ℕ) (xs : List ℕ)
    → text ≡ x ∷ xs
    → All is_ws blanks
    → is_ws x ≡ false
    → Gives (peek_char_or m (skip_ws (at c (blanks ++ (text ++ rest))))) x (text ++ rest)
peek_text m c blanks text rest x xs e hb hx =
    rw (e) (peek_char_or-Gives m c blanks x (xs ++ rest) hb hx)

module _ (self : Parser → Result Node) where
  pub no_item_step :
      (fuel c : ℕ) (blanks tail : List ℕ)
      → All is_ws blanks
      → Gives (parse_items self (suc fuel) (at c (blanks ++ b']' ∷ tail))) no_item (b']' ∷ tail)
  unfolding parse_items
  no_item_step fuel c blanks tail h =
      and_then-Gives _
        (peek_char_or-Gives end_in_list c blanks b']' tail h (unfold isblank in refl))
        (λ c'. (c', refl))

module _ (strtod : List ℕ → ℕ × ℕ) (g : ℕ) where
  -- What the loop for items makes of the text behind an item.
  abbrev pub ItemsFollow : ℕ → List ℕ → Items → List ℕ → Type 0
  ItemsFollow fuel rest items tail =
      (x : ℕ) × (text : List ℕ) × ((c : ℕ)
        → Gives (read_separator end_in_list expected_list_next b']' (at c rest)) x text)
      × ((c : ℕ)
          → Gives (parse_items (parse_node strtod (suc g)) fuel (at c text)) items (b']' ∷ tail))

  pub items_end :
      (fuel : ℕ) (blanks tail : List ℕ)
      → All is_ws blanks
      → ItemsFollow (suc fuel) (blanks ++ b']' ∷ tail) no_item tail
  items_end fuel blanks tail h = (
    b']',
    b']' ∷ tail,
    λ c.
        read_separator-close end_in_list expected_list_next b']' c blanks tail h
          (unfold isblank in refl) refl,
    λ c. no_item_step (parse_node strtod (suc g)) fuel c [] tail tt,
  )

  pub item_step :
      (fuel c : ℕ) (blanks text rest : List ℕ) (item : Node) (items : Items) (tail : List ℕ)
      → All is_ws blanks
      → ParsesTo strtod g text item rest
      → ItemsFollow fuel rest items tail
      → Gives
          (parse_items (parse_node strtod (suc g)) (suc fuel) (at c (blanks ++ (text ++ rest))))
          (add_item item items)
          (b']' ∷ tail)
  unfolding parse_items
  item_step fuel c blanks text rest item items tail hb (x, xs, e, no_ws, no_bracket, k)
        (y, after, sep, further) =
      and_then-Gives _ (peek_text end_in_list c blanks text rest x xs e hb no_ws) (λ c1.
        rw (no_bracket) (
          and_then-Gives _
            (parse_node-ParsesTo strtod g text item rest [] c1 (x, xs, e, no_ws, no_bracket, k) tt)
            (λ c2.
              and_then-Gives _ (sep c2) (λ c3. and_then-Gives _ (further c3) (λ c4. (c4, refl))))))

module _ (strtod : List ℕ → ℕ × ℕ) (self : Parser → Result Node) (fuel : ℕ) where
  bracket-parse_by_char :
      (p : Parser) → parse_by_char strtod self fuel b'[' p ≡ parse_list self fuel p
  unfolding parse_by_char
  bracket-parse_by_char p = refl

  list_step :
      (c : ℕ) (body : List ℕ) (items : Items) (tail : List ℕ)
      → ((c : ℕ) → Gives (parse_items self fuel (at c body)) items (b']' ∷ tail))
      → Gives (parse_by_char strtod self fuel b'[' (at c (b'[' ∷ body))) (list items) tail
  unfolding parse_list
  list_step c body items tail k = rw (bracket-parse_by_char (at c (b'[' ∷ body))) (
      and_then-Gives _
        (read_next_char_or-Gives expected_list_start c b'[' body (unfold isblank in refl))
        (λ c1. and_then-Gives _ (k c1) (λ c2.
          and_then-Gives _
            (read_next_char_or-closing expected_list_end c2 b']' tail (unfold isblank in refl))
            (λ c3. (c3, refl)))))

module _ (strtod : List ℕ → ℕ × ℕ) (fuel : ℕ) where
  pub list-ParsesTo :
      (body : List ℕ) (items : Items) (tail : List ℕ)
      → ((c : ℕ)
          → Gives
              (parse_items (parse_node strtod fuel) fuel (at c (body ++ tail)))
              items
              (b']' ∷ tail))
      → ParsesTo strtod fuel (b'[' ∷ body) (list items) tail
  list-ParsesTo body items tail k = (
    b'[',
    body,
    refl,
    unfold isblank in refl,
    refl,
    λ c. list_step strtod (parse_node strtod fuel) fuel c (body ++ tail) items tail k,
  )
