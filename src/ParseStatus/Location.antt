-- ===== src/ParseStatus/Location.antt =====
-- The line and the character that a parse status shows for a place.
use aftermath.Base.{
  ℕ, suc, ◌+◌, ◌≡◌, ◌<◌, ◌^◌, append-nil, append_assoc, length-append, refl, ap, ◌∙◌, true, not,
  List, [], ◌∷◌, ◌++◌, arith, ◌==◌, length, take,
}
use aftermath.Parser.Words.{All}
use aftermath.ObjectNotation.Tokens.{take-length}
use aftermath.ParseStatus.{ParseStatus, location_loop, update_location, set_error}

-- Complete lines: each with its newline.
abbrev pub lines : List (List ℕ) → List ℕ
lines [] = []
lines (l ∷ ls) = l ++ (b'\n' ∷ lines ls)

abbrev pub IsLine : List ℕ → Type 0
IsLine l = All (λ c. not (c == b'\n')) l

abbrev pub AreLines : List (List ℕ) → Type 0
AreLines [] = Unit {0}
AreLines (l ∷ ls) = IsLine l × AreLines ls

line_passed :
    (l rest : List ℕ) (line character : ℕ)
    → IsLine l
    → character + length l < 2 ^ 32
    → location_loop (l ++ rest) line character ≡ location_loop rest line (character + length l)
unfolding location_loop
line_passed [] rest line character h b =
    let e : character ≡ character + 0 = omega arith in ap (λ c. location_loop rest line c) e
line_passed (c ∷ l) rest line character h b =
    ground (arith, h.0, b, line_passed l rest line (character + 1) h.1 (omega (arith, b)))

newline_passed :
    (rest : List ℕ) (line character : ℕ)
    → line + 1 < 2 ^ 32
    → location_loop (b'\n' ∷ rest) line character ≡ location_loop rest (line + 1) 0
unfolding location_loop
newline_passed rest line character h = ground (arith, h)

lines_passed :
    (ls : List (List ℕ)) (last : List ℕ) (line : ℕ)
    → AreLines ls
    → IsLine last
    → line + length (lines ls ++ last) < 2 ^ 32
    → location_loop (lines ls ++ last) line 0 ≡ (line + length ls, length last)
lines_passed [] last line h k b =
    let e = line_passed last [] line 0 k (omega (arith, b)) in
    rw (append-nil last) at e ∙ unfold location_loop in ground arith
lines_passed (l ∷ ls) last line h k b =
    let whole = append_assoc l (b'\n' ∷ lines ls) last in
    let sizes = length-append l (b'\n' ∷ (lines ls ++ last)) in
    let bound : line + (length l + suc (length (lines ls ++ last))) < 2 ^ 32 =
      rw (whole, sizes) at b in
    let passed = line_passed l (b'\n' ∷ (lines ls ++ last)) line 0 h.0 (omega (arith, bound)) in
    let next = newline_passed (lines ls ++ last) line (0 + length l) (omega (arith, bound)) in
    let further = lines_passed ls last (line + 1) h.1 k (omega (arith, bound)) in
    rw (whole) (passed ∙ next ∙ further ∙ ground arith)

-- For a text of fewer than 2^32 - 1 characters up to the place, the place behind some complete lines and
-- the start of another has the number of the lines, counted from 1, and the length of that start; the
-- status is an error, with the first 126 characters of the message.
pub set_error_lem :
    (s : ParseStatus) (ls : List (List ℕ)) (last rest message : List ℕ)
    → s.base ≡ (lines ls ++ last) ++ rest
    → AreLines ls
    → IsLine last
    → 1 + length (lines ls ++ last) < 2 ^ 32
    → let s' = set_error s (length (lines ls ++ last)) message in
      (s'.line ≡ 1 + length ls)
      × (s'.character ≡ length last)
      × (s'.failed ≡ true)
      × (s'.errmsg ≡ take 126 message)
unfolding set_error update_location
set_error_lem s ls last rest message e h k b =
    let place : take (length (lines ls ++ last)) s.base ≡ lines ls ++ last =
      rw (e) (take-length (lines ls ++ last) rest) in
    let loop = lines_passed ls last 1 h k b in
    (rw (place, loop) refl, rw (place, loop) refl, refl, refl)
