-- ===== src/SimpleHierarchy/Build/Total.antt =====
-- The parser of specifications ends on every text, for the fuel that `build` gives it.
use aftermath.Base.{
  ℕ, zero, suc, ◌+◌, ◌*◌, ◌%◌, ◌^◌, ◌≤◌, ◌<◌, ◌≡◌, ◌≢◌, refl, Bool, some, List, [], ◌∷◌, arith,
  length, Bool-cases, Option-cases, inl, inr, ◌⊎◌,
}
use aftermath.SimpleHierarchy.{Node, node_initn, add_child}
use aftermath.SimpleHierarchy.Build.{
  Parse, ok, fail, out_of_fuel, ◌>>=◌, skip_ws, name_loop, expect, parse_name, build_node,
  build_children, children_loop, fuel_for, build,
}

length-skip_ws : (xs : List ℕ) → length (skip_ws xs) ≤ length xs
unfolding skip_ws
length-skip_ws [] = omega arith
length-skip_ws (x ∷ xs) = ground (arith, length-skip_ws xs)

length-expect :
    (c : ℕ) (xs : List ℕ) {rest : List ℕ} → expect c xs ≡ some rest → length xs ≡ suc (length rest)
unfolding expect
length-expect c [] e = cc
length-expect c (x ∷ xs) e = ground arith

length-name_loop :
    (xs name : List ℕ) (rest : List ℕ) → name_loop xs ≡ some (name, rest) → length rest < length xs
unfolding name_loop
length-name_loop [] name rest e = cc
length-name_loop (x ∷ xs) name rest e = elim (Option-cases (name_loop xs)) [
  | inl missing ↦ ground arith
  | inr ((n, r), found) ↦ ground (arith, length-name_loop xs n r found)
]

length-parse_name :
    (p name rest : List ℕ) → parse_name p ≡ some (name, rest) → length rest + 1 < length p
unfolding parse_name
length-parse_name p name rest e = elim (Option-cases (expect b'"' (skip_ws p))) [
  | inl missing ↦ ground arith
  | inr (q, found) ↦
      ground (
        arith,
        length-skip_ws p,
        length-expect b'"' (skip_ws p) found,
        length-name_loop q name rest,
      )
]

-- The parse ends, and leaves less than `n` characters.
abbrev Ends : ℕ → Parse (Node × List ℕ × ℕ) → Type 0
Ends n (ok (t, rest, id)) = length rest < n
Ends n fail = Unit {0}
Ends n out_of_fuel = ⊥

Ends-mono : (r : Parse (Node × List ℕ × ℕ)) {n m : ℕ} → n ≤ m → Ends n r → Ends m r
Ends-mono (ok (t, rest, id)) h e = omega arith
Ends-mono fail h e = e
Ends-mono out_of_fuel h e = e

module _ {A : Type 0} where
  Parse-cases : (r : Parse A) → ((a : A) × (r ≡ ok a)) ⊎ (r ≡ fail) ⊎ (r ≡ out_of_fuel)
  Parse-cases (ok a) = inl (a, refl)
  Parse-cases fail = inr (inl refl)
  Parse-cases out_of_fuel = inr (inr refl)

module _ (allocates : ℕ → Bool) where
  mutual
    unfolding build_node build_children children_loop

    build_node-Ends :
        (fuel : ℕ) (p : List ℕ) (id : ℕ)
        → 3 * length p + 2 < fuel
        → Ends (length p) (build_node allocates fuel p id)
    build_node-Ends zero p id h = absurd (omega arith)
    build_node-Ends (suc fuel) p id h = elim (Option-cases (parse_name p)) [
      | inl missing ↦ rw (Ends, missing) tt
      | inr ((name, p'), found) ↦ elim (Bool-cases (allocates id)) [
        | inr refused ↦ rw (Ends, found, refused) tt
        | inl given ↦
            let q = length-parse_name p name p' found in
            rw (Ends, found, given)
              (Ends-mono (build_children allocates fuel (node_initn name id) p' ((id + 1) % 2 ^ 32))
                (omega arith)
                (build_children-Ends fuel (node_initn name id) p' ((id + 1) % 2 ^ 32)
                  (omega arith)))
      ]
    ]

    build_children-Ends :
        (fuel : ℕ) (parent : Node) (p : List ℕ) (id : ℕ)
        → 3 * length p + 1 < fuel
        → Ends (length p) (build_children allocates fuel parent p id)
    build_children-Ends zero parent p id h = absurd (omega arith)
    build_children-Ends (suc fuel) parent p id h =
        let q = length-skip_ws p in
        elim (Option-cases (expect b'{' (skip_ws p))) [
          | inl missing ↦ rw (Ends, missing) tt
          | inr (p', opened) ↦
              let q' = length-expect b'{' (skip_ws p) opened in
              let q'' = length-skip_ws p' in
              elim (Option-cases (expect b'}' (skip_ws p'))) [
                | inr (rest, closed) ↦
                    let q3 = length-expect b'}' (skip_ws p') closed in
                    rw (Ends, opened, closed) (omega arith)
                | inl more ↦
                    rw (Ends, opened, more)
                      (Ends-mono (children_loop allocates fuel parent (skip_ws p') id) (omega arith)
                        (children_loop-Ends fuel parent (skip_ws p') id (omega arith)))
              ]
        ]

    children_loop-Ends :
        (fuel : ℕ) (parent : Node) (p : List ℕ) (id : ℕ)
        → 3 * length p + 3 < fuel
        → Ends (length p) (children_loop allocates fuel parent p id)
    children_loop-Ends zero parent p id h = absurd (omega arith)
    children_loop-Ends (suc fuel) parent p id h =
        let ih = build_node-Ends fuel p id (omega arith) in
        elim (Parse-cases (build_node allocates fuel p id)) [
          | inr (inl failed) ↦ rw (Ends, failed, ◌>>=◌) tt
          | inr (inr spent) ↦ absurd (rw spent at ih)
          | inl ((child, p', next_id), built) ↦
              let q = rw built at ih in
              let q' = length-skip_ws p' in
              elim (Option-cases (expect b',' (skip_ws p'))) [
                | inr (rest, comma) ↦
                    let q3 = length-expect b',' (skip_ws p') comma in
                    let t = add_child parent child in
                    rw (Ends, built, comma)
                      (Ends-mono (children_loop allocates fuel t rest next_id) (omega arith)
                        (children_loop-Ends fuel t rest next_id (omega arith)))
                | inl last ↦ elim (Option-cases (expect b'}' (skip_ws p'))) [
                  | inl missing ↦ rw (Ends, built, last, missing) tt
                  | inr (rest, closed) ↦
                      let q3 = length-expect b'}' (skip_ws p') closed in
                      rw (Ends, built, last, closed) (omega arith)
                ]
              ]
        ]

  -- The builder gives a hierarchy or NULL for every text of a specification: the fuel never runs out.
  pub build-ne-out_of_fuel :
      (name : List ℕ) (id : ℕ) (spec : List ℕ) → build allocates name id spec ≢ out_of_fuel
  unfolding build
  build-ne-out_of_fuel name id spec =
      let ends = build_node-Ends (fuel_for allocates spec) spec 1 (omega arith) in
      elim (Parse-cases (build_node allocates (fuel_for allocates spec) spec 1)) [
        | inl (a, built) ↦ rw built (λ e. cc)
        | inr (inl failed) ↦ rw failed (λ e. cc)
        | inr (inr spent) ↦ absurd (rw spent at ends)
      ]
