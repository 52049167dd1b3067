-- ===== src/Examples/Texts.antt =====
-- parser.h and the specifications of simple_hierarchy.c at concrete inputs.
use aftermath.Base.{◌+◌, ◌^◌, ◌<◌, arith, ◌≡◌, ◌≢◌, refl, true, some, [], ◌∷◌}
use aftermath.SimpleHierarchy.{Node, node, nil, cons, SimpleHierarchy}
use aftermath.SimpleHierarchy.Build.{ok, out_of_fuel, build}
use aftermath.SimpleHierarchy.Build.Total.{build-ne-out_of_fuel}
use aftermath.SimpleHierarchy.Build.RoundTrip.{
  Spec, branch, empty, also, print, label, IsNamed, build-print, size,
}
use aftermath.SimpleHierarchy.Search.{
  fault, get_node, same_name, find_child, walk, get_node-missing,
}

-- `"a"{"b","c"{"d"}}`
abbrev spec : Spec
spec = branch (b'a' ∷ []) (
    also (branch (b'b' ∷ []) empty)
      (also (branch (b'c' ∷ []) (also (branch (b'd' ∷ []) empty) empty)) empty))

abbrev tree : Node
tree = node (b'a' ∷ []) 1 (
    cons (node (b'c' ∷ []) 3 (cons (node (b'd' ∷ []) 4 nil) nil))
      (cons (node (b'b' ∷ []) 2 nil) nil))

spec-tree : label spec 1 ≡ tree
unfolding label size
spec-tree = refl

spec-IsNamed : IsNamed spec
unfolding IsNamed
spec-IsNamed = ((refl, tt), (((refl, tt), tt), (((refl, tt), (((refl, tt), tt), tt)), tt)))

spec-small : 1 + size spec < 2 ^ 32
unfolding size
spec-small = omega arith

build-print_example :
    build (λ id. true) (b'h' ∷ []) 9 (print spec (b';' ∷ []))
    ≡ ok (record { name = b'h' ∷ []; id = 9; root = some (label spec 1) })
build-print_example =
    build-print (λ id. true) (λ id. refl) (b'h' ∷ []) 9 spec (b';' ∷ []) spec-IsNamed spec-small

-- `"a"{"b"`
build-ne-out_of_fuel_example :
    build (λ id. true) (b'h' ∷ []) 9 (b'"' ∷ b'a' ∷ b'"' ∷ b'{' ∷ b'"' ∷ b'b' ∷ b'"' ∷ [])
    ≢ out_of_fuel
build-ne-out_of_fuel_example =
    build-ne-out_of_fuel (λ id. true) (b'h' ∷ []) 9
      (b'"' ∷ b'a' ∷ b'"' ∷ b'{' ∷ b'"' ∷ b'b' ∷ b'"' ∷ [])

abbrev hierarchy : SimpleHierarchy
hierarchy = record { name = b'h' ∷ []; id = 9; root = some tree }

-- `b` has no child `x`, in which `y` is looked for.
get_node-missing_example :
    get_node hierarchy (b'a' ∷ []) ((b'b' ∷ []) ∷ (b'x' ∷ []) ∷ (b'y' ∷ []) ∷ []) ≡ fault
unfolding same_name walk find_child
get_node-missing_example =
    get_node-missing hierarchy tree (node (b'b' ∷ []) 2 nil) (b'a' ∷ []) ((b'b' ∷ []) ∷ [])
      (b'x' ∷ []) ((b'y' ∷ []) ∷ []) refl refl refl refl
