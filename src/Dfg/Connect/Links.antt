-- ===== src/Dfg/Connect/Links.antt =====
-- libaftermath-core/src/dfg_node.c: how often two ports are connected, and how the two one-sided
-- operations change it.
use aftermath.Base.{
  ℕ, suc, ◌+◌, ◌≡◌, refl, ◌∙◌, arith, true, ◌&&◌, none, some, List, [], ◌∷◌, ◌++◌, inl, inr,
  Option-cases, if◌then◌else◌, length,
}
use aftermath.Dfg.{
  PortRef, Port, Graph, same_port, node_at, port_at, set_port, IsPort, port_at-set_port,
  set_port-IsPort,
}
use aftermath.Dfg.Connect.{
  Result, success, failure, null_access, and_then, regardless, remove_first,
}

-- How often a port occurs in a list.
abbrev pub times : PortRef → List PortRef → ℕ
times r [] = 0
times r (x ∷ xs) = if same_port x r then suc (times r xs) else times r xs

-- How many connections the port `a` keeps to the port `b`.
abbrev pub joined : Graph → PortRef → PortRef → ℕ
joined g a b = times b (port_at g a).connections

-- The number of one-sided connections from `a` to `b` in a list of them, and from `a` at all.
abbrev pub tally : List (PortRef × PortRef) → PortRef → PortRef → ℕ
tally [] a b = 0
tally (l ∷ ls) a b = if same_port l.0 a && same_port l.1 b then suc (tally ls a b) else tally ls a b

abbrev pub ends_at : List (PortRef × PortRef) → PortRef → ℕ
ends_at [] a = 0
ends_at (l ∷ ls) a = if same_port l.0 a then suc (ends_at ls a) else ends_at ls a

-- `h` has the connections of `g`, those of `minus` taken away and those of `plus` added.
pub record Rewired (g h : Graph) (minus plus : List (PortRef × PortRef)) : Type 0 where
  pub links : (a b : PortRef) → joined h a b + tally minus a b ≡ joined g a b + tally plus a b
  pub sizes :
      (a : PortRef)
      → length (port_at h a).connections + ends_at minus a
        ≡ length (port_at g a).connections + ends_at plus a
  pub types : (a : PortRef) → (port_at h a).type ≡ (port_at g a).type
  pub heap : (a : PortRef) → IsPort g a → IsPort h a
  pub kept : (a : PortRef) → (port_at h a).buffer ≡ none → (port_at g a).buffer ≡ none

-- The graph left by a success has one property, that left by a failure another, and a read through
-- NULL has a cause.
pub data Ends (S F : Graph → Type 0) (N : Type 0) (r : Result) : Type 0 where
  succeeds : (g : Graph) → r ≡ success g → S g → Ends S F N r
  fails : (g : Graph) → r ≡ failure g → F g → Ends S F N r
  reads_null : r ≡ null_access → N → Ends S F N r

pub and_then-Ends :
    {S S' F : Graph → Type 0} {N : Type 0} {r : Result} (next : Graph → Result)
    → Ends S F N r
    → ((g : Graph) → S g → Ends S' F N (next g))
    → Ends S' F N (and_then r next)
and_then-Ends next (succeeds g e s) k = rw (e) (k g s)
and_then-Ends next (fails g e f) k = fails g (rw (e) refl) f
and_then-Ends next (reads_null e n) k = reads_null (rw (e) refl) n

pub regardless-Ends :
    {S S' F' : Graph → Type 0} {N : Type 0} {r : Result} (next : Graph → Result)
    → Ends S S N r
    → ((g : Graph) → S g → Ends S' F' N (next g))
    → Ends S' F' N (regardless r next)
regardless-Ends next (succeeds g e s) k = rw (e) (k g s)
regardless-Ends next (fails g e f) k = rw (e) (k g f)
regardless-Ends next (reads_null e n) k = reads_null (rw (e) refl) n

tally-append :
    (xs ys : List (PortRef × PortRef)) (a b : PortRef)
    → tally (xs ++ ys) a b ≡ tally xs a b + tally ys a b
tally-append [] ys a b = omega arith
tally-append (x ∷ xs) ys a b = ground (arith, tally-append xs ys a b)

ends_at-append :
    (xs ys : List (PortRef × PortRef)) (a : PortRef)
    → ends_at (xs ++ ys) a ≡ ends_at xs a + ends_at ys a
ends_at-append [] ys a = omega arith
ends_at-append (x ∷ xs) ys a = ground (arith, ends_at-append xs ys a)

-- Changes one after the other.
pub Rewired-Rewired :
    {f g h : Graph} {minus plus minus' plus' : List (PortRef × PortRef)}
    → Rewired f g minus plus
    → Rewired g h minus' plus'
    → Rewired f h (minus ++ minus') (plus ++ plus')
Rewired-Rewired {minus} {plus} {minus'} {plus'} r s = record {
  links = λ a b.
      omega (
        arith,
        r.links a b,
        s.links a b,
        tally-append minus minus' a b,
        tally-append plus plus' a b,
      );
  sizes = λ a.
      omega
        (arith, r.sizes a, s.sizes a, ends_at-append minus minus' a, ends_at-append plus plus' a);
  types = λ a. s.types a ∙ r.types a;
  heap = λ a h. s.heap a (r.heap a h);
  kept = λ a n. r.kept a (s.kept a n);
}

pub times-append :
    (r : PortRef) (xs ys : List PortRef) → times r (xs ++ ys) ≡ times r xs + times r ys
times-append r [] ys = omega arith
times-append r (x ∷ xs) ys = ground (arith, times-append r xs ys)

pub remove_first-times :
    (other b : PortRef) (xs ys : List PortRef)
    → remove_first other xs ≡ some ys
    → times b ys + (if same_port other b then 1 else 0) ≡ times b xs
unfolding remove_first
remove_first-times other b [] ys h = cc
remove_first-times other b (x ∷ xs) ys h = elim (Option-cases (remove_first other xs)) [
  | inl e ↦ ground arith
  | inr (zs, e) ↦ ground (arith, remove_first-times other b xs zs e)
]

pub remove_first-length :
    (other : PortRef) (xs ys : List PortRef)
    → remove_first other xs ≡ some ys
    → suc (length ys) ≡ length xs
unfolding remove_first
remove_first-length other [] ys h = cc
remove_first-length other (x ∷ xs) ys h = elim (Option-cases (remove_first other xs)) [
  | inl e ↦ ground arith
  | inr (zs, e) ↦ ground (arith, remove_first-length other xs zs e)
]

pub remove_first-none :
    (other : PortRef) (xs : List PortRef) → remove_first other xs ≡ none → times other xs ≡ 0
unfolding remove_first
remove_first-none other [] h = refl
remove_first-none other (x ∷ xs) h = ground (arith, remove_first-none other xs)

pub same_port-port_at :
    (g : Graph) (a b : PortRef) → same_port a b ≡ true → port_at g a ≡ port_at g b
unfolding port_at node_at
same_port-port_at g a b h = ground arith

module _ (g : Graph) (p other : PortRef) (q : Port) (at_p : IsPort g p)
    (type : q.type ≡ (port_at g p).type)
    (buffer : q.buffer ≡ none → (port_at g p).buffer ≡ none) where
  -- A write of the port `p` that adds the connection to `other`, or takes it away.
  pub set_port_adds :
      ((b : PortRef) → times b q.connections ≡ joined g p b + (if same_port other b then 1 else 0))
      → length q.connections ≡ suc (length (port_at g p).connections)
      → Rewired g (set_port g p q) [] ((p, other) ∷ [])
  set_port_adds links sizes = record {
    links = λ a b. ground (arith, port_at-set_port g p a q at_p, links b, same_port-port_at g p a);
    sizes = λ a. ground (arith, port_at-set_port g p a q at_p, sizes, same_port-port_at g p a);
    types = λ a. ground (arith, port_at-set_port g p a q at_p, same_port-port_at g p a);
    heap = λ a h. set_port-IsPort g p a q h;
    kept = λ a n. ground (arith, port_at-set_port g p a q at_p, buffer, same_port-port_at g p a, n);
  }

  pub set_port_takes :
      ((b : PortRef) → times b q.connections + (if same_port other b then 1 else 0) ≡ joined g p b)
      → suc (length q.connections) ≡ length (port_at g p).connections
      → Rewired g (set_port g p q) ((p, other) ∷ []) []
  set_port_takes links sizes = record {
    links = λ a b. ground (arith, port_at-set_port g p a q at_p, links b, same_port-port_at g p a);
    sizes = λ a. ground (arith, port_at-set_port g p a q at_p, sizes, same_port-port_at g p a);
    types = λ a. ground (arith, port_at-set_port g p a q at_p, same_port-port_at g p a);
    heap = λ a h. set_port-IsPort g p a q h;
    kept = λ a n. ground (arith, port_at-set_port g p a q at_p, buffer, same_port-port_at g p a, n);
  }

  pub set_port_keeps : q.connections ≡ (port_at g p).connections → Rewired g (set_port g p q) [] []
  set_port_keeps same = record {
    links = λ a b. ground (arith, port_at-set_port g p a q at_p, same, same_port-port_at g p a);
    sizes = λ a. ground (arith, port_at-set_port g p a q at_p, same, same_port-port_at g p a);
    types = λ a. ground (arith, port_at-set_port g p a q at_p, same_port-port_at g p a);
    heap = λ a h. set_port-IsPort g p a q h;
    kept = λ a n. ground (arith, port_at-set_port g p a q at_p, buffer, same_port-port_at g p a, n);
  }

-- A change of the graph that leaves its nodes.
pub nodes-Rewired : (g h : Graph) → h.nodes ≡ g.nodes → Rewired g h [] []
unfolding port_at node_at
nodes-Rewired g h e = record {
  links = λ a b. ground arith;
  sizes = λ a. ground arith;
  types = λ a. ground arith;
  heap = λ a h. ground arith;
  kept = λ a n. ground arith;
}
