-- ===== src/Lib.antt =====
-- The tracing and data-flow core of Aftermath, a tool for the analysis of traces of parallel
-- programs. A traced program writes its trace with libaftermath-trace; libaftermath-core loads traces
-- and feeds them through a graph of data-flow nodes to the views. Modelled are the library that
-- writes the traces and the parts of the core that the others stand on.
--
-- How the parts interact. A buffered trace (BufferedTrace) owns event collections (EventCollection),
-- each with a write buffer (WriteBuffer), and hierarchies (SimpleHierarchy), which are built from
-- texts and written to a buffer as frames. A state stack (StateStack) writes the states of a worker
-- as events to the buffer of a collection. On the other side, arrays of intervals (IntervalArray) are
-- searched by the binary searches of the core (Bsearch) under the comparisons of intervals
-- (Interval), which go by saturating arithmetic (Arith). The buffers between data-flow nodes
-- (DfgBuffer) grow by the checked sums and products of sizes (SafeAlloc), and are shared by the ports
-- that a graph (Dfg) connects. The texts of the core are read with a small parser (Parser). On it
-- stands the object notation (ObjectNotation) for settings and graphs, whose strings and numbers go
-- through the conversions of texts (AnsiExtras), and whose errors a status (ParseStatus) locates.
--
-- The files, with the code that each models:
--   Base, Base/*         shared names, tests on numbers, lists over the native numbers, 64-bit words
--   Arith                libaftermath-core/src/arithmetic.h, the unsigned 64-bit functions am_*_u64
--   SafeAlloc            libaftermath-core/src/safe_alloc.h
--   Interval             libaftermath-core/src/interval.h and timestamp.h
--   Bsearch              libaftermath-core/src/bsearch.h: the macros AM_DECL_VSTRIDED_BSEARCH_*
--   IntervalArray        libaftermath-core/src/interval_array.h, am_interval_array_for_each_overlapping
--   Parser               libaftermath-core/src/parser.h, the functions am_parser_*
--   AnsiExtras           libaftermath-core/src/ansi_extras.h and ansi_extras.c: escaping, and in
--                        AnsiExtras/Atoi the conversion of texts to numbers
--   ObjectNotation       libaftermath-core/src/object_notation.h and object_notation.c: the tree; its
--                        parser is in ObjectNotation/Parse, its printer in ObjectNotation/Save, the
--                        functions on members in ObjectNotation/GroupMembers, the evaluation of paths
--                        in ObjectNotation/Eval, the construction from verbs in ObjectNotation/Build
--   ParseStatus          libaftermath-core/src/parse_status.h and parse_status.c
--   WriteBuffer          libaftermath-core/src/write_buffer.c
--   DfgBuffer            libaftermath-core/src/dfg_buffer.c
--   Dfg                  libaftermath-core/src/dfg_node.h and dfg_graph.h: nodes, ports, connections, and
--                        in Dfg/Mask the port masks; the operations of dfg_node.c and dfg_graph.c on
--                        connections are in Dfg/Connect, the removal of nodes in Dfg/Remove, the search
--                        for cycles in Dfg/Cycle; Dfg/Schedule is dfg_schedule.c up to
--                        am_dfg_schedule_converge_deps, on the bits of Dfg/Bits (bits.h)
--   GrowBuffer           libaftermath-core/src/buffer.c
--   CircularBuffer       libaftermath-core/src/circular_buffer.h
--   EventCollection      libaftermath-trace/src/buffered_event_collection.c
--   StateStack           libaftermath-trace/src/state_stack.c
--   SimpleHierarchy      libaftermath-trace/src/simple_hierarchy.c; its parser of specifications is in
--                        SimpleHierarchy/Build, am_simple_hierarchy_get_node in SimpleHierarchy/Search,
--                        the writing of frames in SimpleHierarchy/Frames
--   BufferedTrace        libaftermath-trace/src/buffered_trace.c
--   Examples/*           the definitions and the theorems at concrete inputs
-- A module A holds the definitions, named as in C without the prefix am_ and the name of the
-- structure; the theorems about them are in the files of the folder A.
--
-- The state of a structure is a record, and a function that changes it returns the new record beside
-- its result; `true` or `some` is success, where C returns 0 or a pointer. Machine words are native
-- numbers with the wrap-around written out, addresses are numbers, and the memory behind a pointer is
-- a list. The allocator, the writes to a file and the writers of frames, which the build generates
-- from templates, are parameters; a theorem that relies on their behaviour names it as a hypothesis.
--
-- Fuel. A binary search over n elements takes n + 1 rounds at most, since each round takes an index
-- off its range; the theorems on it say that it ends. The parser of specifications gets 3 * length +
-- 3 calls, three for each character, and never runs out. The parser of the object notation gets one
-- more than the length of the text, for the depth of the nodes and the rounds of each loop: every
-- item and every member takes a character. The construction from verbs gets one more than the number
-- of its arguments. The loop that unescapes a text gets the same. The search for cycles gets one call
-- more than there are nodes, for each call marks a node. The negotiation of a run takes its rounds as an argument: one for each node in the list, one for
-- each port that a mask can still get, and one more are enough. All other loops are structural.
--
-- Doubles are bit patterns; their printing and their conversion by the C library are parameters.
--
-- Not modelled: the release of memory, opening and closing of files, printing to stdout; signed and
-- narrower arithmetic; interval.c and the sorting that it needs; the loading of object notation from
-- files; the types of data-flow nodes, the merging and storing of data-flow graphs and the processing of their nodes;
-- loading of traces, indexes, statistics; the graphical front end, the renderers, the command-line
-- tools and the bindings. Reference counts and lists of buffers carry no theorem.
pub mod Base
pub mod Arith
pub mod SafeAlloc
pub mod Interval
pub mod Bsearch
pub mod IntervalArray
pub mod Parser
pub mod WriteBuffer
pub mod DfgBuffer
pub mod Dfg
pub mod EventCollection
pub mod StateStack
pub mod SimpleHierarchy
pub mod BufferedTrace
pub mod CircularBuffer
pub mod GrowBuffer
pub mod AnsiExtras
pub mod ObjectNotation
pub mod ParseStatus
pub mod Examples
