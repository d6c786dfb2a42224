-- ===== src/Lib.antt =====
-- clang-witness-inject: a Clang tool that writes the invariants of a correctness witness into a C
-- program as calls of an assert function, and the harness under which the result is fuzzed.
--
-- The parts of the program, and the files that model them:
-- - headers/witness-inject/witness.h: the entries of a witness (Witness). src/witness.cpp reads them:
--   its YAML traits are Witness/Yaml, as they run under LLVM's Input; they fill in the value that they
--   are given and go on behind an error, which is a flag beside the value. ReadInto does not look at
--   that flag, so what a document with an error leaves counts. The resolution of file names in
--   Entry::ReadInto is Witness/Paths.
-- - src/main.cpp: the command line, and what the tool is run with (Main).
-- - src/util.cpp: the search of the syntax tree for the node at a witness location (Locate).
-- - src/inject.cpp: the handlers that write the assertions (Inject). The state of the rewriter is the
--   list of the calls of InsertText so far; a handler returns the calls that it adds.
-- - fuzz_harness/fuzz_harness.c: settings and exit codes (Harness), random values, assume and
--   nondet_memory (Harness/Nondet).
-- - examples/*.c, the programs of the project's own that start threads: one file under Threads for each
--   program, of its name. Threads/Pool is the main that creates threads in one loop and joins them in
--   the next. A state holds the shared memory, where main stands and where each thread stands; a step
--   is one shared access, call or statement of one of them, so a run is an interleaving. Creating a
--   thread may fail, as the programs allow; what they then hand to pthread_join is indeterminate, and
--   the model lets that join return at once. Threads/ValueBarrier,
--   Threads/ThreadJoinCounterOuter and Threads/ThreadJoinCounterInner have a main of their own, with
--   the statements between the loops and with the counter that main waits for.
--   Threads/Pool/Joined, Exclusion, Locals and Tally hold the arguments that the programs share: what
--   main has joined, locks, facts about one thread, and sums over the threads.
-- - examples/fzy.c, the lister fzy as one preprocessed file: a file under Fzy for each of the files
--   it was made from. Fzy/Match is match.c (which lines match the search, how well, and where),
--   Fzy/Choices choices.c (the results and the selected one), with Fzy/Reading for the lines of the
--   input, Fzy/Terminal tty.c, and Fzy/Line, Fzy/Screen and Fzy/Interface are tty_interface.c: the
--   line that the user edits, what is drawn, and what each key does. Fzy/Search is the search of
--   choices.c by several threads: its steps are the calls of worker_get_next_batch, which a lock
--   makes one, the search of a batch, qsort, and the joins, and a run is an interleaving of them.
--   The state is passed along; run takes the events that the loop of tty_interface_run waits for. A
--   string is the list of its bytes before the terminator, and none as the result of a copy means
--   that the copy has no terminator. The bytes for the terminal are collected in the state. Scores
--   are a parameter (Scores), as their floating point arithmetic is not modelled; IsOrder states what the
--   theorems use of their order. Characters are those of the C locale.
--   The interface takes the search of the choices as a parameter, since its runs are those of
--   Fzy/Search; FindsShort states what it needs of the results.
-- The functions keep the names of the source, in snake case. main reads the witness and hands it with
-- the options to the tool, which calls handle_translation_unit for each source file; that looks up
-- each invariant's node by largest_ast_node_starting_at and calls the handler of its type.
--
-- What the source calls and does not contain is a parameter: Clang (a record of locations, nodes, the
-- parent map and the lexer), LLVM's YAML reader (YamlInput) and path functions (Paths),
-- the environment and the number parsers of the C library (Environment), rand, qsort. What is assumed
-- of them stands in IsTree, HasSameLoc, IsInput, PathLaws, IsOrder and IsSort. Samples gives values
-- that meet it.
--
-- Integers are native numbers with the wrap-around of their type written out. The two loops of
-- largest_ast_node_starting_at run on fuel, the depth of the node in the tree and one more, which is
-- enough since a parent lies less deep than its child. __VERIFIER_assume runs on any fuel, as its loop
-- need not end. Sums and products of worker numbers in Fzy/Search stay below 2 ^ 32, for less than
-- 2 ^ 30 workers.
--
-- Not modelled: src/action.cpp (glue), the rewriter's writing of files, fuzz_harness.s, the Python
-- scripts, memory that runs out, of examples/fzy.c the options, main, the growth of the input buffer
-- and the calls of the system that set up the terminal and wait for its input, and under examples/
-- the programs that Threads has no file for: those with other joins, a bit mask or structs that main
-- frees, and the other preprocessed programs of other projects.
pub mod Prelude
pub mod Witness
pub mod Clang
pub mod Locate
pub mod Inject
pub mod Main
pub mod Harness
pub mod Threads
pub mod Fzy
mod Samples
