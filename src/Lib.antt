-- ===== src/Lib.antt =====
-- The OMPT dependency tracker: a tool that the OpenMP runtime loads (src/dependency_tracker.cpp),
-- which follows the creation of tasks, their depend clauses and their taskwaits, and turns them
-- into a graph of dependences.
--
-- The program's parts and the files that model them:
--   * Task, ParallelRegion: the objects of src/Task.hpp and src/ParallelRegion.hpp, with the
--     constructors and the mutators. A pointer to such an object is its index in the heap that
--     ToolData holds; an index out of range is a dangling pointer.
--   * ToolData: `struct tool_data` of src/ToolData.hpp and the functions that register tasks and
--     regions in it. ToolData/Registry has the validity of the tables, ToolData/Registration the
--     numbering of tasks, ToolData/Lifecycle and ToolData/Regions the other operations.
--   * Dependences: handle_in_dependence, handle_out_dependence, handle_taskwait_dependences and
--     the loop of on_ompt_callback_task_dependences, of src/callbacks.hpp. Dependences/History
--     and Dependences/Order compare them with a specification over the sequence of accesses.
--   * Counters: the uint64_t counters of src/dependency_tracker.cpp, which wrap at 2^64.
--     Counters/Racing has one of them under several threads, of which each loads and then stores.
--   * Callbacks: the rest of src/callbacks.hpp. Callbacks/State is what callbacks share
--     (counters, ids, the memory of ompt_data_t objects, the tool data), Callbacks/Handlers has
--     one function for each callback, on_x for on_ompt_callback_x, and Callbacks/Events the runs
--     of callbacks. Callbacks/Threads has several threads in the callbacks of tasks and in taskwaits
--     at once. Callbacks/Log is a specification: the facts that callbacks report about task ids, and
--     the dependences that a log of such facts calls for.
--   * DependencyDag: the vertex properties of src/DependencyDAG.hpp, and the Boost graph as an
--     interface.
--   * DagBuilder: add_vertices, add_edges and build_dag of src/DAGBuilder.hpp.
--   * Symbols and CStrings: src/AddressTranslation.hpp, from code addresses to strings:
--     findMatchingFile, findAddressInSection, translateAddressesBuf, processFile and
--     backtraceSymbols, over blocks of memory as lists of bytes. The ints that hold their sizes
--     are taken not to overflow.
--   * Output and Printing: what Task::print, Task::print_tsps and ParallelRegion::print print, as a
--     list of pieces.
--   * Initialize: ompt_initialize of src/dependency_tracker.cpp, with the registration macro of
--     src/OMPT_helpers.hpp.
--   * Finalize: ompt_finalize of src/dependency_tracker.cpp, write_dag of src/DAGBuilder.hpp, the
--     vertex writer of src/DependencyDAG.hpp and the handlers of src/SignalHandler.hpp.
--     Finalize/Whole is about whole runs, Finalize/Logged and Finalize/Threads about the written
--     file and the log, Finalize/Rebuild about graphs that are built twice.
--   * Lifetime: ompt_start_tool of src/dependency_tracker.cpp, and the tool from its initialization
--     to its end. Lifetime/Acyclic says when the written graph has no cycle.
--   * Locks: the mutexes of src/ToolData.hpp, src/Task.hpp and src/ParallelRegion.hpp, and threads
--     that lock and unlock them. Locks/Operations has what each function locks, Locks/Callbacks what
--     each callback does, Locks/Interrupted a signal handler that runs in place of what a thread had
--     left, and Locks/Exits the end of the process with it. That a locked boost mutex keeps every
--     other lock waiting is its documented behaviour.
--   * TaskTypes: format_task_type of src/OMPT_helpers.hpp, and print_ids in TaskTypes/PrintIds.
--   * Report: localize_bugs and generate_report of src/BugLocalization.hpp.
--   * HashmapDemo: the loop of src/tbb_concurrent_hashmap_demo.cpp, a program of its own. One step
--     is one call of the map.
--   * Table: std::unordered_map as the tracker uses it. Base: shared names, lists and tests.
-- ompt_initialize makes the tool data and registers the callbacks, which the runtime calls:
-- task_create registers a task in the tool data, task_dependences and sync_region enter dependences
-- there. When the run is over, ompt_finalize prints the tasks, builds and writes the graph, reports
-- and clears the tables; a signal handler builds the graph, prints its size and exits.
--
-- A step that the C++ code cannot take (a NULL or dangling pointer, the end iterator
-- dereferenced) returns none, and the theorems show where this cannot happen. Loops are
-- structural recursion over the list that the code loops over, so that no fuel is needed; threads
-- run under schedules, which are lists of turns.
-- Parameters are: what the runtime answers in a callback (Runtime), the printed form of a
-- pointer, the Boost graph library and its write_graphviz with their documented behaviour
-- (GraphLibrary, Graphviz), tbb::concurrent_hash_map (ConcurrentMap), libbfd, the loader, malloc and
-- printf (Libraries), the runtime's lookup and ompt_set_callback (OmptRuntime), and the order in
-- which a loop meets the entries of an unordered_map (Iteration). Promised says what the runtime
-- promises of each callback.
--
-- One step is one handler under the locks that it holds; in Callbacks one step is one callback, in
-- Callbacks/Threads one part of task_create, one depend clause or one taskwait, in Counters/Racing
-- one load or store, and in Locks one lock or unlock.
-- The configuration is the one that src/dependency_tracker.cpp defines: COARSE_GRAINED_LOCKING
-- and DEBUG.
--
-- Not modelled: what is printed under DEBUG by the callbacks and by the functions of
-- src/ToolData.hpp, and the banners; tables that a callback is changing when a signal comes;
-- an overflow of the int that counts the rows of a report, and of the stack by its array;
-- the program test/demo.cpp, on which the tool is tried. The buffer that task_create fills with
-- format_task_type is a local that nothing reads, so that on_task_create leaves it out.
pub mod Base
pub mod Table
pub mod Task
pub mod ParallelRegion
pub mod ToolData
pub mod Dependences
pub mod Counters
pub mod Callbacks
pub mod DependencyDag
pub mod DagBuilder
pub mod CStrings
pub mod Finalize
pub mod HashmapDemo
pub mod Initialize
pub mod Lifetime
pub mod Locks
pub mod Output
pub mod Printing
pub mod Report
pub mod Symbols
pub mod TaskTypes
