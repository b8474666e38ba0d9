-- ===== src/Lib.antt =====
-- Cache hierarchy simulator: a model of the program and the theorems about it.
--
-- The program reads a trace of memory accesses, sends each to a chain of caches over a memory, and
-- reports hits, misses and traffic. A cache is asked through `MemoryLevel::access`; it looks the
-- block up in its set, asks its replacement policy for a victim when it has to, and calls `access`
-- of the level below for fetches, write-backs and forwarded stores.
--
-- Files, and the code that they model:
--   Word           the 64-bit arithmetic; Word/Masks and Word/Digits the facts about masks
--   Config         include/config.h (CacheConfig and its enumerations), include/stats.h (Stats)
--   Geometry       src/cache.cpp: log2u, isPow2
--   Replacement    src/replacement.cpp: LRUPolicy, FIFOPolicy, RandomPolicy, makeReplacement
--   RefFaCache     src/cache.cpp: RefFACache::touch
--   Memory         include/memory.h, src/memory.cpp: MemoryLevel, Memory
--   Cache          include/cache.h, src/cache.cpp: the state, the constructor, decode
--   Access         src/cache.cpp: Cache::access, classify, pickWay. One function per part of the
--                  body: count_access, find_way, access_hit, access_miss, allocate,
--                  write_back_victim, install
--   Check          src/cache.cpp: Cache::checkInvariants; Check/Messages what it prints
--   Text           std::stoull and the searches of std::string that the code uses
--   Trace          include/trace_reader.h: Op, Access; Trace/Reader src/trace_reader.cpp:
--                  TraceReader::next (parse_line is the body of its loop); Trace/Format
--                  scripts/tracegen.cpp: emit
--   Hierarchy      src/hierarchy.cpp: the constructor, access, one, feed, checkInvariants, and the
--                  loop of src/main.cpp over the trace (run)
--   Console        src/main.cpp: usage and the texts of the errors
--   Outcome        src/main.cpp: the ways to end before main returns 0
--   Options        src/main.cpp: the loop over the arguments and the checks after it
--   Program        src/main.cpp: main, with its exit codes and what it writes on both streams;
--                  Program/Output the log and the report of a run
--   Classification the specification of the split of misses in three classes: a history of blocks and
--                  the stack of a fully-associative LRU cache
--   Recency        the specification of an LRU cache: for each set the stack of its blocks by last use
--   Insertion      the specification of a FIFO cache: for each set the row of its blocks by arrival
--   Report         src/cache.cpp: Cache::report; src/memory.cpp: Memory::report; src/replacement.cpp:
--                  replName; include/stats.h: the rates; src/hierarchy.cpp: computeAMAT, reportAll;
--                  Report/Stream the flags and the precision of the stream; Report/Json
--                  src/hierarchy.cpp: reportJson, jsonEscape
--   Tracegen       scripts/tracegen.cpp: the workloads; Tracegen/Command usage and main
--   Tests          runs on small caches, and the theorems there
-- The child modules of a component hold its proofs.
--
-- How the state corresponds to the code. `next_` is a parameter of the operations of a cache, a
-- function on the state below it; `levels_` is a nest of pairs, each cache beside what is below it.
-- unordered_map and unordered_set are lists: the map in the order of its iteration, the set with
-- the newest block first. `std::rand()` is unseeded, so its results are a function of the number of
-- calls made before, which is state of the process (`draws`). uint64_t and size_t are natural
-- numbers with the reduction modulo 2^64 written out. `double` is a type parameter. The messages of
-- checkInvariants are data with a printer; Report has the text of the log and of the reports.
--
-- Bounds: log2u has 64 rounds of fuel, and a 64-bit number needs at most 63. Reading or writing a
-- vector out of range gives a default value or changes nothing; IsShaped is the condition under which
-- no index is out of range. The loop over the trace has one round more than the file has lines, and
-- printing a number has 64 rounds for its digits.
--
-- `double` is only computed with in the reports: Report.Double is an interface of the operations that
-- the code uses, and Report/Amat states what IEEE 754 says of them. The flags and the precision of
-- std::cout are state from the first line of the log to the end of the report; how a stream of a given
-- format prints a double is a parameter.
--
-- Not modelled: std::stod, atoi, atol, std::shuffle and the distribution of tracegen, the file system
-- (parameters, in Program.Host and Tracegen.Command.Machine), the scripts, and a failing allocation,
-- also that of more sets or frames in Cache::Cache than a vector can hold. The matrices of tracegen
-- that are longer than a vector can be are modelled.
pub mod Prelude
pub mod Word
pub mod Config
pub mod Console
pub mod Geometry
pub mod Replacement
pub mod RefFaCache
pub mod Memory
pub mod Cache
pub mod Access
pub mod Classification
pub mod Recency
pub mod Insertion
pub mod Report
pub mod Tracegen
pub mod Check
pub mod Text
pub mod Trace
pub mod Hierarchy
pub mod Outcome
pub mod Options
pub mod Program
mod Tests
