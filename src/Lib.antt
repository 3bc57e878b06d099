-- ===== src/Lib.antt =====
-- Verification of the storage library of this repository, which is written after LevelDB: the byte
-- slices, the encodings and the key format that its memtable and tables stand on.
--
-- The parts and their modules:
--
-- - Common: lists, options, Boolean tests, machine words and bit operations, shared by all parts.
-- - Slice: `src/include/slice.h`. A Slice is the list of the bytes it delimits, a byte a number
--   below 256; `startsWith` is `starts_with`, `removePrefix` is `remove_prefix`, `operator==` is
--   `equal`.
-- - Coding: `src/util/coding.h` and `src/util/coding.cc`. `PutVarint32` is `put_varint32`, and so
--   on. The encoders that write through a pointer take a `Cursor`: the bytes written and the room
--   left. A `std::string` is the list of its bytes, a read pointer the list from there to the end.
-- - Comparator: `src/include/comparator.h` and `src/util/comparator.cc`. The interface is the
--   record `Comparator`, its promises the record `IsComparator`, the default comparator
--   `bytewise_comparator`.
-- - DbFormat: `src/database/db_format.h` and `src/database/db_format.cc`. Internal keys and their
--   comparator over a user comparator, in the module itself; the class LookupKey in
--   DbFormat.Lookup and InternalFilterPolicy in DbFormat.Filter; the debug texts in
--   DbFormat.Debug; the class InternalKey in DbFormat.Key.Object.
-- - Arena: `src/util/arena.h` and `src/util/arena.cc`. The record `Arena` has the fields of the
--   class; `allocateFallback` is `allocate_fallback`, and so on; the destructor is `destroy`.
--   Beside its fields the record has the heap, the arrays that are live. Arena.Requests runs a
--   sequence of requests, Arena.Freed the destructor after it.
-- - Random: `src/util/random.h`. The record `Random` holds the seed; `oneIn` is `one_in`.
-- - Hash: `src/util/hash.h` and `src/util/hash.cc`. `Hash` is `hash`; its loop is `mix_words`, its
--   `switch` `mix_rest`.
-- - Logging: `src/util/logging.h` and `src/util/logging.cc`. `ConsumeDecimalNumber` is
--   `consume_decimal_number`.
-- - Status: `src/include/status.h` and `src/include/status.cc`. The constructor is `make_status`,
--   `toString` is `status_to_string`, `code` is `status_code`. Status.Kinds has the makers
--   `notFound` to `ioError`, as `not_found_status` to `io_error_status`, and the tests
--   `is_not_found` to `is_io_error`. Status.Objects has the live objects in memory with their
--   arrays: the constructors, the assignments and the destructor, which ends the object.
-- - SkipList: `src/database/skiplist.h`. The record `SkipList` has the fields of the class and the
--   memory of the nodes, a node being its address in the arena. `findGreateOrEqual` is
--   `find_greater_or_equal`; a round of its loop, and of the loops of `findLessThan` and
--   `findLast`, is a function of its own. SkipList.State says when the memory holds an ascending
--   list of nodes, SkipList.Tasks and SkipList.Search what the three searches share, SkipList.Link
--   what the two stores of an insertion at one level do, SkipList.Laws what the operations do to
--   the keys; SkipList.Iterator is the class Iterator. SkipList.Readers is another thread, a
--   search or an iterator, while an insertion links its node, as a sequence of turns: a turn of
--   the insertion is one store, a turn of the other a round of the search or a step of the
--   iterator, which loads one pointer. SkipList.Sequence has several insertions one after the
--   other.
-- - Env: `src/include/env.h` and `src/util/env.cc`. The interface is the record `Env`, the methods
--   of open files the record `Files`; `ReadFileToString` is `read_file_to_string`, `Log` is `log`.
--   Env.FileSystem has the promises of the interface: what is written may wait in a buffer until
--   the file is closed. Env.Wrapped is about the class EnvWrapper.
-- - Options: `src/include/options.h` and `src/util/options.cc`, the three records with what their
--   constructors set.
-- - Database: `src/include/database.h` and the cleanup nodes of `src/include/iterator.h`. The
--   abstract class is a record of its virtual methods.
-- - Tests: runs at concrete inputs, and the theorems applied to such inputs.
--
-- An internal key is a user key followed by 8 bytes written by the fixed encoding of Coding; a
-- lookup key is a varint of Coding followed by an internal key; the comparator of internal keys
-- calls the user comparator on the slices before the 8 bytes. The skip list takes its nodes from
-- Arena and their heights from Random; the helpers of Env return a Status.
--
-- An assertion that fails, and an access outside a buffer, is the result `none` of an Option; a
-- C++ function that returns false or nullptr has its own `none` or Boolean inside. A uint32_t or
-- uint64_t is a number with the wrap-around written out by `u32` and `u64`. Sizes are of type
-- size_t and are not bounded, but where the code casts one to uint32_t it is cut. The assertions
-- are taken as enabled.
--
-- The loops over bytes recur on the list. The loop of `VarintLength` recurs on the order of the
-- numbers, so no loop of these has fuel. The searches of the skip list and the loop of
-- `ReadFileToString` have fuel: the length of the list and 12 for its levels is enough for the
-- first and for reading the list from end to end, one more than the bytes of the file for the
-- second.
--
-- The user's filter policy is a parameter, since its header is not in the repository; a theorem
-- about it names its promises as hypotheses, `IsAppending` and `HasNoFalseNegatives`. So are how a
-- stream writes an integer and the default environment, without a promise, `new` for arrays, with
-- the promises `IsAllocator`, `std::to_string`, with the promise `IsDecimal`, and the bytes of a
-- uint32_t in memory, with the promises `IsMachine`. An allocation that fails throws, and is not
-- modelled.
--
-- Not modelled: the memory order of the atomic pointers, whose loads and stores are taken one
-- after the other; how a variable argument list is read, which `Log` only hands on; the classes of
-- `src/include/env.h` that are never called; what a database does, since opening one and the
-- methods of the interface are declared and not defined, like `registerCleanup` of the iterator
-- interface; the names of the comparators and filter policies, which are constant texts;
-- `src/util/no_destructor.h`, an idiom for static storage. The memtable's files are empty, and
-- nothing in the repository builds a skip list of internal keys.
pub mod Common
pub mod Slice
pub mod Coding
pub mod Comparator
pub mod DbFormat
pub mod Random
pub mod Logging
pub mod Arena
pub mod Status
pub mod Hash
pub mod SkipList
pub mod Env
pub mod Options
pub mod Database
pub mod Tests
