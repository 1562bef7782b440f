-- ===== src/Lib.antt =====
-- A model of the core of ew_base, a C++ base library.
--
-- Codecvt.antt models src/ewa_base/basic/codecvt.cpp: `encode_unit` and `unicode_to_utf8` are
-- `IConv_unicode_to_utf8`, `decode_unit`, `decode_loop` and `utf8_to_unicode` are
-- `IConv_utf8_to_unicode` with the width of a unit as an argument, `str_type` is `IConv::str_type`.
--
-- Collection/ models the hash index. Capacity.antt is `sz_helper::n2p` of
-- inc/ewa_base/collection/detail/collection_base.h; Chunk.antt and Indexer.antt are `indexer_base` of
-- inc/ewa_base/collection/detail/indexer_base.h, one function for each method. A chunk is the list of
-- the positions in its nodes, from the head on; the entries stand in `values`. The hash and the
-- the arithmetic and comparisons of the `float` load factor are the fields of `Traits`, without
-- hypotheses. An exception is the result `none`. A position in a chunk is an `index_type`, an `int`, and
-- is kept by its 32 bits: `to_index` wraps a size where the code converts it, and `to_size` extends the
-- sign on the way back. The rebuilding of the buckets is stated for tables with at most 2 ^ 31 entries,
-- an insertion for tables with fewer than 2 ^ 31 - 1.
--
-- Collection/Avl.antt models the balancing of inc/ewa_base/collection/detail/avl_tree_policy.h, and
-- Bst.antt the maps with unique keys of bst_tree.h. A tree is a data type; the nodes above the one in
-- hand are a list of frames, which stands for the `parent` pointers. The comparison of keys is an
-- `Order` (Prelude/Order.antt). A missing child that is dereferenced is a fault.
--
-- Strlib.antt models the percent encoding of src/ewa_base/util/strlib.cpp, and the tables of
-- inc/ewa_base/basic/lookuptable.h that it reads; `string_unescape` calls the UTF-8 encoder of
-- Codecvt.antt. Strlib/Split.antt is `string_split`, with `strstr` written out; Case.antt,
-- Trim.antt, Lines.antt and Strencode.antt are the comparison without case, `string_trim`,
-- `string_lines` and `string_strencode`.
--
-- Collection/Ring.antt models `SRSW_queue_impl`, the ring of one reader and one writer, of
-- inc/ewa_base/collection/lockfree_queue.h: `push` and `popq` as calls, and in Ring/Threads.antt as
-- steps of two threads, one for each access to the shared fields. Every thread is taken to see the
-- accesses in one order, which `volatile` alone does not promise.
--
-- Collection/IntrusiveList.antt models `intrusive_list` of inc/ewa_base/collection/intrusive_list.h with the
-- policy `policy_list`: a store of `next` fields, in which a node that is not alive faults, and the
-- head, tail and size. `remove` and `detach` are the same code but for the deletion, which is an
-- argument of `unlink`. The loops have fuel for one round more than there are nodes.
--
-- LinearBuffer.antt models `LinearBuffer<char>` and `LinearBufferEx<char>` of
-- inc/ewa_base/collection/linear_buffer.h, with `_grow` of src/ewa_base/collection/collection.cpp;
-- LinearBuffer/Scan.antt and Number.antt are the readers `skip_space`, `skip_comment1`,
-- `skip_comment2` and `read_integer`. An element is one byte: `memcpy` is given numbers of elements,
-- which are numbers of bytes for `char` only. The number that is read wraps at 64 bits, and its count of
-- digits at 32 bits; new sizes wrap at 64 bits.
--
-- Cmdline.antt models `CmdLineParser` of src/ewa_base/basic/cmdline.cpp and its header. The loop of
-- `parse` is `parse_loop`, which carries in `Next` whether the last argument was an option that waits
-- for its value. The maps and sets are lists with the newest entry first.
--
-- Json/ models the parser of src/ewa_base/util/json.cpp: Lexer.antt is blanks, comments, words and the
-- scans of strings, Strings.antt the escapes, Parser.antt the values. `String::ToNumber` and the width of
-- `wchar_t` are the fields of `Platform`, without hypotheses; `char` is taken to be signed. The
-- parser of the values inside brackets is an argument of the loops, so that the depth of the nesting
-- is the fuel of `parse_value` alone; every level takes a bracket, so one unit for each byte is enough.
-- Writer.antt is `JsonWriter` for the values that the parser makes, with `WriteArray` of
-- inc/ewa_base/util/json.h; how a `double` is printed is a field of `Printer`. ReadsBack.antt,
-- Items.antt, Entries.antt and RoundTrip.antt are about the parser on what the writer makes.
--
-- Random.antt models src/ewa_base/math/random.cpp: the words of `randgen_data`, its seeding, and the
-- loop of `random_int`, which draws again until a number is below the limit; its fuel is the number of
-- draws, and no number is enough for every state.
--
-- Regex/ models the backtracking machine of src/ewa_base/util/regex_impl.cpp, with the policy
-- `regex_policy_char_pointer`, and the items of src/ewa_base/util/regex_parser.h: Items.antt is what an
-- item does to the position, Machine.antt the states, the two stacks and the loop, Reference.antt a
-- matcher by recursion to compare with, Matches.antt what a match is. The pointers between the items are
-- numbers, which Layout.antt gives in the order of the walk of `update`; the parser of patterns is
-- not modelled. The fuel of the machine is the number of rounds.
--
-- Code that reads memory returns a `Run` (Prelude/Run.antt): a value, a fault for a read outside the
-- buffer, or the end of the fuel. Every loop on fuel is given one unit of fuel for each byte (and one
-- for the end), which is enough since every round takes at least one byte; the power-of-two search has
-- 64 rounds, one for each bit of a size. Only `string_split` with an empty separator and
-- `random_int` may never end.
--
-- Not modelled: the GBK conversions, whole-table copies and allocation failures, the other string
-- functions, what JSON texts make of complex numbers and objects, the scripting engine, the XML reader, networking, threads, the memory
-- pool and the user interface library.
pub mod Prelude
pub mod Codecvt
pub mod Collection
pub mod Strlib
pub mod LinearBuffer
pub mod Cmdline
pub mod Json
pub mod Random
pub mod Regex
pub mod Tests
