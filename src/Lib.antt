-- ===== src/Lib.antt =====
-- luaEngine is a TCP server whose messages are handled by Lua scripts, a chat client for it, and the
-- Lua 5.1.5 interpreter that it is built with. Paths are from the repository's root.
--
-- The parts, and how they interact.
-- * Codec (luaEngine/Codec.h, `LengthHeaderCodec` and `MessageQueue`): messages on a connection are
--   framed by a 32-bit length in network order. `on_message` is `onMessage`, `send` is `send`. The
--   muduo library is not in the repository: its buffer and its byte-order call are the record
--   `Codec.Buffer.Muduo`, whose laws are their documented behaviour. Codec/Frame has the wire format,
--   Codec/Scan the loop, Codec/Streams the relation between a stream and its messages, Codec/Feed the
--   reads of a connection, Codec/RoundTrip the two ends of one.
-- * Server (luaEngine/LuaServer.h and LuaServer.cpp, `LuaServer`): the codec's callback appends each
--   message to a queue under a mutex, a second thread polls it, takes the whole queue and hands the
--   messages to Lua. An event is one critical section of a handler or one step of the polling thread;
--   a list of events is an interleaving (Server/Queue, Server/Drain, Server/Connections).
--   Server/Broadcast is about `onStringMessage`, which no code calls.
-- * Callback (luaEngine/LuaStart.cpp, and the inner loop of `hanleMessageQueue`): the references to
--   the Lua functions and their calls. `Callback.Api.LuaApi` has the calls of the Lua API that the
--   file makes, with the stack effect that the manual documents (Callback/Height).
-- * Main (luaEngine/Main.cpp): the arguments of the program (Main/Arguments).
-- * Client (luaEngine/Client.cc): the connection of the client and what it writes (Client/Session).
-- * Lua.Zio (lua515/lzio.c, lzio.h): the buffered input stream. `Lua.Zio.read` is `luaZ_read`.
-- * Lua.Chunk (lua515/ldump.c, lundump.c, and `Proto` of lobject.h): precompiled chunks. `dump` is
--   `luaU_dump` and `undump` is `luaU_undump`, over Lua.Zio.
-- * Lua.Opcode (lua515/lopcodes.h): the fields of an instruction, as `GETARG_A`, `SETARG_A` and their
--   like read and set them.
--   Lua.Opcode.Modes has the operations and `luaP_opmodes` of lua515/lopcodes.c.
-- * Lua.Checks and Lua.Checker (lua515/ldebug.c): `symbexec` and `luaG_checkcode`, which the loader of
--   Lua.Chunk takes as a parameter and Lua.Checker.Loaded gives it.
-- * Lua.Number (lua515/lobject.c): `luaO_int2fb` and `luaO_fb2int`, sizes in one byte.
-- * Lua.Strings (lua515/lstrlib.c): `string.sub`, `string.byte`, `string.char` and `string.reverse` on
--   the bytes of a string, behind the checks of their arguments.
-- * Lua.Classes, Lua.Captures and Lua.Pattern (lua515/lstrlib.c): the pattern matcher `match`. An
--   index stands for a pointer, and the captures are the list of those up to `level`.
--   `Lua.Classes.Ctype` has the tests of `ctype.h`, which are any functions.
-- * Lua.Find (lua515/lstrlib.c): `str_find_aux`, with `lmemfind` and `push_captures`.
-- * Lua.Replace (lua515/lstrlib.c): `str_gsub` and `gmatch_aux`. Lua code that `gsub` calls is a function
--   on a state, and the text of a number that it inserts is a parameter.
-- * Lua.Sort (lua515/ltablib.c): `auxsort`. A table is what is read at each integer key, and the order is
--   a function that answers and changes nothing.
--   Lua.Insert has `tinsert` and `tremove`, over `aux_getn` as a function that gives one of the
--   lengths that `luaH_getn` may give.
-- * Lua.Nodes (lua515/ltable.c): the node vector of a table, `newkey`, and the searches and `luaH_set`
--   on it. A pointer to a node is its index. `equal` and `home` are `luaO_rawequalObj` and the main
--   position, with their laws in `Lua.Nodes.Links.KeyLaws`; no key is dead, since the collector is not
--   modelled.
-- * Lua.Logs (lua515/lobject.c and lobject.h): `luaO_log2` and `ceillog2`.
-- * Lua.Tables (lua515/ltable.c): a table with its array part and its node vector: `luaH_new`,
--   `luaH_get`, `luaH_set` up to `rehash`, and `resize`. A key is not nil and equals itself where it is
--   set. `index` is the positive number that `arrayindex` gives a key, or 0, and `number` the key of an
--   `int`; their laws are `Lua.Tables.Sound.IndexLaws`, for numbers below 2^31.
--   Lua.Tables.Refill and Lua.Tables.Resize have the loops of `resize`.
-- * Lua.Rehash (lua515/ltable.c): `numusearray`, `numusehash`, `countint`, `computesizes` and `rehash`,
--   and `luah_set`, which is `luaH_set` with them. Lua.Rehash.Counts and Lua.Rehash.Entries are about
--   the counts, Lua.Rehash.Sizes and Lua.Rehash.Room about the sizes.
-- * Lua.Border and Lua.Next (lua515/ltable.c): `luaH_getn` with its searches, and `luaH_next` with
--   `findindex`. `traverse` calls `luah_next` again and again, with the key of the last entry.
-- * Lua.Keys (lua515/ltable.c and lobject.c): the keys of Lua, with `luaO_rawequalObj`, `mainposition`
--   and `arrayindex`. `lua_Number` is the interface `Lua.Keys.Machine`, whose laws are IEEE 754's, and a
--   conversion of an `int` and back is exact.
-- * Base (no code of its own) has the names, lemmas and number formats that the parts share, and
--   Tests has concrete runs.
--
-- State. A record stands for a struct or an object: `Server`, `Callbacks`, `Zio`, `DumpState`. Code
-- that changes it returns the new value; an error that `luaD_throw` raises is a `LoadError`, a
-- `PatternError` or a `SortError`.
--
-- Integers. A length is cut to 32 bits in `send` and read as a signed 32-bit number in `on_message`.
-- A chunk is in the format of a little-endian machine with 4-byte `int` and `Instruction` and 8-byte
-- `size_t` and `lua_Number`; a number is the bit pattern of its double.
-- In Lua.Sort and Lua.Insert sizes are below 2^30 and positions fit an `int`.
--
-- Fuel. `on_message` has one round more than there are bytes in the buffer, and a round takes a
-- header of four bytes. `read` has as many rounds as bytes are asked for, and a round copies one at
-- least. `symbexec` has one round more than there are words, and a round moves `pc` on. `int2fb`
-- has 32 rounds, and a round halves its number. `match` has one call more than there are bytes in
-- the pattern, and a call inside a call is further on in it; its loops have one round more than the
-- subject or the class has bytes. `find_loop`, `search_loop` and `gsub_loop` have one round, and
-- `gmatch_loop` two, more than there are bytes in the subject. `auxsort` has one call more than
-- there are entries, and a call inside it has fewer of them. `find` and `previous` have one round more
-- than there are nodes, and a rank of the nodes falls along a chain. The loops of `numusearray` and
-- `computesizes` have 27 rounds, one for each entry of `nums`, and `log2_loop` four, which drop the bytes
-- of a 32-bit number. The searches of `luaH_getn` have as many rounds as there are numbers in their range.
-- `undump` counts down what is left of
-- `LUAI_MAXCCALLS`, which is the limit of the source.
--
-- Not modelled: logging and signals; the event loop, sockets and threads of muduo, but for the order
-- of the steps; the binding of C++ classes to Lua (lua_tinker/, and luaTinkerSample/, which shows it)
-- and the Lua scripts (luaScript/); running out of memory; the text of error messages; and of lua515/
-- what the list above does not name.
pub mod Base
pub mod Codec
pub mod Server
pub mod Callback
pub mod Main
pub mod Client
pub mod Lua
mod Tests
