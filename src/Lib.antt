-- ===== src/Lib.antt =====
-- OTHire is a server for an online game, written in C++ (source/). This library models the parts of it
-- that carry data into and out of the server, those that decide what runs and who gets in, and of the
-- game the tiles of the map, the ways that creatures find on it, parties, trades and experience.
--
-- The parts and their files:
--
-- - PropStream.antt, PropStream/Write.antt: PropStream and PropWriteStream of source/fileloader.h, the
--   attribute streams. A reader is the bytes it was given and a position; a read returns a value,
--   refuses, or is a fault, which is an access outside of the bytes. A writer is the bytes written and
--   the size of the allocated buffer.
-- - FileLoader.antt, FileLoader/Writer.antt: FileLoader of source/fileloader.cpp and
--   source/fileloader.h, the tree format of item and map files. parseNode is the function `scan` over
--   the file's bytes, with its branches open_child, close and skip; openFile is `open_file`, getProps is
--   `get_props`; writeData, setProps, startNode and endNode are functions on the bytes written so far.
--   The fuel of `scan` is one more than the file has bytes: every round moves forward in the file.
-- - NetworkMessage.antt, NetworkMessage/Add.antt: NetworkMessage of source/networkmessage.h and
--   source/networkmessage.cpp. The methods are functions from message to message, in a monad where an
--   access outside of the buffer has no result; the position is the 32 bits of an int32_t.
--   NetworkMessage/Body.antt has the list of bytes that
--   additions stand for.
-- - Protocol.antt: XTEA_encrypt and XTEA_decrypt of source/protocol.cpp, on the 32-bit words of the
--   message that they work on.
-- - Scheduler.antt, Scheduler/Steps.antt: source/scheduler.h and source/scheduler.cpp. What runs under
--   the lock is a function on the state, and the thread, its callers and the clock are a step relation;
--   the thread hands a task to the dispatcher in a step of its own, after it has unlocked.
-- - Dispatcher.antt: source/tasks.h and source/tasks.cpp, the queue of tasks that the scheduler feeds.
-- - WaitingList.antt: source/waitlist.h and source/waitlist.cpp, the clients waiting to log in.
-- - Party.antt, Party/Shared.antt, Party/Handlers.antt: source/party.h, source/party.cpp and what
--   source/game.cpp and source/player.cpp do with parties. Players and parties are known by numbers; a
--   state has both, so that a party's pointer in a player and the player in the party can differ.
-- - FileLoader/Cache.antt: the cache of blocks that FileLoader reads through. readBytes runs on fuel, a
--   round for each byte and one more.
-- - Map.antt: source/map.h and source/map.cpp, the quad tree of tiles with getTile and setTile. The
--   loop of getLeafStatic runs on fuel, 15 rounds, as no path of the tree is longer.
-- - Search.antt, Search/Way.antt: source/map.cpp, getPathTo and AStarNodes; Search/Matching.antt:
--   getPathMatching with its condition (source/creature.cpp). The searches run on a fuel of 60000000
--   rounds: nodes not yet made, the costs of the others and the number of open ones give a measure
--   that falls in every round (Search/Measure.antt). The way is read back on fuel of the cost of its
--   last node.
-- - Experience.antt: source/player.h and source/player.cpp, the experience of a player and its levels.
--   addExperience runs on a fuel of a round for each level up to 100001.
-- - Trade.antt, Trade/Ask.antt, Trade/Events.antt, Trade/Runs.antt: source/game.cpp, trades between
--   players, the callbacks of source/player.cpp that close them, and any of these calls in a row. A
--   call asks the rest of the game (positions, tests of items) through the record Surroundings.
-- - Protocol/Message.antt: source/outputmessage.h and onSendMessage, onRecvMessage of
--   source/protocol.cpp: the headers, the padding and the checks around XTEA, over NetworkMessage.
-- - Base.antt: what the parts share: tests, lists, integers and bytes.
--
-- Numbers are the native natural numbers; the integers of the source that wrap have their modulus
-- written out. Times are natural numbers of milliseconds.
--
-- Not modelled: the error codes of the cache of FileLoader, items in messages, RSA, sockets, threads
-- beyond their locks, the life of a connection beyond the header it reads, and of the game the tests
-- of tiles that the searches ask, the moves of items and the tests of trades for them, combat, scripts
-- and the database.
pub mod Base
pub mod PropStream
pub mod FileLoader
pub mod NetworkMessage
pub mod Protocol
pub mod Scheduler
pub mod Dispatcher
pub mod WaitingList
pub mod Party
pub mod Map
pub mod Search
pub mod Experience
pub mod Trade
