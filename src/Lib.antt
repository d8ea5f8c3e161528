-- ===== src/Lib.antt =====
-- pluto-server: the network core of its game and database servers.
--
-- A server has one thread with an event loop over sockets, timers and an eventfd, and worker threads
-- that run the game or the database. Bytes of a client are read into the input buffer of its channel,
-- cut into packages, and handed to the workers through one queue; what the workers want sent comes back
-- through another queue, goes into the output buffer of a channel, and from there to the socket.
--
-- Which file models what (paths from the root of the repository):
--   Prelude        shared notation and lemmas: tests on numbers, bits, lists, `std::map` as an association
--                  list (Dict), memory blocks with an allocator as parameter (Memory), texts (Text)
--   Util           common/util.h and common/util.cpp: the constants, min_pow, split, hash_string
--   Buffer         common/buffer.cpp: class Buffer as its block, m_alloc_size and m_write_offset; extend,
--                  write and read are Extend, Write and Read
--   Stream         common/stream.cpp: class CByteStream and the conversions ReadInt16 .. WriteUint32
--   Singleton      common/singleton.h: the pointer of a singleton, with its assertions
--   Package        common/package.cpp: class Package, SetMsg, ReadPduHeader, IsPduAvailable and ReadPdu
--   Channel        common/channel.cpp and common/connector.cpp: Channel with ReadPackage, and Connector
--   MessageQueue   common/message_queue.cpp: both queues with each push and pop; Workers has the threads
--                  that wait on the condition variable, Wakeups the eventfd that wakes the event loop
--   Epoll          common/epoll_server.cpp with common/timer.cpp: the state, with a child for each handler,
--                  Read (OnRead), Write (OnWrite), Eventfd (OnEventfd), Timers (OnTimer), Connect
--                  (OnTryConnect, ConnectIpPort), and Callbacks, which composes them as libev calls them;
--                  Exchange has what the workers' exchanges share; Every and Sound, what holds of all channels;
--                  Peer, the connector of another server
--   NetUtil        common/net_util.cpp: the wrappers of the system calls, over a kernel that is a parameter
--   Json           common/cjson_helper.cpp: class JsonHelper over a cJSON; Lookup says what is assumed of it
--   Logger         common/logger.cpp: class Logger, and a line from LogDebug .. LogError to its file
--   GameWorker     gameserver/game_worker.cpp, game_cpp2py.cpp and game_py2cpp.cpp: what a message calls of
--                  the script, and what the script calls back; Exchange follows a request from
--                  the bytes of a client to the bytes of the answer, and Question a question of the script to a
--                  database server and its reply
--   DbConn         dbserver/db_conn.cpp: CResultSet and CDBConn over a MySQL client
--   DbWorker       dbserver/db_worker.cpp: the loop over the messages, and the answer of a query;
--                  Exchange follows a query from the bytes of the question to those of the answer
--   Config         common/config_reader.cpp and common/base_server.cpp: the file of the configuration, and the
--                  fields that a server reads of it
--   Startup        main, GameServer, DBServer and EpollServer::StartServer: from the arguments of the program
--                  to its threads, and what each does before its loop; Waking, a push while the socket thread starts
--   System         the whole game server: the callbacks of the event loop, the workers and the scripts, in any
--                  order, with what may stand in the queues between them; Query follows a query of a script
--                  through a game server and a database server, and its answer back
--   Tests          concrete runs
-- The modules below each of these hold the lemmas on it.
--
-- How the code is modelled. Numbers are natural numbers; a machine integer is its bit pattern, and
-- wrap-around is written out. A `char` is signed, as on the platforms the server is built for, and its
-- pattern is a number below 256. A block of memory is the list of its bytes; a handler is a function from
-- state to state, in Option where it can touch memory outside a block, read what was never set, or read a
-- union by the wrong member: `none` is undefined behaviour. `malloc` and `realloc` are parameters
-- (Prelude/Memory), of which only their size and the bytes that `realloc` keeps are assumed; they are
-- taken not to fail, except where the code tests for it. What the kernel answers (accept, recv, send,
-- connect, the eventfd) is an argument of the handler that asks, and what the handler asks of libev and
-- the kernel is kept in the field `calls`. A watcher of libev is its address. A negative descriptor for
-- `ev_io_start`, a number of `atoi` that no `int` is, and the missing `return` of `add_timer` are `none` too.
--
-- Bounds and fuel. MAX_BUF_SIZE, READ_BUF_SIZE and WRITE_BUF_SIZE are the source's. The loop of OnRead has
-- fuel for each byte held and one round more, and each package takes a byte at least; the loop of OnWrite
-- the same, as each round sends a byte at least; the loop of OnEventfd has fuel for each queued message
-- and one round more, and no message adds another. That these are enough is proved with the loops. The
-- loop of min_pow is recursion on the descent of its argument and needs no fuel.
--
-- Libraries. The calls of cJSON (Json.CJson) and of the MySQL client (DbConn.Mysql) are records that the
-- definitions take; of cJSON it is assumed, where a property needs it, that an added item is found behind
-- those that are there (Json.Lookup.IsCJson), of MySQL nothing but what a property names. The Python script
-- is the list of the calls that it makes while one of its methods runs. The day, the time and the formatted
-- message of a line of the log are arguments.
--
-- Not modelled: the loop of libev itself, the kernel behind common/net_util.cpp, the threads of
-- common/thread_worker.cpp but for the interleavings in MessageQueue/Workers, MessageQueue/Wakeups and
-- System, the start of the Python interpreter and its reference counts, the copy of cJSON in
-- common/cjson.cpp, and the Python game logic. The logger is one state, as if its calls came one after
-- the other, although the threads share it with no lock. `delete` and the leaks of watchers and timers
-- leave no trace in the model, since no memory is used after it is freed by the operations modelled
-- here. The helper of the configuration is passed on by its value: the copies that the threads make
-- share one cJSON, which none of them deletes while it serves.
pub mod Prelude
pub mod Util
pub mod Buffer
pub mod Stream
pub mod Singleton
pub mod Package
pub mod Channel
pub mod MessageQueue
pub mod Epoll
pub mod NetUtil
pub mod Json
pub mod Logger
pub mod Config
pub mod GameWorker
pub mod DbConn
pub mod DbWorker
pub mod Startup
pub mod System
mod Tests
