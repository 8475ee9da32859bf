-- ===== src/Lib.antt =====
-- HighLoad-Systems: models of the C++ programs of the repository, and what is proved of them.
--
-- image_processor/ is a console program. It parses the command line, reads a 24-bit BMP file into
-- a picture of doubles, applies the filters in the order given and writes the result. cache/ is a
-- header with a map split over shards, each with a queue of tasks and a worker thread.
-- HTTP-server-cpp/ is a server that answers GET requests through a cache of responses with expiry
-- and lists the members of a JSON object that is posted. echo-server-cpp/ sends back what it gets.
-- messager-cpp/ is a chat: a server that passes each line on to all other clients, and its client.
-- metro-maps-cpp/ is a web server with three pages, and a database connection for it.
--
-- Common             the shared names: numbers, signed integers, lists and their indices, results
--                    with an error, counted loops, association lists, byte strings
-- ImageProcessor     image_processor/
--   Floats           double and <cmath> as an interface, with the facts of IEEE 754 relied on
--   Exception        include/exception.h: a constructor for each exception
--   Image            include/{pixel,image,matrix}.h, src/{image,matrix}.cpp: multiply is
--                    Image::Multiply, transpose is Matrix::Transpose
--   Filter           include/filter.h, src/{filter,handler}.cpp: a constructor for each filter class,
--                    apply_crop and so on for each Apply, apply_filters for ApplyFilters
--   Io               include/io.h, src/io.cpp: read_file and write_file over the bytes of a file
--   Fabrics          include/fabrics.h, src/fabrics.cpp: the Make functions and their checks
--   Parser           include/parser.h, src/parser.cpp: parse_step is a round of the loop in Parse;
--                    Words has the command lines that RoundTrip is about
--   Main             image_processor.cpp: run is main
-- ShardedCache       cache/cache.h: set_async, get_async, remove_async and get_sync of Cache,
--                    worker_step for a step of worker_loop, Step for what can happen next
-- HttpServer         HTTP-server-cpp/
--   Cache            include/cache.h, src/cache.cpp: put, get and cleanup at a given time
--   HttpParser       src/http_parser.cpp: handle_request
--   ThreadPool       include/thread_pool.h, src/thread_pool.cpp: a thread's step, and the runs of a
--                    pool; Drain and Joining follow its destructor
--   Server           src/server.cpp: handle_client, with recv and send as parameters; Listening for
--                    init_socket, Events for event_loop
--   System           the event loop, the threads of the pool and the cache they share, as steps: Owners,
--                    Owned and Closing follow a client's socket from accept to closesocket, Entries,
--                    Working and Replies the responses, Alive, Work and Settling what the threads do
--   Main             src/main.cpp and Server::run, up to the event loop
--   Logger           include/logger.h, src/logger.cpp: the levels, over an interface of spdlog
-- Winsock            the calls that the two servers make to the socket library, and the rule for them
-- EchoServer         echo-server-cpp/server.cpp: run_server is main
-- Messager           messager-cpp/
--   Lines            the line buffer: async_read_until and std::getline
--   Server           src/{server,connection,user}.cpp: step is what the server does at an event
--   Client           client/client.cpp: client_step is what a client does at an event
--   Main             src/main.cpp: run_chat is main
-- MetroMaps          metro-maps-cpp/src/main.cpp
--   Http             Connection and Server: handle_req, accept_conn
--   Postgres         PostgreSQL: database_step is a call of it or one of its callbacks
--   Main             run_metro is main
-- Tests              concrete runs, and each theorem at a concrete input
--
-- A double is an element of a type with the operations of the platform (Floats); the theorems that
-- need them take its laws as the argument IsIeee. Widths are uint32_t, indices int32_t: conversions
-- between them are written out modulo 2 ^ 32, an int that is stored wraps (wrap_int), and the theorems
-- are about pictures of fewer than 2 ^ 31 rows whose rows have fewer than 2 ^ 32 bytes, and, where
-- files are read or written, whose offsets of a column fit an int: three times the width is at most 2 ^ 31. An index past a vector, undefined in C++, is the
-- error out_of_bounds, so that a theorem that excludes it says that the code does not do it. A file
-- is the list of its bytes; std::filesystem is a record of tests on paths (Parser.Files). The loop
-- of Parser::Parse runs on as much fuel as there are arguments, and a theorem shows that this is
-- enough, since each round moves on by at least one argument.
--
-- A thread is modelled by the steps that it can take: one critical section or one task is one step,
-- and Step lists the calls of clients and the steps of workers in any order. Where the worker of a
-- shard tests its queue and blocks, these are two steps, since the destructor can come between them. std::hash is a
-- parameter. A promise is an index into a list; std::function objects are the constructors of Task.
--
-- The HTTP server's clock gives each call its time in nanoseconds, the JSON library is a parameter,
-- and the loop over send runs on one unit of fuel more than there are bytes, which a theorem shows
-- to be enough.
--
-- A run of a pool after its destructor has begun is a Schedule of the steps of its threads. In System a
-- pass of the event loop over one socket is a step, and so is what a thread does up to its next
-- call of the cache or to closesocket; the log and the pieces of a response that send takes are
-- left out there. accept answers a number that no open socket has, and FD_SET is taken to have room.
--
-- The select loop works on an interface of fd_set (IsFdSets has what its documentation says), and its
-- inner loop runs on fuel beyond the greatest number that it can reach. The messager's asio callbacks
-- are events, in any order; a connection is its place in the list of connections, and a buffer that
-- async_write gets is what it holds at that moment. The messages of beast are an interface
-- (IsMessages has what its setters do), and libpq's answers come with the events of the database.
--
-- Not modelled: the sinks of the HTTP server's logger, Redis, DataPackage and DataHandler of the
-- metro map server, which have no operations, the classes' declarations in io.h and fabrics.h, the
-- Python scripts, the tests, and the text of messages beyond their kind where no one reads it.
pub mod Common
pub mod ImageProcessor
pub mod ShardedCache
pub mod Winsock
pub mod HttpServer
pub mod EchoServer
pub mod Messager
pub mod MetroMaps
pub mod Tests
