-- ===== src/Lib.antt =====
-- A verification library for torch_server, an epoll-based HTTP server in C++ that logs users in with
-- MySQL and classifies pictures with a neural network.
--
-- The program. One thread waits for events (code/server) and keeps a heap of timers that close idle
-- connections (code/timer). It hands readable and writable connections to a pool of threads
-- (code/pool/thread_pool.h). A connection (code/http/http_conn.cpp) reads into a byte buffer
-- (code/buffer), has a request parsed from it (http_request.cpp) and an answer made for it
-- (http_response.cpp), and writes the answer. A request can use a connection to the database
-- (code/pool/sql_conn_pool.cpp) or the network (code/model). Log lines go through a bounded queue
-- (code/log/block_deque.h) to a thread that writes them. client/ is a small client.
--
-- The files. A module stands for a part, with its state as a record and one function for each
-- operation, under the operation's name without its last underscore; its children prove properties
-- of it.
--   Base            shared names, lists, maps, how a call ends
--   Buffer          code/buffer/buffer.cpp: the array, and what the unread bytes are after each operation
--   Timer           code/timer/timer_heap.cpp: the heap and the map of positions, refining a map of ids
--   SqlPool         code/pool/sql_conn_pool.cpp and sql_conn_RAII.h; Steps has the threads that use it
--   Http/Base64     base64_decode in code/http/http_request.cpp
--   Http/Form       parse_from_url_encoded_ there
--   Http/Verify     verify_user_ there; Shared has what it does to the pool
--   Http/Lines      the two regular expressions, the default pages, atoi and find, as used there
--   Http/Request    the request parser, from init to parse
--   Http/Response   code/http/http_response.cpp; Make has make_response
--   Http/Conn       code/http/http_conn.cpp; Page has the answer to a request for a page, Turn the
--                   state between two requests
--   Epoller         code/server/epoller.cpp, over an epoll instance that is a parameter
--   Server          code/server/server.cpp: the handlers; Loop has the event loop and on_read,
--                   Socket the constructor and init_socket, Reach the steps of the loop and of the
--                   tasks, Page and Turn a request from on_read_ to the end of on_write_, Session
--                   one such request after the other, Modes what the handlers keep, Round and
--                   Reported a round of the loop, Reopened a timer that runs out within on_write_,
--                   Main and Ending the loop, the destructor and code/main.cpp
--   ThreadPool      code/pool/thread_pool.h, with its threads as a step relation
--   BlockDeque      code/log/block_deque.h, with its threads as a step relation
--   Log             code/log/log.cpp; Async has flush, the writing thread and the destructor, Steps the
--                   calls of write and the thread as steps, Order the order of the lines, Exit the end
--   Model           code/model/torch_model.cpp: the table of labels, the tensor, and the first three
--                   of an answer
--   Client          client/http_client.cpp: its request, what the server does with it, and the receiving
--                   loop
--
-- Conventions. A call that can fail returns a Run: a value or a fault, where a fault is a failed
-- assert, an access outside an object, an exception that nothing catches, or a wait that the thread
-- itself cannot end. A size_t is a natural number with its wrap-around written out where the code
-- subtracts; a byte is a number below 256; a string is the list of its bytes; a pointer into an
-- array is an index. A time point is a count of nanoseconds. Code that is not of the repository is a
-- parameter: the database (Mysql), the picture and the network (Vision, and Classifier for the
-- request parser), the file system (Files), the epoll instance (Kernel, with the laws IsLawful), and
-- what the system calls return.
--
-- The server. Its connections are found by their descriptor, as in users_, and a pointer to one, a
-- task and the callback of a timer are that descriptor. The handler of an event, the callbacks of
-- the timers that are due, and a task are each one step, in any order that the queue of tasks
-- allows; what threads do to one connection at the same time within such steps is modelled only
-- where Reopened says so. A task of on_write_ is a step only where its connection is open, that is,
-- where its time limit has not passed while the task was queued. The count of users is kept as its
-- 32 bits. Of the events that are ready, the array of events bounds how many are reported.
--
-- Fuel. The loop of parse has one more round than there are readable bytes, and a round that goes on
-- takes at least two of them. A loop of the timer heap has one more round than its index, or than
-- the heap has timers, and the theorems of Timer show that this is enough. to_string has as many
-- digits as its value and one. read and write take the results of the system calls as a list, and a
-- run that needs more results than it is given is a fault of its own, no_fuel. start takes what its
-- rounds find in the same way: the loop has no end of its own while the server is open.
--
-- Not modelled. Logging inside other operations has no effect there, and the messages of the
-- constructor are left out. The regular expressions are matchers for their two languages, and atoi
-- does not bound its value, where the C++ is undefined. In ThreadPool and SqlPool a push and its
-- notification are one step, in BlockDeque no wake-up is spurious. In Log a call of write is one
-- step, and the writing thread takes a line only where there is one. The accessors of the address of
-- a connection and instance() are left out. webbench-1.5 is another program.
mod Base
pub mod Buffer
pub mod Timer
pub mod SqlPool
pub mod Http
pub mod Client
pub mod BlockDeque
pub mod ThreadPool
pub mod Epoller
pub mod Server
pub mod Log
pub mod Model
