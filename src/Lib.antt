-- ===== src/Lib.antt =====
-- xrossfire: a C library for asynchronous network programs on Windows.
--
-- The program's parts. A tree template (src/avltree.h) is instantiated by the table of timeouts
-- (src/timeout.c), which is one of the procedures of the polling loop (src/poll.c). An asynchronous
-- operation (src/async.c) is notified when it is done, and cancelled by its caller, its parent or its
-- entry in the table of timeouts. A socket (src/win32/tcp_socket.c, src/win32/tcp_server.c) starts I/O
-- for such an operation, and a worker of the completion port (src/win32/io_completion_port.c) calls
-- what finishes it; a TLS socket (src/win32/ssl_socket.c) does so over another socket. Strings
-- (src/string.c), objects (src/object.c) and error records (src/error.c) are reference counted, and
-- addresses (src/inet.c) are parsed from strings.
--
-- Base: the tests of C, faulting steps (`Option`, where `none` is a read or a write that the program
--   must not make), signed numbers, and lists measured by native numbers.
-- Order: a three-way comparison and its laws, which the tree takes as an instance argument.
-- Avl: src/avltree.h. A node's address, key and value are its `Entry`; its links and its height are
--   the constructor `node` of `Tree`, and NULL is `null`. `*inserted`, `*changed`, `*removed` and the
--   node that a pop hands out are components of the results. A function whose name ends in an
--   underscore in the source drops it, or says what it counts (`count_nodes` is `count_`). A step of
--   a recursion after the recursive call is a function of its own (`insert_left`, `remove_left`).
--   Avl.Sorted is the specification, a list of entries with increasing keys; Avl.Shape has the AVL
--   invariant, the other children the recursions, and Avl.Root the public functions on the root.
-- Timeout: src/timeout.c and include/xrossfire/timeout.h. The state is the tree and the counter. The
--   clock is an argument of each call. The processing loop runs on fuel: a round more than the due
--   entries is enough. What callbacks and other threads do while the lock is released is a function
--   on the table.
-- Poll: src/poll.c. The array of 16 slots and the number of those in use. A round of the endless loop
--   is a function, and so are its first rounds; what a procedure answers and does is an argument.
-- Loop: src/timeout.c as the only procedure of src/poll.c, for a round and for any number of them.
--   The processing loop has the fuel it needs: one more than the entries that are due.
-- Monitor: the monitor of include/xrossfire/base.h, the thread of src/poll.c, and the threads that call
--   src/timeout.c, as a step relation over where each thread stands. Nothing is bounded: any number of
--   threads and of calls, and the clock may stand still or jump ahead.
-- Text: src/string.c, and the string record of include/xrossfire/base.h. Buffers are lists of 16-bit
--   units with the terminator; `malloc` is an argument.
-- Async: src/async.c. Records in a store by address, the table of timeouts, and the rest of the
--   program. Create makes the records, Notify notifies, cancels and releases them; callbacks and the
--   operating system's part of I/O are a record of functions. Notification and cancellation run on
--   fuel: a step for each record on the way up the parents or down the children, and one more. One
--   operation, whatever comes to it in whatever order, is that of Life, Held and Lives; a child, its
--   parent and what goes between them that of Parent, Ends, Linked and Cancelled; three in a chain
--   that of Nested.
-- Inet: src/inet.c, over the strings of Text. The three constants are strings at addresses that are
--   arguments. The digit loops run on fuel, one more than the length of the string.
-- Object: src/object.c and include/xrossfire/object.h. What a procedure answers to a message is an
--   argument that acts on the rest of the program's state.
-- Errors: src/error.c. Stores of records and of strings by address, and the current error. The release
--   along the causes runs on fuel, one more than their number.
-- Port: src/win32/io_completion_port.c. The static variables, the threads and the packets in the port
--   are the state; what a thread may do is a step relation. Nothing is bounded.
-- Net: the sockets of src/win32/tcp_socket.c and src/win32/tcp_server.c, src/netobj.c, and what the
--   completion port does with them. They act on the records of Async, over a rest of the world with
--   the bodies of the objects, the caller's variables and a log of what is given back. Each answer of
--   the operating system is an argument. Fuel is that of Async: operations without a parent need one
--   step. A function of the source whose name begins with two underscores drops them.
-- Tls: src/win32/ssl_socket.c. Sending and receiving work on buffers as lists and a log of the frames,
--   of the notifications and of what is freed. The loop of a send runs on fuel, a step for each
--   completion: as many as there are bytes are enough. The phases of the handshake work on the context
--   and the references of the base socket, and run over a list of answers, one for each phase; then the
--   error phase, if one has failed. Of the caller's operation, sending and receiving keep what the
--   records of Async say of it: how many hold it, whether it is completed, and whether it has a child.
--
-- Reference counts and times are not wrapped: no program has 2 ^ 31 references to a record, and a
-- clock in milliseconds stays below 2 ^ 63.
--
-- Not modelled: the monitors of the operations and of the port (each function that takes such a lock
-- is one step; that of the polling loop is Monitor's), the sockets, the port and SSPI of the
-- operating system, what is printed before an abort, and the test program, which exercises the
-- library.
pub mod Base
pub mod Order
pub mod Avl
pub mod Timeout
pub mod Poll
pub mod Loop
pub mod Monitor
pub mod Text
pub mod Inet
pub mod Object
pub mod Errors
pub mod Async
pub mod Port
pub mod Net
pub mod Tls
