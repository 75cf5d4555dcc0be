-- ===== src/Lib.antt =====
-- The verification library of network_c_http, an http/1.1 client and server in C over home-made
-- event loops.
--
-- The program is built in layers. src/common holds buffers, lists, a blocking queue and a URL
-- parser. src/runloop holds an event loop, once over kqueue and once over epoll: a table of
-- watchers or events, a ready list of posted functions and the loop itself. src/http,
-- src/http_protocol and apps put messages, parsers, connections and servers on top. Each file
-- below models one source file, and its child modules hold the proofs.
--
-- - Base: names that all share; Outcome (a call ends with a value, in a failed assertion, or in
--   undefined behaviour), blocks of memory with bounds-checked access, rings, and Heap, objects
--   at addresses with an allocator.
-- - FunctorList: src/runloop/kqueue_runloop/functor_list.c and the same file of epoll_runloop;
--   functor_list_new, _add, _size and _remove keep their names.
-- - EventTable: src/runloop/kqueue_runloop/event_table.c; freelist_* and event_table_* keep
--   their names.
-- - FdTable: src/runloop/epoll_runloop/fdtable.c, FdTable_insert as fdtable_insert and so on,
--   and the walk of runloop_close in runloop.c.
-- - UrlParser: src/common/url_parser.c and url_parser.h in the strict configuration. Chars holds
--   the character classes, Machine parse_url_char, Url the result, Host c_http_parse_host and
--   Parse c_http_parser_parse_url; Inside holds the invariants of the loops.
-- - IoBuffer: src/common/iobuffer.c, IOBuffer_consume as iobuffer_consume and so on; the
--   pointers are offsets into one block.
-- - BlockingQueue: src/common/queue.c, Queue_add as queue_add and so on. Each function is one
--   round of its loop under the mutex; Monitor holds the threads and their interleavings.
-- - Cbuffer: src/common/cbuffer.c, Cbuffer_append as cbuffer_append and so on, with
--   BufferStrategy.
-- - DemoMsg: apps/msg/demo_msg_parser.c and the message of apps/msg/demo_msg.c;
--   demo_msg_parser_consume keeps its name and uses IoBuffer for its input and for the body.
--   Frames holds the parser on lists of bytes that it is compared with, Steps one byte, Refine a
--   whole buffer and Requests the test of a message's kind.
-- - NewlineMsg: apps/msg/newline_msg_parser.c and the message of apps/msg/newline_msg.c, with
--   the lines of a text as what it is compared with.
-- - LinkedList: src/common/list.c, List_add_front as list_add_front and so on; a pointer is an
--   address in a heap (Base.Heap) and an allocator chooses new ones. Chain and Links hold the
--   links between nodes, Ends, Removal and Unlink the changes, Walk the searches, Run the
--   sequences of calls and plain lists, Refinement the two side by side.
-- - KvPair: src/http/kvpair.c, make_upper of src/common/utils.c, and the C library's toupper,
--   strlen and strcmp as these use them.
-- - HdrList: src/http/header_list.c over LinkedList, KvPair and Cbuffer, HdrList_find as
--   hdr_list_find and so on; Lookup holds the search, Run the sequences of calls and plain lists
--   of headers, Refinement the two side by side, Serialized the text.
-- - TcpStream: apps/tcp/tcp_reader.c and tcp_writer.c, with the state of tcp_stream_internal.h;
--   tcp_read, try_read, tcp_write and the others keep their names. Reads, Writes and WriteCalls
--   say what one call leaves, Monitor which states a stream and its owner can reach, Soundness
--   what holds in all of them, Progress what follows for the owner.
-- - BufferChain: src/common/buffer_chain.c over LinkedList and IoBuffer, BufferChain_append as
--   buffer_chain_append and so on; Chunks holds the bytes in the buffers, Appends and Compact
--   the two operations.
-- - HttpMessage: src/http_protocol/http_message.c over HdrList, Cbuffer and BufferChain;
--   http_message_new, http_message_set_target_cbuffer and the others keep their names. Strings
--   holds the buffers that end in a NUL, Target and Headers what is copied to a message,
--   Serialized the text of one.
-- - HttpParser: src/http_protocol/http_message_parser.c, its callbacks under their own names and
--   HttpParser_initialize as initialize; llhttp is a parameter, known by the calls that it
--   makes. Plain holds the same on plain texts, Views what a parser holds, Callbacks, Fields,
--   Whole and Refinement the two side by side; Transmission holds the messages in pieces, Steps,
--   Parts, Messages and Reassembly how the pieces come together; Consume holds the functions
--   that give bytes to llhttp, Connection the buffers of a connection and Printed the text that
--   a message is written out as.
-- - RunloopStream: src/runloop/epoll_runloop/w_stream.c, the watcher of a socket;
--   runloop_stream_arm_read and the others keep their names, and handler calls what is armed.
-- - AsioStream: src/runloop/epoll_runloop/asio_stream.c over RunloopStream; asio_stream_read,
--   try_read, epollin_postable_cb and the others keep their names, on_io_event is the handler
--   with them. Reading holds what becomes of a read.
--
-- Numbers are natural numbers. A machine integer is written with its modulus where the code can
-- wrap it, a sum of signed integers that overflows and a length that is too large for the int it
-- is stored in are faults, and where neither can happen the file's comment says why. malloc is
-- taken to succeed; what it leaves in a block is a parameter, and so is the address where that
-- matters. The tag checks of rbl/check_tag.h and the logging change no state that is modelled,
-- and are left out. `free` ends the life of a block and has no counterpart, except in a heap of
-- Base.Heap, where it takes the object out of use, and where it walks a structure.
--
-- Fuel: the walk of runloop_close takes fuel, one round for each place of the table, and its
-- theorem covers the walk to its end. The loop of newline_msg_parser_consume takes a round for
-- each byte of its buffer, and its theorem says that the buffer is then empty. The walks over a
-- linked list, those of header_list.c, buffer_chain.c and http_message.c included, take as much
-- fuel as its count says. Reading a string from a buffer takes the size of its block, and
-- writing a number in decimal one more than the number. A round of the queue takes no fuel: the
-- waiting of a thread is a state of the system. The loops of the URL parser run over the bytes
-- left, which is the bound of the source's loops.
--
-- Not modelled: the vendored llhttp parser (vendor), the kernel's calls (sockets, epoll, kqueue,
-- threads; what `read` and `write` return is an argument), the command line programs, and the
-- test and obsolete trees (tests, junk).
pub mod Base
pub mod FunctorList
pub mod EventTable
pub mod FdTable
pub mod UrlParser
pub mod IoBuffer
pub mod BlockingQueue
pub mod Cbuffer
pub mod DemoMsg
pub mod NewlineMsg
pub mod LinkedList
pub mod KvPair
pub mod HdrList
pub mod TcpStream
pub mod BufferChain
pub mod HttpMessage
pub mod HttpParser
pub mod RunloopStream
pub mod AsioStream
