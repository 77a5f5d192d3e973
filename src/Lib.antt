-- ===== src/Lib.antt =====
-- The verification library of cllm, a unikernel in C that serves a language model over HTTP.
--
-- The program boots on bare metal: a heap (src/allocator.c) and a subset of the C library
-- (src/string.c, src/safestring.c) carry a JSON reader and writer (src/json.c), by which the HTTP
-- handlers answer; a small TCP/IP stack (src/network) receives requests and sends the responses.
--
-- Which file models which part, each with child modules for its theorems and a module Tests:
--   Allocator      src/allocator.c. A block is an offset in the arena and a payload size; the state is
--                  the chain from free_list_head and the list of the headers with is_free 0.
--   CString        the string and memory functions of src/string.c, over the bytes of the object from
--                  a pointer on; a store outside the object is `none`.
--   Format         vsnprintf of src/string.c with append_char, append_str and append_uint.
--   SafeString     src/safestring.c, over the bytes of the destination.
--   Json.Writer    the writer of src/json.c and json_writer_t of include/json.h: 0 is `done`, -1 is
--                  `failed`, a store outside the buffer is `fault`.
--   Json.Lexer     the tokenizer of src/json.c and json_parser_t; the input is the list of the bytes
--                  from pos on.
--   Json.Reader    json_skip_value, json_expect and the json_parse functions of src/json.c; 0 is `true`.
--   Net.Wire       the reads and writes of header fields, from src/network/tcp.c and ip.c.
--   Net.Tcp        src/network/tcp.c: sockets and tcp_now are the state, the calls of net_send_tcp the
--                  output. The HTTP server is a parameter, which the module Server fills.
--   Net.Arp        src/network/arp.c; the calls of net_send_eth are the output.
--   Net.Ip         src/network/ip.c; the frames for e1000_send_packet are the output.
--   Net.Card       the descriptor rings of src/network/e1000.c; what the card does to them and the head of
--                  the transmit ring are inputs.
--   Net.Loop       src/network.c: network_init and the rounds of network_loop, which compose the card,
--                  ARP, IP and TCP; the frames that are sent are the output.
--   Http           src/http.c: Http.Parse is http_parse_request with its helpers, Http.Generate is
--                  http_generate_response. A character array is the list of its bytes, and a store
--                  outside one is `none`.
--   Api            src/api_v1.c and src/api.c: Loop and Requests read the requests, Arrays their arrays,
--                  Answer and Bodies write the responses, Handlers are the endpoints, Routes the
--                  dispatch on the path. The language model behind them is the interface Llm.
--   Model          src/llm.c: the placeholder of the language model, an instance of Llm, on
--                  which the examples of the routes and of the server run.
--   Server         the lines of src/network/tcp.c that parse, route and answer a request.
--   Terminal       the VGA terminal of src/kernel.c: the cursor, the color and the 2000 cells are the
--                  state, the calls of outb the output.
--   Log            src/error.c: the log lines in their arrays of 512 bytes, and where they go.
--   Embedding      src/model_embedding.c and src/c_model_interface.c: the checks of the embedded model.
--   Memory         the stack guard of src/memory.c.
--   Kernel         the self-tests and the boot of src/kernel.c.
--   Spinlock       src/spinlock.c and src/interrupts.c: the lock, the saved flag and the processor's.
--   Common         tests, lists, integers and options that the parts share.
--
-- Components meet as in the code: the JSON writer calls the models of strncpy and vsnprintf, and its
-- theorems use theirs; ip.c's framing takes the segments that the TCP model sends; the handlers call
-- the JSON reader and writer, and the server composes parser, routes and generator for the TCP model.
-- The polling loop takes packets off the ring and gives them to ARP, IP and TCP, and drives the timer.
-- A log line is made by vsnprintf and shown by the terminal; the boot runs the allocator, the routes,
-- the check of the embedded model and the terminal.
--
-- Bounds and fuel. size_t, unsigned long and pointers have 32 bits, as on the i386 target, and wrap
-- where the code lets them. The digit loop of append_uint has the 32 bytes of its buffer as fuel, and
-- a 32-bit value has at most 10 digits in base 10. The trimming loop of json_write_float has ten
-- rounds for a fraction below a million. The folding loop of a checksum has three rounds, which a
-- 32-bit sum never needs more of. json_skip_value has twice the bytes that are left, and a few, as the
-- depth of its recursion. The loops of the API's request parsers have the bytes that are left, and
-- two, as fuel: every round takes a byte, and they are proved to return. All other loops are structural.
--
-- Not modelled: devices (the registers and the programming of the e1000, pci, the wait for the serial
-- port) and processor set-up, which are hardware access; the model runtime, which is floating point or external, and the set-up of a context,
-- so that the handlers take what they do as the interface Llm; the memory pools, which always refuse;
-- the calls of the log where they have no effect on a result. A call of free with a
-- pointer to no header of a live or a free block, and of realloc with one to no live block, is `none`:
-- the code takes other bytes for a header. A header that has been overwritten is not modelled.
-- Conversions between floating point and integers are inputs of the writer; the tokenizer keeps a
-- number's lexeme in place of its value, and the `int` made of a lexeme is a parameter of the request
-- parsers.
pub mod Common
pub mod Allocator
pub mod CString
pub mod Format
pub mod SafeString
pub mod Json
pub mod Net
pub mod Api
pub mod Server
pub mod Model
pub mod Http
pub mod Spinlock
pub mod Terminal
pub mod Log
pub mod Embedding
pub mod Kernel
pub mod Memory
