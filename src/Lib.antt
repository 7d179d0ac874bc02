-- ===== src/Lib.antt =====
-- The capture and storage of Nano network traffic by nanocap, modelled from its sources.
--
-- The program takes packets of TCP connections, parses them as messages of the Nano protocol and
-- writes them to a database. A connection whose last message was a bootstrap request is followed
-- by a stream of responses with no header; the packets of such a connection go to a loop that reads
-- entries from a circular buffer, until an entry or a byte that ends the response.
--
-- Parts, and where they are modelled:
--   * Stream: what the generated parser calls of its runtime (src/kaitai): the record `KStream` of
--     reads with their documented laws, a parameter everywhere. Stream/Instance is a stream over a
--     list of bytes, which satisfies the laws. Stream/Takes, Stream/Reads, Stream/Quiet and
--     Stream/Decodes say how much a reader takes, that it ends, what it may throw, and which bytes
--     it reads back; Stream/Repeat has the loops of the generated code.
--   * Protocol: the classes of src/nano.h and their `_read` of src/nano.cpp. A class `msg_x_t` is
--     the record `MsgX`, its `_read` the function `read_msg_x`; a field that may be null is an
--     option. Protocol/Encode is the wire format, a description that is not code of the program.
--   * Util: `to_hex` (src/util/hex.hpp), and accounts, balances and hashes of blocks
--     (src/util/nanoutil.cpp). BLAKE2 is a function that is a parameter.
--   * Flow: `nano_packet` (src/shared.hpp), `tcp_flow_data` and its `reset`
--     (src/packet_handler.hpp). The circular buffer of boost is the record `CircularBuffer`, with
--     an instance in Flow/Instance.
--   * Db: `put` and `put_block` of src/db.cpp, `bind_header_fields` and `bind_packet_fields` of
--     src/db.hpp, as functions that append the calls of SQLite that they make to a list. The
--     configuration, BLAKE2, the answers to the size pragmas, `strftime` and the text of an
--     address are fields of `Env`. Db/Ids says which ids such calls bind. Db/Query has `query`,
--     `destroy_capture_data` and the counts per type, over the statements of SQLiteCpp.
--     The counts per type, an array of 32 in the source, are a function of any number. An exception
--     of SQLiteCpp while a put executes is left out.
--   * Handler: `handle_tcp` of src/packet_handler.cpp (Handler/Tcp), its loops over responses
--     (Handler/Frontier, Handler/Bulk, Handler/Account) and the overloads of `handle_message`
--     (Handler/Message). A loop ends with the state and the exception that leaves it, if any.
--     Handler/Session/Ended describes the end of a response, Handler/Tcp/Writes what the loops may
--     write, and Handler/Tcp/Counts the counts.
--   * Capture: the callbacks of the TCP reassembly, the queue and the processing thread
--     (src/packet_handler.cpp). Capture/Run has their steps as a relation: a callback, the taking of
--     a packet and the handling of a packet are each one step. The source guards the queue by a
--     mutex and each write of a put by another, but it takes the ids of rows before that mutex, and
--     it has no mutex for the state of a connection. A callback that opens or closes a connection
--     may so run in the middle of the handling of a packet, which the steps leave out: what is
--     stated of the ids of rows and of the states of connections after a run is limited to runs in
--     which none opens or closes. Packets point to entries of a map that are never erased, so that
--     the key of a packet stands for its pointer.
--   * Control: `start_capture` and `stop_capture` (src/packet_handler.cpp) and the requests of the
--     REST interface that call them (src/webserver.cpp), over the devices of Pcap++.
--   * Config: src/config.hpp, over a library of JSON, of which Config/Instance is an example.
--   * Web: the static files of src/webserver.cpp, over the file system.
--   * Tests: runs on concrete inputs.
--
-- Numbers are natural numbers; casts and shifts have their modulus written out. The counters of
-- responses and ids, of 64 bits in the source, are not bounded. Exceptions are values:
-- `runtime_error` is what the source catches as `std::runtime_error`, `other_error` any other.
--
-- Fuel: a loop of the parser has one unit per byte left and one more, each round reading a byte at
-- least; the loops over responses have one unit per byte in the buffer and one more, each round
-- erasing a byte at least. The loop over the responses to a bulk pull of an account takes its fuel
-- as an argument, since no fuel is enough for it. Running out is the value `out_of_fuel`, or `hung`
-- in the state of the handler.
--
-- Not modelled: the import of capture files; the schema, the start of the database and the counting
-- of its packets; the routes of the REST interface that only print what another part returns; the
-- command line and the order of start and shutdown; the pages; Pcap++, SQLite, SQLiteCpp, BLAKE2,
-- Kaitai and the other copies of libraries. The classes of the parser that wrap a whole response are
-- never used by the program. Messages on the console are left out, and so are the texts of errors.
pub mod Prelude
pub mod Stream
pub mod Protocol
pub mod Util
pub mod Flow
pub mod Db
pub mod Handler
pub mod Capture
pub mod Config
pub mod Control
pub mod Web
pub mod Tests
