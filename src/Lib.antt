-- ===== src/Lib.antt =====
-- A model of the bridge, a server in C that collects the markets and books of currency exchanges and
-- answers clients over sockets, with proofs about it.
--
-- The parts of the program, and the modules that model them. Paths are those of the repository.
--
-- A client's connection (main/main.c) is read to its end and looked up in the list of commands; the
-- one command asks the vendors (book/vendor.c) for all trading pairs, which are encoded as protobuf
-- messages (book/market.c) and sent back. Each vendor has a thread that fetches its markets every
-- three minutes, by the functions of one exchange (book/bittrex.c, book/btc38.c, book/poloniex.c).
-- Those send requests (utils/https.c), and read the answers through tokens (utils/json.c).
--
-- - Base: results of C code, C strings, lists and doubles, for all modules. `Outcome` has a result
--   (`ok`), undefined behaviour (`fault`: a read through NULL, outside an object, or of memory that
--   nothing has written) and a loop that outran its fuel (`out_of_fuel`).
-- - Json: utils/json.c, with jsmntok_t of include/utils/jsmn.h. `json_find_token` is a loop over the
--   positions left; each `json_get_..._value` returns the position and what `*result` then holds.
-- - Book: include/bridge/book.h, book/book.c and book/mock.c; market_new of book/market.c. A linked
--   list is a `List`. `Cursor` is a list with the entry that a loop stands at.
-- - Bittrex, Btc38, Poloniex: the three vendors. A parser is a function of the text and its tokens
--   under the name of the C function, with a function for each of its loops. The Account modules hold
--   addresses, orders and the calls over HTTP. Levels and Tickers hold what book/btc38.c and
--   book/poloniex.c have in common, line by line: the loop over the first side of a book, and the
--   search for the next market.
-- - Https: utils/https.c. A connection is its headers and parameters, a transfer the pieces of its
--   answer.
-- - MarketCodec: sizes, encoders and decoders of book/market.c, and market_get. A buffer is the bytes
--   written so far, and a failing call gives nothing.
-- - Vendors: book/vendor.c. vendors_with_market and vendor_get_all_trading_pairs are functions of the
--   vendors as they stand; Vendors/Update has the thread of a vendor as a relation on its states.
--   Vendors/Table has vendor_get and vendors_get_all, with the pointers to the functions of a vendor,
--   and Vendors/Calls the calls through them. Vendors/Readers is about threads that read the lists,
--   Vendors/Listed and Vendors/Firsts about what the list of trading pairs has.
-- - Server: buffer_append, getCommand, get_trading_pairs and do_connect of main/main.c. A socket is
--   the results of its reads, in order, and the answer is what is written. Server/Service has
--   main_service_connections, over what each accept meets, and Server/Start main.
-- - Memory: the functions that free, of book/book.c, book/market.c, book/vendor.c and utils/https.c, on
--   a heap of blocks at addresses, where a read of a block that is gone and a second free are faults.
-- - Clients: client/cgi_client.c, and client/test_client.c in Clients/Message.
-- - HashTable: utils/hashtable.c, over khash as `StringTable`. Logging: utils/logging.c.
-- - Base64: include/utils/base64.h.
-- - WebSocket: the handshake of utils/websocket.c, over the results of the calls on its socket.
--   WebSocket/Sockets has the other calls, with the descriptors that are open, WebSocket/Client a client
--   from its connection to its calls, and its thread, and WebSocket/Digest what its key is made with.
--   WebSocket/Buffer has the received bytes, and WebSocket/Threads the two threads that share them,
--   access by access.
-- - Checks: the repository's own tests, in test/: what each returns on the vendors of the model, and
--   Checks/Runner the program that runs them.
-- - Fixtures, the modules Tests and Sample, and WebSocket/Runs: concrete values, and runs on them.
--
-- Parameters of the model, with what is asked of them where a theorem needs it: jsmn (`Tokenizer`), the
-- protobuf library (`Protobuf`, `IsProtobuf`), khash (`Khash`, `IsKhash`), libcurl (`Curl`), the
-- hashes of mbedtls, wslay, json-c, printf, the clock, and doubles (`Floats`). MarketCodec/Plain,
-- Vendors/Sample and HashTable/Sample are instances that meet what is asked.
--
-- Fuel. The loops of the parsers get the number of tokens and two more: each round starts behind the
-- token where the one before started, and one more round finds that none is left. (At a ticker with
-- no underscore the loop of poloniex_parse_market does not move on.) The decoders get the length of
-- the buffer and one more: each round reads a byte at least. The loops that free a list get a round
-- for each of its blocks.
--
-- Not modelled: the constructors of the parsers find memory, and what they allocate is a value and no
-- block of the heap, so that their leaks are not seen. `int` does not overflow; an answer has no NUL.
-- The texts on stderr are left out, but for utils/logging.c itself, and so are the copies of other
-- projects (utils/jsmn.c, include/utils/khash.h, include/wslay), whose calls are parameters.
mod Base
pub mod Json
pub mod Book
mod Fixtures
pub mod Https
pub mod Levels
pub mod Tickers
pub mod Bittrex
pub mod Btc38
pub mod Poloniex
pub mod MarketCodec
pub mod Vendors
pub mod Base64
pub mod HashTable
pub mod Logging
pub mod Memory
pub mod Server
pub mod Clients
pub mod Checks
pub mod WebSocket
