-- ===== src/Lib.antt =====
-- The ITCH feed handler: from the bytes of a packet to the books of the symbols.
--
-- A packet of the feed is a MoldUDP64 header and blocks of ITCH 5.0 messages. Two receivers put the
-- packets of two lines into rings (include/network), and a merger makes one stream of them
-- (src/workers). The parser thread takes a packet apart (src/protocol), keeps track of its sequence
-- number and of gaps (src/protocol, src/recovery), and hands the messages to the shards through
-- queues of one producer and one consumer (include/concurrency). A shard keeps the books of its
-- symbols (src/orderbook): each book has two sorted arrays of price levels, each level a queue of
-- orders, linked through the indices of a pool of orders, which a hash map finds by their
-- references. The best prices are published through sequence locks. A session manager follows the
-- events of the day (src/session), and a recovery thread asks for what is missing (src/recovery). A
-- histogram keeps the latencies (src/monitoring).
--
-- Which file models which part:
-- - Types: include/common/types.hpp and constants.hpp.
-- - Message, Wire, Wire/Layout: include/protocol/itch_messages.hpp, the host-order messages, the
--   byte readers `be16` to `be64` and the packed layouts. Wire/Encode writes what they read.
-- - Mold: src/protocol/moldudp64_parser.cpp, `MoldUDP64Parser::parse`.
-- - Parser: src/protocol/itch_parser.cpp. Parser/Frame is `ItchParser::parse`, Parser/Message and
--   Parser/Switch are `ItchParser::parse_message`; the other children are about these.
-- - Sequence: src/protocol/sequence_tracker.cpp and src/recovery/gap_detector.cpp.
-- - Tracking: src/workers/parser_thread.cpp, `process_slot` up to the parsing of the messages;
--   Tracking/Process is the whole of it.
-- - Spsc: include/concurrency/spsc_queue.hpp.
-- - Histogram: include/monitoring/latency_histogram.hpp and src/monitoring/latency_histogram.cpp.
-- - Book/Pool: src/orderbook/order_pool.cpp. Book/Map: src/orderbook/order_map.cpp.
-- - Book/Levels, Book/Fifo, Book/Handlers: src/orderbook/level2_book.cpp, by the arrays of levels,
--   the queue of a level, and the handlers of the messages.
-- - Routing/Directory: src/routing/symbol_directory.cpp. Routing/Router: src/routing/shard_router.cpp.
-- - Rings: include/network/packet_ring.hpp; Rings/Received is the loop of
--   src/workers/receiver_thread.cpp.
-- - Merger: include/workers/feed_merger.hpp, the window of seen numbers (Merger/Window), and
--   src/workers/feed_merger.cpp, the rounds of `FeedMerger::run` (Merger/Feeds).
-- - Lifecycle: src/session/session_manager.cpp.
-- - Shard: src/workers/shard_worker.cpp; Shard/Worker is `ShardWorker::dispatch`.
-- - Locks: include/concurrency/seqlock.hpp, as steps of single words.
-- - Recovery: src/workers/recovery_thread.cpp, and of src/recovery the retransmission client
--   (Recovery/Stream, Recovery/Request) and the persistent sequence (Recovery/Persist).
-- - Book/Published: src/orderbook/bbo_publisher.cpp. Book/Saved: the snapshot of one book.
--   Book/Archive: src/recovery/book_snapshot.cpp, the snapshots of the books of a shard; Snapshots:
--   its files and their names.
-- - Sockets: src/recovery/retransmit_client.cpp and src/network/socket_receiver.cpp, with the open
--   descriptors.
-- - Assembly: src/app/feed_handler.cpp, the configuration (Assembly/Config), the memory
--   (Assembly/Memory), the start (Assembly/Startup) and the order of the threads (Assembly/Threads).
-- - Common: the names and lemmas that these share. Examples: the theorems at concrete inputs.
--
-- A pointer into the packet is a function from an offset to a byte, so that a read past the end has
-- a value, which the program does not control. A pointer to an order is its index in the pool. An
-- array is a function of the index, with its length beside it where the program keeps one. A null
-- pointer is `none`. Operations return the new state; what the source leaves untouched stays.
-- Integers wrap around where the code can reach the end of their width.
--
-- The loop over the blocks of a packet runs on fuel, one more than the bytes there are, which is
-- enough since each round takes two bytes at least. The loops of the hash map have no bound in the
-- source; they run on as many rounds as the table has slots, and return `none` if that is not
-- enough, which no table with an empty slot lets happen. The loop of the window of seen numbers
-- runs seq / 64 rounds, each of which moves the window by 64; below 2^64 - 64 that is enough.
--
-- Each call on a queue is one step: the orders of the accesses to memory inside a call are not
-- modelled. The steps of a sequence lock are its accesses to single words. What the operating
-- system returns is an argument, and so is the layout of a `PriceLevel` in memory. The TOML parser
-- is a parameter. Left out are logging, the options of sockets and threads, and the command line;
-- and, of the program's own logic, the metrics, the waiting of `run`, and the constructors that
-- only allocate. The clock, and the product with a percentage in floating point, are arguments.
pub mod Common
pub mod Types
pub mod Message
pub mod Wire
pub mod Mold
pub mod Parser
pub mod Sequence
pub mod Tracking
pub mod Routing
pub mod Book
pub mod Snapshots
pub mod Assembly
pub mod Spsc
pub mod Histogram
pub mod Merger
pub mod Rings
pub mod Lifecycle
pub mod Shard
pub mod Recovery
pub mod Sockets
pub mod Locks
pub mod Examples
