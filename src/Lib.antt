-- ===== src/Lib.antt =====
-- ChronoTrade turns market orders into candles and the candles into trading signals. Feeds read
-- orders from files, sockets and shared memory into a queue; the engine gathers them into candles
-- and updates indicators; a TCP proxy beside the program impairs a feed to test it.
--
-- Parts and files. Paths of the code are from the root of the repository.
--   Common               Boolean tests on numbers, lists by position, results of calls that may
--                        throw, signed integers, and the interface to `double`
--   Core.Order, Core.Candlestick, Core.AuthFlags
--                        core/Order.hpp, core/Candlestick.hpp, core/AuthFlags.hpp
--   Core.OrderBook       core/OrderBook.hpp; it allocates from Utils.ArenaAllocator
--   Utils.FixedWindow    utils/FixedWindow.hpp, the circular buffer of the indicators
--   Utils.ArenaAllocator, Utils.SimdSort
--                        utils/ArenaAllocator.hpp with its buffers (Memory), utils/SimdSort.hpp
--   Engine.CandlestickGenerator
--                        engine/CandlestickGenerator.hpp; it takes orders, and makes candles with
--                        the constructor of Core.Candlestick
--   Engine.SmaIndicator, Engine.RsiIndicator, Engine.MacdIndicator,
--   Engine.BollingerBandsIndicator
--                        engine/SMAIndicator.hpp, engine/RSIIndicator.hpp,
--                        engine/MACDIndicator.hpp, engine/BollingerBandsIndicator.hpp; all but the
--                        third over the window
--   Engine.IndicatorRegistry, Engine.Indicators
--                        engine/IIndicator.hpp, engine/IndicatorRegistry.hpp: the interface as a
--                        record of operations, the registry over it, and the four indicators
--                        behind it
--   Engine.LoopProcessor engine/LoopProcessor.hpp, which feeds candles to the registry
--   Feed.Text            the calls of the C++ library on text that the feeds make
--   Feed.ZeroCopyCsvParser
--                        feed/ZeroCopyCsvParser.hpp: the line parser and its string pool, and in
--                        Buffer the parsers of whole buffers
--   Feed.CsvOrderParser, Feed.CsvFeedSource, Feed.SocketFeedSource
--                        feed/CSVOrderParser.hpp, feed/CSVFeedSource.hpp, feed/SocketFeedSource.hpp;
--                        each makes orders with the constructor of Core.Order
--   Feed.Hashes          what the CSV source and the injector log for an order, with
--                        Security.FeedHashLogger
--   Feed.SharedMemoryFeedSource, Feed.ShmWriterSimulator
--                        feed/SharedMemoryFeedSource.hpp and its writer,
--                        feed/simulators/shm_writer_simulator.cpp
--   Feed.FeedInjector    feed/FeedInjector.hpp; what it asks of the JSON library is a parameter
--   Feed.FeedSource, Feed.FeedManager
--                        feed/IFeedSource.hpp and feed/FeedManager.hpp: the status of the sources
--                        and their threads
--   Feed.TcpLatencyProxy feed/TCPLatencyProxy.cpp: the bandwidth throttle (Throttle), the send loop
--                        (Send), the impairments (Impair), the loop of a direction over them
--                        (Pipe), the accept loop with its limit (Accept), a connection from
--                        its dial to its end (Dial, Http, Sockets, Connection), the arguments
--                        (Args, Buffer), and main (Main)
--   Feed.Descriptors     the table of open descriptors, under the calls of the proxy and of the
--                        socket and shared memory sources
--   Threads.ThreadPool   threads/ThreadPool.hpp, as a relation of steps
--   Security.FeedHashLogger, Security.SecurityAwareLogger
--                        security/FeedHashLogger.hpp, security/SecurityAwareLogger.hpp
--   Observability        observability/Observability.hpp
-- A module for a class holds its state as a record and a function for each method, under the
-- method's name; the modules below it hold the properties. Modules named Tests run the code on
-- small inputs.
--
-- How the code is read.
--   * A `double` is a parameter: `Float W` has the operations, `IsOrdered W` the facts of IEEE-754
--     comparison that proofs use. Common.Float has an instance with decimal fractions. `std::stod`
--     is a parameter too; `std::stoll` is a definition.
--   * `size_t` arithmetic of the window and the arena wraps at 2^64. Timestamps are integers, and
--     their sums, the counters and the tokens of the throttle are unbounded.
--   * A method that takes a mutex is one step, and one that takes it twice two. Threads appear as the
--     sequence of steps. A view into a string that a growing vector has moved reads as nothing.
--   * What the kernel, the clock and the peers do is a script: a list with one entry for each call.
--     A loop over it ends with it. `process_data` takes the length of the data as fuel, since every
--     round reads at least one byte, and `forward` one round more than the script has attempts,
--     since every attempt that blocks uses up one of them; theorems say that this is enough. The
--     inner loop of the shared memory feed ends in as many rounds as there are slots from tail to
--     head, if the head lies in the ring, and never if it does not; the impairments take a round
--     for each chunk, so the length of the buffer is enough.
--
-- Not modelled: the calls of the loggers in the other parts, since no modelled code reads what they
-- write; the formatting of a double; SHA-256 itself, which is a parameter; the sleeps,
-- which show in the readings of the clock; the options of sockets; main.cpp, which logs that the program has begun.
pub mod Common
pub mod Core
pub mod Utils
pub mod Engine
pub mod Feed
pub mod Threads
pub mod Security
pub mod Observability
