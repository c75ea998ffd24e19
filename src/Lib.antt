-- ===== src/Lib.antt =====
-- Verification of SimpleCGate, a gate to the Moscow Exchange over the CGate library.
--
-- Parts of the program. The CGate library calls back into PlazaConnector (PlazaCallbacks.cpp) with
-- rows of replicated tables and with replies to posted messages. The callbacks keep the
-- GateDatabase (Database.cpp) of instruments, orders, trades and positions up to date, and send an
-- event for each change through the EventManager (EventManager.cpp) to the queues of its consumers.
-- Orders go out through the TransactionManager (TransactionManager.cpp), whose queue is emptied by
-- a thread that posts messages. The listeners belong to three DataStreams (DataStream.cpp,
-- ServiceStream.cpp, OrdersStream.cpp, CommonStream.cpp). The StrategyManager (StrategyManager.cpp)
-- consumes the events and calls the strategies, of which SampleBidAskStrategy
-- (SampleBidAskStrategy.h) is one; a strategy posts orders through the connector. The DataServer
-- (DataServer.cpp) consumes the events too, keeps messages about them for an external GUI, and
-- turns the GUI's requests into commands, which the connector consumes.
--
-- Files. Base and its children hold byte texts, maps, equality tests, machine words, and actions:
-- state passing with failure, in which none is a failed assertion or a null dereference. Entities
-- models Entity.h, Security, Order, Trade, Position, Money, DateTime and Strategy, a record for
-- each class with its setters; Entities.Price is Security::ConvertPriceToStr. Database models
-- Database.cpp on a heap: a shared_ptr is an address, and each Create... function allocates,
-- inserts and labels as the source does; its children hold the invariant IsValid, the lemmas on it,
-- and look-ups after a creation. Events models EventConsumer.cpp and EventManager.cpp; Streams the
-- streams; Transactions the queue, Transactions.Posting the messages that are posted for it and
-- Transactions.Publisher the thread that posts them and Stop. Connector holds the state of
-- PlazaConnector and its helpers, Connector.Rows the rows and replies, Connector.Market,
-- Connector.Trading and Connector.Replies the callbacks. Connector.Safety and its children hold the
-- well-formedness of a connector, Connector.Keeps a relation between the connector before and after
-- a callback; Connector.Callbacks and Connector.Runs put sequences of callbacks together,
-- Connector.Orders and Connector.Deals say what happens to orders and deals, Connector.Instruments
-- to instruments and positions; Connector.Posting holds what strategies call, and Connector.Unset
-- follows the session and the number of an instrument. Transactions.Queue and Transactions.Drain
-- follow the queue of the publisher, and Transactions.Stopping its end. Streams.Process and
-- Transactions.Process are the threads that ask the library to process messages, round by round.
-- Events.Thread is the thread of a consumer. Connector.Setup is the configuration, read by Utils
-- (Utils.cpp), and Connector.Life connection and disconnection. Server models DataServer.cpp:
-- Server.Messages the structures of DataServer/MessageStructures.h, Server.Fill the filling of
-- them, Server.Requests the answers; Server.Log is the log that a server stands for, Server.Refines
-- and Server.Runs relate the two, Server.Client is a client and Server.Ends says when events can be
-- processed; Server.Commands follows a command from a request to the connector. Strategies models
-- StrategyManager.cpp and Strategies.Sample the sample; Strategies.Balance and its children count
-- the sample's orders, and Strategies.Subscribers follows who is told of a quote. Program is the
-- set-up of the sample strategy in main (SimpleCGate.cpp), and Program.Start says what it leaves.
-- Tests and its children apply the theorems to concrete inputs.
--
-- Numbers. Machine integers are bit patterns in native numbers, with the wrap-around written out
-- (Base.Words). A double is a type D with the operations of Entities.Platform, of which no law is
-- assumed; cg_bcd_get stands there too. What the CGate library answers is an argument: the handles
-- in CGate, the states in Streams.Process. The digits of a 64-bit number are found by 20 rounds of
-- division: such a number has at most 19 digits. publisher_rounds counts the rounds of an endless
-- loop; Stop gives it one for each entry of the queue. What Stop meets while it waits for its
-- threads is an argument, Joined; a Stop that never returns is none, as a fault is.
--
-- Not modelled: the sockets of DataServer, whose messages are values here; main but for the set-up
-- of the sample strategy; and the interleaving of threads within one operation: an operation under
-- a lock is one step, and the callbacks of the streams run one at a time. Objects are never freed.
-- Text printed to the console is left out.
pub mod Base
pub mod Entities
pub mod Events
pub mod Database
pub mod Streams
pub mod Transactions
pub mod Connector
pub mod Utils
pub mod Server
pub mod Strategies
pub mod Program
pub mod Tests
