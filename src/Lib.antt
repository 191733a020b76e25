-- ===== src/Lib.antt =====
-- Two-phase commit with persistence and primary-backup replication.
--
-- The program is a small distributed system for laptop orders. A client reads the last orders of
-- some customers and then sends a transaction, which carries what it has read and what it wants to
-- write, to the transaction manager. The transaction manager runs two-phase commit over clusters of
-- resource managers: it asks each one to prepare, and tells them all to commit or all to abort. A
-- resource manager votes by comparing the reads with its customers, keeps the orders in a
-- transaction log, in memory and in a file, and applies them at the commit, order by order, through
-- its admin thread, which appends each one to a log that it replicates to its backups. A backup
-- follows that log, and makes itself primary when it is asked to commit. After a crash a resource
-- manager is started on its two files.
--
-- The parts, and the code that each one is about:
--   Messages              Messages.h, Messages.cpp: `CustomerOrder`, `LaptopInfo`, `CustomerRecord`,
--                         `ReplicationRequest` and `Transaction`, a child for each class, with
--                         `Marshal` and `Unmarshal` as functions on lists of bytes
--   Net                   the messages on a connection, and what the operating system answers
--   Stream                `<<` and `>>` of the C++ library on the numbers of a text file, and files with
--                         a row of numbers in each line
--   Socket                Socket.cpp: the loops of `Send` and `Recv` over the bytes of a message; in
--                         its child Server the options of a socket and ServerSocket.cpp, in Number
--                         `writeInt` and `readInt`
--   ClientStub            ClientStub.cpp and ClientSocket.cpp: the calling side of a connection, as
--                         a record with the socket's flag, the number of calls made and the messages
--                         handed over
--   ServerStub            ServerStub.cpp: the answering side, as the messages still to arrive and
--                         the answers given; in its child Bytes a transaction byte by byte
--   Factory.State         ServerThread.h: the state of `LaptopFactory`
--   Factory.Persistence   ServerThread.cpp: `update_value`, `store_txn_log_in_txn_map`,
--                         `store_txn_log_record`, `store_cust_record_txn`, `empty_log_file`,
--                         `recovery_txn_log`, `recovery_cust_rec`
--   Factory.Files         ServerThread.cpp: the two files as text, which Factory.Persistence has as
--                         rows
--   Factory.Start         ServerThread.cpp: the constructor and `setFactoryId`
--   Factory.Admin         ServerThread.cpp: `CreateRegularLaptop`, `AdminThread`,
--                         `updateCustomerRecord`, `sendAllRequests`
--   Factory.Manager       ServerThread.cpp: `TMPrepare`, `TMCommit`, `TMAbort`, `PeerPrepare`,
--                         `CopyTranlogReplica`
--   Factory.Backup        ServerThread.cpp: `IFAFlow`
--   Factory.Serve         ServerThread.cpp: `EngineerIFAThread`, `ReceiveIDMsgAndInitiateFlow`,
--                         `ReadEngineerFlow`, `EngineerFlow`
--   TransactionManager    TransactionManager.cpp: `transaction_manager`, and `main` in its child
--   Factory.Main          ServerMain.cpp: `main`, with the connections one after another
--   Factory.Ready         what holds between two messages, and the messages as the steps of a
--                         relation
--   System                TransactionManager.cpp and ServerThread.cpp: the transaction manager with
--                         the resource managers that it is connected to
--   Client                ClientThread.cpp and ClientMain.cpp: `ThreadBody`,
--                         `ThreadBodyWriteRequest`, `ThreadBodyReadRequestSingle` and `main`
--   Experiment            Experimental.cpp: `experiment` and `main`
--   Timer                 ClientTimer.cpp: `ClientTimer`
--   Base, Word, Map       what they share: tests, lists and texts, `int`, its bytes and `htonl`,
--                         and `std::map<int, V>`
--   Tests                 concrete networks, messages and states
-- The children of a part hold its properties and are named for what they are about.
--
-- State is passed explicitly: a handler takes a stub and a factory and returns both. `none` stands
-- for the end of the process (`exit(1)`, an exception that nothing catches), for undefined
-- behaviour (a read past the end of a vector, a function that ends without a `return`), and, in
-- the loops that count fuel, for running out of it. An `int` is an integer whose increment and
-- decrement wrap around at 32 bits. A connection carries whole messages: an identification or an
-- answer is ten bytes on the wire, a text of the program up to its terminator here, and an answer
-- of more than ten characters is cut. What lies in memory that nothing was written to is a
-- parameter of its reader (`stray_text`, `stray_op` and the like).
--
-- The fuel: `catch_up` makes at most as many rounds as `last_index` is above `committed_index`, and
-- gets that many; the loops over a connection (`ifa_loop`, `read_loop`,
-- `receive_id_msg_and_initiate_flow`) take a message in each round and end where none is left, as
-- long as memory for a transaction is there, and get one more than there are messages; the loops
-- of a socket move a byte in each round, and get one round more than there are bytes; the loops over
-- the rows of a file read a character in each round, and get one more than there are characters. An
-- `int` is printed with fuel for ten digits, which are enough.
--
-- Not modelled: the layout of the structs that are sent as they lie in memory, a single receive
-- that brings only a part of a message (the loops of Socket.cpp and the bytes of a transaction and
-- of an id are modelled apart from the stubs),
-- and the order of the threads: a handler is one step, which no other connection interrupts, so
-- that the mutexes have no counterpart, and the connections of a server and the threads of a stage
-- of the client or of a round of the experiment run one after another, but for the write stage of
-- the client, of which Client.Threads has every order in which its threads take the lock. The promise of an
-- `AdminRequest` is the result of the call that waits for it. The C library's `atoi` and `rand`, the
-- clock and the arithmetic of durations are parameters. Whatever only prints is left out. The two
-- functions that recover the files end without a `return` after reading; their caller does not use
-- the value, and they are taken to return. SIGPIPE, which ends the process at a send to a peer that
-- has closed, is left out: a send that fails is one with another error. The experiment's count of
-- aborts is a natural number, and an `int` in the source, which it fits as long as there are less
-- than 2^31 / 10 threads.
pub mod Base
pub mod Word
pub mod Map
pub mod Messages
pub mod Net
pub mod Socket
pub mod ClientStub
pub mod ServerStub
pub mod Experiment
pub mod Factory
pub mod Client
pub mod Stream
pub mod System
pub mod Timer
pub mod TransactionManager
mod Tests
