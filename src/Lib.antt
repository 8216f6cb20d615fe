-- ===== src/Lib.antt =====
-- qbitx-pool, a mining pool server in Go: the transaction and block arithmetic of internal/mining,
-- the jobs of internal/job, the miners' connections of internal/stratum, the share validator of
-- internal/share, the share store, payout engine and migrations of internal/accounting, the
-- daemon's client of internal/daemon, and the checks of internal/config.
--
-- How the parts meet. internal/config checks the configuration that all others read. internal/job
-- asks the daemon for a block template and builds a coinbase transaction in two halves with
-- mining.BuildCoinbaseTx and a branch with mining.MerkleBranch; internal/stratum hands both to the
-- miners and passes submissions to internal/share, which computes the root and the header with
-- internal/mining; accepted shares go to a PostgreSQL database, on which the payout engine of
-- internal/accounting runs in cycles: it follows the confirmations of found blocks, settles mature
-- blocks into balances, and sends due balances through the daemon.
--
-- Files. Base holds what all share: Boolean tests, lists, Go's int64 (Base/Int), bytes, texts, and
-- Go's pairs of value and error (Base/Results). Float64 is Go's float64, exactly: a finite double
-- is an integer in units of 2^-1074. Fee has calcDeveloperFee and calcFeeSat, with Fee/Bounds and
-- Fee/Precision. Hex and Sha256 stand for the standard library packages of these names;
-- Hex/RoundTrip is about the former.
--
-- Mining is internal/mining/mining.go: Mining/Wire has the encodings of numbers and heights,
-- Mining/Reverse the in-place reversal, Mining/Base58 the addresses and output scripts,
-- Mining/Coinbase the coinbase transaction, Mining/Merkle hashes, branch, root and header.
-- Mining/Transaction is an independent reader of transactions after the wire format, against which
-- the writer is checked.
--
-- Job is internal/job/job.go: the record of a job, buildJob over a block template (Job/Template),
-- and the polling loop with its subscribers (Job/Maker). Share is internal/share/validator.go:
-- Validate as a function from the current job and a submission to the result and the blocks that
-- are handed to the daemon; Share/Target is about the numbers it compares, Share/Judge about
-- Validate as a whole.
--
-- Stratum is internal/stratum/server.go: the file itself has clampDiff and pickStartDiff,
-- Stratum/Message the requests and what is sent, Stratum/Conn a connection with its handlers and
-- retarget, Stratum/Submit handleSubmit over any validator and any share store, Stratum/History
-- handleRequest and the life of one connection, in Stratum/History/Jobs with the job maker, and
-- Stratum/Server all connections, their numbers and the broadcast of jobs. A handler takes the
-- connection, and the store where it uses it, to those afterwards and the lines it sends; a life is
-- a list of events.
--
-- Accounting is internal/accounting/payout.go: Accounting/Database has the tables of migrations/
-- and the SQL statements as functions on them, Accounting/Session the transactions in which
-- statements run and may fail, Accounting/Engine the configuration, the daemon behind DaemonSender
-- and the rules for status and reward, Accounting/Sync syncBlockStates, Accounting/Settle
-- settleNextBlock and settleAllBlocks, Accounting/Payout trySendPayoutBatch,
-- markBatchFailedAndRefund and runCycle, Accounting/Allocate allocateByWeight, Accounting/Worker
-- the names of workers, Accounting/Owed the sums of balances. Accounting/Store is
-- internal/accounting/store.go and postgres_store.go, the interface ShareStore as a record of which
-- PostgreSQL's is one value, and Accounting/Migrate is internal/accounting/migrate.go.
--
-- Daemon is internal/daemon/rpc.go, whose SendMany fills the DaemonSender of the payout engine in
-- Accounting/Payout/Blocked. Config is internal/config/config.go.
--
-- State. A World is the committed tables, the tables that the open transaction sees, whether its
-- connection has unread rows, and a list that says which of the coming statements fail; a program
-- maps a World to a result and a World. A rollback is that the work of the transaction is dropped.
-- Post (Accounting/Session/Rules) states what holds of the value and the World after a success, and
-- of the World after a failure, and since the list of failures is any list, such a statement covers
-- every place at which a run can be cut short.
--
-- Parameters. The daemon's answers, the order in which Go visits a map, and whether the database
-- driver takes a statement while rows are open (pgx does not) are fields of Engine. What the daemon
-- answers to a request is a function from requests to answers, none where the transport fails; JSON
-- stands decoded, as values that say what the code tells apart. The validator and the share store
-- of a connection, the time, the job that the maker has when it is asked, and the jobs that are
-- broadcast while a submission is handled are arguments. The files of the migrations and the effect
-- of a script are fields of a record, and the decoder of the configuration file is an argument.
-- Nothing is assumed of any of these except in the conditions of a theorem.
--
-- Bounds. int64 arithmetic is on integers with the wrap-around written out. The loop of
-- settleAllBlocks runs on as many rounds as there are block states, and one more. The number of a
-- connection is a uint32 with its wrap-around. Job numbers count without one. Texts are lists of
-- character codes; worker names are taken to be ASCII. The loops of encodeHeight and of
-- MerkleBranch run on fuel from their input's size, and so do the carries of base58Decode.
--
-- Not modelled: columns that only hold times, row locks (FOR UPDATE SKIP LOCKED) and other writers
-- between the statements of one transaction, a commit that reaches the database but not the caller;
-- that a sequence of PostgreSQL keeps the number of a batch that is rolled back, and the primary
-- key of payout_batch_items; sockets, deadlines and lines that are no JSON; the order of lines that
-- two threads write to one connection at once; HTTP; decoding of JSON and YAML; the program's
-- entry, which is wiring, and log lines.
pub mod Accounting
pub mod Base
pub mod Config
pub mod Daemon
pub mod Fee
pub mod Float64
pub mod Hex
pub mod Job
pub mod Mining
pub mod Sha256
pub mod Share
pub mod Stratum
