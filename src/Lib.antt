-- ===== src/Lib.antt =====
-- The OrientDB driver for JavaScript: its record ids, its queries, and its binary protocol.
--
-- A caller builds a query with lib/db/statement.js, or by hand with the helpers of lib/utils.js,
-- which encode values and fill them into the place holders of a text. The pool of
-- lib/transport/binary/connection-pool.js hands out connections in turn. A connection
-- (lib/transport/binary/connection.js) writes an operation to its socket and queues it with its
-- promise; data from the socket is given to the operations of the queue from the front, each of
-- which consumes a part of it. An operation (protocol33/operation.js) lays out its request in a
-- buffer, and reads its answer step by step, as far as the bytes go. Records in them are texts,
-- written by protocol33/serializer-csv.js and read by protocol33/deserializer-csv.js, with record
-- ids (lib/recordid.js) and bags of record ids (lib/bag.js) in them. The transport
-- (lib/transport/binary/index.js) makes the connections, and goes on to another server when one
-- fails. The newer client of lib/client speaks protocol 37, whose records are bytes
-- (client/network/protocol37), and pools databases (client/pool/index.js). Transactions
-- (lib/db/transaction.js) and migrations (lib/migration/manager.js) stand above these.
--
-- * Prelude, Text and Buffer hold what the models share: tests on numbers, lists and integers,
--   strings as lists of code units with their decimal numerals, and the reads of Node's Buffer
--   (Buffer.Reads has their lemmas).
-- * RecordId is lib/recordid.js: parse, construct (the constructor), is_valid, is_temporary, equals
--   and to_string on an instance, input_is_valid and input_is_temporary for RecordID.isValid and
--   RecordID.isTemporary. An Input is what a caller hands over. Its proofs are in RecordId.Grammar,
--   RecordId.Equality and RecordId.Temporary.
-- * Utils is lib/utils.js: Utils.Escape (escape, with a reader of literals beside it),
--   Utils.Encode (encode), Utils.Date (the text of a date), Utils.Prepare (prepareArray,
--   prepareObject, prepare), Utils.Parens (requiresParens). Utils.Quoting describes a query as
--   a row of tokens, the description that Utils.Prepare.Safety and Utils.Prepare.Injection
--   hold prepareArray against.
-- * Statement is lib/db/statement.js, the query builder: Statement.State (the state and the methods
--   that fill it), Statement.Params (parameters, _objectToCondition, _objectToSet), Statement.Where
--   (the conditions), Statement.Build and Statement.Print (buildStatement and toString). The proofs
--   are in Statement.Precedence, Statement.Names, Statement.Found and Statement.Kept.
-- * Transaction is lib/db/transaction.js: the records that are created, updated and deleted, and
--   what commit makes of the answer of the server (Transaction.Commit).
-- * Migration is lib/migration/manager.js: list, up and down, with the directory and the names of
--   the applied migrations as lists (Migration.Pending).
-- * Transport is lib/transport/binary/index.js: the servers it knows, failover and retries, connect
--   (and send in Transport.Send) as handlers that give a new state and what they start.
--   Transport.Servers and Transport.Retries have the proofs.
-- * ClientPool is the pool of databases of lib/client/pool/index.js. ClientPool.Steps puts it among
--   its clients, as a step relation; ClientPool.Sound, ClientPool.Release, ClientPool.Reachable and
--   ClientPool.Order have the proofs.
-- * Topology is lib/client/topology: the servers of a cluster as it is configured again
--   (Topology.Reconfigure), and one server as it connects (Topology.Connecting).
-- * Binary has the values of the binary record format of lib/client/network/protocol37.
--   Binary.Write is the write side of operation.js there, Binary.Serializer is serializer-binary.js,
--   Binary.Parse and Binary.Deserializer are deserializer-binary.js. Binary.Kept says which values
--   the format keeps and what is assumed of the packages. The proofs are in Binary.Layout (buffer),
--   Binary.Written and Binary.Reads (bytes written and read), Binary.Loops, Binary.Steps,
--   Binary.Scalars, Binary.Containers, Binary.RoundTrip and Binary.Hazards.
-- * Connection is lib/transport/binary/connection.js: process and its loop in Connection itself, the
--   state with the methods and handlers in Connection.Socket, connect and the negotiation of the
--   protocol in Connection.Connecting. What a call does to others (a settled promise, written bytes,
--   an emitted event) is a list of events beside the new state. Connection.Steps has histories of
--   calls, events and callbacks, in any order, as an indexed type; Connection.History follows the
--   promises of queued operations over them, Connection.Closing and Connection.Flushes those of
--   REQUEST_DB_CLOSE, which are not queued but resolved by the callback of their write.
-- * Operation is lib/transport/binary/protocol33/operation.js: Operation.Write has the write steps
--   and `buffer`, Operation.Machine the entries of readOps, the stack and the read methods,
--   Operation.Heap the objects of an answer, Operation.Callbacks the functions that are queued or
--   passed on while it reads, Operation.Parse canRead and the parse methods, and Operation.Consume
--   consume. A closure of the source is a constructor with the variables that it closes over. The
--   proofs are in Operation.Write.Concat, Operation.Reads, Operation.Resume (one round of the loop),
--   Operation.Loop, Operation.Offsets, Operation.Chunks and Operation.RoundTrip (with
--   Operation.RoundTrip.Answer).
-- * Request has the writers of lib/transport/binary/protocol33/operations: transactions, clusters and
--   the configuration in Request itself, the server, databases and records in Request.Database.
--   Request.Get has readers of bytes, an independent view of the protocol; the proofs are there, in
--   Request.Entries and in Request.Commit.
-- * OperationQueue is lib/transport/binary/protocol33/operation-queue.js, a queue with a socket of
--   its own; OperationQueue.Process compares it with Connection.
-- * Pool is lib/transport/binary/connection-pool.js.
-- * Bag is lib/bag.js, Writer is lib/transport/binary/protocol33/writer.js.
-- * Csv has the values of the text format, Csv.Serializer and Csv.Deserializer (with Csv.Scan for
--   keys, strings, numbers and record ids) the two files of lib/transport/binary/protocol33.
--   Csv.Keys has documents as rows of fields; the proofs are in Csv.RoundTrip and Csv.Documents.
-- * Tests has the concrete runs.
--
-- Fuel. process_loop takes one unit for each operation answered or message pushed; the number of
-- queued operations and of bytes is enough where operations read forward (Connection.Termination).
-- handle_socket_data takes one for each call of itself, and eat_value and its companions one for
-- each call: `none` is the lack of it, and where the source does not end no fuel is enough.
-- prepare_array and prepare_object start with more fuel than the query has characters, which is all
-- that they can use. drain takes one for each call of next. consume of an operation takes one for
-- each entry of readOps that its loop takes, and one for the end. parse_value of Binary takes one for
-- each array or object inside another, and handed of ClientPool one for each tick. get_entries of
-- Request takes one for each entry and one for the end.
--
-- Parameters: what an operation consumes; the words of the Long library; the decoding of base64;
-- the number that JavaScript makes of a numeral in a record and the transformers of classes
-- (Csv.Runtime), with UTF-8 and the text of an object that is taken for a class name; the
-- varints of signed-varint, UTF-8, floating-point numbers and the big integers of a decimal
-- (Binary.Runtime); Array.prototype.sort and parseInt where the transport takes them; the
-- connection that a pool creates; what a migration does; the functions that a single operation
-- gives to the read methods (Operation.Machine.Client). A number that encode prints is given by
-- its text, and an integer of a record id is rounded to a double as JavaScript rounds it (2 ^
-- 1024 stands for Infinity). From 10 ^ 21 on, JavaScript prints an exponent where the model
-- prints the digits.
--
-- Not modelled: createSocket and the listeners on a socket, logging, the answers of the single
-- operations, the rest of the client of protocol 37, the promises of the transport, the REST
-- transport, the database classes, the files that a migration manager writes, and lib/long.js, which
-- is a copy of another library. An object lists its keys in the order in which they were set:
-- JavaScript puts keys that are numerals first, and takes __proto__ for no key of its own.
pub mod Prelude
pub mod Text
pub mod RecordId
pub mod Utils
pub mod Connection
pub mod Csv
pub mod Pool
pub mod Transport
pub mod ClientPool
pub mod Topology
pub mod Buffer
pub mod Bag
pub mod Binary
pub mod Statement
pub mod Transaction
pub mod Migration
pub mod Writer
pub mod Request
pub mod OperationQueue
pub mod Operation
mod Tests
