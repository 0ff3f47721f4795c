-- ===== src/Lib.antt =====
-- The Band chain's full node as a program on values: the byte format of src/util, the bonding curves,
-- the contracts with their storage, and the listener that runs transactions on them.
--
-- The parts, and the files that model them.
-- - Common, Thrown, Uint256: shared names and lemmas on lists and association lists; the exceptions
--   of src/inc/exception.h and of the standard library as values (Thrown), with `undefined` for
--   undefined behaviour and `terminated` for a destructor that throws; the 256-bit checked integers
--   of src/inc/essential.h, which Boost implements, as an interface with their documented behaviour.
-- - Buffer: src/util/buffer.h and src/util/buffer.cc. A Buffer is the list of its bytes; `<<` returns
--   the new buffer, `>>` returns the value and what is left. Buffer/Types has the raw operations,
--   Buffer/Varint varint_encode and varint_decode, Buffer/Values the overloads, Buffer/Codec the
--   interface of a type that round-trips, with Buffer::serialize and Buffer::deserialize.
-- - Equation: src/util/equation.h and src/util/equation.cc. Eq is the tree, apply, dump, parse and
--   clone its methods; Curve is an Eq or nothing.
-- - Text: src/util/string.h and src/util/string.cc, with Ident and NodeID.
-- - Messages: src/util/msg.h and src/util/msgimpl.h, and parseHeader of src/listener/manager.cc.
-- - Fixed: the arrays of bytes of src/util/bytes.h and src/util/bytes.cc, and bytes_to_hex.
-- - Graph: the edges of src/store/graph_set.h and their order.
-- - Store: Store/Backend is StorageMap of src/store/storage_map.cc, with its two sides; Store/Data is
--   Data of src/store/data.h, a cell with a cache; Store/Vector is Vector of src/store/vector.h;
--   Store/Set is Set of src/store/set.h: Rotate, Insert, Delete, Lookup and Iterate have its
--   operations, and Tree says which tree the nodes stand for, which the theorems of Members, Ends and
--   Rotate/Shapes speak of. Stored adds the heights, Sorted the elements as a list in order, Balance
--   the four cases of an insertion, and Inserted/Whole what a set is between two calls of insert.
--   Reached is about several calls, Depth about the length of a way down, and Reopened about a set
--   that was flushed. A reference to a node is its number.
-- - Ledger: Ledger/Contracts has the objects Account and Token of src/contract, Ledger/Storage is
--   Storage of src/store/storage.h and src/store/storage.cc, Ledger/Fields has the accesses to a
--   contract's fields, DataMap of src/store/map.h among them, Ledger/Account and Ledger/Token have the
--   methods. A reference to a contract is the key that it is loaded under, so that two references to
--   one contract share it: `buy` on a token that is its own base changes one object. Ledger/Views says
--   what each balance, supply, base and curve reads as; the theorems on tokens speak of these, those
--   of Ledger/Backing of the sum of the balances.
-- - Listener: Listener/Primary is src/listener/primary.h and src/listener/primary.cc,
--   Listener/Manager is src/listener/manager.h and src/listener/manager.cc over any BaseListener of
--   src/listener/base.h. A method that may throw is an Action of Ledger/Action: what it changed
--   before it threw stays changed.
-- - Application: src/net/tmapp.cc for the application of src/main/bandlog.cc. Application has the
--   requests that concern blocks and transactions, on a manager, Application/Requests the others and
--   the switch, Application/Frame read_ahead, Application/Session process and the buffers of
--   src/net/session.cc. Of a response to a transaction the code and the data are kept. Parsing and
--   serializing the messages of protobuf are arguments.
-- - Tests: an instance of the integers, and the theorems at concrete values.
--
-- A transaction's way through the parts: apply_transaction parses the header and the type (Messages,
-- Buffer), validates the nonce (Listener/Primary, Ledger/Account), reads the message, and processes
-- it: the handler loads contracts (Ledger/Storage) and calls their methods (Ledger/Token), whose
-- fields are cells (Store/Data) over the storage (Store/Backend); the flush writes the cells back.
--
-- Bounds and fuel. The parser of equations takes the length of the buffer and one as fuel: every
-- level takes a byte. The loops of varints recurse on the value or on the bytes. Exponentiation
-- recurses on the exponent. Lengths that are cast to uint64_t are taken modulo 2 ^ 64.
-- The loop of a session has the bytes of the buffer and one as fuel: every round that goes on takes a
-- byte. lowerBoundIndex has the size of the vector and one: the range shrinks. The operations of a set
-- have one level more than the set counts elements: no way down a tree is longer.
--
-- Conventions. A Buffer that is made from no bytes is empty, and front() of an empty vector is
-- undefined: so is serializing a response without fields. Operands are evaluated from left to right
-- where the language leaves the order open, allocations succeed, and the locale is "C". The order in
-- which a flush destroys the cached contracts is that of the list, which the hash map leaves open.
--
-- Not modelled: the bodies of third-party code (Boost, GSL, the enum macros) and the cryptography of
-- src/crypto, whose SHA-256 is an argument; RocksDB; the messages of protobuf and the sockets and
-- callbacks of src/net; the JSON interface and the logs; the explorer and graph listeners, which stand
-- behind the interface BaseListener; the std::set of src/store/graph_set.h, which is the standard
-- library's, and the remote graph of src/store/graph_cayley.cc; the files that are commented out as a
-- whole (src/contract/voting.cc and the like, src/band).
pub mod Common
pub mod Thrown
pub mod Uint256
pub mod Buffer
pub mod Fixed
pub mod Equation
pub mod Text
pub mod Messages
pub mod Graph
pub mod Store
pub mod Ledger
pub mod Listener
pub mod Application
pub mod Tests
