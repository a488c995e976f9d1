-- ===== src/Lib.antt =====
-- The Infinispan Go client, a client of the Hot Rod 4.1 protocol.
--
-- The program's parts: internal/codec reads and writes the fields and headers of the protocol;
-- internal/operation has one type for each request, with the writing of its body and the reading of its
-- response; internal/hash computes the server that owns a key; internal/connection multiplexes requests
-- over one connection per server, whose read loop matches responses to requests by their message id and
-- hands events to listeners, and routes operations over a pool of them; the package hotrod is the public
-- interface on top. internal/auth has the mechanisms that the connection authenticates with;
-- internal/protostream writes and reads the protobuf messages in which values and queries are wrapped.
--
-- Which file models what:
--   Prelude: natives, tests, lists, association lists for Go's maps, machine words. An int8, int32 or
--     int64 is its two's complement pattern, a ℕ below 2 ^ 8, 2 ^ 32 or 2 ^ 64; wrap-around is written out.
--   Io: bytes, Go's errors, and what a call comes to: a value, an error, or a run-time panic. A reader
--     is a function of the input that is left, a writer the bytes that it appends or a panic. An error
--     of the buffer that a writer writes to does not arise: the client writes to a bytes.Buffer.
--     Encodes is the contract of a writer and a reader, closed under sequencing.
--   Codec: internal/codec. Codec/VarInt is varint.go, Codec/Wire wire.go, Codec/TimeUnits timeunits.go,
--     Codec/Header header.go, Codec/Constants constants.go. The function WriteVInt is write_vint, and so
--     on. RoundTrip, Metadata, Request, Response and Topology hold the other side of the protocol, a
--     server's reader or writer written from the protocol's field order, and the theorems against it.
--   Operation: internal/operation. A type with the methods of the interface Operation is a function from
--     its fields to a record of that interface; GetOp is get, its DecodeResponse decode_get. Entry, Key,
--     Bulk, Service, Iteration, Transaction, Listener, Counter and Multimap group the files by what the
--     requests do; Server, Events and RoundTrip hold the server's side.
--   Hash: internal/hash. Hash/Murmur3 is murmur3.go, Hash/ConsistentHash consistent_hash.go,
--     Hash/Bloom bloom.go.
--   Connection: internal/connection. Connection/Conn is conn.go: Execute is execute up to its select and
--     cancel for the branch of a context that ends; one round of readLoop is read_round; a channel is the
--     log of what was sent on it. Connection/Conn/Steps is the step relation in which callers, the pool,
--     the application and the read loop take turns in any order. Connection/Balancer is balancer.go,
--     Connection/Pool pool.go: handleTopologyUpdate and routeOperation, each one step under the lock.
--     Connection/Auth is auth.go, over the server's answers as a parameter. Connection/Pool/Dial is
--     dialAndSetup over a network as a parameter, with what happens to the socket as a log.
--     Connection/Pool/Calls has ensureConn and the methods that send; what other goroutines do to the
--     pool while it dials, and before the connection is looked up, are functions, and a call goes up to
--     the wait for the reply: Execute is pool_execute, AddListener add_listener.
--   Protostream: internal/protostream. Protostream/Wire and Protostream/Wrapped are wrapped.go:
--     ScanFields is scan_fields, over any callback on a state; its slices are what is left of the input,
--     with the position beside them. A Go value of type any is a Value, a float its bits.
--     Protostream/Query is query.go, with DecodeCQResult.
--   Auth: internal/auth. A mechanism is a record of functions on its state; Auth/Scram is scram.go, with
--     HMAC, SHA-256, base64 and the parsing of a number as parameters and the random nonce as an argument.
--   Hotrod: the package hotrod, over the calls of the pool as parameters. Hotrod/Lru is lru.go: an element
--     of a list.List is a number into a heap of entries, the store's Get is lru_get; Spec is the list of
--     pairs that it refines. Hotrod/Transaction is transaction.go: TxCache.Get is tx_get, WithTransaction
--     with_transaction; Log tells the outcome from the calls alone, Commit is the end of a transaction.
--     Hotrod/Iterator is iterator.go. Hotrod/Options is the options of the put, get and remove calls in
--     options.go, Hotrod/Execute execute.go with what a server's answer comes to, Hotrod/Remote and
--     Hotrod/Bulk the calls of RemoteCache in hotrod.go: Get is get, PutAll put_all. Hotrod/NearCache is
--     near_cache.go: a started goroutine is a job, and Jobs the step relation in which callers, events and
--     goroutines take turns in any order.
--
-- Bounds and fuel: the loops of ReadVInt and ReadVLong run 5 and 9 rounds, as in the source; the loops of
-- WriteVInt and WriteVLong run over the slots of their buffers, and the slot past the last is the panic
-- of the source. Loops over a count read from the wire run as often as the source's, and not at all for a
-- negative count; a `make` of a negative length is a panic. The digits of a port have fuel 5, enough for a
-- uint16. The loop over an iterator has fuel; one more than the number of entries is enough. The loop of
-- Authenticate has fuel; with SCRAM-SHA-256 two rounds are enough. The loop of ScanFields has as much fuel
-- as there are bytes, which is always enough. A near cache has fewer than 2 ^ 29 entries, so that the int32
-- of its threshold does not wrap. A uint64 takes at most nine rounds of appendUvarint's loop.
--
-- Not modelled: the network, TLS, logging, timeouts and time; of the package hotrod the configuration and
-- its URIs, typed caches, queries and continuous queries, listeners, counters, multimaps, administration
-- and marshalling, which wrap calls of the pool; generated code. The floating-point quotient of
-- NewConsistentHash is that of the integers it comes from.
pub mod Prelude
pub mod Io
pub mod Codec
pub mod Operation
pub mod Hash
pub mod Auth
pub mod Protostream
pub mod Connection
pub mod Hotrod
