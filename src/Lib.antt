-- ===== src/Lib.antt =====
-- p2p-file-sync, a peer-to-peer file synchroniser in Go: a model of its core and proofs about it.
--
-- The program hashes a directory into a Merkle tree (internal/merkle) over content-addressed chunks
-- (internal/cas), compares trees with its peers (internal/net, internal/diff), and moves changed
-- files as rsync-style deltas (internal/delta).
--
-- Which file models which part:
--   Bytes, Stream    encoding/binary, bytes.Equal, io.ReadFull and bufio.Reader as the program uses
--                    them, and predicates on the elements of a list.
--   Xor, Assoc       the laws of exclusive or, and maps with string keys.
--   Pieces           a file as blocks of a fixed size, the common specification of the chunkers.
--   Rolling          internal/delta/rolling.go, RollingHash: the circular window and its sum.
--   Signature        Signature and ComputeBlockSignature of the same file, and GenerateSignature of
--                    internal/delta/delta.go.
--   Delta            the operations, and ApplyDelta, of internal/delta/delta.go.
--   Codec            Encode of deltas and signatures, DecodeDelta and DecodeSignature.
--   Generate         GenerateDelta: its local variables are the record Generator, and each of its
--                    loops and branches is a function on that record.
--   Transfer         the three functions of internal/delta put together.
--   Merkle           internal/merkle/tree.go: nodes, and the node at a path of child names.
--   Merkle.Build     the constructors and the hashing of tree.go.
--   Merkle.Diff      Diff of tree.go: diff_nodes is diffNodes on a local node, diff_remote its last
--                    loop, where the local node is nil.
--   Merkle.Manifest  ToManifest and BuildFromManifest of internal/merkle/build.go.
--   Cas.Chunker      internal/cas/chunk.go: Chunker.Next and ChunkAll.
--   Cas.Store        BlobStore of internal/cas/store.go, with faults. Its lock makes each operation
--                    one step; a crash between two calls is not modelled.
--   Nat.Punch        internal/nat/holepunch.go; Nat.Punch.Link puts two peers on a network.
--   Nat.Stun         internal/nat/stun.go.
--   Nat.Frames       the messages that signaling.go and relay.go of internal/nat share.
--   Nat.Signaling    internal/nat/signaling.go: the server over its table of peers, and the client.
--   Nat.Relay        internal/nat/relay.go: the server as a record of its tables, with the timers of its
--                    handlers, and the client; Nat.Relay.Fallback is FallbackStrategy.Connect.
--   Proto            internal/proto/messages.go: the framing of envelopes. Proto.Nodes has the nodes of
--                    a manifest, and their conversions of internal/net/sync.go.
--   ProtoDiff        internal/diff/diff.go.
--   Net              the requests for chunks and manifests of internal/net/transport.go and sync.go, on
--                    both sides (HandleChunkRequest and HandleManifestRequest answer); Net.Sync is
--                    SyncWithPeer.
--   Command          cmd/p2p-file-sync/main.go: the sync command from the diff to the end of the
--                    download. It stores chunks by Cas.Store, and Net gives what a peer serves.
--                    Command.Rebuild is reconstructFiles.
--   Db               internal/db/store.go: the tables of files and chunks, as lists, and the statements
--                    on them; a transaction keeps the tables before it.
--   Watcher          internal/watcher/watcher.go: processFile, over Cas.Chunker and Db.
--
-- Bytes are numbers below 256; Go's uint32 and uint16 values keep their widths where they can wrap.
-- The int and int64 counters of sizes are natural numbers. A function that returns an error returns
-- an Outcome. SHA-256 is a parameter, a function of all bytes written to the hasher; what is needed
-- of it is a hypothesis that no two pieces at hand collide. What sync.Pool returns is a parameter
-- without hypotheses. Writers and callbacks are parameters with the laws that their Go contracts
-- state.
--
-- Fuel: the main loop of GenerateDelta has two rounds more than the file has bytes, and the loop of
-- GenerateSignature and that of ChunkAll one more; each round but the last reads a byte, so none of
-- them runs out on a file that can be read to its end.
-- The loop of the STUN parser has one round more than the length field of the message says, and the
-- model's error no_fuel tells an end of the rounds from the ends of the loop.
--
-- The calls of a network or of protobuf are parameters: a connection carries bytes up to its end or an
-- error, and a request is answered by a function of its number and its content.
--
-- Not modelled: logging, metrics, the generated protobuf code and the output of the command line;
-- the snapshots of internal/db, the events and the scan of internal/watcher; the QUIC connections
-- and the table of peers of internal/net/transport.go, and the workers of sync.go, which nothing
-- feeds; the copying of bytes and the shutdown of the relay; the removal of files by the sync
-- command, and the other commands; GetChild and PrintTree of internal/merkle/tree.go, BuildFromFS
-- of internal/merkle/build.go, and StoreReader and VerifyAll of internal/cas/store.go.
pub mod Prelude
pub mod Bytes
pub mod Xor
pub mod Assoc
pub mod Stream
pub mod Pieces
pub mod Rolling
pub mod Signature
pub mod Delta
pub mod Codec
pub mod Generate
pub mod Transfer
pub mod Merkle
pub mod Cas
pub mod Nat
pub mod Proto
pub mod ProtoDiff
pub mod Net
pub mod Command
pub mod Db
pub mod Watcher
