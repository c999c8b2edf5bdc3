-- ===== src/Lib.antt =====
-- TrixPS, a message broker in Go: topics are split into partitions, each partition is an append-only
-- log on a leader with a copy on a follower, and a Raft cluster agrees on who leads what.
--
-- The parts. A producer picks a partition by the hash of the key (`Hashing`) and sends to its
-- leader. A broker keeps a log file for each partition (`Storage`) and answers the calls of the
-- leader, the followers and the consumers (`Broker/Service`, with the types of `Rpc`); a record is
-- sent to the follower before it is written (`Broker/Replication`, over the connections of
-- `Broker/Link`). The producers and consumers of cmd (`Cmd`) call through a client that tries
-- again (`Client`). Who leads and follows is the state of the cluster (`Metadata`), which changes
-- only by commands of the Raft log (`RaftFsm`). Each second the Raft leader assigns what is not
-- assigned, probes the brokers, and moves the partitions of those that do not answer
-- (`Broker/Controller`).
--
-- The files.
--   Prelude: numbers, tests, lists, Go's maps, strings and sorted strings.
--   Storage (internal/storage/log.go): `Codec` is the record format, `encodeRecord` and `readRecord`,
--     over the bytes of `Bytes` and the checksum of `Crc`; `Log` is the open file with `Open`,
--     `replay`, `Append`, `AppendAt`, `appendLocked`, `ReadFrom`, `NextOffset` and `Close`.
--     `Holds recs tail l` of `Log/Layout` is the abstract view of a log: the list of its records,
--     and what a failed write has left behind them.
--   Hashing (internal/hashing/hash.go): `PartitionFor`.
--   Metadata (internal/metadata/metadata.go): the cluster, `Clone`, `AliveBrokerIDs`, `RPCAddrOf`.
--     `SameCluster` is the abstract view of a cluster, which forgets the order of the maps.
--   RaftFsm (internal/raftfsm/fsm.go): the commands, `Apply`, `Cluster`; `State` is the quotient of
--     the clusters by `SameCluster`; `View` says field by field what the commands do; `Snapshot` is
--     `Snapshot`, `Persist` and `Restore`, with `Marshal` and `Unmarshal` of
--     internal/metadata/metadata.go.
--   Rpc (internal/rpc/types.go): the arguments and replies of the calls below.
--   Broker: `Config` (internal/broker/broker.go) is the configuration and the peers; `Controller`
--     (internal/broker/controller.go) is `controlLoop`, `ensureBootstrap`, `reconcile`, `isAlive` and
--     `pickAlive`; `Service` (internal/broker/replication.go) is `Metadata`, `Health`, `Replicate`,
--     `ReplicateBatch`, `FollowerState` and `Fetch`; `Replication` (the same file) is `Produce`,
--     `ProduceBatch` and the calls to the follower; `Link` and `Topics` (internal/broker/broker.go)
--     are `dial` and `dropClient`, and `logKey`, `sanitizeTopic`, `logFor`, `produceLock`,
--     `isLeaderOf` and the logs' part of `Close`. `Accepts` of `Replication/Runs` is what a leader
--     promises to its producers: an append-only list. `Writers` are calls of `Produce` at the same time,
--     step by step under the mutex of the partition; `Failover` is what is left of a record when its
--     leader is lost. `Start` (internal/broker/broker.go) is `Open`, `setupRaft`, `serveRPC` and `Close`.
--   Client (internal/client/client.go): `Metadata`, `Produce`, `ProduceBatch`, `Fetch`, `Health`. The
--     client works over any network; in `Session` the network is a broker, with the handlers of
--     `Broker` and a log for each topic and partition, behind connections that fail.
--   Cmd: `Consumer` (cmd/consumer/main.go) is the loop over the partitions and the file of the
--     offsets, and `Consumer/Program` its `main`; `Producer` (cmd/producer/main.go) is `publishBatch`,
--     and `Producer/Console` its `main`, `runInteractive`, `publish` and `printStatus`; `Node`
--     (cmd/broker/main.go) is `main`; `Flags` is `parsePeers` (cmd/broker/main.go) and `splitCSV`
--     (cmd/producer/main.go, and the same elsewhere); `Api` (cmd/api/main.go) is the handlers of the
--     gateway over decoded requests, one at a time; `Api/Requests` are the critical sections of
--     `numPartitions` in requests at the same time.
--   The modules named Tests hold the theorems at concrete inputs.
--
-- How code is modelled. A method takes the state and returns the new one; where it holds a mutex
-- it is one step. Strings are lists of bytes. Unsigned integers are natural numbers with their
-- wrap at 2 ^ 64 or 2 ^ 32 written out; an int64 time stamp is its bit pattern; an int that can be
-- negative is in `Prelude/Int`. A Go map is an association list whose order is the order of
-- iteration. The answers of the operating system, the network, the clock, Raft and JSON are
-- arguments: JSON may change a string that is no UTF-8. A call of the follower can be lost, or its
-- answer can. The calls of `Broker/Service` and `Broker/Replication` take the log that `logFor`
-- returned, and run one at a time, as the lock of the partition has it. In `Broker/Writers` they
-- run at the same time. `NewRaft` makes of the state machine what its stores hold: it is an
-- argument of `Broker/Start`.
--
-- Fuel. The loops of `replay` and `ReadFrom` read a file. Each record takes bytes, so one more than
-- the file's length is enough: `open_log` and `read_from` start with that. The digits of a number are
-- at most its value, and the batches of a partition at most its records. The rounds of the consumer
-- are at most the records that are left and one. The client makes 8 attempts.
-- All other loops run over a list or count up to a number.
--
-- Not modelled: the HTTP server of cmd/api with its headers and the JSON of its answers, the parsing of
-- the flags but for their lists, the text of what the programs print, the signal that ends a broker, and
-- the consumer's `--follow`, with which its rounds go on for ever.
pub mod Prelude
pub mod Hashing
pub mod Storage
pub mod Metadata
pub mod Rpc
pub mod RaftFsm
pub mod Broker
pub mod Client
pub mod Cmd
