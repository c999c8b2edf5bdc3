-- ===== src/Rpc.antt =====
-- internal/rpc/types.go: the arguments and the replies of the calls that `Broker/Service` answers.
-- The time stamps are int64s, by their bit patterns.
use trixps.Prelude.{ℕ, Bool, List}
use trixps.Prelude.Int.{ℤ}
use trixps.Prelude.Text.{Text}
use trixps.Metadata.{Cluster}

pub record MetadataReply : Type 0 where
  pub cluster : Cluster

pub record ProduceArgs : Type 0 where
  pub topic : Text
  pub partition : ℤ
  pub key : Text
  pub value : Text

pub record ProduceReply : Type 0 where
  pub offset : ℕ
  pub committed : Bool

pub record BatchRecord : Type 0 where
  pub key : Text
  pub value : Text

pub record ProduceBatchArgs : Type 0 where
  pub topic : Text
  pub partition : ℤ
  pub records : List BatchRecord

pub record ProduceBatchReply : Type 0 where
  pub base_offset : ℕ
  pub count : ℕ
  pub committed : Bool

pub record ReplicateRecord : Type 0 where
  pub offset : ℕ
  pub key : Text
  pub value : Text
  pub ts_nano : ℕ

pub record ReplicateBatchArgs : Type 0 where
  pub topic : Text
  pub partition : ℤ
  pub records : List ReplicateRecord

pub record ReplicateBatchReply : Type 0 where
  pub ack : Bool

pub record ReplicateArgs : Type 0 where
  pub topic : Text
  pub partition : ℤ
  pub offset : ℕ
  pub key : Text
  pub value : Text
  pub ts_nano : ℕ

pub record ReplicateReply : Type 0 where
  pub ack : Bool

pub record FollowerStateArgs : Type 0 where
  pub topic : Text
  pub partition : ℤ

pub record FollowerStateReply : Type 0 where
  pub next_offset : ℕ

pub record FetchArgs : Type 0 where
  pub topic : Text
  pub partition : ℤ
  pub offset : ℕ
  pub max : ℤ

pub record FetchRecord : Type 0 where
  pub offset : ℕ
  pub key : Text
  pub value : Text
  pub ts_nano : ℕ

pub record FetchReply : Type 0 where
  pub records : List FetchRecord
  pub next_offset : ℕ

pub record HealthReply : Type 0 where
  pub id : Text
  pub raft_state : Text
