-- ===== src/Broker/Config.antt =====
-- `Peer`, `Config` and what is fixed of a `Broker` in internal/broker/broker.go.
use trixps.Prelude.{Bool, List, [], ◌∷◌, ◌==◌, list_eq, nat_eq, if◌then◌else◌}
use trixps.Prelude.Int.{ℤ, pos, int_eq}
use trixps.Prelude.Map.{Map, insert, keys}
use trixps.Prelude.Sort.{sort_strings}
use trixps.Prelude.Text.{Text}

pub record Peer : Type 0 where
  pub id : Text
  pub raft_addr : Text
  pub rpc_addr : Text

pub record Config : Type 0 where
  pub id : Text
  pub raft_addr : Text
  pub rpc_addr : Text
  pub data_dir : Text
  pub peers : List Peer
  pub bootstrap : Bool
  pub num_partitions : ℤ

-- The configuration that `Open` keeps: two partitions by default.
unfoldable pub with_defaults : Config → Config
with_defaults cfg =
    if cfg.num_partitions == pos 0 then record cfg { num_partitions = pos 2 } else cfg

-- `b.peers[p.ID] = p` for every peer.
unfoldable pub peer_map : List Peer → Map Text Peer → Map Text Peer
peer_map [] m = m
peer_map (p ∷ ps) m = peer_map ps (insert p.id p m)

unfoldable pub sorted_peer_ids : Map Text Peer → List Text
sorted_peer_ids peers = sort_strings (keys peers)
