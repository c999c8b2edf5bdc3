-- ===== src/Cmd/Flags/Tests.antt =====
-- The theorems on the flags of cmd/ at concrete inputs.
use trixps.Prelude.{◌≡◌, refl, not, inl, [], ◌∷◌, ◌++◌, ◌==◌, nat_eq, true, some, none}
use trixps.Prelude.Int.{pos}
use trixps.Broker.Start.{StartCalls}
use trixps.Cmd.Node.{NodeFlags}
use trixps.Prelude.Text.{Text, codes}
use trixps.Prelude.Decimal.{EachIs-Lacks}
use trixps.Broker.Config.{Peer}
use trixps.Cmd.Flags.{split, trim_space, trim_front, split_csv, split_csv_parts}
use trixps.Cmd.Flags.Peers.{IsListable, entry}

-- Spaces are cut off, and empty parts left out.
addresses : split_csv (codes " a,,b ") ≡ codes "a" ∷ (codes "b" ∷ [])
unfolding split_csv split_csv_parts split trim_space trim_front
addresses = refl

abbrev one_peer : Peer
one_peer = record { id = codes "b"; raft_addr = codes "r"; rpc_addr = codes "p" }

one_peer-IsListable : IsListable one_peer
unfolding trim_space trim_front
one_peer-IsListable = record {
  id = EachIs-Lacks (λ b. not (b == b'@')) b'@' (codes "b") refl (refl, tt);
  raft_addr = EachIs-Lacks (λ b. not (b == b'@')) b'@' (codes "r") refl (refl, tt);
  rpc_addr = EachIs-Lacks (λ b. not (b == b'@')) b'@' (codes "p") refl (refl, tt);
  commas =
      EachIs-Lacks (λ b. not (b == b',')) b',' (entry one_peer) refl
        (refl, (refl, (refl, (refl, (refl, tt)))));
  trimmed = refl;
}

-- Every call of the start succeeds but the last one.
abbrev in_use : StartCalls Text
in_use = record {
  join = λ dir name. dir ++ (codes "/" ++ name);
  mkdir_all = λ dir. none;
  new_bolt_store = λ file. none;
  new_file_snapshot_store = λ dir. none;
  resolve_tcp_addr = λ addr. none;
  new_tcp_transport = λ addr. none;
  new_raft = λ config fsm. inl fsm;
  bootstrap_cluster = λ servers. none;
  register_name = none;
  listen = λ addr. some (codes "in use");
}

abbrev flags : NodeFlags
flags = record {
  id = codes "b";
  raft_addr = codes "r";
  rpc_addr = codes "p";
  peers = codes "b@r@p";
  data_dir = codes "data";
  partitions = pos 2;
  bootstrap = true;
}
