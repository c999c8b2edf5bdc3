-- ===== src/Client/Tests.antt =====
-- The theorems on internal/client/client.go at concrete inputs.
use trixps.Prelude.{ℕ, ◌+◌, ◌≡◌, refl, inl, true, none, some, List, [], ◌∷◌, list_eq, nat_eq}
use trixps.Prelude.Int.{pos, int_eq}
use trixps.Prelude.Map.{lookup}
use trixps.Prelude.Text.{Text, codes}
use trixps.RaftFsm.Tests.{two}
use trixps.Client.{Network, dial_then, try_brokers, metadata, leader_of, attempt, retry, produce}
use trixps.Rpc.{ProduceArgs}

-- Every call is answered; the state counts what was produced.
abbrev counting : Network (Unit {0}) ℕ
counting = record {
  dial = λ addr s. (none, s);
  metadata = λ addr s. (inl (some two), s);
  produce = λ addr args s. (inl (record { offset = s; committed = true }), s + 1);
  produce_batch = λ addr args s. (inl (record { base_offset = s; count = 0; committed = true }), s);
  fetch = λ addr args s. (inl (record { records = []; next_offset = 0 }), s);
  health = λ addr s. (inl (record { id = []; raft_state = [] }), s);
  sleep = λ s. s + 1;
}

abbrev args : ProduceArgs
args = record { topic = codes "t"; partition = pos 0; key = []; value = codes "w" }

abbrev brokers : List Text
brokers = codes "h1:9001" ∷ []

produced : (produce counting brokers args 5).0 ≡ inl 5
unfolding produce retry attempt metadata try_brokers dial_then leader_of lookup
produced = refl
