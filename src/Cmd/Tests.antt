-- ===== src/Cmd/Tests.antt =====
-- The theorems on the programs of cmd/ at concrete inputs.
use trixps.Prelude.{
  Bool, true, ℕ, ◌<◌, ◌^◌, ◌≡◌, refl, Option, false, Bool-cases, some, ◌⊎◌, inl, inr, List, [], ◌∷◌,
  length, drop, take, arith, nat_eq, list_eq, ◌==◌, if◌then◌else◌,
}
use trixps.Prelude.Int.{ℤ, pos, int_eq}
use trixps.Prelude.Map.{Map, lookup}
use trixps.Prelude.Text.{Text, codes}
use trixps.Storage.Codec.{Record}
use trixps.Storage.Log.Layout.{IsNumbered}
use trixps.Storage.Tests.{first, second}
use trixps.Broker.Service.Consumer.{all_fetched, behind}
use trixps.Rpc.{FetchReply, BatchRecord}
use trixps.Cmd.Consumer.{Consumer, offset_in, round, consume, to_raw, load_offsets, save_offsets}
use trixps.Cmd.Consumer.Offsets.{load_offsets-save_offsets}
use trixps.Cmd.Consumer.Drains.{consume-prints}
use trixps.Cmd.Consumer.Steps.{remaining}
use trixps.Cmd.Consumer.Exact.{Serves, round-Exact}
use trixps.Cmd.Consumer.Printed.{shown, Exact}
use trixps.Cmd.Producer.{batches, messages}
use trixps.Cmd.Producer.Batches.{sent_to, belonging, batches-belonging}

-- Every partition holds the same two records.
abbrev stored : ℤ → List Record
stored p = first ∷ (second ∷ [])

abbrev reply_at : ℕ → FetchReply
reply_at o = record {
  records = all_fetched (take 100 (drop o (first ∷ (second ∷ []))));
  next_offset = behind o (take 100 (drop o (first ∷ (second ∷ []))));
}

-- The second partition does not reply_at.
abbrev answered : ℤ → ℕ → Unit {0} → (FetchReply ⊎ (Unit {0})) × Unit {0}
answered p o s = (if p == pos 1 then inr tt else inl (reply_at o), s)

abbrev started : Consumer
started = record { offsets = []; read = 0; printed = []; progressed = false; on_file = [] }

stored-numbered : (p : ℤ) → IsNumbered 0 (stored p)
stored-numbered p = (refl, (refl, tt))

stored-room : (p : ℤ) → length (stored p) < 2 ^ 64
stored-room p = omega arith

answered-Serves_at :
    (p : ℤ) (o : ℕ) (s : Unit {0}) (reply : FetchReply)
    → (answered p o s).0 ≡ inl reply
    → reply ≡ reply_at o
answered-Serves_at p o s reply e = elim (Bool-cases (p == pos 1)) [
  | inl same ↦ let miss : (answered p o s).0 ≡ inr tt = rw same in absurd (cc (e, miss))
  | inr other ↦ let hit : (answered p o s).0 ≡ inl (reply_at o) = rw other in cc (e, hit)
]

answered-Serves : Serves stored stored-numbered stored-room 100 answered
answered-Serves = record { serves = λ p o s reply e. answered-Serves_at p o s reply e }

started-Exact : Exact stored started
unfolding lookup
started-Exact = record { shows = λ p. refl; within = λ p. omega arith }

-- The limit is one record, and the round stops there.
abbrev first_round : Bool × Consumer
first_round = (round answered (pos 1) 2 started tt).0

round-Exact_example :
    Exact stored first_round.1
    × (first_round.0 ≡ true
        → (q : ℤ)
        → shown q first_round.1.printed
          ≡ all_fetched (take (offset_in q first_round.1.on_file) (stored q)))
round-Exact_example =
    round-Exact stored stored-numbered stored-room 100 answered (pos 1) answered-Serves 2 started tt
      started-Exact

-- Every partition answers.
abbrev all_answer : ℤ → ℕ → Unit {0} → (FetchReply ⊎ (Unit {0})) × Unit {0}
all_answer p o s = (inl (reply_at o), s)

four_left : remaining stored 2 started < 5
unfolding lookup
four_left = omega arith

consume-prints_example :
    (d : Consumer) × (t : Unit {0}) × (consume all_answer (pos 0) 5 2 started tt ≡ some (d, t))
    × (d.on_file ≡ d.offsets)
    × ((q : ℕ)
        → q < 2
        → (shown (pos q) d.printed ≡ all_fetched (stored (pos q)))
          × (offset_in (pos q) d.on_file ≡ length (stored (pos q))))
consume-prints_example =
    consume-prints stored stored-numbered stored-room 99 all_answer (λ p o s. refl) 5 2 started tt
      started-Exact four_left

abbrev file_offsets : Map ℤ ℕ
file_offsets = (pos 1, 7) ∷ []

-- The bytes stand for the one map.
abbrev unmarshalled : Text → Option (Map Text ℕ)
unmarshalled bytes = some (to_raw file_offsets [])

load_offsets-save_offsets_example :
    offset_in
      (pos 1)
      (load_offsets unmarshalled (some (save_offsets (λ raw. codes "{}") file_offsets)) 2)
    ≡ offset_in (pos 1) file_offsets
load_offsets-save_offsets_example =
    load_offsets-save_offsets (λ raw. codes "{}") unmarshalled file_offsets (to_raw file_offsets [])
      2 1 (refl, tt) refl (λ k. refl) (omega arith)

batches-belonging_example :
    (found : List (ℤ × List BatchRecord)) × (batches (pos 5) (pos 3) (pos 2) ≡ some found)
    × ((p : ℕ) → p < 3 → sent_to (pos p) found ≡ belonging (pos 3) (pos p) (messages 5 1))
batches-belonging_example = batches-belonging (pos 5) (pos 3) (pos 2) (omega arith)
