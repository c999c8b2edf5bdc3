-- ===== src/Broker/Topics.antt =====
-- The logs of a broker by topic and partition (internal/broker/broker.go: `logKey`, `sanitizeTopic`,
-- `logFor`, `produceLock`, `isLeaderOf` and `Close`). The files of the data folder are a map from their
-- names to their contents. A function holds the broker's mutex, so each is one step.
pub mod Names
pub mod Logs
pub mod Closed
pub mod Shared
mod Tests
use trixps.Prelude.{
  ℕ, zero, suc, ◌+◌, ◌-◌, ◌*◌, ◌%◌, ◌≡◌, Bool, true, false, not, ◌&&◌, ◌||◌, Option, none, some,
  ◌⊎◌, inl, inr, List, [], ◌∷◌, ◌++◌, ltb, leb, ◌==◌, nat_eq, list_eq, if◌then◌else◌,
}
use trixps.Prelude.Int.{ℤ, int_eq}
use trixps.Prelude.Map.{Map, lookup, insert}
use trixps.Prelude.Text.{Text, codes}
use trixps.Prelude.Decimal.{itoa}
use trixps.Metadata.{Cluster, clone}
use trixps.Broker.Config.{Config}
use trixps.Storage.Codec.{Error, Result, ok, err}
use trixps.Storage.Log.{Log, OpenCalls, open_log, close}

unfoldable pub log_key : Text → ℤ → Text
log_key topic p = topic ++ (codes "/" ++ itoa p)

abbrev is_between : ℕ → ℕ → ℕ → Bool
is_between low high b = leb low b && leb b high

-- The bytes behind the first one of a rune.
abbrev is_continuation : ℕ → Bool
is_continuation b = is_between 128 191 b

-- What the second byte may be, behind the first one of three or four.
abbrev second_fits : ℕ → ℕ → Bool
second_fits b c =
    if b == 224
    then is_between 160 191 c
    else if b == 237
    then is_between 128 159 c
    else if b == 240
    then is_between 144 191 c
    else if b == 244
    then is_between 128 143 c
    else is_continuation c

-- The rune of bytes that are no UTF-8.
abbrev rune_error : ℕ
rune_error = 65533

-- The first rune of `b ∷ s`, and the number of its bytes in `s`: bytes that are no UTF-8 count one by one.
abbrev first_rune : ℕ → Text → ℕ × ℕ
first_rune b [] = (if ltb b 128 then b else rune_error, 0)
first_rune b (c ∷ []) =
    if ltb b 128
    then (b, 0)
    else if is_between 194 223 b && is_continuation c
    then ((b - 192) * 64 + (c - 128), 1)
    else (rune_error, 0)
first_rune b (c ∷ (d ∷ [])) =
    if ltb b 128
    then (b, 0)
    else if is_between 194 223 b && is_continuation c
    then ((b - 192) * 64 + (c - 128), 1)
    else if is_between 224 239 b && second_fits b c && is_continuation d
    then ((b - 224) * 4096 + (c - 128) * 64 + (d - 128), 2)
    else (rune_error, 0)
first_rune b (c ∷ (d ∷ (e ∷ s))) =
    if ltb b 128
    then (b, 0)
    else if is_between 194 223 b && is_continuation c
    then ((b - 192) * 64 + (c - 128), 1)
    else if is_between 224 239 b && second_fits b c && is_continuation d
    then ((b - 224) * 4096 + (c - 128) * 64 + (d - 128), 2)
    else if is_between 240 244 b && second_fits b c && is_continuation d && is_continuation e
    then ((b - 240) * 262144 + (c - 128) * 4096 + (d - 128) * 64 + (e - 128), 3)
    else (rune_error, 0)

-- `for _, r := range t`, behind `skip` bytes.
runes : ℕ → Text → List ℕ
runes skip [] = []
runes (suc skip) (b ∷ s) = runes skip s
runes zero (b ∷ s) = let (r, more) = first_rune b s in r ∷ runes more s

-- The letters, digits and signs that a file's name keeps.
abbrev pub is_safe : ℕ → Bool
is_safe r =
    is_between b'a' b'z' r
    || is_between b'A' b'Z' r
    || is_between b'0' b'9' r
    || (r == b'-')
    || (r == b'_')

-- A rune that is kept is one byte.
written : List ℕ → Text
written [] = []
written (r ∷ rs) = (if is_safe r then r else b'_') ∷ written rs

-- "if empty"
abbrev or_underscore : Text → Text
or_underscore [] = b'_' ∷ []
or_underscore (b ∷ s) = b ∷ s

unfoldable pub sanitize_topic : Text → Text
unfolding runes written
sanitize_topic t = or_underscore (written (runes 0 t))

-- `fmt.Sprintf("%s-partition-%d.log", sanitizeTopic(topic), p)`
unfoldable pub file_name : Text → ℤ → Text
file_name topic p = sanitize_topic topic ++ (codes "-partition-" ++ (itoa p ++ codes ".log"))

-- What `mu` protects, with the files. A mutex of `prodLocks` is the number of its creation.
pub record Topics : Type 0 where
  pub logs : Map Text Log
  pub prod_locks : Map Text ℕ
  pub locks_made : ℕ
  pub files : Map Text Text

-- The content of a file; one that is not there is created empty.
abbrev pub content : Text → Map Text Text → Text
content name files = elim (lookup name files) [ none ↦ [] | some f ↦ f ]

-- Why there is no log.
pub data LogError : Type 0 where
  empty_topic : LogError
  storage : Error → LogError

kept : Text → Text → Topics → Result Log × Text → (Log ⊎ LogError) × Topics
kept key name b (ok l, f) =
    (inl l, record b { logs = insert key l b.logs; files = insert name f b.files })
kept key name b (err e, f) = (inr (storage e), record b { files = insert name f b.files })

-- The log that is open, or that of the file. `none`: the fuel of the replay ran out.
unfoldable pub log_for : OpenCalls → Text → ℤ → Topics → Option ((Log ⊎ LogError) × Topics)
unfolding kept
log_for calls topic p b =
    if topic == [] then some (inr empty_topic, b) else elim (lookup (log_key topic p) b.logs) [
      | some l ↦ some (inl l, b)
      | none ↦
          let name = file_name topic p in
          elim (open_log calls (content name b.files)) [
            | none ↦ none
            | some r ↦ some (kept (log_key topic p) name b r)
          ]
    ]

-- What a method of the log does, to the log and to the file that all logs of this name share.
abbrev pub stored {ℓ} : {A : Type ℓ} → Text → Text → Topics → A × Log → A × Topics
stored key name b (a, l) =
    (a, record b { logs = insert key l b.logs; files = insert name l.f b.files })

unfoldable pub on_log {ℓ} : {A : Type ℓ} → Text → ℤ → (Log → A × Log) → Log × Topics → A × Topics
on_log topic p method (l, b) =
    let name = file_name topic p in
    stored (log_key topic p) name b (method (record l { f = content name b.files }))

-- The mutex that serializes the writes of a partition.
unfoldable pub produce_lock : Text → ℤ → Topics → ℕ × Topics
produce_lock topic p b = elim (lookup (log_key topic p) b.prod_locks) [
  | some m ↦ (m, b)
  | none ↦ (
    b.locks_made,
    record b {
      prod_locks = insert (log_key topic p) b.locks_made b.prod_locks;
      locks_made = suc b.locks_made;
    },
  )
]

unfoldable pub is_leader_of : Config → Cluster → ℤ → Bool
is_leader_of cfg fsm p = elim (lookup p (clone fsm).partitions) [
  | none ↦ false
  | some a ↦ a.leader == cfg.id
]

-- "close every open log"; the errors are dropped.
close_all : Map Text Log → Map Text Log
close_all [] = []
close_all ((key, l) ∷ logs) = (key, (close l).1) ∷ close_all logs

-- `Close` behind the shutdown of Raft.
unfoldable pub close_logs : Topics → Topics
unfolding close_all
close_logs b = record b { logs = close_all b.logs }
