-- ===== src/Broker/Topics/Tests.antt =====
-- The theorems on the topics of internal/broker/broker.go at concrete inputs.
use trixps.Prelude.{
  ◌≡◌, ◌≢◌, ◌↔◌, refl, true, false, some, inl, [], ◌∷◌, ◌++◌, arith, list_eq, nat_eq, ==_refl,
  list_beq_iff, ◌==◌,
}
use trixps.Prelude.Int.{pos, negsuc, int_eq}
use trixps.Prelude.Map.{lookup}
use trixps.Prelude.Text.{Text, codes}
use trixps.Storage.Codec.RoundTrip.{length-encode_record}
use trixps.Storage.Codec.{ok}
use trixps.Storage.Log.{Log, close}
use trixps.Storage.Log.Layout.{encodings}
use trixps.Storage.Log.Replay.{healthy}
use trixps.Storage.Log.Append.{next_record, Room}
use trixps.Storage.Tests.{first-Fits, length-first}
use trixps.Broker.Topics.{
  Topics, content, runes, written, sanitize_topic, log_key, file_name, log_for, produce_lock,
  close_all, close_logs,
}
use trixps.Broker.Topics.Names.{file_name_iff}
use trixps.Broker.Topics.Logs.{log_for-there, IsLocks, produce_lock-excludes}
use trixps.Broker.Topics.Shared.{append_to, log_for-overwrites}

-- `é.`, in UTF-8.
abbrev accented : Text
accented = 195 ∷ (169 ∷ (46 ∷ []))

sanitized : sanitize_topic accented ≡ codes "__"
unfolding sanitize_topic runes written
sanitized = refl

abbrev fresh : Log
fresh = record { f = []; is_open = true; next_off = 0; index = []; size = 0 }

abbrev started : Topics
started = record { logs = []; prod_locks = []; locks_made = 0; files = [] }

file_name_iff_example :
    (file_name (codes "a.b") (pos 3) ≡ file_name (codes "a_b") (negsuc 2))
    ↔ ((sanitize_topic (codes "a.b") ≡ sanitize_topic (codes "a_b")) × (pos 3 ≡ negsuc 2))
file_name_iff_example = file_name_iff (codes "a.b") (codes "a_b") (pos 3) (negsuc 2)

abbrev with_log : Topics
with_log = record started { logs = (log_key (codes "a") (pos 0), fresh) ∷ [] }

opened_there : lookup (log_key (codes "a") (pos 0)) with_log.logs ≡ some fresh
unfolding lookup
opened_there = rw (lookup, ==_refl (log_key (codes "a") (pos 0)))

opened_log : log_for healthy (codes "a") (pos 0) with_log ≡ some (inl fresh, with_log)
opened_log = log_for-there healthy (codes "a") (pos 0) with_log fresh refl opened_there

started-IsLocks : IsLocks started
unfolding lookup
started-IsLocks = record { made = λ key m e. absurd (cc e); own = λ key other m e f. absurd (cc e) }

produce_lock-excludes_example :
    let one_lock = produce_lock (codes "a") (pos 0) started in
    let another = produce_lock (codes "a") (pos 1) one_lock.1 in
    ((one_lock.0 ≡ another.0) ↔ ((codes "a" ≡ codes "a") × (pos 0 ≡ pos 1))) × IsLocks another.1
produce_lock-excludes_example =
    produce_lock-excludes (codes "a") (codes "a") (pos 0) (pos 1) started started-IsLocks

closed_log :
    lookup (log_key (codes "a") (pos 0)) (close_logs with_log).logs
    ≡ some (record fresh { is_open = false })
unfolding close_logs close_all close lookup
closed_log = rw (lookup, ==_refl (log_key (codes "a") (pos 0)))

first-Room : Room [] (next_record [] (codes "k") (codes "v") 5)
first-Room = (first-Fits, omega arith, omega (arith, length-first))

later-Room : Room [] (next_record [] (codes "k") (codes "v") 6)
later-Room = (
  record {
    offset_fits = omega arith;
    key_fits = omega arith;
    value_fits = omega arith;
    ts_nano_fits = omega arith;
  },
  omega arith,
  omega (arith, length-encode_record (next_record [] (codes "k") (codes "v") 6)),
)

alike : sanitize_topic (codes "a.b") ≡ sanitize_topic (codes "a_b")
unfolding sanitize_topic runes written
alike = refl

apart : codes "a.b" ≢ codes "a_b"
apart e =
    let same : (codes "a.b" == codes "a_b") ≡ true =
      (list_beq_iff (codes "a.b") (codes "a_b")).1 e in
    cc same

log_for-overwrites_example :
    (l : Log) × (m : Log) × (c : Topics) × (d : Topics) × (log_for healthy
        (codes "a.b")
        (pos 0)
        started
      ≡ some (inl l, c))
    × (log_for healthy (codes "a_b") (pos 0) c ≡ some (inl m, d))
    × (let one_append = append_to (codes "a.b") (pos 0) (codes "k") (codes "v") 5 (l, d) in
        let another = append_to (codes "a_b") (pos 0) (codes "k") (codes "v") 6 (m, one_append.1) in
        (one_append.0 ≡ ok 0)
        × (another.0 ≡ ok 0)
        × ((rest : Text) × (content (file_name (codes "a.b") (pos 0)) another.1.files
              ≡ encodings (next_record [] (codes "k") (codes "v") 6 ∷ []) ++ rest)))
log_for-overwrites_example =
    log_for-overwrites (codes "a.b") (codes "a_b") (pos 0) [] started (codes "k") (codes "v")
      (codes "k") (codes "v") 5 6 apart (λ e. cc e) (λ e. cc e) alike (unfold lookup in refl)
      (unfold lookup in refl) (unfold lookup in refl) tt tt first-Room later-Room
