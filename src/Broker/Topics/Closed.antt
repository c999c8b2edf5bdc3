-- ===== src/Broker/Topics/Closed.antt =====
-- What `Close` of internal/broker/broker.go leaves of the logs.
use mathlib.Core.Option
use trixps.Prelude.{
  Option, Bool, ap, ◌≡◌, refl, ◌∙◌, inl, inr, ◌⊎◌, false, none, some, [], ◌∷◌, ◌==◌, nat_eq,
  list_eq, Bool-cases, Option-cases,
}
use trixps.Prelude.Int.{ℤ}
use trixps.Prelude.Map.{Map, lookup}
use trixps.Prelude.Text.{Text}
use trixps.Storage.Codec.{closed, Result, ok, err}
use trixps.Storage.Log.{Log, OpenCalls, open_log, close}
use trixps.Broker.Topics.{
  Topics, LogError, content, log_key, file_name, kept, log_for, close_all, close_logs,
}

-- A log that is closed.
abbrev pub shut : Log → Log
shut l = record l { is_open = false }

-- What a call gets where the broker had this log.
abbrev pub as_closed : Option Log → Log ⊎ LogError → Log ⊎ LogError
as_closed (some l) (inl m) = inl (shut m)
as_closed (some l) (inr e) = inr e
as_closed none o = o

close-shut : (l : Log) → (close l).1 ≡ shut l
unfolding close
close-shut l = elim (Bool-cases l.is_open) [
  | inl opened ↦ simp (close, opened)
  | inr shut_before ↦
      let same : l ≡ shut l = ap (λ (b : Bool). record l { is_open = b }) shut_before in
      let kept : close l ≡ (err closed, l) = simp (close, shut_before) in
      ap (λ (o : Result (Unit {0}) × Log). o.1) kept ∙ same
]

close_all-lookup :
    (key : Text) (logs : Map Text Log)
    → lookup key (close_all logs) ≡ Option.map shut (lookup key logs)
unfolding close_all lookup
close_all-lookup key [] = refl
close_all-lookup key ((k, m) ∷ logs) = elim (Bool-cases (k == key)) [
  | inl same ↦ rw (lookup, same) (ap some (close-shut m))
  | inr other ↦ rw (lookup, other) (close_all-lookup key logs)
]

-- Behind `Close` the broker has the same logs, each of them closed.
pub close_logs-lookup :
    (key : Text) (b : Topics) → lookup key (close_logs b).logs ≡ Option.map shut (lookup key b.logs)
unfolding close_logs
close_logs-lookup key b = close_all-lookup key b.logs

kept_log :
    (key name : Text) (b : Topics) (r : Result Log × Text)
    → (kept key name (close_logs b) r).0 ≡ (kept key name b r).0
unfolding kept
kept_log key name b (ok l, f) = refl
kept_log key name b (err e, f) = refl

-- Behind `Close`, a log that the broker has is found closed, and any other one is opened as before.
pub log_for-close_logs :
    (calls : OpenCalls) (topic : Text) (p : ℤ) (b : Topics)
    → Option.map (λ (o : (Log ⊎ LogError) × Topics). o.0) (log_for calls topic p (close_logs b))
      ≡ Option.map
          (λ (o : (Log ⊎ LogError) × Topics). as_closed (lookup (log_key topic p) b.logs) o.0)
          (log_for calls topic p b)
unfolding log_for close_logs
log_for-close_logs calls topic p b =
    let key = log_key topic p in
    let found = close_logs-lookup key b in
    elim (Bool-cases (topic == [])) [
      | inl empty ↦ elim (Option-cases (lookup key b.logs)) [
        | inl absent ↦ rw (log_for, empty, absent)
        | inr (l, there) ↦ rw (log_for, empty, there)
      ]
      | inr named ↦ elim (Option-cases (lookup key b.logs)) [
        | inr (l, there) ↦
            let gone : lookup key (close_logs b).logs ≡ some (shut l) =
              found ∙ ap (Option.map shut) there in
            rw (log_for, named, gone, there)
        | inl absent ↦
            let gone : lookup key (close_logs b).logs ≡ none =
              found ∙ ap (Option.map shut) absent in
            elim (Option-cases (open_log calls (content (file_name topic p) b.files))) [
              | inl none_left ↦ rw (log_for, named, close_logs, gone, absent, none_left)
              | inr (r, opens) ↦ rw (
                log_for,
                named,
                close_logs,
                gone,
                absent,
                opens,
                kept_log key (file_name topic p) b r,
              )
            ]
      ]
    ]
