-- ===== src/Broker/Topics/Logs.antt =====
-- The logs and the locks of internal/broker/broker.go: `logFor` and `produceLock`.
use trixps.Prelude.{
  ℕ, suc, ◌<◌, ◌≡◌, ◌≢◌, ◌↔◌, sym, ap, ◌∙◌, inl, inr, ◌⊎◌, false, none, some, [], ◌==◌, nat_eq,
  list_eq, Bool-cases, Option-cases, list_beq_iff, arith,
}
use trixps.Prelude.Int.{ℤ}
use trixps.Prelude.Map.{Map, lookup, insert, lookup-insert}
use trixps.Prelude.Text.{Text}
use trixps.Storage.Codec.{Result, ok, err}
use trixps.Storage.Log.{Log, OpenCalls, open_log}
use trixps.Storage.Log.Replay.{open_log-ne-none}
use trixps.Broker.Topics.{
  Topics, LogError, empty_topic, content, log_key, file_name, kept, log_for, produce_lock,
}
use trixps.Broker.Topics.Names.{log_key-injective}

lookup-insert_same :
    {V : Type 0} (k : Text) (v : V) (m : Map Text V) → lookup k (insert k v m) ≡ some v
lookup-insert_same k v m = lookup-insert k k v m ∙ ground (arith, list_beq_iff k k)

-- `logFor` ends: it opens a log, or says why not.
pub log_for-ne-none :
    (calls : OpenCalls) (topic : Text) (p : ℤ) (b : Topics) → log_for calls topic p b ≢ none
unfolding log_for
log_for-ne-none calls topic p b = elim (Bool-cases (topic == [])) [
  | inl empty ↦ rw (log_for, empty) (λ q. cc)
  | inr named ↦ elim (Option-cases (lookup (log_key topic p) b.logs)) [
    | inr (l, there) ↦ rw (log_for, named, there) (λ q. cc)
    | inl absent ↦ elim (Option-cases (open_log calls (content (file_name topic p) b.files))) [
      | inl stuck ↦ absurd (open_log-ne-none calls (content (file_name topic p) b.files) stuck)
      | inr (r, e) ↦ rw (log_for, named, absent, e) (λ q. cc)
    ]
  ]
]

kept-inl :
    (key name : Text) (b c : Topics) (r : Result Log × Text) (l : Log)
    → kept key name b r ≡ (inl l, c)
    → lookup key c.logs ≡ some l
unfolding kept
kept-inl key name b c (ok m, f) l e =
    let logs : c.logs ≡ insert key m b.logs =
      sym (ap (λ (o : (Log ⊎ LogError) × Topics). o.1.logs) e) in
    let log : m ≡ l = cc e in rw (logs, lookup-insert_same key m b.logs) (ap some log)
kept-inl key name b c (err x, f) l e = absurd (cc e)

pub log_for-there :
    (calls : OpenCalls) (topic : Text) (p : ℤ) (b : Topics) (l : Log)
    → (topic == []) ≡ false
    → lookup (log_key topic p) b.logs ≡ some l
    → log_for calls topic p b ≡ some (inl l, b)
unfolding log_for
log_for-there calls topic p b l named there = rw (log_for, named, there)

-- The log that `logFor` returns is the one that it returns from then on, whatever the operating system
-- would answer.
pub log_for-again :
    (calls later : OpenCalls) (topic : Text) (p : ℤ) (b c : Topics) (l : Log)
    → log_for calls topic p b ≡ some (inl l, c)
    → log_for later topic p c ≡ some (inl l, c)
unfolding log_for
log_for-again calls later topic p b c l e = elim (Bool-cases (topic == [])) [
  | inl empty ↦
      let refused : log_for calls topic p b ≡ some (inr empty_topic, b) = rw (log_for, empty) in
      absurd (cc (e, refused))
  | inr named ↦ elim (Option-cases (lookup (log_key topic p) b.logs)) [
    | inr (m, there) ↦
        let first = log_for-there calls topic p b m named there in
        let state : b ≡ c = cc (e, first) in
        let log : m ≡ l = cc (e, first) in
        log_for-there later topic p c l named
          (ap (λ (d : Topics). lookup (log_key topic p) d.logs) (sym state) ∙ there ∙ ap some log)
    | inl absent ↦ elim (Option-cases (open_log calls (content (file_name topic p) b.files))) [
      | inl stuck ↦ absurd (open_log-ne-none calls (content (file_name topic p) b.files) stuck)
      | inr (r, opens) ↦
          let first : log_for calls topic p b
              ≡ some (kept (log_key topic p) (file_name topic p) b r) =
            rw (log_for, named, absent, opens) in
          log_for-there later topic p c l named
            (kept-inl (log_key topic p) (file_name topic p) b c r l (cc (e, first)))
    ]
  ]
]

-- Every mutex was made, and no two keys have the same one.
pub record IsLocks (b : Topics) : Type 0 where
  pub made : (key : Text) (m : ℕ) → lookup key b.prod_locks ≡ some m → m < b.locks_made
  pub own :
      (key other : Text) (m : ℕ)
      → lookup key b.prod_locks ≡ some m
      → lookup other b.prod_locks ≡ some m
      → key ≡ other

module _ (topic : Text) (p : ℤ) (b : Topics) where
  abbrev own_key : Text
  own_key = log_key topic p

  abbrev found : ℕ × Topics
  found = produce_lock topic p b

  produce_lock-there : (m : ℕ) → lookup own_key b.prod_locks ≡ some m → found ≡ (m, b)
  unfolding produce_lock
  produce_lock-there m there = rw (produce_lock, there)

  produce_lock-absent :
      lookup own_key b.prod_locks ≡ none
      → found ≡ (
        b.locks_made,
        record b {
          prod_locks = insert own_key b.locks_made b.prod_locks;
          locks_made = suc b.locks_made;
        },
      )
  unfolding produce_lock
  produce_lock-absent absent = rw (produce_lock, absent)

  produce_lock-lookup : lookup own_key found.1.prod_locks ≡ some found.0
  produce_lock-lookup = elim (Option-cases (lookup own_key b.prod_locks)) [
    | inr (m, there) ↦ rw (produce_lock-there m there) there
    | inl absent ↦
        rw (produce_lock-absent absent) (lookup-insert_same own_key b.locks_made b.prod_locks)
  ]

  -- A lock that is there stays.
  produce_lock-keeps :
      (other : Text) (m : ℕ)
      → lookup other b.prod_locks ≡ some m
      → lookup other found.1.prod_locks ≡ some m
  produce_lock-keeps other m held = elim (Option-cases (lookup own_key b.prod_locks)) [
    | inr (n, there) ↦ rw (produce_lock-there n there) held
    | inl absent ↦ rw (produce_lock-absent absent) (
        ground (
          arith,
          held,
          absent,
          lookup-insert own_key other b.locks_made b.prod_locks,
          list_beq_iff own_key other,
        ))
  ]

  produce_lock-IsLocks : IsLocks b → IsLocks found.1
  produce_lock-IsLocks h = elim (Option-cases (lookup own_key b.prod_locks)) [
    | inr (n, there) ↦ rw (produce_lock-there n there) h
    | inl absent ↦ rw (produce_lock-absent absent) (record {
      made = λ k m e. ground (
        arith,
        e,
        h.made k m,
        lookup-insert own_key k b.locks_made b.prod_locks,
        list_beq_iff own_key k,
      );
      own = λ k other m e f. ground (
        arith,
        e,
        f,
        h.made k m,
        h.made other m,
        h.own k other m,
        lookup-insert own_key k b.locks_made b.prod_locks,
        lookup-insert own_key other b.locks_made b.prod_locks,
        list_beq_iff own_key k,
        list_beq_iff own_key other,
      );
    })
  ]

-- Two writers wait for the same mutex exactly if they write to the same partition of the same topic, and
-- the locks stay as they should be.
pub produce_lock-excludes :
    (t u : Text) (p q : ℤ) (b : Topics)
    → IsLocks b
    → let first = produce_lock t p b in
      let second = produce_lock u q first.1 in
      ((first.0 ≡ second.0) ↔ ((t ≡ u) × (p ≡ q))) × IsLocks second.1
produce_lock-excludes t u p q b h =
    let first = produce_lock t p b in
    let second = produce_lock u q first.1 in
    let kept = produce_lock-IsLocks u q first.1 (produce_lock-IsLocks t p b h) in
    let one = produce_lock-keeps u q first.1 (log_key t p) first.0 (produce_lock-lookup t p b) in
    let two = produce_lock-lookup u q first.1 in
    (
      (
        λ same.
            log_key-injective t u p q
              (kept.own (log_key t p) (log_key u q) first.0 one (two ∙ ap some (sym same))),
        λ same. cc (one, two, same.0, same.1),
      ),
      kept,
    )
