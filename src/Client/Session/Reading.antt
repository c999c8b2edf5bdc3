-- ===== src/Client/Session/Reading.antt =====
-- `Fetch` of internal/client/client.go at the broker of the partition, and behind a `Produce`.
use trixps.Prelude.{
  ◌⊎◌, inl, inr, ℕ, zero, suc, ◌+◌, ◌≤◌, ◌≡◌, refl, sym, ◌∙◌, Bool-cases, Option-cases, none, List,
  [], ◌∷◌, ◌++◌, length, drop, All, arith, ◌==◌, list_eq, nat_eq,
}
use mathlib.Core.Path.{subst}
use trixps.Prelude.Int.{ℤ, int_eq}
use trixps.Prelude.Map.{lookup}
use trixps.Prelude.Text.{Text}
use trixps.Metadata.{Cluster, clone}
use trixps.Storage.Codec.{Record}
use trixps.Storage.Log.{Log, add64}
use trixps.Storage.Log.Layout.{Holds, IsNumbered}
use trixps.Storage.Log.Append.{written}
use trixps.Storage.Log.Read.{readable, limited, limited-one, read_from-Holds}
use trixps.Broker.Config.{Config}
use trixps.Broker.Link.{Fate, delivered, request_lost, reply_lost}
use trixps.Broker.Replication.{World, Sides}
use trixps.Broker.Service
use trixps.Broker.Service.{Refusal, not_found, not_leader}
use trixps.Broker.Service.Consumer.{all_fetched, behind, reply_with-all}
use trixps.Client.{Err, produce, fetch, attempt}
use trixps.Prelude.Results.{Ended, ended-inl}
use trixps.Client.Keeps.{attempt-Ended, retry-Ended}
use trixps.Client.Session.{
  Session, Trouble, refused, Moments, came_back, left_behind, fetching, serve, fetch_now, session,
}
use trixps.Client.Session.Delivery.{IsCopy, Roomy, produce-Delivered}
use trixps.Rpc.{ProduceArgs, FetchArgs, FetchReply}

module _ (w : World) (cfg : Config) (m : Moments) (reads : w.reads ≡ readable) (args : FetchArgs)
    (recs : List Record) where
  -- The records from the offset on, as many as the limit allows.
  abbrev pub wanted : FetchReply
  wanted = record {
    records = all_fetched (limited args.max (drop args.offset recs));
    next_offset = behind args.offset (limited args.max (drop args.offset recs));
  }

  -- The leader answers with them, and any other broker refuses.
  fetched_or_refused :
      (fsm : Cluster) (l : Log)
      → Holds recs [] l
      → let o = fetching (Service.fetch w.reads cfg fsm args l) in
        (o ≡ inl wanted) ⊎ ((x : Trouble) × (o ≡ inr x))
  unfolding Service.fetch
  fetched_or_refused fsm l h = elim (Option-cases (lookup args.partition (clone fsm).partitions)) [
    | inl absent ↦ inr (refused (not_found args.partition), rw (Service.fetch, absent))
    | inr (asg, there) ↦ elim (Bool-cases (asg.leader == cfg.id)) [
      | inr other ↦
          inr (refused (not_leader args.partition asg.leader), rw (Service.fetch, there, other))
      | inl leads ↦ inl (
          rw (
            Service.fetch,
            there,
            leads,
            reads,
            read_from-Holds recs args.offset args.max l h,
            reply_with-all (limited args.max (drop args.offset recs)) [] args.offset,
          ))
    ]
  ]

  module _ (s : Session) (h : Holds recs [] (s.sides args.topic args.partition).leader) where
    abbrev Kept : Session → Type 0
    Kept t = t.sides ≡ s.sides

    abbrev pub Read : FetchReply → Session → Type 0
    Read reply t = (reply ≡ wanted) × Kept t

    same_sides : (f : Fate) (x : Text → ℤ → Sides) → left_behind f x x ≡ x
    same_sides delivered x = refl
    same_sides request_lost x = refl
    same_sides reply_lost x = refl

    comes_back :
        (f : Fate) (o : FetchReply ⊎ Trouble) (t : Session)
        → Kept t
        → (o ≡ inl wanted) ⊎ ((x : Trouble) × (o ≡ inr x))
        → Ended Kept Read (came_back f o, t)
    comes_back delivered (inl r) t k (inl e) = (cc e, k)
    comes_back delivered (inl r) t k (inr (x, e)) = absurd (cc e)
    comes_back delivered (inr x) t k answers = k
    comes_back request_lost o t k answers = k
    comes_back reply_lost o t k answers = k

    call-Ended :
        (addr : Text) (t : Session)
        → Kept t
        → Ended Kept Read (serve w cfg m (fetch_now w cfg m args) addr t)
    call-Ended addr t k = elim (Bool-cases (addr == m.own)) [
      | inl own ↦ rw own (
          comes_back (m.fate t.now)
            (fetching (
              Service.fetch w.reads cfg (m.fsm t.now) args
                (t.sides args.topic args.partition).leader))
            _ (same_sides (m.fate t.now) t.sides ∙ k)
            (fetched_or_refused (m.fsm t.now) (t.sides args.topic args.partition).leader (
              subst (λ (x : Text → ℤ → Sides). Holds recs [] (x args.topic args.partition).leader)
                (sym k) h)))
      | inr other ↦ rw other k
    ]

    -- A client's `Fetch` to the broker of a partition, over connections that fail and calls that are
    -- lost, whatever the brokers answer to `Metadata`: what it returns are the leader's records from the
    -- offset on, as many as the limit allows, and whether it fails or not the logs are as they were.
    pub fetch-Ended :
        (brokers : List Text)
        → Ended {X = Err Trouble} Kept Read (fetch (session w cfg m) brokers args s)
    unfolding fetch
    fetch-Ended brokers =
        let net = session w cfg m in
        let ask = λ (addr : Text). net.fetch addr args in
        retry-Ended net (attempt net brokers args.partition ask) (λ _. Kept) Read 8
          (λ k t below c.
            attempt-Ended net Kept (λ addr t' c'. c') (λ addr t' c'. c') Kept Read brokers
              args.partition ask (λ t' c'. c') call-Ended t c)
          (λ k t c. c) 8 0 none s refl refl

-- The last of some records, where all behind the first ones are copies.
last-IsCopy :
    (args : ProduceArgs) (recs copies : List Record) (k o : ℕ)
    → suc o ≡ length (recs ++ copies)
    → length recs ≤ o
    → IsNumbered k (recs ++ copies)
    → All (IsCopy args) copies
    → (r : Record) × (drop o (recs ++ copies) ≡ r ∷ []) × (r.offset ≡ k + o) × IsCopy args r
last-IsCopy args [] [] k o e le num all = absurd (omega (arith, e))
last-IsCopy args [] (r ∷ []) k o e le num all =
    let z : o ≡ 0 = omega (arith, e) in (r, rw z, omega (arith, num.0, z), all.0)
last-IsCopy args [] (r ∷ (r' ∷ rs)) k zero e le num all = absurd (omega (arith, e))
last-IsCopy args [] (r ∷ (r' ∷ rs)) k (suc o) e le num all =
    let (x, d, n, c) =
      last-IsCopy args [] (r' ∷ rs) (suc k) o (omega (arith, e)) (omega arith) num.1 all.1 in
    (x, d, omega (arith, n), c)
last-IsCopy args (r ∷ recs) copies k zero e le num all = absurd (omega (arith, le))
last-IsCopy args (r ∷ recs) copies k (suc o) e le num all =
    let (x, d, n, c) =
      last-IsCopy args recs copies (suc k) o (omega (arith, e)) (omega (arith, le)) num.1 all in
    (x, d, omega (arith, n), c)

module _ (w : World) (cfg : Config) (m : Moments) (reads : w.reads ≡ readable)
    (ready : w.leader_writes ≡ (λ _. written)) (recs : List Record) (args : ProduceArgs)
    (roomy : Roomy recs args m.clock) (s : Session)
    (h : Holds recs [] (s.sides args.topic args.partition).leader) where
  -- A client's `Produce` returned an offset, over whichever connections, where the leader's log of
  -- the topic and partition held some records, its own writes and reads succeed and there was room for
  -- 8 more. Where a `Fetch` of this topic and partition from that offset on then returns anything, it
  -- returns one record, whatever its limit: the one at the offset, with the key and the value that
  -- were sent.
  pub produce-fetch :
      (brokers brokers' : List Text) (o : ℕ) (max : ℤ) (reply : FetchReply)
      → let net = session w cfg m in
        let sent = produce net brokers args s in
        sent.0 ≡ inl o
        → (fetch net brokers'
            (record { topic = args.topic; partition = args.partition; offset = o; max = max })
            sent.1).0
          ≡ inl reply
        → (ts : ℕ) × (reply ≡ record {
          records = record { offset = o; key = args.key; value = args.value; ts_nano = ts } ∷ [];
          next_offset = add64 o 1;
        })
  produce-fetch brokers brokers' o max reply sent got =
      let net = session w cfg m in
      let out = produce net brokers args s in
      let ask : FetchArgs = record {
        topic = args.topic;
        partition = args.partition;
        offset = o;
        max = max;
      } in
      let (c, end, behind_recs) =
        ended-inl _ _ out o sent (produce-Delivered recs args m roomy w cfg ready brokers s h) in
      let all = recs ++ c.copies in
      let (r, last, n, (key, value)) =
        last-IsCopy args recs c.copies 0 o (end ∙ c.holds.next_off) behind_recs c.holds.numbered
          c.same in
      let (answer, kept) =
        ended-inl _ _ (fetch net brokers' ask out.1) reply got
          (fetch-Ended w cfg m reads ask all out.1 c.holds brokers') in
      let there : r.offset ≡ o = omega (arith, n) in
      (r.ts_nano, answer ∙ rw (last, limited-one max r, there, key, value))
