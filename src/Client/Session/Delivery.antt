-- ===== src/Client/Session/Delivery.antt =====
-- What `Produce` of internal/client/client.go leaves in the leader's log, whichever connections and calls
-- fail on the way.
use trixps.Prelude.{
  ◌⊎◌, inl, inr, ℕ, suc, ◌+◌, ◌*◌, ◌^◌, ◌≤◌, ◌<◌, ◌≡◌, refl, sym, ap, Bool-cases, true, none, List,
  [], ◌∷◌, ◌++◌, length, All, arith, length-append, append_assoc, append-nil, ◌==◌, list_eq, nat_eq,
}
use mathlib.Core.Path.{subst}
use trixps.Prelude.Text.{Text}
use trixps.Storage.Codec.{Record, encode_record}
use trixps.Storage.Codec.RoundTrip.{length-encode_record}
use trixps.Storage.Log.{Log}
use trixps.Storage.Log.Layout.{Holds, encodings}
use trixps.Storage.Log.Append.{written, next_record, Room, encodings-snoc}
use trixps.Broker.Config.{Config}
use trixps.Broker.Link.{Fate, delivered, request_lost, reply_lost, Outcome, done, failed}
use trixps.Broker.Replication
use trixps.Broker.Replication.{World, Sides}
use trixps.Broker.Replication.Runs.{Stepped, produce-Stepped}
use trixps.Client.{Err, produce, taking, attempt}
use trixps.Prelude.Results.{Ended}
use trixps.Client.Keeps.{taking-Ended, attempt-Ended, retry-Ended}
use trixps.Client.Session.{
  Session, Trouble, Moments, came_back, left_behind, replying, serve, produce_now, session, put,
  put-own,
}
use trixps.Rpc.{ProduceArgs, ProduceReply}

-- A record with the key and the value of the call.
abbrev pub IsCopy : ProduceArgs → Record → Type 0
IsCopy args r = (r.key ≡ args.key) × (r.value ≡ args.value)

-- Behind `recs` the log has only copies of the record, `most` at most.
pub record Copies (recs : List Record) (args : ProduceArgs) (most : ℕ) (l : Log) : Type 0 where
  pub copies : List Record
  pub few : length copies ≤ most
  pub same : All (IsCopy args) copies
  pub holds : Holds (recs ++ copies) [] l
  pub bytes : length (encodings (recs ++ copies)) ≤ length (encodings recs) + most * 2 ^ 34

-- The fields of the record fit, whatever the clock shows, and there is room for 8 copies.
pub record Roomy (recs : List Record) (args : ProduceArgs) (clock : ℕ → ℕ) : Type 0 where
  pub key : length args.key < 2 ^ 32
  pub value : length args.value < 2 ^ 32
  pub clocks : (t : ℕ) → clock t < 2 ^ 64
  pub count : length recs + 8 < 2 ^ 64
  pub bytes : length (encodings recs) + 2 ^ 37 < 2 ^ 64

All-snoc {ℓ κ} :
    {A : Type ℓ} (P : A → Type κ) (xs : List A) (y : A) → All P xs → P y → All P (xs ++ (y ∷ []))
All-snoc P [] y all h = (h, tt)
All-snoc P (x ∷ xs) y all h = (all.0, All-snoc P xs y all.1 h)

module _ (recs : List Record) (args : ProduceArgs) (m : Moments)
    (roomy : Roomy recs args m.clock) where
  start-Copies : (l : Log) → Holds recs [] l → Copies recs args 0 l
  start-Copies l h = record {
    copies = [];
    few = omega arith;
    same = tt;
    holds = rw (append-nil recs) h;
    bytes = rw (append-nil recs) (omega arith);
  }

  more-Copies : (k n : ℕ) → k ≤ n → (l : Log) → Copies recs args k l → Copies recs args n l
  more-Copies k n le l c = record {
    copies = c.copies;
    few = omega (arith, le, c.few);
    same = c.same;
    holds = c.holds;
    bytes = omega (arith, le, c.bytes);
  }

  module _ (k : ℕ) (below : k < 8) (l : Log) (c : Copies recs args k l) (t : ℕ) where
    abbrev new : Record
    new = next_record (recs ++ c.copies) args.key args.value (m.clock t)

    new-Room : Room (recs ++ c.copies) new
    new-Room = (
      record {
        offset_fits = omega (arith, roomy.count, c.few, length-append recs c.copies);
        key_fits = roomy.key;
        value_fits = roomy.value;
        ts_nano_fits = roomy.clocks t;
      },
      omega (arith, roomy.count, c.few, length-append recs c.copies),
      omega (arith, roomy.bytes, roomy.key, roomy.value, c.bytes, length-encode_record new),
    )

    one_more-Copies :
        (l' : Log) → Holds ((recs ++ c.copies) ++ (new ∷ [])) [] l' → Copies recs args (suc k) l'
    one_more-Copies l' h =
        let assoc = append_assoc recs c.copies (new ∷ []) in
        record {
          copies = c.copies ++ (new ∷ []);
          few = omega (arith, c.few, length-append c.copies (new ∷ []));
          same = All-snoc (IsCopy args) c.copies new c.same (refl, refl);
          holds = subst (λ (rs : List Record). Holds rs [] l') assoc h;
          bytes = omega (
            arith,
            c.bytes,
            roomy.key,
            roomy.value,
            length-encode_record new,
            ap (λ (rs : List Record). length (encodings rs)) assoc,
            ap length (encodings-snoc (recs ++ c.copies) new),
            length-append (encodings (recs ++ c.copies)) (encode_record new),
          );
        }

  -- A copy at the offset, behind `recs`, is the last record of the log.
  abbrev pub Delivered : ℕ → Log → Type 0
  Delivered o l = Copies recs args 8 l × (suc o ≡ l.next_off) × (length recs ≤ o)

  module _ (w : World) (cfg : Config) (ready : w.leader_writes ≡ (λ _. written)) where
    abbrev Behind : ℕ → Session → Type 0
    Behind k s = Copies recs args k (s.sides args.topic args.partition).leader

    abbrev Found : ℕ → Session → Type 0
    Found o s = Delivered o (s.sides args.topic args.partition).leader

    own_left :
        (f : Fate) (s : Session) (x : Sides)
        → left_behind f s.sides (put args.topic args.partition x s.sides) args.topic args.partition
          ≡ left_behind f (s.sides args.topic args.partition) x
    own_left delivered s x = put-own args.topic args.partition x s.sides
    own_left request_lost s x = refl
    own_left reply_lost s x = put-own args.topic args.partition x s.sides

    -- What a call comes to is seen at the topic and partition.
    Ended-own :
        {R X : Type 0} (P : Sides → Type 0) (Q : R → Sides → Type 0) (a : R ⊎ X) (x : Sides)
        (s : Session)
        → s.sides args.topic args.partition ≡ x
        → Ended P Q (a, x)
        → Ended
            (λ (t : Session). P (t.sides args.topic args.partition))
            (λ (r : R) (t : Session). Q r (t.sides args.topic args.partition))
            (a, s)
    Ended-own P Q (inl r) x s e h = subst (Q r) (sym e) h
    Ended-own P Q (inr y) x s e h = subst P (sym e) h

    module _ (k : ℕ) (below : k < 8) (s : Session) (c : Behind k s) where
      abbrev here : Sides
      here = s.sides args.topic args.partition

      abbrev last : Record
      last = new k below here.leader c s.now

      offset_of :
          (r : ProduceReply)
          → done r ≡ done (record { offset = length (recs ++ c.copies); committed = true })
          → r.offset ≡ length (recs ++ c.copies)
      offset_of r e =
          let same : r ≡ record { offset = length (recs ++ c.copies); committed = true } = cc e in
          ap (λ (q : ProduceReply). q.offset) same

      arrives :
          (f : Fate) (o : Outcome ProduceReply × Sides)
          → Stepped {R = ProduceReply}
              (record { offset = length (recs ++ c.copies); committed = true })
              (recs ++ c.copies)
              last
              here
              o
          → Ended
              (λ (x : Sides). Copies recs args (suc k) x.leader)
              (λ (r : ProduceReply) (x : Sides). Delivered r.offset x.leader)
              (came_back f (replying o.0), left_behind f here o.1)
      arrives delivered (done r, s') (inl (e, h)) =
          let more = one_more-Copies k below here.leader c s.now s'.leader h in
          (
            more-Copies (suc k) 8 (omega arith) s'.leader more,
            omega (arith, offset_of r e, h.next_off, length-append (recs ++ c.copies) (last ∷ [])),
            omega (arith, offset_of r e, length-append recs c.copies),
          )
      arrives delivered (failed x, s') (inl (e, h)) = absurd (cc e)
      arrives request_lost o step = more-Copies k (suc k) (omega arith) here.leader c
      arrives reply_lost o (inl (e, h)) = one_more-Copies k below here.leader c s.now o.1.leader h
      arrives delivered (done r, s') (inr (x, e, same)) = absurd (cc e)
      arrives delivered (failed y, s') (inr (x, e, same)) =
          subst (Copies recs args (suc k)) (sym same)
            (more-Copies k (suc k) (omega arith) here.leader c)
      arrives reply_lost o (inr (x, e, same)) =
          subst (Copies recs args (suc k)) (sym same)
            (more-Copies k (suc k) (omega arith) here.leader c)

      call-Ended :
          (addr : Text)
          → Ended
              (Behind (suc k))
              (λ (r : ProduceReply). Found r.offset)
              (serve w cfg m (produce_now w cfg m args) addr s)
      call-Ended addr = elim (Bool-cases (addr == m.own)) [
        | inl own ↦ rw own (
            let o = Replication.produce w cfg (m.fsm s.now) args (m.clock s.now) here in
            Ended-own (λ (x : Sides). Copies recs args (suc k) x.leader)
              (λ (r : ProduceReply) (x : Sides). Delivered r.offset x.leader)
              (came_back (m.fate s.now) (replying o.0)) (left_behind (m.fate s.now) here o.1)
              (record {
                sides =
                    left_behind (m.fate s.now) s.sides (put args.topic args.partition o.1 s.sides);
                now = suc s.now;
              })
              (own_left (m.fate s.now) s o.1)
              (arrives (m.fate s.now) o (
                produce-Stepped w cfg (m.fsm s.now) ready
                  (record { args = args; ts = m.clock s.now }) (recs ++ c.copies) here c.holds
                  (new-Room k below here.leader c s.now))))
        | inr other ↦ rw other (more-Copies k (suc k) (omega arith) here.leader c)
      ]

    -- A client's `Produce` to the broker of a partition, over connections that fail and calls that
    -- are lost on the way or back, whatever the brokers answer to `Metadata`, where the leader's
    -- log of the topic and partition holds some records, its own writes succeed and there is room for
    -- 8 more. If it returns an offset, this log has behind these records 1 to 8 copies of the record,
    -- and the last record of the log is the copy at that offset. If it fails, the log has behind these
    -- records at most 8 copies and nothing else.
    pub produce-Delivered :
        (brokers : List Text) (s : Session)
        → Holds recs [] (s.sides args.topic args.partition).leader
        → Ended {X = Err Trouble} (Behind 8) Found (produce (session w cfg m) brokers args s)
    unfolding produce
    produce-Delivered brokers s h =
        let net = session w cfg m in
        let ask = λ (addr : Text) (t : Session).
          taking net (λ (reply : ProduceReply). reply.offset) (net.produce addr args t) in
        retry-Ended net (attempt net brokers args.partition ask) Behind Found 8
          (λ k t below c.
            attempt-Ended net (Behind k) (λ addr t' c'. c') (λ addr t' c'. c') (Behind (suc k))
              Found brokers args.partition ask
              (λ t' c'.
                more-Copies k (suc k) (omega arith) (t'.sides args.topic args.partition).leader c')
              (λ addr t' c'.
                taking-Ended net (Behind (suc k)) Found (λ (r : ProduceReply). r.offset)
                  (net.produce addr args t') (call-Ended k below t' c' addr))
              t c)
          (λ k t c. c) 8 0 none s refl (start-Copies (s.sides args.topic args.partition).leader h)
