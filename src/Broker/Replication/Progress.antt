-- ===== src/Broker/Replication/Progress.antt =====
-- How far the calls of internal/broker/replication.go bring a follower's log, whatever becomes of them.
use mathlib.Core.Path.{subst}
use trixps.Prelude.{
  ℕ, zero, suc, ◌+◌, ◌^◌, ◌<◌, ◌≡◌, refl, sym, ap, ◌∙◌, Bool, true, List, [], ◌∷◌, ◌++◌, length,
  take, All, arith, if◌then◌else◌, length-append, append_assoc, append-nil, drop_all, take_all,
}
use trixps.Prelude.Int.{ℤ}
use trixps.Prelude.Text.{Text}
use trixps.Storage.Codec.{Record, Fits, Result, ok, encode_record}
use trixps.Storage.Log.{Log, append_at}
use trixps.Storage.Log.Layout.{encodings, IsNumbered, Holds}
use trixps.Storage.Log.Append.{
  written, next_record, Room, append_at-next, append_at-known, encodings-snoc,
}
use trixps.Broker.Link.{
  Link, Fate, delivered, request_lost, reply_lost, Outcome, done, failed, not_acknowledged, replied,
  served, call, drop_client, if_done,
}
use trixps.Broker.Service.{replicate}
use trixps.Broker.Replication.{World, acknowledged, send_replicate, send_missing}

-- There is room behind `recs` for `more`.
pub record Space (recs more : List Record) : Type 0 where
  pub fits : All Fits more
  pub count : length recs + length more < 2 ^ 64
  pub bytes : length (encodings recs) + length (encodings more) < 2 ^ 64

-- All calls are answered and all connections open.
abbrev pub AllWell : World → Type 0
AllWell w = ((k : ℕ) → w.fate k ≡ delivered) × ((k : ℕ) → w.dials k ≡ true)

-- The follower held `recs`, was to get `more`, and holds the first `count` of them; all of them if
-- the outcome is no error. There is none if `Well`.
pub record Progress (Well : Type 0) (recs more : List Record) (o : Outcome (Unit {0})) (n : Link)
    : Type 0 where
  pub count : ℕ
  pub holds : Holds (recs ++ take count more) [] n.follower
  pub whole : o ≡ done tt → take count more ≡ more
  pub sure : Well → o ≡ done tt

module _ (recs : List Record) (r : Record) (more : List Record)
    (space : Space recs (r ∷ more)) where
  pub Space-Room : Room recs r
  Space-Room = (
    space.fits.0,
    omega (arith, space.count),
    omega (arith, space.bytes, length-append (encode_record r) (encodings more)),
  )

  pub Space-rest : Space (recs ++ (r ∷ [])) more
  Space-rest = record {
    fits = space.fits.1;
    count = omega (arith, space.count, length-append recs (r ∷ []));
    bytes = omega (
      arith,
      space.bytes,
      length-append (encode_record r) (encodings more),
      ap length (encodings-snoc recs r),
      length-append (encodings recs) (encode_record r),
    );
  }

-- A record that has the next offset is appended as it is.
pub append_at_numbered :
    (recs : List Record) (r : Record) (l : Log)
    → Holds recs [] l
    → r.offset ≡ length recs
    → Room recs r
    → (l' : Log) × (append_at written r.offset r.key r.value r.ts_nano l ≡ (ok tt, l'))
      × Holds (recs ++ (r ∷ [])) [] l'
append_at_numbered recs r l h next room =
    let same : next_record recs r.key r.value r.ts_nano ≡ r =
      ap (λ (o : ℕ). record r { offset = o }) (sym next) in
    let (l', e, h') =
      append_at-next recs [] r.key r.value r.offset r.ts_nano l h next
        (subst (Room recs) (sym same) room) in
    (
      l',
      e,
      subst (λ (x : Record). Holds (recs ++ (x ∷ [])) [] l') same
          (subst
            (λ (t : Text). Holds (recs ++ (next_record recs r.key r.value r.ts_nano ∷ [])) t l')
            (drop_all (length (encode_record (next_record recs r.key r.value r.ts_nano))) []
              (omega arith))
            h'),
    )

-- Nothing was to be done.
pub none-Progress :
    (Well : Type 0) (recs : List Record) (n : Link)
    → Holds recs [] n.follower
    → Progress Well recs [] (done tt) n
none-Progress Well recs n h = record {
  count = 0;
  holds = rw (append-nil recs) h;
  whole = λ _. refl;
  sure = λ _. refl;
}

take-append_add : (xs ys : List Record) (k : ℕ) → take (length xs + k) (xs ++ ys) ≡ xs ++ take k ys
take-append_add [] ys k = let e : 0 + k ≡ k = omega arith in rw e
take-append_add (x ∷ xs) ys k =
    let e : suc (length xs) + k ≡ suc (length xs + k) = omega arith in
    rw (e, take-append_add xs ys k)

-- What is taken of the front is taken of the whole.
take_front : (k : ℕ) (xs ys : List Record) → take (length (take k xs)) (xs ++ ys) ≡ take k xs
take_front zero xs ys = refl
take_front (suc k) [] ys = refl
take_front (suc k) (x ∷ xs) ys = rw (take_front k xs ys)

pub weaken-Progress :
    {Well Better : Type 0} {recs more : List Record} {o : Outcome (Unit {0})} {n : Link}
    → (Better → Well)
    → Progress Well recs more o n
    → Progress Better recs more o n
weaken-Progress f h = record {
  count = h.count;
  holds = h.holds;
  whole = h.whole;
  sure = λ b. h.sure (f b);
}

-- A step after another, where an error of the first is the end.
pub if_done-Progress :
    (Well : Type 0) (m : Outcome (Unit {0}) × Link) (next : Link → Outcome (Unit {0}) × Link)
    (recs front back : List Record)
    → Progress Well recs front m.0 m.1
    → (Holds (recs ++ front) [] m.1.follower
        → Progress Well (recs ++ front) back (next m.1).0 (next m.1).1)
    → let o = if_done m (λ _ n. next n) in Progress Well recs (front ++ back) o.0 o.1
if_done-Progress Well (done u, n) next recs front back first rest =
    let all : Holds (recs ++ front) [] n.follower =
      subst (λ (t : List Record). Holds (recs ++ t) [] n.follower) (first.whole refl) first.holds in
    let q = rest all in
    record {
      count = length front + q.count;
      holds =
          rw (take-append_add front back q.count, ← append_assoc recs front (take q.count back))
            q.holds;
      whole = λ e.
          take-append_add front back q.count ∙ ap (λ (t : List Record). front ++ t) (q.whole e);
      sure = q.sure;
    }
if_done-Progress Well (failed e, n) next recs front back first rest = record {
  count = length (take first.count front);
  holds = rw (take_front first.count front back) first.holds;
  whole = λ q. cc;
  sure = λ well. first.sure well;
}

module _ (Well : Type 0) {R : Type 0} (ack : R → Bool) (addr : Text) (recs more : List Record)
    (reply : R) (good : ack reply ≡ true) (n : Link) (l : Log) (h : Holds recs [] n.follower)
    (h' : Holds (recs ++ more) [] l) where
  -- What an answered call, a lost one and one with a lost answer come to.
  settled-Progress :
      (f : Fate)
      → (Well → f ≡ delivered)
      → let o = acknowledged ack addr (
        replied f (ok reply),
        record n { called = suc n.called; follower = served f (ok reply, l) n.follower },
      ) in
        Progress Well recs more o.0 o.1
  unfolding drop_client
  settled-Progress delivered well = record {
    count = length more;
    holds = rw (take_all (length more) more (omega arith)) h';
    whole = λ _. take_all (length more) more (omega arith);
    sure = λ _. ap (λ (b : Bool). if b then done tt else failed not_acknowledged) good;
  }
  settled-Progress request_lost well = record {
    count = 0;
    holds = rw (append-nil recs) h;
    whole = λ e. cc;
    sure = λ q. cc (well q);
  }
  settled-Progress reply_lost well = record {
    count = length more;
    holds = rw (take_all (length more) more (omega arith)) h';
    whole = λ e. cc;
    sure = λ q. cc (well q);
  }

  pub call-Progress :
      (fate : ℕ → Fate) (handler : Log → Result R × Log)
      → (Well → fate n.called ≡ delivered)
      → handler n.follower ≡ (ok reply, l)
      → let o = acknowledged ack addr (call fate handler n) in Progress Well recs more o.0 o.1
  unfolding call
  call-Progress fate handler well e = rw (call, e) (settled-Progress (fate n.called) well)

module _ (w : World) (addr topic : Text) (p : ℤ) (ready : w.follower_writes ≡ (λ _. written)) where
  -- A record with the follower's next offset.
  pub send_replicate-Progress :
      (recs : List Record) (r : Record) (n : Link)
      → Holds recs [] n.follower
      → r.offset ≡ length recs
      → Room recs r
      → let o = send_replicate w addr topic p r.offset r.key r.value r.ts_nano n in
        Progress (AllWell w) recs (r ∷ []) o.0 o.1
  unfolding send_replicate replicate
  send_replicate-Progress recs r n h next room =
      let (l', e, h') = append_at_numbered recs r n.follower h next room in
      call-Progress (AllWell w) _ addr recs (r ∷ []) (record { ack = true }) refl n l' h h' w.fate _
        (λ well. well.0 n.called) (rw (replicate, ready, e))

  -- A record that the follower has an offset for already.
  pub send_replicate-known :
      (recs : List Record) (offset : ℕ) (key value : Text) (ts_nano : ℕ) (n : Link)
      → Holds recs [] n.follower
      → offset < length recs
      → let o = send_replicate w addr topic p offset key value ts_nano n in
        Progress (AllWell w) recs [] o.0 o.1
  unfolding send_replicate replicate
  send_replicate-known recs offset key value ts_nano n h there =
      call-Progress (AllWell w) _ addr recs [] (record { ack = true }) refl n n.follower h
        (rw (append-nil recs) h) w.fate _ (λ well. well.0 n.called)
        (rw (
          replicate,
          append_at-known recs [] key value offset ts_nano n.follower h (w.follower_writes offset)
              there,
        ))

  pub send_missing-Progress :
      (more recs : List Record) (n : Link)
      → Holds recs [] n.follower
      → IsNumbered (length recs) more
      → Space recs more
      → let o = send_missing w addr topic p more n in Progress (AllWell w) recs more o.0 o.1
  unfolding send_missing
  send_missing-Progress [] recs n h num space = none-Progress (AllWell w) recs n h
  send_missing-Progress (r ∷ more) recs n h num space =
      if_done-Progress (AllWell w)
        (send_replicate w addr topic p r.offset r.key r.value r.ts_nano n)
        (send_missing w addr topic p more) recs (r ∷ []) more
        (send_replicate-Progress recs r n h num.0 (Space-Room recs r more space))
        (λ h'.
          send_missing-Progress more (recs ++ (r ∷ [])) _ h'
            (subst (λ (k : ℕ). IsNumbered k more) (omega (arith, length-append recs (r ∷ [])))
              num.1)
            (Space-rest recs r more space))
