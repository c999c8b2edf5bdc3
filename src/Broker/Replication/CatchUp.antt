-- ===== src/Broker/Replication/CatchUp.antt =====
-- `replicateToFollower` of internal/broker/replication.go, whatever becomes of the calls.
use mathlib.Core.Path.{subst}
use native.Mathlib.Decide.{dec_lt}
use trixps.Prelude.{
  ℕ, zero, suc, ◌-◌, ◌^◌, ◌≤◌, ◌<◌, ◌≡◌, ◌≢◌, refl, sym, ap, ◌∙◌, Bool, Bool-cases, true, List, [],
  ◌∷◌, ◌++◌, inl, inr, length, drop, arith, ltb, drop-append_le, All-split, length-append,
  append-nil, drop_all, take_all, length-drop, ◌==◌, nat_eq, list_eq, list_beq_iff,
}
use trixps.Prelude.Int.{ℤ, to_int}
use trixps.Prelude.Text.{Text}
use trixps.Storage.Codec.{Record, Fits, ok}
use trixps.Storage.Log.{Log}
use trixps.Storage.Log.Layout.{encodings, encodings-append, IsNumbered, IsNumbered-drop, Holds}
use trixps.Storage.Log.Append.{written, next_record}
use trixps.Storage.Log.Read.{readable, limited, read_from-Holds}
use trixps.Broker.Link.{
  Link, Fate, delivered, request_lost, reply_lost, Failure, Outcome, done, failed, replied, served,
  call, dial, drop_client, if_done,
}
use trixps.Broker.Service.{follower_state}
use trixps.Broker.Replication.{World, stated, ask, missing_from, replicate_to_follower}
use trixps.Broker.Replication.Progress.{
  weaken-Progress, AllWell, Space, Progress, if_done-Progress, send_missing-Progress,
  send_replicate-Progress, send_replicate-known, Space-Room,
}

dial-follower :
    (dials : ℕ → Bool) (addr : Text) (n : Link) → (dial dials addr n).1.follower ≡ n.follower
unfolding dial
dial-follower dials addr n = ground arith

stated-follower :
    (addr : Text) (f : Fate) (n : Link)
    → let m = stated addr (
      replied f (ok (follower_state n.follower)),
      record n {
        called = suc n.called;
        follower = served f (ok (follower_state n.follower), n.follower) n.follower;
      },
    ) in
      (m.1.follower ≡ n.follower) × ((k : ℕ) → m.0 ≡ done k → k ≡ n.follower.next_off)
unfolding drop_client follower_state
stated-follower addr delivered n = (refl, λ k e. ground arith)
stated-follower addr request_lost n = (refl, λ k e. cc)
stated-follower addr reply_lost n = (refl, λ k e. cc)

dial-sure :
    (dials : ℕ → Bool) (addr : Text) (n : Link)
    → ((k : ℕ) → dials k ≡ true)
    → (e : Failure) → (dial dials addr n).0 ≢ failed e
unfolding dial
dial-sure dials addr n open_all e = ground (arith, open_all n.dialed)

stated-sure :
    (addr : Text) (f : Fate) (n m : Link) (e : Failure)
    → f ≡ delivered
    → (stated addr (replied f (ok (follower_state n.follower)), m)).0 ≢ failed e
stated-sure addr delivered n m e well q = cc
stated-sure addr request_lost n m e well q = cc
stated-sure addr reply_lost n m e well q = cc

ask-sure :
    (w : World) (addr topic : Text) (p : ℤ) (n : Link)
    → AllWell w
    → (e : Failure) → (ask w addr topic p n).0 ≢ failed e
unfolding ask call
ask-sure w addr topic p n well e = stated-sure addr (w.fate n.called) n _ e (well.0 n.called)

-- Asking the follower changes nothing, and the answer is its next offset.
ask-follower :
    (w : World) (addr topic : Text) (p : ℤ) (n : Link)
    → ((ask w addr topic p n).1.follower ≡ n.follower)
      × ((k : ℕ) → (ask w addr topic p n).0 ≡ done k → k ≡ n.follower.next_off)
unfolding ask call
ask-follower w addr topic p n = stated-follower addr (w.fate n.called) n

-- A step that leaves the follower's log, before the others.
if_done-kept {ℓ} :
    {A : Type ℓ} (Well : Type 0) (m : Outcome A × Link)
    (next : A → Link → Outcome (Unit {0}) × Link) (recs more : List Record)
    → Holds recs [] m.1.follower
    → (Well → (e : Failure) → m.0 ≢ failed e)
    → ((a : A) → m.0 ≡ done a → Progress Well recs more (next a m.1).0 (next a m.1).1)
    → let o = if_done m next in Progress Well recs more o.0 o.1
if_done-kept Well (done a, n) next recs more h well rest = rest a refl
if_done-kept Well (failed e, n) next recs more h well rest = record {
  count = 0;
  holds = rw (append-nil recs) h;
  whole = λ q. cc;
  sure = λ q. absurd (well q e refl);
}

limited-to_int : (k : ℕ) (xs : List Record) → 0 < k → length xs ≤ k → limited (to_int k) xs ≡ xs
limited-to_int zero xs positive le = absurd (omega arith)
limited-to_int (suc k) xs positive le = elim (Bool-cases (ltb (suc k) (2 ^ 63))) [
  | inl small ↦ rw (small, take_all (suc k) xs le)
  | inr large ↦ rw large
]

-- What is read for the catch-up: all that the follower does not have.
pub missing_from-Holds :
    (w : World) (addr topic : Text) (p : ℤ) (recs : List Record) (l : Log) (next offset : ℕ)
    → w.reads ≡ readable
    → Holds recs [] l
    → offset ≡ length recs
    → missing_from w addr topic p l next offset ≡ done (drop next recs)
unfolding missing_from
missing_from-Holds w addr topic p recs l next offset reads h at_end =
    elim (Bool-cases (ltb next offset)) [
      | inl behind ↦ rw (
        missing_from,
        behind,
        reads,
        read_from-Holds recs next (to_int (offset - next)) l h,
        limited-to_int (offset - next) (drop next recs) (ground arith)
            (omega (arith, length-drop next recs)),
      )
      | inr level ↦ rw (missing_from, level, drop_all next recs (ground arith))
    ]

module _ (w : World) (addr topic : Text) (p : ℤ) (reads : w.reads ≡ readable) where
  -- The pieces of a replication, one after the other: a way to send what is missing, and a way to send
  -- the new.
  pub steps-Progress :
      (sends : List Record → Link → Outcome (Unit {0}) × Link)
      (last : Link → Outcome (Unit {0}) × Link) (held front back recs : List Record) (l : Log)
      (n : Link)
      → Holds recs [] l
      → Holds held [] n.follower
      → drop (length held) recs ≡ front
      → ((m : Link)
          → Holds held [] m.follower
          → Progress (AllWell w) held front (sends front m).0 (sends front m).1)
      → ((m : Link)
          → Holds (held ++ front) [] m.follower
          → Progress (AllWell w) (held ++ front) back (last m).0 (last m).1)
      → let o = if_done (dial w.dials addr n) (λ _ n1. if_done (ask w addr topic p n1) (λ next n2.
        if_done
          (missing_from w addr topic p l next (length recs), n2)
          (λ missing n3. if_done (sends missing n3) (λ _ n4. last n4)))) in
        Progress (AllWell w) held (front ++ back) o.0 o.1
  steps-Progress sends last held front back recs l n hl hf cut first second =
      let m = (dial w.dials addr n).1 in
      let hm : Holds held [] m.follower = rw (dial-follower w.dials addr n) hf in
      let (kept, told) = ask-follower w addr topic p m in
      let ha : Holds held [] (ask w addr topic p m).1.follower = rw kept hm in
      if_done-kept (AllWell w) (dial w.dials addr n) _ held (front ++ back) hm
        (λ well. dial-sure w.dials addr n well.1)
        (λ c dialed.
          if_done-kept (AllWell w) (ask w addr topic p m) _ held (front ++ back) ha
            (λ well. ask-sure w addr topic p m well)
            (λ next answered.
              let e : next ≡ length held = told next answered ∙ hm.next_off in
              rw (missing_from-Holds w addr topic p recs l next (length recs) reads hl refl, e, cut)
                (if_done-Progress (AllWell w) (sends front (ask w addr topic p m).1) last held front
                  back (first (ask w addr topic p m).1 ha) (second _))))

-- Space for two parts.
pub Space-split :
    (recs front back : List Record)
    → Space recs (front ++ back)
    → Space recs front × Space (recs ++ front) back
Space-split recs front back space =
    let (hf, hb) = All-split Fits front back space.fits in
    (
      record {
        fits = hf;
        count = omega (arith, space.count, length-append front back);
        bytes = omega (
          arith,
          space.bytes,
          ap length (encodings-append front back),
          length-append (encodings front) (encodings back),
        );
      },
      record {
        fits = hb;
        count = omega (arith, space.count, length-append front back, length-append recs front);
        bytes = omega (
          arith,
          space.bytes,
          ap length (encodings-append front back),
          length-append (encodings front) (encodings back),
          ap length (encodings-append recs front),
          length-append (encodings recs) (encodings front),
        );
      },
    )

-- The rest of the records from `n` on keeps its numbers.
pub IsNumbered-rest : (n : ℕ) (recs : List Record) → IsNumbered 0 recs → IsNumbered n (drop n recs)
IsNumbered-rest n recs h = elim (dec_lt (length recs) n) [
  | yes past ↦ rw (drop_all n recs (omega arith)) tt
  | no within ↦
      subst (λ (k : ℕ). IsNumbered k (drop n recs)) (omega arith)
        (IsNumbered-drop n 0 recs h (omega arith))
]

module _ (w : World) (addr topic : Text) (p : ℤ) (reads : w.reads ≡ readable)
    (ready : w.follower_writes ≡ (λ _. written)) where
  -- The follower held any records at all, and the leader holds `recs`. Whatever becomes of the dial and
  -- of the calls, the follower keeps what it held, and behind it comes the front of what it lacks of
  -- `recs` and the new record, all of it if there is no error.
  pub replicate_to_follower-Progress :
      (held recs : List Record) (l : Log) (key value : Text) (ts_nano : ℕ) (n : Link)
      → Holds recs [] l
      → Holds held [] n.follower
      → Space held (drop (length held) (recs ++ (next_record recs key value ts_nano ∷ [])))
      → let o = replicate_to_follower w addr topic p l (length recs) key value ts_nano n in
        Progress
          (AllWell w × (addr ≢ []))
          held
          (drop (length held) (recs ++ (next_record recs key value ts_nano ∷ [])))
          o.0
          o.1
  unfolding replicate_to_follower
  replicate_to_follower-Progress held recs l key value ts_nano n hl hf space =
      let new = next_record recs key value ts_nano in
      let gap = drop (length held) recs in
      elim (Bool-cases (addr == [])) [
        | inl nowhere ↦
            rw (replicate_to_follower, nowhere)
              (record {
                count = 0;
                holds = rw (append-nil held) hf;
                whole = λ q. cc;
                sure = λ well. absurd (well.1 ((list_beq_iff addr []).0 nowhere));
              })
        | inr somewhere ↦ elim (dec_lt (length recs) (length held)) [
          | yes ahead ↦
              let e : drop (length held) (recs ++ (new ∷ [])) ≡ [] =
                drop_all (length held) (recs ++ (new ∷ []))
                  (omega (arith, length-append recs (new ∷ []))) in
              rw (e, replicate_to_follower, somewhere)
                (weaken-Progress (λ well. well.0)
                  (steps-Progress w addr topic p reads _ _ held [] [] recs l n hl hf
                    (drop_all (length held) recs (omega arith))
                    (λ m hm. send_missing-Progress w addr topic p ready [] held m hm tt (record {
                      fits = tt;
                      count = omega (arith, hm.room);
                      bytes = omega (arith, hm.room);
                    }))
                    (λ m hm.
                      send_replicate-known w addr topic p ready (held ++ []) (length recs) key value
                        ts_nano m hm (omega (arith, length-append held [])))))
          | no behind ↦
              let e = drop-append_le (length held) recs (new ∷ []) (omega arith) in
              let (sf, sb) = Space-split held gap (new ∷ []) (subst (Space held) e space) in
              let reached : length (held ++ gap) ≡ length recs =
                omega (arith, length-append held gap, length-drop (length held) recs) in
              rw (e, replicate_to_follower, somewhere)
                (weaken-Progress (λ well. well.0)
                  (steps-Progress w addr topic p reads _ _ held gap (new ∷ []) recs l n hl hf refl
                    (λ m hm.
                      send_missing-Progress w addr topic p ready gap held m hm
                        (IsNumbered-rest (length held) recs hl.numbered) sf)
                    (λ m hm.
                      send_replicate-Progress w addr topic p ready (held ++ gap) new m hm
                        (sym reached) (Space-Room (held ++ gap) new [] sb))))
        ]
      ]
