-- ===== src/Broker/Replication/Batch.antt =====
-- `replicateBatchToFollower` of internal/broker/replication.go, whatever becomes of the calls.
use mathlib.Core.Path.{subst}
use native.Mathlib.Decide.{dec_lt}
use trixps.Prelude.{
  ℕ, zero, suc, ◌+◌, ◌-◌, ◌^◌, ◌<◌, ◌≡◌, ◌≢◌, refl, sym, ap, ◌∙◌, Bool-cases, true, List, [], ◌∷◌,
  ◌++◌, inl, inr, length, drop, arith, length-append, append_assoc, append-nil, drop_all,
  length-drop, drop-append_le, drop-append_ge, ◌==◌, list_eq, nat_eq, list_beq_iff,
}
use trixps.Prelude.Int.{ℤ}
use trixps.Prelude.Text.{Text}
use trixps.Storage.Codec.{Record}
use trixps.Storage.Log.{Log, add64}
use trixps.Storage.Log.Layout.{IsNumbered, Holds}
use trixps.Storage.Log.Append.{written, next_record}
use trixps.Storage.Log.Read.{readable}
use trixps.Broker.Link.{Link}
use trixps.Broker.Service.Follower.{IsRun, extended, Rooms, replicate_batch-Holds}
use trixps.Broker.Replication.{
  World, all_to_replicate, send_replicate_batch, replicate_batch_to_follower, numbered,
}
use trixps.Broker.Replication.Progress.{
  AllWell, Space, Space-Room, Space-rest, Progress, none-Progress, call-Progress, weaken-Progress,
}
use trixps.Broker.Replication.CatchUp.{steps-Progress, Space-split, IsNumbered-rest}
use trixps.Rpc.{ReplicateBatchReply, BatchRecord}

pub all_to_replicate-IsRun :
    (n : ℕ) (rs : List Record) → IsNumbered n rs → IsRun n (all_to_replicate rs)
all_to_replicate-IsRun n [] h = tt
all_to_replicate-IsRun n (r ∷ rs) h = (h.0, all_to_replicate-IsRun (suc n) rs h.1)

drop-all_to_replicate :
    (n : ℕ) (rs : List Record) → drop n (all_to_replicate rs) ≡ all_to_replicate (drop n rs)
drop-all_to_replicate zero rs = refl
drop-all_to_replicate (suc n) [] = refl
drop-all_to_replicate (suc n) (r ∷ rs) = drop-all_to_replicate n rs

next_record_same :
    (recs : List Record) (r : Record)
    → r.offset ≡ length recs
    → next_record recs r.key r.value r.ts_nano ≡ r
next_record_same recs r e = ap (λ (o : ℕ). record r { offset = o }) (sym e)

pub extended-all_to_replicate :
    (rs recs : List Record)
    → IsNumbered (length recs) rs
    → extended recs (all_to_replicate rs) ≡ recs ++ rs
extended-all_to_replicate [] recs h = sym (append-nil recs)
extended-all_to_replicate (r ∷ rs) recs h =
    ap (λ (x : Record). extended (recs ++ (x ∷ [])) (all_to_replicate rs))
      (next_record_same recs r h.0)
    ∙ extended-all_to_replicate rs (recs ++ (r ∷ []))
        (subst (λ (k : ℕ). IsNumbered k rs) (omega (arith, length-append recs (r ∷ []))) h.1)
    ∙ append_assoc recs (r ∷ []) rs

pub Space-Rooms :
    (rs recs : List Record)
    → IsNumbered (length recs) rs
    → Space recs rs
    → Rooms recs (all_to_replicate rs)
Space-Rooms [] recs h space = tt
Space-Rooms (r ∷ rs) recs h space = rw (next_record_same recs r h.0) (
  Space-Room recs r rs space,
  Space-Rooms rs (recs ++ (r ∷ []))
      (subst (λ (k : ℕ). IsNumbered k rs) (omega (arith, length-append recs (r ∷ []))) h.1)
      (Space-rest recs r rs space),
)

IsNumbered-skip :
    (skip base : ℕ) (rs : List Record)
    → IsNumbered base rs
    → IsNumbered (skip + base) (drop skip rs)
IsNumbered-skip zero base rs h = subst (λ (k : ℕ). IsNumbered k rs) (omega arith) h
IsNumbered-skip (suc skip) base [] h = tt
IsNumbered-skip (suc skip) base (r ∷ rs) h =
    subst (λ (k : ℕ). IsNumbered k (drop skip rs)) (omega arith)
      (IsNumbered-skip skip (suc base) rs h.1)

module _ (w : World) (addr topic : Text) (p : ℤ) (ready : w.follower_writes ≡ (λ _. written)) where
  -- A batch that begins at or below the follower's next offset, `skip` below it.
  send_replicate_batch-Progress :
      (rs held : List Record) (skip base : ℕ) (n : Link)
      → Holds held [] n.follower
      → skip + base ≡ length held
      → IsNumbered base rs
      → Space held (drop skip rs)
      → let o = send_replicate_batch w addr topic p (all_to_replicate rs) n in
        Progress (AllWell w) held (drop skip rs) o.0 o.1
  unfolding send_replicate_batch
  send_replicate_batch-Progress [] held skip base n h e num space =
      rw (drop_all {A = Record} skip [] (omega arith)) (none-Progress (AllWell w) held n h)
  send_replicate_batch-Progress (r ∷ rs) held skip base n h e num space =
      let rest : IsNumbered (length held) (drop skip (r ∷ rs)) =
        subst (λ (k : ℕ). IsNumbered k (drop skip (r ∷ rs))) e
          (IsNumbered-skip skip base (r ∷ rs) num) in
      let cut = drop-all_to_replicate skip (r ∷ rs) in
      let (l', answered, h') =
        replicate_batch-Holds
          (record { topic = topic; partition = p; records = all_to_replicate (r ∷ rs) }) held skip
          base n.follower h e (all_to_replicate-IsRun base (r ∷ rs) num)
          (subst (Rooms held) (sym cut) (Space-Rooms (drop skip (r ∷ rs)) held rest space)) in
      call-Progress (AllWell w) (λ (b : ReplicateBatchReply). b.ack) addr held (drop skip (r ∷ rs))
        (record { ack = true }) refl n l' h
        (subst (λ (t : List Record). Holds t [] l')
          (ap (extended held) cut ∙ extended-all_to_replicate (drop skip (r ∷ rs)) held rest) h')
        w.fate _ (λ well. well.0 n.called) (rw ready answered)

module _ (w : World) (addr topic : Text) (p : ℤ) (reads : w.reads ≡ readable)
    (ready : w.follower_writes ≡ (λ _. written)) where
  -- The same as for one record: the follower keeps what it held, and behind it comes the front of what
  -- it lacks of the leader's records and the new ones, all of it if there is no error.
  pub replicate_batch_to_follower-Progress :
      (held recs news : List Record) (l : Log) (n : Link)
      → Holds recs [] l
      → Holds held [] n.follower
      → IsNumbered (length recs) news
      → Space held (drop (length held) (recs ++ news))
      → let o =
          replicate_batch_to_follower w addr topic p l (length recs) (all_to_replicate news) n in
        Progress (AllWell w × (addr ≢ [])) held (drop (length held) (recs ++ news)) o.0 o.1
  unfolding replicate_batch_to_follower
  replicate_batch_to_follower-Progress held recs news l n hl hf num space =
      let gap = drop (length held) recs in
      elim (Bool-cases (addr == [])) [
        | inl nowhere ↦
            rw (replicate_batch_to_follower, nowhere)
              (record {
                count = 0;
                holds = rw (append-nil held) hf;
                whole = λ q. cc;
                sure = λ well. absurd (well.1 ((list_beq_iff addr []).0 nowhere));
              })
        | inr somewhere ↦ elim (dec_lt (length recs) (length held)) [
          | yes ahead ↦
              let over = length held - length recs in
              let e : drop (length held) (recs ++ news) ≡ drop over news =
                drop-append_ge (length held) recs news (omega arith) in
              rw (e, replicate_batch_to_follower, somewhere)
                (weaken-Progress (λ well. well.0)
                  (steps-Progress w addr topic p reads
                    (λ missing n3.
                      send_replicate_batch w addr topic p (all_to_replicate missing) n3)
                    _ held [] (drop over news) recs l n hl hf
                    (drop_all (length held) recs (omega arith))
                    (λ m hm.
                      send_replicate_batch-Progress w addr topic p ready [] held 0 (length held) m
                        hm (omega arith) tt
                        (record {
                          fits = tt;
                          count = omega (arith, hm.room);
                          bytes = omega (arith, hm.room);
                        }))
                    (λ m hm.
                      send_replicate_batch-Progress w addr topic p ready news (held ++ []) over
                        (length recs) m hm (omega (arith, length-append held [])) num
                        (rw (append-nil held) (subst (Space held) e space)))))
          | no behind ↦
              let e = drop-append_le (length held) recs news (omega arith) in
              let (sf, sb) = Space-split held gap news (subst (Space held) e space) in
              rw (e, replicate_batch_to_follower, somewhere)
                (weaken-Progress (λ well. well.0)
                  (steps-Progress w addr topic p reads
                    (λ missing n3.
                      send_replicate_batch w addr topic p (all_to_replicate missing) n3)
                    _ held gap news recs l n hl hf refl
                    (λ m hm.
                      send_replicate_batch-Progress w addr topic p ready gap held 0 (length held) m
                        hm (omega arith) (IsNumbered-rest (length held) recs hl.numbered) sf)
                    (λ m hm.
                      send_replicate_batch-Progress w addr topic p ready news (held ++ gap) 0
                        (length recs) m hm
                        (omega (arith, length-append held gap, length-drop (length held) recs)) num
                        sb)))
        ]
      ]

-- The records of a batch, numbered from `base` on.
abbrev pub batch_records : ℕ → ℕ → List BatchRecord → List Record
batch_records base ts [] = []
batch_records base ts (r ∷ rs) =
    record { offset = base; key = r.key; value = r.value; ts_nano = ts }
    ∷ batch_records (suc base) ts rs

pub batch_records-IsNumbered :
    (base ts : ℕ) (rs : List BatchRecord) → IsNumbered base (batch_records base ts rs)
batch_records-IsNumbered base ts [] = tt
batch_records-IsNumbered base ts (r ∷ rs) = (refl, batch_records-IsNumbered (suc base) ts rs)

pub length-batch_records :
    (base ts : ℕ) (rs : List BatchRecord) → length (batch_records base ts rs) ≡ length rs
length-batch_records base ts [] = refl
length-batch_records base ts (r ∷ rs) = ap suc (length-batch_records (suc base) ts rs)

-- The offsets do not wrap.
pub numbered-batch_records :
    (base ts : ℕ) (rs : List BatchRecord)
    → base + length rs < 2 ^ 64
    → numbered base ts rs ≡ all_to_replicate (batch_records base ts rs)
unfolding numbered
numbered-batch_records base ts [] h = refl
numbered-batch_records base ts (r ∷ rs) h =
    let e : add64 base 1 ≡ suc base = omega arith in
    rw (e, numbered-batch_records (suc base) ts rs (omega arith))
