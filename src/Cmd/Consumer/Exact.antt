-- ===== src/Cmd/Consumer/Exact.antt =====
-- What the loop of cmd/consumer/main.go prints of logs that its fetches are answered from.
use mathlib.Core.Path.{subst}
use trixps.Prelude.{
  ℕ, zero, suc, ◌^◌, ◌<◌, ◌≡◌, refl, sym, ap, ◌∙◌, Bool, true, false, ◌⊎◌, inl, inr, List, [], ◌∷◌,
  ◌++◌, length, take, drop, nat_eq, Bool-cases, Sum-cases, arith, take-append-drop,
}
use trixps.Prelude.Int.{ℤ, pos, int_eq}
use trixps.Prelude.Map.{Map}
use trixps.Storage.Codec.{Record}
use trixps.Storage.Log.{reached}
use trixps.Storage.Log.Layout.{IsNumbered}
use trixps.Broker.Service.{fetched}
use trixps.Broker.Service.Consumer.{all_fetched, behind}
use trixps.Rpc.{FetchRecord, FetchReply}
use trixps.Cmd.Consumer.{
  Consumer, offset_in, print, print_all, store_offset, unless_stopped, on_reply, poll, round,
  saving,
}
use trixps.Cmd.Consumer.Printed.{shown, Exact, print-Exact, drop-print, offset-print, int_beq_refl}

-- Where the loop stops, what it printed up to now is saved.
abbrev pub IsSaved : Bool × Consumer → Type 0
IsSaved o = o.0 ≡ true → o.1.on_file ≡ o.1.offsets

print_all-IsSaved :
    (max p : ℤ) (rs : List FetchRecord) (c : Consumer) → IsSaved (print_all max p rs c)
unfolding print_all
print_all-IsSaved max p [] c stop = absurd (cc stop)
print_all-IsSaved max p (r ∷ rs) c stop =
    let next = print p r c in
    elim (Bool-cases (reached max next.read)) [
      | inl last ↦ rw (print_all, last)
      | inr more ↦
          let goes : print_all max p (r ∷ rs) c ≡ print_all max p rs next = rw (print_all, more) in
          subst IsSaved (sym goes) (print_all-IsSaved max p rs next) stop
    ]

unless_stopped-IsSaved :
    (p : ℤ) (next : ℕ) (o : Bool × Consumer) → IsSaved o → IsSaved (unless_stopped p next o)
unless_stopped-IsSaved p next (true, c) h stop = h stop
unless_stopped-IsSaved p next (false, c) h stop = absurd (cc stop)

on_reply-IsSaved :
    {E : Type 0} (max p : ℤ) (reply : FetchReply ⊎ E) (c : Consumer)
    → IsSaved (on_reply max p reply c)
unfolding on_reply
on_reply-IsSaved max p (inr e) c = λ stop. absurd (cc stop)
on_reply-IsSaved max p (inl reply) c =
    unless_stopped-IsSaved p reply.next_offset (print_all max p reply.records c)
      (print_all-IsSaved max p reply.records c)

module _ (recs : ℤ → List Record) where
  module _ (numbered : (p : ℤ) → IsNumbered 0 (recs p))
      (room : (p : ℤ) → length (recs p) < 2 ^ 64) where
    -- Records from the offset on, as many as the limit lets through.
    pub print_all-Exact :
        (max p : ℤ) (xs back : List Record) (c : Consumer)
        → Exact recs c
        → drop (offset_in p c.offsets) (recs p) ≡ xs ++ back
        → Exact recs (print_all max p (all_fetched xs) c).1
    unfolding print_all
    print_all-Exact max p [] back c h e = h
    print_all-Exact max p (x ∷ xs) back c h e =
        let next = print p (fetched x) c in
        let held = print-Exact recs numbered room p x (xs ++ back) c h e in
        elim (Bool-cases (reached max next.read)) [
          | inl last ↦ rw (print_all, last) (record { shows = held.shows; within = held.within })
          | inr more ↦
              rw (print_all, more)
                (print_all-Exact max p xs back next held
                  (drop-print recs numbered room p x (xs ++ back) c h e))
        ]

    -- Where the limit lets all of them through, the offset is behind the last of them.
    pub print_all-offset :
        (max p : ℤ) (xs back : List Record) (c : Consumer)
        → Exact recs c
        → drop (offset_in p c.offsets) (recs p) ≡ xs ++ back
        → (print_all max p (all_fetched xs) c).0 ≡ false
        → offset_in p (print_all max p (all_fetched xs) c).1.offsets
          ≡ behind (offset_in p c.offsets) xs
    unfolding print_all
    print_all-offset max p [] back c h e on = refl
    print_all-offset max p (x ∷ xs) back c h e on =
        let next = print p (fetched x) c in
        elim (Bool-cases (reached max next.read)) [
          | inl last ↦
              let stopped : print_all max p (all_fetched (x ∷ xs)) c ≡ (true, saving next) =
                rw (print_all, last) in
              absurd (cc (on, stopped))
          | inr more ↦
              let goes : print_all max p (all_fetched (x ∷ xs)) c
                  ≡ print_all max p (all_fetched xs) next =
                rw (print_all, more) in
              ap (λ (o : Bool × Consumer). offset_in p o.1.offsets) goes
              ∙ print_all-offset max p xs back next
                  (print-Exact recs numbered room p x (xs ++ back) c h e)
                  (drop-print recs numbered room p x (xs ++ back) c h e)
                  (sym (ap (λ (o : Bool × Consumer). o.0) goes) ∙ on)
              ∙ ap (λ (k : ℕ). behind k xs)
                  (offset-print recs numbered room p p x c ∙ rw (int_beq_refl p))
        ]

    pub store_offset-same :
        (p : ℤ) (next : ℕ) (c : Consumer) → offset_in p c.offsets ≡ next → store_offset p next c ≡ c
    unfolding store_offset
    store_offset-same p next c same = rw (store_offset, same) (ground arith)

    unless_stopped-Exact :
        (p : ℤ) (next : ℕ) (o : Bool × Consumer)
        → Exact recs o.1
        → (o.0 ≡ false → offset_in p o.1.offsets ≡ next)
        → Exact recs (unless_stopped p next o).1
    unless_stopped-Exact p next (true, c) h same = h
    unless_stopped-Exact p next (false, c) h same = rw (store_offset-same p next c (same refl)) h

    -- A reply with the records from the offset on.
    pub on_reply-Exact :
        (E : Type 0) (max p : ℤ) (most : ℕ) (c : Consumer)
        → Exact recs c
        → let xs = take most (drop (offset_in p c.offsets) (recs p)) in
          Exact recs
            (on_reply {E = E} max p
              (inl (record {
                records = all_fetched xs;
                next_offset = behind (offset_in p c.offsets) xs;
              }))
              c).1
    unfolding on_reply
    on_reply-Exact E max p most c h =
        let later = drop (offset_in p c.offsets) (recs p) in
        let xs = take most later in
        let e : later ≡ xs ++ drop most later = sym (take-append-drop most later) in
        unless_stopped-Exact p (behind (offset_in p c.offsets) xs)
          (print_all max p (all_fetched xs) c) (print_all-Exact max p xs (drop most later) c h e)
          (print_all-offset max p xs (drop most later) c h e)

    on_reply-error :
        {E : Type 0} (max p : ℤ) (e : E) (c : Consumer) → on_reply max p (inr e) c ≡ (false, c)
    unfolding on_reply
    on_reply-error max p e c = refl

    -- What a fetch returns, if it returns something, is what the partition's leader answers.
    pub record Serves {E S : Type 0} (most : ℕ) (fetch : ℤ → ℕ → S → (FetchReply ⊎ E) × S)
        : Type 0 where
      pub serves :
          (p : ℤ) (o : ℕ) (s : S) (reply : FetchReply)
          → (fetch p o s).0 ≡ inl reply
          → reply ≡ record {
            records = all_fetched (take most (drop o (recs p)));
            next_offset = behind o (take most (drop o (recs p)));
          }

    module _ {E S : Type 0} (most : ℕ) (fetch : ℤ → ℕ → S → (FetchReply ⊎ E) × S) (max : ℤ)
        (serving : Serves most fetch) where
      fetched-Exact :
          (p : ℤ) (c : Consumer) (s : S)
          → Exact recs c
          → Exact recs (on_reply max p (fetch p (offset_in p c.offsets) s).0 c).1
      fetched-Exact p c s h = elim (Sum-cases (fetch p (offset_in p c.offsets) s).0) [
        | inr (x, fails) ↦ rw (fails, on_reply-error max p x c) h
        | inl (reply, answers) ↦
            rw (answers, serving.serves p (offset_in p c.offsets) s reply answers)
              (on_reply-Exact E max p most c h)
      ]

      poll-Exact :
          (left p : ℕ) (c : Consumer) (s : S)
          → Exact recs c
          → Exact recs (poll fetch max left p c s).0.1
      unfolding poll
      poll-Exact zero p c s h = h
      poll-Exact (suc left) p c s h =
          let asked = fetch (pos p) (offset_in (pos p) c.offsets) s in
          let next = on_reply max (pos p) asked.0 c in
          let held = fetched-Exact (pos p) c s h in
          elim (Bool-cases next.0) [
            | inl stop ↦ rw (poll, stop) held
            | inr on ↦ rw (poll, on) (poll-Exact left (suc p) next.1 asked.1 held)
          ]

      poll-IsSaved : (left p : ℕ) (c : Consumer) (s : S) → IsSaved (poll fetch max left p c s).0
      unfolding poll
      poll-IsSaved zero p c s = λ stopped. absurd (cc stopped)
      poll-IsSaved (suc left) p c s =
          let asked = fetch (pos p) (offset_in (pos p) c.offsets) s in
          let next = on_reply max (pos p) asked.0 c in
          elim (Bool-cases next.0) [
            | inl stop ↦ rw (poll, stop) (λ again. on_reply-IsSaved max (pos p) asked.0 c stop)
            | inr on ↦ rw (poll, on) (poll-IsSaved left (suc p) next.1 asked.1)
          ]

      -- A round over the partitions, whichever fetches fail and also where it stops at the limit, keeps
      -- this: of every partition each record up to the offset was printed once, in order, and no other.
      -- Where it stops at the limit, the same holds of the offsets that are saved.
      pub round-Exact :
          (n : ℕ) (c : Consumer) (s : S)
          → Exact recs c
          → let o = (round fetch max n c s).0 in
            Exact recs o.1
            × (o.0 ≡ true
                → (q : ℤ)
                → shown q o.1.printed ≡ all_fetched (take (offset_in q o.1.on_file) (recs q)))
      unfolding round
      round-Exact n c s h =
          let start = record c { progressed = false } in
          let o = (poll fetch max n 0 start s).0 in
          let held = poll-Exact n 0 start s (record { shows = h.shows; within = h.within }) in
          (
            held,
            λ stop q.
                subst
                  (λ (m : Map ℤ ℕ).
                    shown q o.1.printed ≡ all_fetched (take (offset_in q m) (recs q)))
                  (sym (poll-IsSaved n 0 start s stop)) (held.shows q),
          )
