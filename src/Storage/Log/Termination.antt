-- ===== src/Storage/Log/Termination.antt =====
-- The loop of `ReadFrom` of internal/storage/log.go ends on every log.
use trixps.Prelude.{
  ℕ, zero, suc, ◌<◌, ◌≢◌, inl, inr, List, [], ◌∷◌, ◌++◌, none, length, drop, arith, ltb, leb,
  nat_eq, Bool-cases, Option-cases, length-drop,
}
use trixps.Prelude.Int.{ℤ}
use trixps.Prelude.Map.{lookup}
use trixps.Prelude.Text.{Text}
use trixps.Storage.Codec.{Record, Error, eof, read_record, Result-cases}
use trixps.Storage.Codec.Accepts.{read_record-shorter}
use trixps.Storage.Log.{Log, ReadCalls, reached, read_loop, read_at, read_from}

read_loop-ne-none :
    (fuel : ℕ) (at_end : Error) (r : Text) (offset : ℕ) (max : ℤ) (out : List Record)
    → length r < fuel
    → read_loop fuel at_end r offset max out ≢ none
unfolding read_loop
read_loop-ne-none zero at_end r offset max out h = absurd (omega arith)
read_loop-ne-none (suc fuel) at_end r offset max out h =
    elim (Result-cases (read_record at_end r)) [
      | inl ((rec, n, rest), e) ↦
          let less : length rest < fuel =
            omega (arith, read_record-shorter at_end r rest rec n e) in
          elim (Bool-cases (ltb rec.offset offset)) [
            | inl before ↦
                rw (read_loop, e, before) (read_loop-ne-none fuel at_end rest offset max out less)
            | inr there ↦ elim (Bool-cases (reached max (length (out ++ (rec ∷ []))))) [
              | inl last ↦ rw (read_loop, e, there, last) (λ q. cc)
              | inr more ↦
                  rw (read_loop, e, there, more)
                    (read_loop-ne-none fuel at_end rest offset max (out ++ (rec ∷ [])) less)
            ]
          ]
      | inr (eof, e) ↦ rw (read_loop, e) (λ q. cc)
      | inr (x, e) ↦ rw (read_loop, e) (λ q. cc)
    ]

read_at-ne-none :
    (calls : ReadCalls) (p offset : ℕ) (max : ℤ) (l : Log) → read_at calls p offset max l ≢ none
unfolding read_at
read_at-ne-none calls p offset max l = ground (
  arith,
  read_loop-ne-none (suc (length l.f)) calls.at_end (drop p l.f) offset max []
      (omega (arith, length-drop p l.f)),
)

-- `ReadFrom` ends on every log, whatever is in its file and its index and whichever system calls
-- fail.
pub read_from-ne-none :
    (calls : ReadCalls) (offset : ℕ) (max : ℤ) (l : Log) → read_from calls offset max l ≢ none
unfolding read_from
read_from-ne-none calls offset max l = elim (Option-cases (lookup offset l.index)) [
  | inl absent ↦ elim (Bool-cases (leb l.next_off offset)) [
    | inl behind ↦ rw (read_from, absent, behind) (λ q. cc)
    | inr before ↦ rw (read_from, absent, before) (read_at-ne-none calls 0 offset max l)
  ]
  | inr (p, there) ↦ rw (read_from, there) (read_at-ne-none calls p offset max l)
]
