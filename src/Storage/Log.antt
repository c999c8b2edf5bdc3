-- ===== src/Storage/Log.antt =====
-- `Log` of internal/storage/log.go, with every method that reads or changes it. The file is its
-- content, `f`. The answers of the operating system are arguments: `OpenCalls`, `WriteCalls` and
-- `ReadCalls` say which calls fail. A method holds the log's mutex, so each is one step.
pub mod Layout
pub mod Replay
pub mod Append
pub mod Failure
pub mod Read
pub mod Termination
use trixps.Prelude.{
  ℕ, zero, suc, ◌+◌, ◌-◌, ◌%◌, ◌^◌, Bool, true, false, not, Option, none, some, List, [], ◌∷◌, ◌++◌,
  length, take, drop, replicate, ltb, leb, ◌==◌, nat_eq, if◌then◌else◌, ◌&&◌,
}
use trixps.Prelude.Int.{ℤ, pos, negsuc}
use trixps.Prelude.Map.{Map, lookup, insert}
use trixps.Prelude.Text.{Text}
use trixps.Storage.Codec.{
  Record, Error, eof, closed, io, bad_offset, Result, ok, err, encode_record, read_record,
}

-- `size` and the positions in the index are int64s, by their bit patterns.
pub record Log : Type 0 where
  pub f : Text
  pub is_open : Bool
  pub next_off : ℕ
  pub index : Map ℕ ℕ
  pub size : ℕ

-- 64-bit addition.
abbrev pub add64 : ℕ → ℕ → ℕ
add64 a b = (a + b) % 2 ^ 64

-- `(*os.File).Truncate`
pub truncate : ℕ → Text → Text
truncate n f = take n f ++ replicate (n - length f) 0

-- `(*os.File).WriteAt`: a gap before the place is filled with zeros.
unfoldable pub write_at : Text → ℕ → Text → Text
write_at buf off f =
    (take off f ++ replicate (off - length f) 0) ++ (buf ++ drop (off + length buf) f)

-- Which calls of `Open` fail, and what the device reports behind the file's bytes.
pub record OpenCalls : Type 0 where
  pub mkdir_all_fails : Bool
  pub open_file_fails : Bool
  pub seek_start_fails : Bool
  pub truncate_fails : Bool
  pub seek_pos_fails : Bool
  pub at_end : Error

-- The loop of `replay`, on fuel; it returns the position and the error that it ended with.
replay_loop : ℕ → Error → Text → Log → ℕ → Option (Log × ℕ × Error)
replay_loop zero at_end r l p = none
replay_loop (suc fuel) at_end r l p = elim (read_record at_end r) [
  | ok (rec, n, rest) ↦
      replay_loop fuel at_end rest
        (record l { index = insert rec.offset p l.index; next_off = add64 rec.offset 1 })
        (add64 p n)
  | err e ↦ some (l, p, e)
]

-- "set cursor at the right place for next writing"
set_cursor : OpenCalls → ℕ → Log → Result (Unit {0}) × Log
set_cursor calls p l = if calls.seek_pos_fails then (err io, l) else (ok tt, record l { size = p })

-- Any error but the end of the file cuts the file behind the last good record.
end_replay : OpenCalls → Error → ℕ → Log → Result (Unit {0}) × Log
unfolding truncate set_cursor
end_replay calls eof p l = set_cursor calls p l
end_replay calls e p l =
    if calls.truncate_fails
    then (err io, l)
    else set_cursor calls p (record l { f = truncate p l.f })

-- `none`: the fuel ran out. Each record takes bytes, so the file's length is enough.
pub replay : OpenCalls → Log → Option (Result (Unit {0}) × Log)
unfolding replay_loop end_replay
replay calls l =
    if calls.seek_start_fails
    then some (err io, l)
    else elim (replay_loop (suc (length l.f)) calls.at_end l.f l 0) [
      | none ↦ none
      | some (l', p, e) ↦ some (end_replay calls e p l')
    ]

abbrev opened : Result (Unit {0}) × Log → Result Log × Text
opened (ok u, l) = (ok l, l.f)
opened (err e, l) = (err e, l.f)

-- The log, or an error, and the file afterwards. A file that is not there is created empty.
unfoldable pub open_log : OpenCalls → Text → Option (Result Log × Text)
unfolding replay
open_log calls f =
    if calls.mkdir_all_fails
    then some (err io, f)
    else if calls.open_file_fails
    then some (err io, f)
    else elim (replay calls
        (record { f = f; is_open = true; next_off = 0; index = []; size = 0 })) [
          | none ↦ none
          | some r ↦ some (opened r)
        ]

-- `WriteAt` writes the whole buffer, or fails behind its first bytes.
pub data Write : Type 0 where
  whole : Write
  failed : ℕ → Write

pub record WriteCalls : Type 0 where
  pub write : Write
  pub sync_fails : Bool

unfoldable pub append_locked : WriteCalls → ℕ → Text → Text → ℕ → Log → Result ℕ × Log
append_locked calls offset key value ts_nano l =
    let buf =
      encode_record (record { offset = offset; key = key; value = value; ts_nano = ts_nano }) in
    if not l.is_open then (err closed, l) else elim calls.write [
      | failed n ↦ (err io, record l { f = write_at (take n buf) l.size l.f })
      | whole ↦ if calls.sync_fails then (err io, record l { f = write_at buf l.size l.f }) else (
        ok offset,
        record l {
          f = write_at buf l.size l.f;
          index = insert offset l.size l.index;
          size = add64 l.size (length buf);
          next_off = if leb l.next_off offset then add64 offset 1 else l.next_off;
        },
      )
    ]

-- `now` is what `time.Now().UnixNano()` returns.
unfoldable pub append : WriteCalls → ℕ → Text → Text → Log → Result ℕ × Log
append calls now key value l = append_locked calls l.next_off key value now l

abbrev pub without_value {ℓ} : {A : Type ℓ} → Result A × Log → Result (Unit {0}) × Log
without_value (ok a, l) = (ok tt, l)
without_value (err e, l) = (err e, l)

unfoldable pub append_at : WriteCalls → ℕ → Text → Text → ℕ → Log → Result (Unit {0}) × Log
append_at calls offset key value ts_nano l = elim (lookup offset l.index) [
  | some p ↦ (ok tt, l)
  | none ↦
      if offset == l.next_off
      then without_value (append_locked calls offset key value ts_nano l)
      else (err (bad_offset l.next_off offset), l)
]

pub record ReadCalls : Type 0 where
  pub seek_fails : Bool
  pub at_end : Error

-- `max > 0 && len(out) >= max`
abbrev pub reached : ℤ → ℕ → Bool
reached (pos m) n = ltb 0 m && leb m n
reached (negsuc m) n = false

-- The loop of `ReadFrom`: what was read, and the error beside it.
read_loop : ℕ → Error → Text → ℕ → ℤ → List Record → Option (List Record × Option Error)
read_loop zero at_end r offset max out = none
read_loop (suc fuel) at_end r offset max out = elim (read_record at_end r) [
  | ok (rec, n, rest) ↦ elim (ltb rec.offset offset) [
    | true ↦ read_loop fuel at_end rest offset max out
    | false ↦ elim (reached max (length (out ++ rec ∷ []))) [
      | true ↦ some (out ++ rec ∷ [], none)
      | false ↦ read_loop fuel at_end rest offset max (out ++ rec ∷ [])
    ]
  ]
  | err eof ↦ some (out, none)
  | err e ↦ some (out, some e)
]

-- `none`: the fuel ran out.
read_at : ReadCalls → ℕ → ℕ → ℤ → Log → Option (List Record × Option Error)
unfolding read_loop
read_at calls p offset max l =
    if not l.is_open
    then some ([], some closed)
    else if calls.seek_fails
    then some ([], some io)
    else read_loop (suc (length l.f)) calls.at_end (drop p l.f) offset max []

unfoldable pub read_from : ReadCalls → ℕ → ℤ → Log → Option (List Record × Option Error)
unfolding read_at
read_from calls offset max l = elim (lookup offset l.index) [
  | some p ↦ read_at calls p offset max l
  | none ↦ if leb l.next_off offset then some ([], none) else read_at calls 0 offset max l
]

abbrev pub next_offset : Log → ℕ
next_offset l = l.next_off

-- Closing twice is an error.
unfoldable pub close : Log → Result (Unit {0}) × Log
close l = if l.is_open then (ok tt, record l { is_open = false }) else (err closed, l)
