-- ===== src/Cmd/Consumer.antt =====
-- cmd/consumer/main.go: the loop over the partitions, and the file of the offsets. `Client.Fetch` is an
-- argument, over any state, and so are the JSON of a map and the file.
pub mod Printed
pub mod Exact
pub mod Offsets
pub mod Steps
pub mod Drains
pub mod Program
use trixps.Prelude.{
  ℕ, zero, suc, ◌+◌, Bool, true, false, Option, none, some, ◌⊎◌, inl, inr, List, [], ◌∷◌, ◌++◌, ltb,
  nat_eq, list_eq, if◌then◌else◌,
}
use trixps.Prelude.Int.{ℤ, pos, int_eq}
use trixps.Prelude.Map.{Map, lookup, insert}
use trixps.Prelude.Text.{Text}
use trixps.Prelude.Decimal.{itoa}
use trixps.Storage.Log.{add64, reached}
use trixps.Rpc.{FetchRecord, FetchReply}

-- The variables of the loop, what was printed, and the offsets that were saved last.
pub record Consumer : Type 0 where
  pub offsets : Map ℤ ℕ
  pub read : ℕ
  pub printed : List (ℤ × FetchRecord)
  pub progressed : Bool
  pub on_file : Map ℤ ℕ

-- `offsets[p]`, which is 0 where the key is not there.
abbrev pub offset_in : ℤ → Map ℤ ℕ → ℕ
offset_in p offsets = elim (lookup p offsets) [ none ↦ 0 | some o ↦ o ]

-- A record is printed, and the offset moves behind it.
unfoldable pub print : ℤ → FetchRecord → Consumer → Consumer
print p r c = record c {
  offsets = insert p (add64 r.offset 1) c.offsets;
  read = c.read + 1;
  printed = c.printed ++ (p, r) ∷ [];
  progressed = true;
}

-- `saveOffsets(offPath, offsets)`
abbrev pub saving : Consumer → Consumer
saving c = record c { on_file = c.offsets }

-- "print records and move offset"; the Boolean is whether the limit is reached, where the offsets are
-- saved.
unfoldable pub print_all : ℤ → ℤ → List FetchRecord → Consumer → Bool × Consumer
print_all max p [] c = (false, c)
print_all max p (r ∷ rs) c =
    let next = print p r c in
    elim (reached max next.read) [ true ↦ (true, saving next) | false ↦ print_all max p rs next ]

-- "store new offset"
unfoldable pub store_offset : ℤ → ℕ → Consumer → Consumer
store_offset p next c =
    if ltb (offset_in p c.offsets) next then record c { offsets = insert p next c.offsets } else c

abbrev pub unless_stopped : ℤ → ℕ → Bool × Consumer → Bool × Consumer
unless_stopped p next (true, c) = (true, c)
unless_stopped p next (false, c) = (false, store_offset p next c)

-- What a fetch of a partition changes.
unfoldable pub on_reply {ℓ} : {E : Type ℓ} → ℤ → ℤ → FetchReply ⊎ E → Consumer → Bool × Consumer
on_reply max p (inr e) c = (false, c)
on_reply max p (inl reply) c = unless_stopped p reply.next_offset (print_all max p reply.records c)

module _ {E S : Type 0} (fetch : ℤ → ℕ → S → (FetchReply ⊎ E) × S) (max : ℤ) where
  -- The loop over the partitions from `p` on, `left` of them.
  unfoldable pub poll : ℕ → ℕ → Consumer → S → (Bool × Consumer) × S
  poll zero p c s = ((false, c), s)
  poll (suc left) p c s =
      let (reply, s') = fetch (pos p) (offset_in (pos p) c.offsets) s in
      let (stop, c') = on_reply max (pos p) reply c in
      elim stop [ true ↦ ((true, c'), s') | false ↦ poll left (suc p) c' s' ]

  -- A round over all the partitions.
  unfoldable pub round : ℕ → Consumer → S → (Bool × Consumer) × S
  round n c s = poll n 0 (record c { progressed = false }) s

-- The end of the loop of `consume`, or what follows it.
abbrev pub unless_done {ℓ} :
    {S : Type ℓ} → (Bool × Consumer) × S → Option (Consumer × S) → Option (Consumer × S)
unless_done ((true, c), s) more = some (c, s)
unless_done ((false, c), s) more = if c.progressed then more else some (saving c, s)

-- The loop without `--follow`: it ends at the limit, or behind a round that printed nothing. `none`:
-- the fuel ran out.
unfoldable pub consume :
    {E S : Type 0}
    → (ℤ → ℕ → S → (FetchReply ⊎ E) × S)
    → ℤ
    → ℕ
    → ℕ
    → Consumer
    → S
    → Option (Consumer × S)
consume fetch max zero n c s = none
consume fetch max (suc fuel) n c s =
    let o = round fetch max n c s in unless_done o (consume fetch max fuel n (saving o.0.1) o.1)

-- The JSON object of the file, and its keys: the partitions in decimal.
unfoldable pub to_raw : Map ℤ ℕ → Map Text ℕ → Map Text ℕ
to_raw [] raw = raw
to_raw ((p, o) ∷ offsets) raw = to_raw offsets (insert (itoa p) o raw)

-- The bytes that `saveOffsets` writes.
unfoldable pub save_offsets : (Map Text ℕ → Text) → Map ℤ ℕ → Text
save_offsets marshal offsets = marshal (to_raw offsets [])

-- "init map to 0", for the partitions from `p` on, `left` of them.
unfoldable pub zeros : ℕ → ℕ → Map ℤ ℕ → Map ℤ ℕ
zeros zero p offsets = offsets
zeros (suc left) p offsets = zeros left (suc p) (insert (pos p) 0 offsets)

-- "translate from json to map"
unfoldable pub from_raw : Map Text ℕ → ℕ → ℕ → Map ℤ ℕ → Map ℤ ℕ
from_raw raw zero p offsets = offsets
from_raw raw (suc left) p offsets =
    from_raw raw left (suc p)
      (elim (lookup (itoa (pos p)) raw) [ none ↦ offsets | some o ↦ insert (pos p) o offsets ])

-- A file that is not there or is no such JSON leaves all at 0.
unfoldable pub load_offsets : (Text → Option (Map Text ℕ)) → Option Text → ℕ → Map ℤ ℕ
load_offsets unmarshal file n =
    let offsets = zeros n 0 [] in
    elim file [
      | none ↦ offsets
      | some bytes ↦ elim (unmarshal bytes) [ none ↦ offsets | some raw ↦ from_raw raw n 0 offsets ]
    ]
