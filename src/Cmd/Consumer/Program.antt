-- ===== src/Cmd/Consumer/Program.antt =====
-- `main` of cmd/consumer/main.go without `--follow`: the number of partitions, the file of the offsets, and
-- the loop. The files are a map from their names to their contents.
use trixps.Prelude.{
  ℕ, Option, none, some, ◌⊎◌, inl, inr, false, [], ◌++◌, ◌==◌, list_eq, nat_eq, if◌then◌else◌,
}
use trixps.Prelude.Int.{ℤ, pos, pos_part, int_eq}
use trixps.Prelude.Map.{Map, lookup, insert}
use trixps.Prelude.Text.{Text, codes}
use trixps.Client.{Network, Err, metadata, fetch}
use trixps.Rpc.{FetchReply}
use trixps.Cmd.Flags.{split_csv}
use trixps.Cmd.Consumer.{Consumer, consume, save_offsets, load_offsets}

pub record ConsumerFlags : Type 0 where
  pub brokers : Text
  pub topic : Text
  pub offset_file : Text
  pub partitions : ℤ
  pub max : ℤ

-- "if n == 0"
abbrev pub or_two : ℤ → ℤ
or_two n = if n == pos 0 then pos 2 else n

-- "setup offset"
abbrev pub offset_path : ConsumerFlags → Text
offset_path f =
    if f.offset_file == []
    then codes "/tmp/trixps-offsets-" ++ (f.topic ++ codes ".json")
    else f.offset_file

-- The variables before the loop.
abbrev pub begin_at : Map ℤ ℕ → Consumer
begin_at offsets = record {
  offsets = offsets;
  read = 0;
  printed = [];
  progressed = false;
  on_file = [];
}

module _ {E S : Type 0} (net : Network E S) (f : ConsumerFlags)
    (unmarshal : Text → Option (Map Text ℕ)) (marshal : Map Text ℕ → Text) where
  -- "find number of partitions"
  unfoldable pub count_partitions : S → (ℤ ⊎ Err E) × S
  count_partitions s =
      if f.partitions == pos 0
      then (let found = metadata net (split_csv f.brokers) s in
          elim found.0 [
            | inr e ↦ (inr e, found.1)
            | inl c ↦ (inl (or_two c.num_partitions), found.1)
          ])
      else (inl f.partitions, s)

  abbrev pub fetch_100 : ℤ → ℕ → S → (FetchReply ⊎ Err E) × S
  fetch_100 p offset =
      fetch net (split_csv f.brokers)
        (record { topic = f.topic; partition = p; offset = offset; max = pos 100 })

  -- The consumer at its end, with the offsets on the file. `none`: the fuel of the loop ran out.
  unfoldable pub listen_all :
      ℕ → Map Text Text → S → Option ((Consumer ⊎ Err E) × Map Text Text × S)
  listen_all fuel files s =
      let counted = count_partitions s in
      elim counted.0 [
        | inr e ↦ some (inr e, files, counted.1)
        | inl n ↦
            let path = offset_path f in
            let offsets = load_offsets unmarshal (lookup path files) (pos_part n) in
            elim (consume fetch_100 f.max fuel (pos_part n) (begin_at offsets) counted.1) [
              | none ↦ none
              | some (c, s') ↦ some (inl c, insert path (save_offsets marshal c.on_file) files, s')
            ]
      ]
