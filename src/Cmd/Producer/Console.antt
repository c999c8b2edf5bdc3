-- ===== src/Cmd/Producer/Console.antt =====
-- `main`, `runInteractive`, `publish` and `printStatus` of cmd/producer/main.go. The flags are parsed, the
-- lines of the console are those that the scanner of bufio returns, and what is printed is a value.
use trixps.Prelude.{
  ℕ, Bool, true, false, ◌||◌, Option, none, some, ◌⊎◌, inl, inr, List, [], ◌∷◌, ◌==◌, list_eq,
  nat_eq, if◌then◌else◌,
}
use trixps.Prelude.Int.{ℤ, pos, int_eq, int_ltb}
use trixps.Prelude.Text.{Text}
use trixps.Hashing.{partition_for}
use trixps.Client.{Network, Err, metadata, produce, produce_batch, health}
use trixps.Cmd.Flags.{reverse_onto, trim_space, split_csv}
use trixps.Cmd.Producer.{batches, send_batches}
use trixps.Rpc.{HealthReply, BatchRecord}

abbrev is_line_end : ℕ → Bool
is_line_end b = (b == 10) || (b == 13)

-- From the front, as long as there are line ends.
abbrev drop_line_ends : Text → Text
drop_line_ends [] = []
drop_line_ends (b ∷ s) = if is_line_end b then drop_line_ends s else b ∷ s

-- `strings.TrimRight(s, "\r\n")`
unfoldable pub trim_line : Text → Text
trim_line s = reverse_onto (drop_line_ends (reverse_onto s [])) []

abbrev put_before : ℕ → Option (Text × Text) → Option (Text × Text)
put_before b none = none
put_before b (some (front, back)) = some (b ∷ front, back)

-- What stands before the first `c` and behind it (`strings.Index`).
unfoldable pub split_first : ℕ → Text → Option (Text × Text)
split_first c [] = none
split_first c (b ∷ s) =
    let rest = split_first c s in if b == c then some ([], s) else put_before b rest

-- "spliting key value"
unfoldable pub key_value : Text → Text × Text
key_value line = elim (split_first b':' line) [
  | none ↦ ([], line)
  | some parts ↦ (trim_space parts.0, trim_space parts.1)
]

-- What the console says of a line: "failed", or "sent" with the partition, the offset and the key.
pub data Said (X : Type 0) : Type 0 where
  failed : X → Said X
  sent : ℤ → ℕ → Text → Said X

-- The flags.
pub record ProducerFlags : Type 0 where
  pub brokers : Text
  pub topic : Text
  pub key : Text
  pub value : Text
  pub count : ℤ
  pub batch_size : ℤ
  pub status : Bool
  pub interactive : Bool

-- What the program does: the states of the brokers, the console's answers, the messages and the calls of
-- batches, the partition and the offset of one message, or why it ends early.
pub data Ending (E X : Type 0) : Type 0 where
  states : List (Text × (HealthReply ⊎ E)) → Ending E X
  console : List (Said X) → Ending E X
  batches_sent : ℕ × ℕ → Ending E X
  published : ℤ → ℕ → Ending E X
  stopped : X → Ending E X
  panicked : Ending E X

abbrev ended {ℓ} :
    {E X : Type 0} {R : Type ℓ} {S : Type ℓ} → (R → Ending E X) → (R ⊎ X) × S → Ending E X × S
ended finish (inl r, s) = (finish r, s)
ended finish (inr x, s) = (stopped x, s)

module _ {E S : Type 0} (net : Network E S) (brokers : List Text) (topic : Text) where
  -- A message to the partition of its key. `none` is the panic of `PartitionFor`.
  unfoldable pub send_one : ℤ → Text → Text → S → Option (ℤ × (ℕ ⊎ Err E) × S)
  send_one n key value s = elim (partition_for key n) [
    | none ↦ none
    | some p ↦
        let o =
          produce net brokers (record { topic = topic; partition = p; key = key; value = value })
            s in
        some (p, o.0, o.1)
  ]

  abbrev pub said : Text → ℤ × (ℕ ⊎ Err E) × S → Said (Err E)
  said key (p, inl off, s) = sent p off key
  said key (p, inr e, s) = failed e

  abbrev pub also {ℓ} : {A B : Type ℓ} → A → Option (List A × B) → Option (List A × B)
  also a none = none
  also a (some (more, b)) = some (a ∷ more, b)

  -- The console over the lines that are typed, until there are no more.
  unfoldable pub run_interactive : ℤ → List Text → S → Option (List (Said (Err E)) × S)
  run_interactive n [] s = some ([], s)
  run_interactive n (typed ∷ lines) s =
      let line = trim_line typed in
      let (key, value) = key_value line in
      elim (line == []) [
        | true ↦ run_interactive n lines s
        | false ↦ elim (send_one n key value s) [
          | none ↦ none
          | some o ↦ also (said key o) (run_interactive n lines o.2)
        ]
      ]

  -- "else we only send one message"
  unfoldable pub publish : ℤ → Text → Text → S → Ending E (Err E) × S
  publish n key value s = elim (send_one n key value s) [
    | none ↦ (panicked, s)
    | some (p, o, s') ↦ (elim o [ inl off ↦ published p off | inr e ↦ stopped e ], s')
  ]

-- `printStatus`: a broker that does not answer does not end the loop.
unfoldable pub print_status :
    {E S : Type 0} → Network E S → List Text → S → List (Text × (HealthReply ⊎ E)) × S
print_status net [] s = ([], s)
print_status net (addr ∷ addrs) s =
    let asked = health net addr s in
    let rest = print_status net addrs asked.1 in ((addr, asked.0) ∷ rest.0, rest.1)

-- "if n == 0"
abbrev pub or_two : ℤ → ℤ
or_two n = if n == pos 0 then pos 2 else n

module _ {E S : Type 0} (net : Network E S) (f : ProducerFlags) (lines : List Text) where
  abbrev pub console_ends : Option (List (Said (Err E)) × S) → S → Ending E (Err E) × S
  console_ends none s = (panicked, s)
  console_ends (some (all_said, s')) s = (console all_said, s')

  abbrev pub batches_end : Option (List (ℤ × List BatchRecord)) → S → Ending E (Err E) × S
  batches_end none s = (panicked, s)
  batches_end (some bs) s = ended batches_sent (
      send_batches
        (λ p recs.
          produce_batch net (split_csv f.brokers)
            (record { topic = f.topic; partition = p; records = recs }))
        bs (0, 0) s)

  -- The modes of the program, where the cluster has `n` partitions.
  unfoldable pub dispatch : ℤ → S → Ending E (Err E) × S
  dispatch n s =
      let brokers = split_csv f.brokers in
      if f.interactive
      then console_ends (run_interactive net brokers f.topic n lines s) s
      else if int_ltb (pos 0) f.count
      then batches_end (batches f.count n f.batch_size) s
      else publish net brokers f.topic n f.key f.value s

  unfoldable pub run : S → Ending E (Err E) × S
  run s =
      let brokers = split_csv f.brokers in
      if f.status
      then (let shown = print_status net brokers s in (states shown.0, shown.1))
      else (let found = metadata net brokers s in
          elim found.0 [
            | inr e ↦ (stopped e, found.1)
            | inl c ↦ dispatch (or_two c.num_partitions) found.1
          ])
