-- ===== src/Broker/Topics/Shared.antt =====
-- Two topics whose names are written alike share a file, but not a log (internal/broker/broker.go:
-- `sanitizeTopic` and `logFor`).
use trixps.Prelude.{
  ◌≢◌, ◌<◌, ◌^◌, inl, none, some, All, list_beq-ne, ℕ, ◌≡◌, refl, sym, ap, ◌∙◌, List, [], ◌∷◌, ◌++◌,
  length, drop, drop_all, append-nil, list_eq, nat_eq, list_beq_iff, arith,
}
use trixps.Prelude.Int.{ℤ}
use trixps.Prelude.Map.{Map, lookup, insert, lookup-insert}
use trixps.Prelude.Text.{Text}
use trixps.Storage.Codec.{Record, Result, ok, encode_record}
use trixps.Storage.Codec.{Fits, eof}
use trixps.Storage.Codec.Torn.{read_record-nil}
use trixps.Storage.Log.Replay.{healthy, open_log-encodings}
use trixps.Storage.Log.{Log, append, open_log}
use trixps.Storage.Log.Append.{written, next_record, Room, append-Holds, encodings-snoc}
use trixps.Storage.Log.Layout.{encodings, Holds, IsNumbered}
use trixps.Broker.Topics.{
  Topics, content, stored, log_key, file_name, sanitize_topic, on_log, log_for, kept,
}
use trixps.Broker.Topics.Names.{file_name_iff, log_key-injective}

-- A log, with what is in its file now.
abbrev pub on_disk : Text → ℤ → Topics → Log → Log
on_disk topic p b l = record l { f = content (file_name topic p) b.files }

content-insert : (name f : Text) (files : Map Text Text) → content name (insert name f files) ≡ f
content-insert name f files =
    ground (arith, lookup-insert name name f files, list_beq_iff name name)

-- `Append` of a record to the log of a topic.
abbrev pub append_to : Text → ℤ → Text → Text → ℕ → Log × Topics → Result ℕ × Topics
append_to topic p key value now = on_log topic p (append written now key value)

module _ (topic : Text) (p : ℤ) (recs : List Record) (tail key value : Text) (now : ℕ) (l : Log)
    (b : Topics) (h : Holds recs tail (on_disk topic p b l))
    (room : Room recs (next_record recs key value now)) where
  append_to-Holds :
      (l' : Log) × (append_to topic p key value now (l, b) ≡ (
        ok (length recs),
        record b {
          logs = insert (log_key topic p) l' b.logs;
          files = insert (file_name topic p) l'.f b.files;
        },
      ))
      × Holds
          (recs ++ (next_record recs key value now ∷ []))
          (drop (length (encode_record (next_record recs key value now))) tail)
          l'
  unfolding on_log
  append_to-Holds =
      let (l', e, held) = append-Holds recs tail key value now (on_disk topic p b l) h room in
      (l', ap (stored (log_key topic p) (file_name topic p) b) e, held)

-- The records with one more, and nothing behind them.
alone :
    (recs : List Record) (r : Record)
    → encodings (recs ++ (r ∷ [])) ++ drop (length (encode_record r)) []
      ≡ encodings recs ++ encode_record r
alone recs r =
    ap (λ (rest : Text). encodings (recs ++ (r ∷ [])) ++ rest)
      (drop_all (length (encode_record r)) [] (omega arith))
    ∙ append-nil (encodings (recs ++ (r ∷ [])))
    ∙ encodings-snoc recs r

-- The bytes of the file change under a log, but not its records.
with_file :
    (recs : List Record) (tail rest f : Text) (l : Log)
    → Holds recs tail l
    → f ≡ encodings recs ++ rest
    → Holds recs rest (record l { f = f })
with_file recs tail rest f l h e = record {
  file = e;
  is_open = h.is_open;
  size = h.size;
  next_off = h.next_off;
  index = h.index;
  numbered = h.numbered;
  fits = h.fits;
  room = h.room;
}

-- `logFor` of a log that is not open.
log_for-opens :
    (topic : Text) (p : ℤ) (recs : List Record) (b : Topics)
    → topic ≢ []
    → lookup (log_key topic p) b.logs ≡ none
    → content (file_name topic p) b.files ≡ encodings recs
    → IsNumbered 0 recs
    → All Fits recs
    → (length recs < 2 ^ 64) × (length (encodings recs) < 2 ^ 64)
    → (l : Log) × (log_for healthy topic p b
        ≡ some (
          inl l,
          record b {
            logs = insert (log_key topic p) l b.logs;
            files = insert (file_name topic p) (encodings recs) b.files;
          },
        ))
      × Holds recs [] l
unfolding log_for kept
log_for-opens topic p recs b named absent there numbered fits room =
    let (l, e, h) = open_log-encodings recs [] eof numbered fits room (read_record-nil eof) in
    let opens : open_log healthy (content (file_name topic p) b.files)
        ≡ some (ok l, encodings recs) =
      ap (open_log healthy) (there ∙ sym (append-nil (encodings recs))) ∙ e in
    (l, rw (log_for, list_beq-ne topic [] named, absent, opens), h)

-- Where two topics are written alike, each with a log of its own that knows the records of their file, a
-- record appended to the one and a record appended to the other get the same offset, and the second
-- record stands in the file in the place of the first.
pub append-overwrites :
    (t u : Text) (p : ℤ) (recs : List Record) (b : Topics) (l m : Log)
    (key value other_key other : Text) (now later : ℕ)
    → sanitize_topic t ≡ sanitize_topic u
    → Holds recs [] (on_disk t p b l)
    → Holds recs [] (on_disk u p b m)
    → Room recs (next_record recs key value now)
    → Room recs (next_record recs other_key other later)
    → let first = append_to t p key value now (l, b) in
      let second = append_to u p other_key other later (m, first.1) in
      (first.0 ≡ ok (length recs))
      × (second.0 ≡ ok (length recs))
      × ((rest : Text) × (content (file_name t p) second.1.files
            ≡ encodings (recs ++ (next_record recs other_key other later ∷ [])) ++ rest))
append-overwrites t u p recs b l m key value other_key other now later alike hl hm room other_room =
    let name = (file_name_iff t u p p).1 (alike, refl) in
    let r = next_record recs key value now in
    let (l', e, held) = append_to-Holds t p recs [] key value now l b hl room in
    let c : Topics = record b {
      logs = insert (log_key t p) l' b.logs;
      files = insert (file_name t p) l'.f b.files;
    } in
    let now_there : content (file_name u p) c.files ≡ encodings recs ++ encode_record r =
      ap (λ (n : Text). content n c.files) (sym name)
      ∙ content-insert (file_name t p) l'.f b.files
      ∙ held.file
      ∙ alone recs r in
    let hm' =
      with_file recs [] (encode_record r) (content (file_name u p) c.files) (on_disk u p b m) hm
        now_there in
    let (m', e', held') =
      append_to-Holds u p recs (encode_record r) other_key other later m c hm' other_room in
    let d : Topics = record c {
      logs = insert (log_key u p) m' c.logs;
      files = insert (file_name u p) m'.f c.files;
    } in
    let both : append_to u p other_key other later (m, (append_to t p key value now (l, b)).1)
        ≡ (ok (length recs), d) =
      ap (λ (o : Result ℕ × Topics). append_to u p other_key other later (m, o.1)) e ∙ e' in
    (
      ap (λ (o : Result ℕ × Topics). o.0) e,
      ap (λ (o : Result ℕ × Topics). o.0) both,
      (
        drop (length (encode_record (next_record recs other_key other later))) (encode_record r),
        ap (λ (o : Result ℕ × Topics). content (file_name t p) o.1.files) both
            ∙ ap (λ (n : Text). content n d.files) name
            ∙ content-insert (file_name u p) m'.f c.files
            ∙ held'.file,
      ),
    )

-- Two different topics that are written alike, neither of whose logs is open, and a file that holds some
-- records, or none: `logFor` opens a log for each of them, and then a record appended to the one and a
-- record appended to the other get the same offset, and the second record stands in the file in the place
-- of the first.
pub log_for-overwrites :
    (t u : Text) (p : ℤ) (recs : List Record) (b : Topics) (key value other_key other : Text)
    (now later : ℕ)
    → t ≢ u
    → t ≢ []
    → u ≢ []
    → sanitize_topic t ≡ sanitize_topic u
    → lookup (log_key t p) b.logs ≡ none
    → lookup (log_key u p) b.logs ≡ none
    → content (file_name t p) b.files ≡ encodings recs
    → IsNumbered 0 recs
    → All Fits recs
    → Room recs (next_record recs key value now)
    → Room recs (next_record recs other_key other later)
    → (l : Log) × (m : Log) × (c : Topics) × (d : Topics) × (log_for healthy t p b
        ≡ some (inl l, c))
      × (log_for healthy u p c ≡ some (inl m, d))
      × (let first = append_to t p key value now (l, d) in
          let second = append_to u p other_key other later (m, first.1) in
          (first.0 ≡ ok (length recs))
          × (second.0 ≡ ok (length recs))
          × ((rest : Text) × (content (file_name t p) second.1.files
                ≡ encodings (recs ++ (next_record recs other_key other later ∷ [])) ++ rest)))
log_for-overwrites t u p recs b key value other_key other now later apart ht hu alike no_log
      no_other there numbered fits room other_room =
    let name = (file_name_iff t u p p).1 (alike, refl) in
    let bounds : (length recs < 2 ^ 64) × (length (encodings recs) < 2 ^ 64) =
      (omega (arith, room), omega (arith, room)) in
    let (l, e, hl) = log_for-opens t p recs b ht no_log there numbered fits bounds in
    let c : Topics = record b {
      logs = insert (log_key t p) l b.logs;
      files = insert (file_name t p) (encodings recs) b.files;
    } in
    let still : lookup (log_key u p) c.logs ≡ none =
      lookup-insert (log_key t p) (log_key u p) l b.logs
      ∙ rw
          (list_beq-ne (log_key t p) (log_key u p)
            (λ same. apart (log_key-injective t u p p same).0))
          no_other in
    let same_file : content (file_name u p) c.files ≡ encodings recs =
      ap (λ (n : Text). content n c.files) (sym name)
      ∙ content-insert (file_name t p) (encodings recs) b.files in
    let (m, e', hm) = log_for-opens u p recs c hu still same_file numbered fits bounds in
    let d : Topics = record c {
      logs = insert (log_key u p) m c.logs;
      files = insert (file_name u p) (encodings recs) c.files;
    } in
    let held : content (file_name u p) d.files ≡ encodings recs ++ [] =
      content-insert (file_name u p) (encodings recs) c.files ∙ sym (append-nil (encodings recs)) in
    let held' = ap (λ (n : Text). content n d.files) name ∙ held in
    (
      l,
      m,
      c,
      d,
      e,
      e',
      append-overwrites t u p recs d l m key value other_key other now later alike
          (with_file recs [] [] (content (file_name t p) d.files) l hl held')
          (with_file recs [] [] (content (file_name u p) d.files) m hm held) room other_room,
    )
