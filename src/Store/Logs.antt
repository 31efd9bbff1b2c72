-- ===== src/Store/Logs.antt =====
-- crates/jobstore/src/lib.rs: what `tail_logs` returns of the lines that `record_log_line` wrote.
use multinode_controller.Base.{
  ℕ, suc, ◌-◌, ◌^◌, ◌≤◌, ◌<◌, ◌≡◌, refl, ap, ◌∙◌, sym, Bool, false, leb, List, [], ◌∷◌, ◌++◌, map,
  reverse, text_dec, eq_text, bytes, arith, All, All-append, All-map, select, select-append, take,
  sort_by, sort_by-Falling, Pairs, Pairs-map, Pairs-append, Pairs-select, Pairs-take, Pairs-reverse,
  newest, map-newest, sql_limit, pos, negsuc, to_i64, to_u64-to_i64,
}
use mathlib.Core.List.{append-nil, append_assoc, map-append}
use multinode_controller.Protocol.{
  JobId, DateTime, LogLine, LogStream, stdout, stderr, system, stream_text,
}
use multinode_controller.Store.Tables.{
  Formats, LogRow, JobStore, empty_store, log_row, record_log_line,
}
use multinode_controller.Store.Queries.{parse_stream, log_line_of, tail_logs}

-- Identifiers rise along the table and stay below the counter.
pub record LogsInOrder (s : JobStore) : Type 0 where
  pub rising : Pairs (λ (a b : LogRow). a.id < b.id) s.task_logs
  pub below : All (λ (r : LogRow). r.id < s.next_log_id) s.task_logs

parse_stream-stream_text : (s : LogStream) → parse_stream (stream_text s) ≡ s
unfolding parse_stream stream_text bytes text_dec
parse_stream-stream_text stdout = refl
parse_stream-stream_text stderr = refl
parse_stream-stream_text system = refl

abbrev of_job : JobId → LogRow → Bool
of_job job_id r = eq_text r.job_id job_id

-- The inner query reads the table backwards; the outer one turns the excerpt round.
excerpt-newest :
    (n : ℕ) (rs : List LogRow)
    → Pairs (λ (a b : LogRow). a.id < b.id) rs
    → sort_by
        (λ (a b : LogRow). leb a.id b.id)
        (take n (sort_by (λ (a b : LogRow). leb b.id a.id) rs))
      ≡ newest n rs
unfolding newest
excerpt-newest n rs s =
    rw
      (sort_by-Falling (λ (a b : LogRow). leb b.id a.id) rs
        (Pairs-map (λ (a b : LogRow). a.id < b.id) (λ (a b : LogRow). leb b.id a.id ≡ false)
          (λ a b h. ground arith) rs s))
      (sort_by-Falling (λ (a b : LogRow). leb a.id b.id) (take n (reverse rs))
        (Pairs-map (λ (a b : LogRow). b.id < a.id) (λ (a b : LogRow). leb a.id b.id ≡ false)
          (λ a b h. ground arith) (take n (reverse rs))
          (Pairs-take (λ (a b : LogRow). b.id < a.id) n (reverse rs)
            (Pairs-reverse (λ (a b : LogRow). a.id < b.id) rs s))))

to_i64_small : (n : ℕ) → n < 2 ^ 63 → to_i64 n ≡ pos n
unfolding to_i64
to_i64_small n h = ground arith

to_i64_large : (n : ℕ) → 2 ^ 63 ≤ n → to_i64 n ≡ negsuc (2 ^ 64 - 1 - n)
unfolding to_i64
to_i64_large n h = ground arith

module _ ⦃formats : Formats⦄ where
  record_log_line-LogsInOrder :
      (l : LogLine) (s : JobStore) → LogsInOrder s → LogsInOrder (record_log_line l s)
  unfolding record_log_line
  record_log_line-LogsInOrder l s o = record {
    rising = Pairs-append (λ (a b : LogRow). a.id < b.id) s.task_logs _ o.below o.rising;
    below =
        All-append (λ (r : LogRow). r.id < suc s.next_log_id) s.task_logs _
          (All-map (λ (r : LogRow). r.id < s.next_log_id) (λ (r : LogRow). r.id < suc s.next_log_id)
            (λ r h. omega arith) s.task_logs o.below)
          (omega arith, tt);
  }

  tail_logs-newest :
      (now : DateTime) (job_id : JobId) (lines : ℕ) (s : JobStore)
      → LogsInOrder s
      → lines < 2 ^ 63
      → tail_logs now job_id lines s
        ≡ newest lines (map (log_line_of now) (select (of_job job_id) s.task_logs))
  unfolding tail_logs sql_limit
  tail_logs-newest now job_id lines s o h = rw (to_i64_small lines h) (
      ap (map (log_line_of now)) (
        excerpt-newest lines (select (of_job job_id) s.task_logs)
          (Pairs-select (λ (a b : LogRow). a.id < b.id) (of_job job_id) s.task_logs o.rising))
      ∙ map-newest (log_line_of now) lines (select (of_job job_id) s.task_logs))

  -- A recorded line is read back as it was.
  log_line_of-log_row :
      (now : DateTime) (l : LogLine) (id : ℕ)
      → l.offset < 2 ^ 64
      → log_line_of now (log_row id l) ≡ l
  unfolding log_line_of log_row
  log_line_of-log_row now l id h = ground (
    arith,
    parse_stream-stream_text l.stream,
    formats.parse-to_rfc3339 l.timestamp,
    to_u64-to_i64 l.offset,
  )

  -- The log messages of a run, recorded one after the other.
  unfoldable pub record_log_lines : List LogLine → JobStore → JobStore
  record_log_lines [] s = s
  record_log_lines (l ∷ ls) s = record_log_lines ls (record_log_line l s)

  record_log_lines-LogsInOrder :
      (ls : List LogLine) (s : JobStore) → LogsInOrder s → LogsInOrder (record_log_lines ls s)
  unfolding record_log_lines
  record_log_lines-LogsInOrder [] s o = o
  record_log_lines-LogsInOrder (l ∷ ls) s o =
      record_log_lines-LogsInOrder ls (record_log_line l s) (record_log_line-LogsInOrder l s o)

  abbrev read_back : DateTime → JobId → JobStore → List LogLine
  read_back now job_id s = map (log_line_of now) (select (of_job job_id) s.task_logs)

  abbrev line_of_job : JobId → LogLine → Bool
  line_of_job job_id l = eq_text l.job_id job_id

  read_back-record :
      (now : DateTime) (job_id : JobId) (l : LogLine) (s : JobStore)
      → l.offset < 2 ^ 64
      → read_back now job_id (record_log_line l s)
        ≡ read_back now job_id s ++ select (line_of_job job_id) (l ∷ [])
  unfolding record_log_line select
  read_back-record now job_id l s h =
      let row = log_row s.next_log_id l in
      rw (select-append (of_job job_id) s.task_logs (row ∷ [])) (
        ground (
          arith,
          map-append (log_line_of now) (select (of_job job_id) s.task_logs) (row ∷ []),
          map-append (log_line_of now) (select (of_job job_id) s.task_logs) [],
          append-nil (map (log_line_of now) (select (of_job job_id) s.task_logs)),
          append-nil (select (of_job job_id) s.task_logs),
          log_line_of-log_row now l s.next_log_id h,
        ))

  read_back-record_log_lines :
      (now : DateTime) (job_id : JobId) (ls : List LogLine) (s : JobStore)
      → All (λ l. l.offset < 2 ^ 64) ls
      → read_back now job_id (record_log_lines ls s)
        ≡ read_back now job_id s ++ select (line_of_job job_id) ls
  unfolding record_log_lines select
  read_back-record_log_lines now job_id [] s h = sym (append-nil (read_back now job_id s))
  read_back-record_log_lines now job_id (l ∷ ls) s h =
      read_back-record_log_lines now job_id ls (record_log_line l s) h.1
      ∙ ap (λ (xs : List LogLine). xs ++ select (line_of_job job_id) ls)
          (read_back-record now job_id l s h.0)
      ∙ append_assoc (read_back now job_id s) (select (line_of_job job_id) (l ∷ []))
          (select (line_of_job job_id) ls)
      ∙ ap (◌++◌ (read_back now job_id s)) (sym (select-append (line_of_job job_id) (l ∷ []) ls))

  -- Of the lines recorded into a new store, `tail_logs` returns the job's last ones, as they were
  -- and in the order they were recorded, for any bound that fits an i64.
  pub tail_logs-record_log_lines :
      (now : DateTime) (job_id : JobId) (lines : ℕ) (ls : List LogLine)
      → All (λ l. l.offset < 2 ^ 64) ls
      → lines < 2 ^ 63
      → tail_logs now job_id lines (record_log_lines ls empty_store)
        ≡ newest lines (select (λ l. eq_text l.job_id job_id) ls)
  unfolding select
  tail_logs-record_log_lines now job_id lines ls offsets h =
      tail_logs-newest now job_id lines (record_log_lines ls empty_store)
        (record_log_lines-LogsInOrder ls empty_store (record { rising = tt; below = tt })) h
      ∙ ap (newest lines) (read_back-record_log_lines now job_id ls empty_store offsets)
