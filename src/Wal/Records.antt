-- ===== src/Wal/Records.antt =====
-- The reader of the log: `readRecords`, `Repair` and `ReadAll`, over the bytes of the file.
use systemd_transition_expor.Base.{
  ℕ, ◌+◌, Bool, false, not, ◌&&◌, none, some, List, [], ◌∷◌, ◌++◌, ltb, ◌==◌, if◌then◌else◌, length,
  take,
}
use systemd_transition_expor.Base.Text.{Text, is_empty, trim_space}
use systemd_transition_expor.Model.{Event}
use systemd_transition_expor.Wal.Codec.{EventCodec}

abbrev pub newline : ℕ
newline = 10

pub record Report : Type 0 where
  pub skipped_records : ℕ
  pub truncated_bytes : ℕ
  pub state_reset : Bool

-- The method `Empty` of `Report`.
unfoldable pub empty_report : Report → Bool
empty_report r = r.skipped_records == 0 && r.truncated_bytes == 0 && not r.state_reset

-- The results of `readRecords`: the events, two counts, and the end of the last complete line.
pub record Records : Type 0 where
  pub events : List Event
  pub skipped : ℕ
  pub truncated : ℕ
  pub complete : ℕ

module _ (codec : EventCodec) where
  open codec use {decode}

  -- One complete line, given without its newline, before the records that follow it.
  unfoldable pub add_line : Text → Records → Records
  add_line line rest =
      let payload = trim_space (line ++ newline ∷ []) in
      let rest' = record rest { complete = rest.complete + (length line + 1) } in
      if is_empty payload then rest' else elim (decode payload) [
        | none ↦ record rest' { skipped = rest.skipped + 1 }
        | some v ↦ record rest' { events = v ∷ rest.events }
      ]

  -- The loop, with the bytes of the current line read so far.
  unfoldable pub read_lines : Text → Text → Records
  read_lines line [] = record { events = []; skipped = 0; truncated = length line; complete = 0 }
  read_lines line (c ∷ rest) =
      let next = add_line line (read_lines [] rest) in
      let more = read_lines (line ++ c ∷ []) rest in if c == newline then next else more

  unfoldable pub read_records : Text → Records
  read_records file = read_lines [] file

  -- `ReadAll`
  unfoldable pub read_all : Text → List Event × Report
  read_all file =
      let r = read_records file in
      (
        r.events,
        record { skipped_records = r.skipped; truncated_bytes = r.truncated; state_reset = false },
      )

  -- `Repair`, where the truncation succeeds: the report and the file that is left.
  unfoldable pub repair : Text → Report × Text
  repair file =
      let r = read_records file in
      (
        record { skipped_records = 0; truncated_bytes = r.truncated; state_reset = false },
        if ltb 0 r.truncated then take r.complete file else file,
      )
