-- ===== src/Wal.antt =====
-- internal/wal/wal.go: the durable event log and the state file. Each method holds the mutex, so
-- it is one step on the record below. What a system call returns is an argument of the step.
pub mod Codec
pub mod Records
pub mod Replay
pub mod Append
pub mod Ledger
pub mod StateFile
mod SampleCodec
mod Examples
use systemd_transition_expor.Base.{
  ℕ, ◌+◌, ◌≤◌, Bool, true, false, not, ◌&&◌, ◌||◌, Option, none, some, List, [], ◌∷◌, ◌++◌, ltb,
  ◌==◌, if◌then◌else◌, length, take, is_none,
}
use systemd_transition_expor.Base.Dict.{Dict, insert}
use systemd_transition_expor.Base.Text.{Text}
use systemd_transition_expor.Model.{Event, ServiceState}
use systemd_transition_expor.Wal.Codec.{EventCodec}
use systemd_transition_expor.Wal.Records.{Report, newline, repair}

-- The errors that the code tells apart; a short write is one of the others.
pub data Errno : Type 0 where
  no_space disk_quota other : Errno

unfoldable pub is_no_space : Errno → Bool
is_no_space no_space = true
is_no_space disk_quota = true
is_no_space other = false

-- What one write of a record meets: `Seek`, `Write` (so many bytes arrive, and an error),
-- `Truncate` after a failed write, and `Sync`.
pub record WriteFault : Type 0 where
  pub seek : Option Errno
  pub arrived : ℕ
  pub write : Option Errno
  pub truncates : Bool
  pub sync : Option Errno

-- What one write of the state file meets, in the order of the calls: so many bytes of the payload
-- arrive in the temporary file, which is what a rename puts in the place of state.json. `remove` and `rename_again`
-- are the fallback of a failed rename; `dir_sync` is only heeded on other systems than Windows.
pub record StateFault : Type 0 where
  pub open_tmp : Option Errno
  pub arrived : ℕ
  pub write : Option Errno
  pub sync : Option Errno
  pub close : Option Errno
  pub rename : Option Errno
  pub remove : Option Errno
  pub rename_again : Option Errno
  pub dir_open : Option Errno
  pub dir_sync : Option Errno
  pub dir_close : Option Errno

-- What one method call meets: the pending `Sync`, the i-th write of the flush, the write of the
-- method's own event, and the write of the state file.
pub record Faults : Type 0 where
  pub pre_sync : Option Errno
  pub flushed : ℕ → WriteFault
  pub own : WriteFault
  pub on_state : StateFault

-- `events` is the content of events.jsonl, `state_json` that of state.json.
pub record Wal : Type 0 where
  pub events : Text
  pub state_json : Option Text
  pub fsync : Bool
  pub states : Dict ServiceState
  pub repaired : Report
  pub pending : List Event
  pub state_dirty : Bool
  pub sync_needed : Bool
  pub blocked : Bool

unfoldable pub writable : Wal → Bool
writable w = not w.blocked

unfoldable pub pending_count : Wal → ℕ
pending_count w = length w.pending

-- A short or failed write is rolled back to the previous end of the file, if that succeeds.
unfoldable pub append_record : WriteFault → Text → Wal → Option Errno × Wal
append_record f payload w =
    let arrived = take f.arrived payload in
    let n = length arrived in
    let failed = if is_none f.write then some other else f.write in
    let left = if ltb 0 n && f.truncates then w.events else w.events ++ arrived in
    if not (is_none f.seek)
    then (f.seek, w)
    else if is_none f.write && n == length payload
    then (none, record w { events = w.events ++ payload })
    else (failed, record w { events = left })

module _ (codec : EventCodec) where
  open codec use {encode, encode_states, decode_states}

  -- The rest of `writeEventLocked`, given what `appendRecord` returned.
  unfoldable pub sync_event : WriteFault → Option Errno → Wal → Option Errno × Wal
  sync_event f (some x) w = (some x, w)
  sync_event f none w =
      if w.fsync && not (is_none f.sync)
      then (f.sync, record w { sync_needed = true })
      else (none, w)

  unfoldable pub write_event : WriteFault → Event → Wal → Option Errno × Wal
  write_event f v w =
      let (r, w') = append_record f (encode v ++ newline ∷ []) w in sync_event f r w'

  -- The end of a round of the loop over the pending events, which goes on with `next`.
  unfoldable pub flushed_one :
      Option Errno → List Event → Wal → Option Errno × Wal → Option Errno × Wal
  flushed_one none rest w next = next
  flushed_one (some x) rest w next =
      (some x, if w.sync_needed then record w { pending = rest } else w)

  -- The loop over the pending events, the i-th of this call first.
  unfoldable pub flush_pending : (ℕ → WriteFault) → ℕ → List Event → Wal → Option Errno × Wal
  flush_pending fs i [] w = (none, w)
  flush_pending fs i (v ∷ vs) w =
      let (r, w') = write_event (fs i) v w in
      flushed_one r vs w' (flush_pending fs (i + 1) vs (record w' { pending = vs }))

  -- After the rename: the directory is made durable.
  unfoldable pub sync_dir : StateFault → Wal → Option Errno × Wal
  sync_dir f w =
      if not w.fsync
      then (none, w)
      else if not (is_none f.dir_open)
      then (f.dir_open, w)
      else if not (is_none f.dir_sync)
      then (f.dir_sync, w)
      else (f.dir_close, w)

  unfoldable pub write_state : StateFault → Wal → Option Errno × Wal
  unfolding sync_dir
  write_state f w =
      let payload = encode_states w.states ++ newline ∷ [] in
      let arrived = take f.arrived payload in
      let renamed = record w { state_json = some arrived } in
      if not (is_none f.open_tmp)
      then (f.open_tmp, w)
      else if not (is_none f.write)
      then (f.write, w)
      else if not (length arrived == length payload)
      then (some other, w)
      else if w.fsync && not (is_none f.sync)
      then (f.sync, w)
      else if not (is_none f.close)
      then (f.close, w)
      else if is_none f.rename
      then sync_dir f renamed
      else if not (is_none f.remove)
      then (f.rename, w)
      else if not (is_none f.rename_again)
      then (f.rename_again, record w { state_json = none })
      else sync_dir f renamed

  -- `flushLocked` after its write of the state file.
  unfoldable pub state_written : Option Errno → Wal → Option Errno × Wal
  state_written none w = (none, record w { state_dirty = false })
  state_written (some x) w = (some x, w)

  -- `flushLocked` after its loop.
  unfoldable pub flush_state : StateFault → Option Errno → Wal → Option Errno × Wal
  flush_state f (some x) w = (some x, w)
  flush_state f none w =
      let (r, w') = write_state f w in if w.state_dirty then state_written r w' else (none, w)

  -- `flushLocked` from the loop on.
  unfoldable pub flush_rest : Faults → Wal → Option Errno × Wal
  flush_rest f w =
      let (r, w') = flush_pending f.flushed 0 w.pending w in flush_state f.on_state r w'

  unfoldable pub flush : Faults → Wal → Option Errno × Wal
  flush f w =
      if not w.sync_needed
      then flush_rest f w
      else if not (is_none f.pre_sync)
      then (f.pre_sync, w)
      else flush_rest f (record w { sync_needed = false })

  unfoldable pub remember : Event → Wal → Wal
  remember v w = record w { pending = w.pending ++ v ∷ [] }

  -- `Append` after its own write. A record whose sync failed is in the file already.
  unfoldable pub appended : Event → Option Errno → Wal → Option Errno × Wal
  appended v none w = (none, record w { blocked = false })
  appended v (some x) w =
      let kept = if w.sync_needed then w else remember v w in
      if is_no_space x then (none, record kept { blocked = true }) else (some x, w)

  -- `Append` after the flush.
  unfoldable pub append_flushed : Faults → Event → Option Errno → Wal → Option Errno × Wal
  append_flushed f v (some x) w =
      if is_no_space x then (none, record (remember v w) { blocked = true }) else (some x, w)
  append_flushed f v none w = let (r, w') = write_event f.own v w in appended v r w'

  unfoldable pub append : Faults → Event → Wal → Option Errno × Wal
  append f v w = let (r, w') = flush f w in append_flushed f v r w'

  -- `SaveState` after the flush.
  unfoldable pub saved : Option Errno → Wal → Option Errno × Wal
  saved none w = (none, record w { blocked = false })
  saved (some x) w = if is_no_space x then (none, record w { blocked = true }) else (some x, w)

  unfoldable pub save_state : Faults → ServiceState → Wal → Option Errno × Wal
  save_state f s w =
      let (r, w') =
        flush f (record w { states = insert s.service s w.states; state_dirty = true }) in
      saved r w'

  -- `Open` on the contents that are there; `none` for a state file that is not.
  unfoldable pub open_log : Text → Option Text → Bool → Wal
  open_log file state_json fsync =
      let (report, kept) = repair codec file in
      let states : Option (Dict ServiceState) = elim state_json [
        | none ↦ some []
        | some text ↦ decode_states text
      ] in
      record {
        events = kept;
        state_json = state_json;
        fsync = fsync;
        states = elim states [ none ↦ [] | some m ↦ m ];
        repaired = record report { state_reset = is_none states };
        pending = [];
        state_dirty = false;
        sync_needed = false;
        blocked = false;
      }
