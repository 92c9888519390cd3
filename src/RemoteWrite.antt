-- ===== src/RemoteWrite.antt =====
-- internal/remote_write/remote_write.go: the sender of one target. Its methods are serialised by
-- `sendMu`. The receiver, the end of the context and the disk are functions of the number of
-- requests and of checkpoints so far.
pub mod Series
pub mod Attempts
pub mod Delivery
pub mod Checkpoint
pub mod Startup
pub mod Migration
mod Examples
use systemd_transition_expor.Base.{
  ℕ, zero, suc, ◌+◌, ◌-◌, ◌%◌, Bool, true, false, not, ◌&&◌, Option, none, some, List, [], ◌∷◌,
  ◌++◌, ltb, leb, if◌then◌else◌, is_none, length, take, drop, filter_by, u64_mod, u64_inc,
}
use systemd_transition_expor.Base.Dict.{Dict}
use systemd_transition_expor.Base.Sort.{sort_stable}
use systemd_transition_expor.Model.{Event, StateSample}
use systemd_transition_expor.RemoteWrite.Series.{
  Request, Point, event_points, sample_points, request_of, sample_count,
}

-- The answer to one request: an HTTP status, or no answer at all.
pub data Reply : Type 0 where
  status : ℕ → Reply
  unreachable : Reply

-- `PermanentError`, the retryable errors, `ctx.Err()`, a checkpoint that was not saved, a request
-- that `Marshal` does not encode and one that `NewRequestWithContext` does not make.
pub data SendError : Type 0 where
  permanent : ℕ → SendError
  http_status : ℕ → SendError
  transport : SendError
  cancelled : SendError
  checkpoint_failed : SendError
  not_encoded : SendError
  not_made : SendError

unfoldable pub is_permanent : SendError → Bool
is_permanent (permanent c) = true
is_permanent _ = false

-- The steps of `saveCheckpoint` that fail.
pub record CheckpointFault : Type 0 where
  pub mkdir : Bool
  pub open_tmp : Bool
  pub write : Bool
  pub sync : Bool
  pub close : Bool
  pub rename : Bool
  pub dir_open : Bool
  pub dir_sync : Bool
  pub dir_close : Bool

pub record World : Type 0 where
  -- Whether `Marshal` encodes a request, and `NewRequestWithContext` makes the one of an attempt.
  pub encodes : Request → Bool
  pub makes : ℕ → Bool
  pub net : ℕ → Reply
  -- Whether the context ends in the wait after the request.
  pub ends : ℕ → Bool
  pub disk : ℕ → CheckpointFault

pub record Stats : Type 0 where
  pub successful_requests : ℕ
  pub failed_requests : ℕ
  pub retries : ℕ
  pub sent_samples : ℕ

-- `checkpoint` is the file's content; `accepted` are the requests answered by a 2xx status,
-- `requests` and `saves` count what was tried. These three are not fields of the program.
pub record Sender : Type 0 where
  pub batch_size : ℕ
  pub last_sent : ℕ
  pub stats : Stats
  pub checkpoint : Option ℕ
  pub accepted : List Request
  pub requests : ℕ
  pub saves : ℕ

abbrev pub max_attempts : ℕ
max_attempts = 3

unfoldable pub succeeded : Request → Sender → Sender
succeeded r s = record s {
  accepted = s.accepted ++ r ∷ [];
  stats = record s.stats {
    successful_requests = u64_inc s.stats.successful_requests;
    sent_samples = (s.stats.sent_samples + sample_count r) % u64_mod;
  };
}

unfoldable pub note_failure : Sender → Sender
note_failure s = record s {
  stats = record s.stats { failed_requests = u64_inc s.stats.failed_requests };
}

unfoldable pub note_retry : Sender → Sender
note_retry s = record s { stats = record s.stats { retries = u64_inc s.stats.retries } }

-- What the loop of `sendSeries` makes of one answer: done, given up, or an error to retry.
pub data Verdict : Type 0 where
  done : Verdict
  give_up : SendError → Verdict
  try_again : SendError → Verdict

unfoldable pub judge : Reply → Verdict
judge unreachable = try_again transport
judge (status c) =
    if leb 200 c && ltb c 300
    then done
    else if leb 400 c && ltb c 500
    then give_up (permanent c)
    else try_again (http_status c)

-- The end of a round whose answer was judged. `left` counts the attempts after this one.
unfoldable pub settle :
    Verdict
    → Bool
    → Request
    → Sender
    → Option (Option SendError × Sender)
    → Option SendError × Sender
unfolding succeeded note_failure
settle done ends r s next = (none, succeeded r s)
settle (give_up x) ends r s next = (some x, note_failure s)
settle (try_again x) ends r s none = (some x, note_failure s)
settle (try_again x) true r s (some next) = (some cancelled, note_retry (note_failure s))
settle (try_again x) false r s (some next) = next

unfoldable pub asked : Sender → Sender
asked s = record s { requests = s.requests + 1 }

-- `batch[len(batch)-1].Sequence`, with `last` for the empty batch.
abbrev pub last_sequence : ℕ → List Event → ℕ
last_sequence last [] = last
last_sequence last (e ∷ es) = last_sequence e.sequence es

unfoldable pub checked : Bool × Sender → Option SendError × Sender
checked (true, s) = (none, s)
checked (false, s) = (some checkpoint_failed, s)

unfoldable pub then_rest :
    Option SendError → Sender → Option SendError × Sender → Option SendError × Sender
then_rest none s next = next
then_rest (some x) s next = (some x, s)

unfoldable pub pending_events : ℕ → List Event → List Event
pending_events last events =
    sort_stable (λ a b. ltb a.sequence b.sequence) (filter_by (λ e. ltb last e.sequence) events)

module _ (world : World) where
  -- The loop of `sendSeries`, with so many attempts left after this one.
  unfoldable pub attempt : ℕ → Request → Sender → Option SendError × Sender
  unfolding asked
  attempt zero r s =
      let last = settle (judge (world.net s.requests)) (world.ends s.requests) r (asked s) none in
      if world.makes s.requests then last else (some not_made, s)
  attempt (suc left) r s =
      let next = attempt left r (note_retry (note_failure (asked s))) in
      let settled =
        settle (judge (world.net s.requests)) (world.ends s.requests) r (asked s) (some next) in
      if world.makes s.requests then settled else (some not_made, s)

  unfoldable pub send_series : Request → Sender → Option SendError × Sender
  send_series r s =
      let tried = attempt (max_attempts - 1) r s in
      if world.encodes r then tried else (some not_encoded, s)

  -- The file is replaced by the rename; only then is the directory made durable.
  unfoldable pub save_checkpoint : ℕ → Sender → Bool × Sender
  save_checkpoint seq s =
      let f = world.disk s.saves in
      let tried = record s { saves = s.saves + 1 } in
      if leb seq s.last_sent
      then (true, s)
      else if f.mkdir
      then (false, tried)
      else if f.open_tmp
      then (false, tried)
      else if f.write
      then (false, tried)
      else if f.sync
      then (false, tried)
      else if f.close
      then (false, tried)
      else if f.rename
      then (false, tried)
      else if f.dir_open
      then (false, record tried { checkpoint = some seq })
      else if f.dir_sync
      then (false, record tried { checkpoint = some seq })
      else if f.dir_close
      then (false, record tried { checkpoint = some seq })
      else (true, record tried { checkpoint = some seq; last_sent = seq })

  unfoldable pub saved_batch : Option SendError → ℕ → Sender → Option SendError × Sender
  saved_batch (some x) seq s = (some x, s)
  saved_batch none seq s = checked (save_checkpoint seq s)

  -- A batch is sent, and then the checkpoint is moved to its last sequence number.
  unfoldable pub send_batch : List Event → Sender → Option SendError × Sender
  send_batch batch s =
      let (r, s') = send_series (request_of (event_points batch)) s in
      saved_batch r (last_sequence 0 batch) s'

  -- The loop of `sendEventsLocked` over what is pending, on fuel.
  unfoldable pub send_batches : ℕ → List Event → Sender → Option SendError × Sender
  send_batches zero rest s = (none, s)
  send_batches (suc fuel) [] s = (none, s)
  send_batches (suc fuel) (e ∷ es) s =
      let (r, s') = send_batch (take s.batch_size (e ∷ es)) s in
      then_rest r s' (send_batches fuel (drop s.batch_size (e ∷ es)) s')

  unfoldable pub send : List Event → Sender → Option SendError × Sender
  send events s =
      let pending = pending_events s.last_sent events in send_batches (length pending) pending s

  unfoldable pub send_recovered_states : List StateSample → Sender → Option SendError × Sender
  send_recovered_states [] s = (none, s)
  send_recovered_states (x ∷ xs) s = send_series (request_of (sample_points (x ∷ xs))) s
