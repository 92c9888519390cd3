-- ===== src/Delivery/Worker.antt =====
-- internal/delivery/worker.go: the worker's state and one round of `Run`. The sender is an
-- interface, with what it carries from call to call; the end of the context shows in that state.
use systemd_transition_expor.Base.{
  ℕ, ◌+◌, String, Bool, true, false, not, ◌||◌, Option, none, some, List, [], ◌∷◌, ◌++◌, ltb, leb,
  if◌then◌else◌, is_none, length,
}
use systemd_transition_expor.Base.Dict.{Dict}
use systemd_transition_expor.Base.Text.{is_empty}
use systemd_transition_expor.Model.{Event, StateSample}
use systemd_transition_expor.RemoteWrite.{
  SendError, is_permanent, World, Sender, send, send_recovered_states,
}
use systemd_transition_expor.Delivery.Samples.{buffer_states, drop_stale, note_samples}
use systemd_transition_expor.Delivery.Slots.{Edges}

-- `Sender`: its methods, and whether the context has ended by now.
pub record Target (S : Type 0) : Type 0 where
  pub send_events : List Event → S → Option SendError × S
  pub send_states : List StateSample → S → Option SendError × S
  pub last_sent : S → ℕ
  pub ended : S → Bool

-- The sender of remote_write, in a context that ends after so many requests.
abbrev pub remote_target : World → ℕ → Target Sender
remote_target world limit = record {
  send_events = send world;
  send_states = send_recovered_states world;
  last_sent = λ s. s.last_sent;
  ended = λ s. leb limit s.requests;
}

pub record RecoveryJob : Type 0 where
  pub fill : List StateSample
  pub events : List Event

pub data Command : Type 0 where
  transition : Event → Command
  recovery_job : RecoveryJob → Command

pub record Config : Type 0 where
  pub batch_size : ℕ
  pub recovery_window : ℕ
  -- What the zone adds to the time.
  pub offset : ℕ
  pub services : List String
  pub startup_events : List Event
  pub startup_fill : List StateSample
  pub startup_slot : Option ℕ

-- `degraded` is `degradedSince`, less the time that only the log shows; `dropped` counts what
-- `OnDropped` was told.
pub record Worker (S : Type 0) : Type 0 where
  pub sender : S
  pub queue : List Command
  pub published : Dict ℕ
  pub pending_states : List StateSample
  pub batch : List Event
  pub degraded : Bool
  pub pending_recovery : Option RecoveryJob
  pub edges : Edges
  pub dropped : ℕ

-- The capacity of the channel.
abbrev pub queue_size : ℕ
queue_size = 100000

unfoldable pub with_defaults : Config → Config
with_defaults c = record c { batch_size = if leb c.batch_size 0 then 100 else c.batch_size }

abbrev pub no_edges : Edges
no_edges = record { pending = []; next_opening = none; next_closing = none }

unfoldable pub merge : RecoveryJob → Option RecoveryJob → RecoveryJob
merge job none = job
merge job (some old) = record { fill = old.fill ++ job.fill; events = old.events ++ job.events }

-- The cases of the select; the slot timer comes with the fuel of its loop.
pub data Input : Type 0 where
  from_queue flush_tick state_tick done : Input
  slot_timer : ℕ → Input

module _ {S : Type 0} where
  unfoldable pub new : S → Worker S
  new sender = record {
    sender = sender;
    queue = [];
    published = [];
    pending_states = [];
    batch = [];
    degraded = false;
    pending_recovery = none;
    edges = no_edges;
    dropped = 0;
  }

  -- `EnqueueEvent` and `EnqueueRecovery`: false if the channel is full.
  unfoldable pub enqueue : Command → Worker S → Bool × Worker S
  enqueue c w =
      if ltb (length w.queue) queue_size
      then (true, record w { queue = w.queue ++ c ∷ [] })
      else (false, w)

  unfoldable pub enqueue_all : List Command → Worker S → Worker S
  unfolding enqueue
  enqueue_all [] w = w
  enqueue_all (c ∷ cs) w = enqueue_all cs (enqueue c w).1

  unfoldable pub drop_events : ℕ → Worker S → Worker S
  drop_events n w = record w { dropped = w.dropped + n }

  unfoldable pub mark_degraded : Worker S → Worker S
  mark_degraded w = record w { degraded = true }

  module _ (target : Target S) (config : Config) where
    unfoldable pub flushed : Option SendError × S → Worker S → Bool × Worker S
    unfolding drop_events mark_degraded
    flushed (none, s) w = (true, record w { sender = s; batch = [] })
    flushed (some x, s) w =
        let w' = record w { sender = s } in
        if target.ended s
        then (false, w')
        else if is_permanent x
        then (true, record (drop_events (length w.batch) (mark_degraded w')) { batch = [] })
        else (false, mark_degraded w')

    unfoldable pub flush : Worker S → Bool × Worker S
    flush w =
        let sent = flushed (target.send_events w.batch w.sender) w in
        if is_empty w.batch then (true, w) else sent

    -- `sendRecovery`, after its fill and after its events were sent.
    unfoldable pub events_sent : RecoveryJob → Option SendError × S → Worker S → Bool × Worker S
    unfolding drop_events mark_degraded
    events_sent job (none, s) w = (true, record w { sender = s })
    events_sent job (some x, s) w =
        let w' = record w { sender = s } in
        if target.ended s
        then (false, w')
        else if is_permanent x
        then (true, drop_events (length job.events) (mark_degraded w'))
        else (false, mark_degraded w')

    unfoldable pub fill_sent : RecoveryJob → Option SendError × S → Worker S → Bool × Worker S
    unfolding mark_degraded
    fill_sent job (none, s) w =
        events_sent job (target.send_events job.events s) (record w { sender = s })
    fill_sent job (some x, s) w =
        let w' = record w { sender = s } in
        let w'' = if target.ended s then w' else mark_degraded w' in
        let rest = events_sent job (target.send_events job.events s) w'' in
        if is_permanent x then rest else (false, w'')

    unfoldable pub after_flush : (Worker S → Bool × Worker S) → Bool × Worker S → Bool × Worker S
    after_flush next (true, w) = next w
    after_flush next (false, w) = (false, w)

    unfoldable pub send_recovery : RecoveryJob → Worker S → Bool × Worker S
    send_recovery job w =
        after_flush (λ w'. fill_sent job (target.send_states job.fill w'.sender) w') (flush w)

    unfoldable pub states_sent :
        List StateSample → Option SendError × S → Worker S → Bool × Worker S
    unfolding mark_degraded
    states_sent samples (none, s) w = (
      true,
      record w {
        sender = s;
        published = note_samples samples w.published;
        degraded = false;
        pending_states = [];
      },
    )
    states_sent samples (some x, s) w =
        let w' = record w { sender = s } in
        let w'' = if target.ended s then w' else mark_degraded w' in
        if is_permanent x then (true, record w'' { pending_states = [] }) else (false, w'')

    unfoldable pub deliver_fresh : List StateSample → Worker S → Bool × Worker S
    deliver_fresh [] w = (true, record w { pending_states = [] })
    deliver_fresh (x ∷ xs) w = states_sent (x ∷ xs) (target.send_states (x ∷ xs) w.sender) w

    abbrev pub is_behind : Worker S → Bool
    is_behind w = not (is_none w.pending_recovery) || not (is_empty w.queue)

    unfoldable pub deliver_states : Worker S → Bool × Worker S
    deliver_states w =
        let sent =
          after_flush (λ w'. deliver_fresh (drop_stale w'.published w'.pending_states) w')
            (flush w) in
        if is_empty w.pending_states then (true, w) else if is_behind w then (false, w) else sent

    unfoldable pub record_states : ℕ → List StateSample → Worker S → Bool × Worker S
    record_states now samples w = if is_empty samples || is_behind w then (false, w) else (
      true,
      record w {
        pending_states =
            buffer_states config.offset config.recovery_window now w.pending_states samples;
      },
    )

    abbrev pub delivered_if : Bool × Worker S → Worker S
    delivered_if (true, w) = (deliver_states w).1
    delivered_if (false, w) = w
