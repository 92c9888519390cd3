-- ===== src/Main.antt =====
-- cmd/systemd-transition-exporter/main.go: the callbacks that join the parts, onSnapshot, publishReady
-- and onRecovery. What they call in other parts is a list of actions; the engine is its model.
pub mod Start
pub mod Addresses
pub mod Delayed
pub mod Ahead
pub mod WriteAhead
mod Examples
use systemd_transition_expor.Base.{
  ℕ, ◌≡◌, refl, String, Bool, true, false, not, ◌&&◌, Option, none, some, List, [], ◌∷◌, ◌++◌, map,
  if◌then◌else◌, is_none,
}
use systemd_transition_expor.Base.Text.{is_empty}
use systemd_transition_expor.Model.{
  AvailabilityState, up, EventSource, UnitSnapshot, Event, ServiceState, StateSample, zero_state,
  availability_from_active_state,
}
use systemd_transition_expor.Engine.{Engine, state, apply, confirm_ready, apply_recovery}
use systemd_transition_expor.Recovery.Slot.{recovery_window}

-- The result of an append or a save is with it. Those of `persist_recovery` are the fill and the
-- events that a worker is given.
pub data Action : Type 0 where
  append : Event → Bool → Action
  enqueue_event : String → Event → Action
  count_event : Event → Action
  save_state : ServiceState → Bool → Action
  show_state : String → AvailabilityState → Action
  start_probes : String → Action
  stop_probes : String → Action
  record_recovery : ℕ → ℕ → ℕ → Action
  enqueue_recovery : String → List StateSample → List Event → Action

-- Whether there is a log, whether it takes an event or a state, and the workers by their targets.
pub record Outside : Type 0 where
  pub log_enabled : Bool
  pub accepts : Event → Bool
  pub saves : ServiceState → Bool
  pub targets : List String

abbrev pub Actions : Type 0
Actions = List Action × Bool

-- A failure ends the callback.
abbrev pub then_do : Actions → Actions → Actions
then_do (as', true) rest = (as' ++ rest.0, rest.1)
then_do (as', false) rest = (as', false)

unfoldable pub append_event : Outside → Event → Actions
append_event o event =
    if o.log_enabled then (append event (o.accepts event) ∷ [], o.accepts event) else ([], true)

unfoldable pub save : Outside → ServiceState → Actions
save o s = if o.log_enabled then (save_state s (o.saves s) ∷ [], o.saves s) else ([], true)

unfoldable pub persist_event : Outside → Event → Bool → Actions
unfolding append_event
persist_event o event enqueue =
    then_do (append_event o event)
      (if enqueue then map (λ t. enqueue_event t event) (o.targets) else [], true)

-- The loop of onSnapshot over the events of a snapshot.
unfoldable pub persist_all : Outside → List Event → Actions
unfolding persist_event
persist_all o [] = ([], true)
persist_all o (event ∷ events) =
    then_do (persist_event o event true)
      (then_do (count_event event ∷ [], true) (persist_all o events))

-- The state of the engine, which `apply` has set.
abbrev pub state_after : UnitSnapshot → Option ServiceState → ServiceState
state_after s none = record zero_state {
  service = s.service;
  availability = availability_from_active_state (s.active_state);
  active_state = s.active_state;
  sub_state = s.sub_state;
  boot_id = s.boot_id;
}
state_after s (some existing) = existing

abbrev pub probes_for : ServiceState → String → List Action
probes_for s service = (if s.awaiting_sip then start_probes service else stop_probes service) ∷ []

unfoldable pub on_snapshot : Outside → Engine → UnitSnapshot → Actions × Engine
unfolding persist_all save availability_from_active_state
on_snapshot o e s =
    let r = apply e s in
    let now = state_after s (state (r.0) (s.service)) in
    (
      then_do (persist_all o (r.1)) (
          then_do (save o now)
            (show_state (s.service) (now.availability) ∷ probes_for now (s.service), true)),
      r.0,
    )

-- A state that cannot be saved is logged and no more.
abbrev pub saved_if_any : Outside → Option ServiceState → List Action
unfolding save
saved_if_any o none = []
saved_if_any o (some s) = (save o s).0

unfoldable pub published : Outside → Engine × Option Event → String → Actions × Engine
unfolding persist_event saved_if_any
published o (e, none) service = (([], true), e)
published o (e, some event) service = (
  then_do (persist_event o event true)
      (count_event event ∷ saved_if_any o (state e service) ++ show_state service up ∷ [], true),
  e,
)

unfoldable pub publish_ready : Outside → Engine → String → ℕ → EventSource → Actions × Engine
unfolding published
publish_ready o e service at source = published o (confirm_ready e service at source) service

abbrev pub save_current : Outside → Option ServiceState → Actions
unfolding save
save_current o none = ([], true)
save_current o (some s) = save o s

-- One event of the recovery: it is not enqueued by itself.
unfoldable pub import_event : Outside → Engine → Event → Actions
unfolding persist_event save_current
import_event o e event =
    then_do (persist_event o event false)
      (then_do (count_event event ∷ [], true) (save_current o (state e (event.service))))

unfoldable pub import_events : Outside → Engine → List Event → Actions
unfolding import_event
import_events o e [] = ([], true)
import_events o e (event ∷ events) = then_do (import_event o e event) (import_events o e events)

pub record Imported : Type 0 where
  pub actions : Actions
  pub engine : Engine
  pub recovered : List Event

-- The loop over the candidates; after a failure what follows is not reached.
abbrev pub joined : Actions → Engine → List Event → Imported → Imported
joined (as', true) e events rest = record rest {
  actions = (as' ++ (rest.actions).0, (rest.actions).1);
  recovered = events ++ rest.recovered;
}
joined (as', false) e events rest = record { actions = (as', false); engine = e; recovered = [] }

unfoldable pub import_all : Outside → Engine → List Event → Imported
unfolding import_events
import_all o e [] = record { actions = ([], true); engine = e; recovered = [] }
import_all o e (candidate ∷ candidates) =
    let r = apply_recovery e candidate in
    joined (import_events o (r.0) (r.1)) (r.0) (r.1) (import_all o (r.0) candidates)

abbrev pub deliver : Outside → List Event → Option (List StateSample) → Actions
deliver o recovered none = ([], false)
deliver o recovered (some fill) = (map (λ t. enqueue_recovery t fill recovered) (o.targets), true)

abbrev pub after_import : Outside → Option (List StateSample) → Imported → Actions
after_import o fill i =
    then_do (i.actions) (if is_empty (o.targets) then ([], true) else deliver o (i.recovered) fill)

abbrev pub recovered_slot :
    Outside
    → Engine
    → ℕ
    → Option (ℕ × ℕ)
    → Option (List Event)
    → Option (List StateSample)
    → Actions × Engine
unfolding import_all
recovered_slot o e from none found fill = (([], true), e)
recovered_slot o e from (some (start, end)) none fill =
    ((record_recovery from start end ∷ [], false), e)
recovered_slot o e from (some (start, end)) (some candidates) fill =
    let i = import_all o e candidates in
    (then_do (record_recovery from start end ∷ [], true) (after_import o fill i), i.engine)

-- `found` is what recovery.Recover gives for the slot and `fill` what BuildStateFill does, `none`
-- for their errors; `offset` is that of the zone.
unfoldable pub on_recovery :
    Outside
    → ℕ
    → ℕ
    → Engine
    → ℕ
    → ℕ
    → Option (List Event)
    → Option (List StateSample)
    → Actions × Engine
unfolding recovered_slot
on_recovery o offset size e from to found fill =
    recovered_slot o e from (recovery_window offset to size) found fill
