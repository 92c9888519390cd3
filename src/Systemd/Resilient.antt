-- ===== src/Systemd/Resilient.antt =====
-- internal/systemd/resilient.go: RunResilient, one attempt at a connection after the other. What an
-- attempt meets is an input: the answers of systemd, of the callbacks and of the clock.
use systemd_transition_expor.Base.{
  ℕ, String, Bool, true, false, ◌&&◌, Option, none, some, List, [], ◌∷◌, ◌++◌, if◌then◌else◌,
}
use systemd_transition_expor.Base.Dict.{insert}
use systemd_transition_expor.Model.{UnitSnapshot}
use systemd_transition_expor.Systemd.Monitor.{
  Call, error_call, snapshot_call, state_call, recovery_call, Units, by_service, Wake, Answers, End,
  still_running, run_monitor,
}

pub record Attempt : Type 0 where
  -- The context ended while the delay before the attempt ran.
  pub cancelled_waiting : Bool
  pub connected : Bool
  -- The context was done when the connection failed.
  pub cancelled_connecting : Bool
  -- The path of a unit; `none` where LoadUnit fails.
  pub load_unit : String → Option String
  pub subscribed : Bool
  pub boot_id : Option String
  -- The time of the recovery, and whether it succeeds.
  pub until : ℕ
  pub recovered : Bool
  pub snapshot : String → String → Option UnitSnapshot
  pub handled : UnitSnapshot → Bool
  pub connected_at : ℕ
  pub wakes : List (Wake × Answers)
  -- The context was done when the monitor returned.
  pub cancelled_running : Bool
  pub lost_at : ℕ

-- `connectedOnce`, and `disconnectedAt`, whose zero time is `none`.
pub record State : Type 0 where
  pub connected_once : Bool
  pub disconnected_at : Option ℕ

abbrev pub start_state : State
start_state = record { connected_once = false; disconnected_at = none }

-- How an attempt ends: with another one, or with the return of RunResilient or the end of what is
-- observed.
pub data Next : Type 0 where
  again : State → Next
  returned : Next

-- The units are added in the order of the services, so that of two with one path the later stays.
unfoldable pub load_units : (String → Option String) → List String → Units → Option Units
load_units load [] units = some units
load_units load (service ∷ rest) units = elim (load service) [
  | none ↦ none
  | some path ↦ load_units load rest (insert path service units)
]

pub data Verdict : Type 0 where
  going : Verdict
  setup_failed : Verdict
  refused : Verdict

abbrev pub then_first : List Call × Verdict → List Call × Verdict → List Call × Verdict
then_first (calls, going) rest = (calls ++ rest.0, rest.1)
then_first (calls, v) rest = (calls, v)

abbrev pub first_taken : (UnitSnapshot → Bool) → Option UnitSnapshot → List Call × Verdict
first_taken handled none = (error_call ∷ [], setup_failed)
first_taken handled (some s) = (snapshot_call s ∷ [], if handled s then going else refused)

-- The snapshots after the connection, of the services that have a unit.
unfoldable pub first_snapshots : Attempt → String → Units → List String → List Call × Verdict
first_snapshots a boot_id units [] = ([], going)
first_snapshots a boot_id units (service ∷ rest) =
    let later = first_snapshots a boot_id units rest in
    if by_service service units
    then then_first (first_taken (a.handled) (a.snapshot boot_id service)) later
    else later

-- A gap is given to the callback of the recovery before the first snapshots.
abbrev pub recover : Attempt → Option ℕ → List Call
recover a none = []
recover a (some from) = recovery_call from (a.until) ∷ (if a.recovered then [] else error_call ∷ [])

abbrev pub monitored : Attempt → List Call × End → List Call × Next
monitored a (calls, still_running) = (calls, returned)
monitored a (calls, end) = if a.cancelled_running then (calls, returned) else (
  calls ++ state_call false (a.lost_at) ∷ error_call ∷ [],
  again record { connected_once = true; disconnected_at = some (a.lost_at) },
)

abbrev pub add_calls : List Call → List Call × Next → List Call × Next
add_calls calls rest = (calls ++ rest.0, rest.1)

-- After the recovery the state has no gap.
abbrev pub watched : Attempt → State → Units → List Call × Verdict → List Call × Next
watched a st units (calls, refused) = (calls, returned)
watched a st units (calls, setup_failed) = (calls, again record st { disconnected_at = none })
watched a st units (calls, going) =
    add_calls (calls ++ state_call true (a.connected_at) ∷ [])
      (monitored a (run_monitor units (a.wakes)))

abbrev pub booted : List String → Attempt → State → Units → Option String → List Call × Next
booted services a st units none = ([], returned)
booted services a st units (some boot_id) =
    add_calls (recover a (st.disconnected_at))
      (watched a st units (first_snapshots a boot_id units services))

abbrev pub set_up : List String → Attempt → State → Option Units → List Call × Next
set_up services a st none = (error_call ∷ [], again st)
set_up services a st (some units) =
    if a.subscribed then booted services a st units (a.boot_id) else (error_call ∷ [], again st)

-- The delay comes before every attempt once there has been a connection.
unfoldable pub attempt : List String → Attempt → State → List Call × Next
attempt services a st =
    if st.connected_once && a.cancelled_waiting
    then ([], returned)
    else if a.connected
    then set_up services a st (load_units (a.load_unit) services [])
    else if a.cancelled_connecting
    then ([], returned)
    else (error_call ∷ [], again st)

abbrev pub then_attempts : List Call × Next → (State → List Call × Next) → List Call × Next
then_attempts (calls, returned) f = (calls, returned)
then_attempts (calls, again st) f = add_calls calls (f st)

unfoldable pub run_resilient : List String → List Attempt → State → List Call × Next
run_resilient services [] st = ([], again st)
run_resilient services (a ∷ later) st =
    then_attempts (attempt services a st) (run_resilient services later)
