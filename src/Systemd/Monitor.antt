-- ===== src/Systemd/Monitor.antt =====
-- The type Monitor: its units by their paths, and the loop of Run. A call is what the callbacks of
-- RunResilient are called with.
use systemd_transition_expor.Base.{
  ℕ, String, Bool, true, false, not, ◌&&◌, ◌||◌, Option, none, some, List, [], ◌∷◌, ◌++◌, str_eq,
  if◌then◌else◌,
}
use systemd_transition_expor.Base.Dict.{Dict, lookup}
use systemd_transition_expor.Model.{UnitSnapshot}
use systemd_transition_expor.Systemd.Snapshot.{Variant, interesting}

pub data Call : Type 0 where
  error_call : Call
  snapshot_call : UnitSnapshot → Call
  state_call : Bool → ℕ → Call
  recovery_call : ℕ → ℕ → Call

-- A unit is the name of its service; the map goes from the path that systemd gives it.
abbrev pub Units : Type 0
Units = Dict String

unfoldable pub by_service : String → Units → Bool
by_service service [] = false
by_service service ((path, name) ∷ rest) =
    let later = by_service service rest in if str_eq name service then true else later

-- `none` for the first element of the body where it is no string, and for the second where it is no
-- map of variants.
pub record Signal : Type 0 where
  pub name : String
  pub path : String
  pub has_body : Bool
  pub iface : Option String
  pub changed : Option (Dict Variant)

-- What the loop of Run takes up next; `incoming none` is the closed channel of signals.
pub data Wake : Type 0 where
  cancelled : Wake
  connection_closed : Wake
  reconcile : Wake
  incoming : Option Signal → Wake

-- The answers to the loop at one time: the snapshots of the units, and whether the callback takes one.
pub record Answers : Type 0 where
  pub snapshot : String → Option UnitSnapshot
  pub handled : UnitSnapshot → Bool

-- The snapshot of a unit and the callback; `false` for an error.
abbrev taken : (UnitSnapshot → Bool) → Option UnitSnapshot → List Call × Bool
taken handled none = ([], false)
taken handled (some s) = (snapshot_call s ∷ [], handled s)

unfoldable pub handle : Answers → String → List Call × Bool
handle a service = taken (a.handled) (a.snapshot service)

abbrev pub then_calls : List Call × Bool → List Call × Bool → List Call × Bool
then_calls (calls, false) rest = (calls, false)
then_calls (calls, true) rest = (calls ++ rest.0, rest.1)

unfoldable pub handle_all : Answers → Units → List Call × Bool
unfolding handle
handle_all a [] = ([], true)
handle_all a ((path, service) ∷ rest) = then_calls (handle a service) (handle_all a rest)

abbrev pub is_unit_iface : Option String → Bool
is_unit_iface none = false
is_unit_iface (some iface) = str_eq iface "org.freedesktop.systemd1.Unit"

abbrev pub is_interesting_change : Option (Dict Variant) → Bool
unfolding interesting
is_interesting_change none = false
is_interesting_change (some p) = interesting p

unfoldable pub handle_found : Answers → Signal → Option String → List Call × Bool
unfolding handle
handle_found a sig none = ([], true)
handle_found a sig (some service) =
    if is_unit_iface (sig.iface) && is_interesting_change (sig.changed)
    then handle a service
    else ([], true)

unfoldable pub handle_signal : Answers → Units → Signal → List Call × Bool
handle_signal a units sig =
    if not (str_eq (sig.name) "org.freedesktop.DBus.Properties.PropertiesChanged")
      || not (sig.has_body)
    then ([], true)
    else handle_found a sig (lookup (sig.path) units)

-- How Run ends: not yet, because of its context, or with an error.
pub data End : Type 0 where
  still_running : End
  context_done : End
  monitor_failed : End

abbrev pub with_calls : List Call → List Call × End → List Call × End
with_calls calls rest = (calls ++ rest.0, rest.1)

abbrev pub or_failed : List Call × Bool → List Call × End → List Call × End
or_failed (calls, true) rest = with_calls calls rest
or_failed (calls, false) rest = (calls, monitor_failed)

unfoldable pub run_monitor : Units → List (Wake × Answers) → List Call × End
run_monitor units [] = ([], still_running)
run_monitor units ((cancelled, a) ∷ rest) = ([], context_done)
run_monitor units ((connection_closed, a) ∷ rest) = ([], monitor_failed)
run_monitor units ((reconcile, a) ∷ rest) = or_failed (handle_all a units) (run_monitor units rest)
run_monitor units ((incoming none, a) ∷ rest) = ([], monitor_failed)
run_monitor units ((incoming (some sig), a) ∷ rest) =
    or_failed (handle_signal a units sig) (run_monitor units rest)
