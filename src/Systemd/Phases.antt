-- ===== src/Systemd/Phases.antt =====
-- RunResilient of internal/systemd/resilient.go: the order of its callbacks.
use systemd_transition_expor.Base.{
  ℕ, ◌≡◌, ◌∙◌, refl, String, true, false, ◌&&◌, Option, none, some, List, [], ◌∷◌, ◌++◌, ==_refl,
  Bool-cases, inl, inr,
}
use systemd_transition_expor.Systemd.Monitor.{
  Call, error_call, state_call, Units, End, still_running, context_done, monitor_failed,
  run_monitor,
}
use systemd_transition_expor.Systemd.Resilient.{
  Attempt, State, Next, again, returned, Verdict, going, setup_failed, refused, first_snapshots,
  recover, monitored, watched, booted, set_up, attempt, then_attempts, run_resilient, load_units,
  add_calls,
}
use systemd_transition_expor.Systemd.Automaton.{
  Phase, idle, up, follow, gap, follow-append, Keeps, run_monitor-Keeps, first_snapshots-Keeps,
}

-- The calls are in order, and what they lead to is what the state remembers.
abbrev pub Ends : List Call × Next → Phase → Type 0
Ends (calls, again st) p = follow calls p ≡ some (gap (st.disconnected_at))
Ends (calls, returned) p = (q : Phase) × (follow calls p ≡ some q)

add_calls-Ends :
    (calls : List Call) (rest : List Call × Next) (p q : Phase)
    → follow calls p ≡ some q
    → Ends rest q
    → Ends (add_calls calls rest) p
add_calls-Ends calls (cs, again st) p q h k = follow-append calls cs p q h ∙ k
add_calls-Ends calls (cs, returned) p q h (r, k) = (r, follow-append calls cs p q h ∙ k)

monitor_ended :
    (a : Attempt) (calls : List Call)
    → Keeps up calls
    → Ends (monitored a (calls, monitor_failed)) up
unfolding follow
monitor_ended a calls h = elim (Bool-cases (a.cancelled_running)) [
  | inl e ↦ rw e (up, h)
  | inr e ↦ rw e (follow-append calls (state_call false (a.lost_at) ∷ error_call ∷ []) up up h)
]

monitored-Ends :
    (a : Attempt) (calls : List Call) (end : End)
    → Keeps up calls
    → Ends (monitored a (calls, end)) up
monitored-Ends a calls still_running h = (up, h)
monitored-Ends a calls context_done h = monitor_ended a calls h
monitored-Ends a calls monitor_failed h = monitor_ended a calls h

recover-follow : (a : Attempt) (o : Option ℕ) → follow (recover a o) (gap o) ≡ some idle
unfolding follow
recover-follow a none = refl
recover-follow a (some t) = elim (Bool-cases (a.recovered)) [
  | inl e ↦ rw (==_refl t, e) refl
  | inr e ↦ rw (==_refl t, e) refl
]

watched-Ends :
    (a : Attempt) (st : State) (units : Units) (calls : List Call) (v : Verdict)
    → Keeps idle calls
    → Ends (watched a st units (calls, v)) idle
unfolding follow
watched-Ends a st units calls refused h = (idle, h)
watched-Ends a st units calls setup_failed h = h
watched-Ends a st units calls going h =
    let run = run_monitor units (a.wakes) in
    add_calls-Ends (calls ++ state_call true (a.connected_at) ∷ []) (monitored a run) idle up
      (follow-append calls (state_call true (a.connected_at) ∷ []) idle idle h)
      (monitored-Ends a (run.0) (run.1) (run_monitor-Keeps units (a.wakes)))

booted-Ends :
    (services : List String) (a : Attempt) (st : State) (units : Units) (o : Option String)
    → Ends (booted services a st units o) (gap (st.disconnected_at))
unfolding follow
booted-Ends services a st units none = (gap (st.disconnected_at), refl)
booted-Ends services a st units (some boot_id) =
    let first = first_snapshots a boot_id units services in
    add_calls-Ends (recover a (st.disconnected_at)) (watched a st units first)
      (gap (st.disconnected_at)) idle (recover-follow a (st.disconnected_at))
      (watched-Ends a st units (first.0) (first.1) (first_snapshots-Keeps a boot_id units services))

error-follow : (p : Phase) → follow (error_call ∷ []) p ≡ some p
unfolding follow
error-follow p = refl

set_up-Ends :
    (services : List String) (a : Attempt) (st : State) (o : Option Units)
    → Ends (set_up services a st o) (gap (st.disconnected_at))
unfolding first_snapshots
set_up-Ends services a st none = error-follow (gap (st.disconnected_at))
set_up-Ends services a st (some units) = elim (Bool-cases (a.subscribed)) [
  | inl e ↦ rw e (booted-Ends services a st units (a.boot_id))
  | inr e ↦ rw e (error-follow (gap (st.disconnected_at)))
]

attempt-Ends :
    (services : List String) (a : Attempt) (st : State)
    → Ends (attempt services a st) (gap (st.disconnected_at))
unfolding attempt follow first_snapshots
attempt-Ends services a st = elim (Bool-cases (st.connected_once && a.cancelled_waiting)) [
  | inl e ↦ rw e (gap (st.disconnected_at), refl)
  | inr e ↦ elim (Bool-cases (a.connected)) [
    | inl k ↦ rw (e, k) (set_up-Ends services a st (load_units (a.load_unit) services []))
    | inr k ↦ elim (Bool-cases (a.cancelled_connecting)) [
      | inl m ↦ rw (e, k, m) (gap (st.disconnected_at), refl)
      | inr m ↦ rw (e, k, m) (error-follow (gap (st.disconnected_at)))
    ]
  ]
]

then_attempts-Ends :
    (x : List Call × Next) (f : State → List Call × Next) (p : Phase)
    → Ends x p
    → ((st : State) → Ends (f st) (gap (st.disconnected_at)))
    → Ends (then_attempts x f) p
then_attempts-Ends (calls, returned) f p h k = h
then_attempts-Ends (calls, again st) f p h k =
    add_calls-Ends calls (f st) p (gap (st.disconnected_at)) h (k st)

-- Over any attempts the callbacks come in an allowed order: a connection is reported lost only after
-- it was reported; after a loss the recovery is called exactly once, with the time of the loss, before any
-- snapshot and before the connection is reported again; and the state between two attempts says
-- whether there is a gap and since when.
pub run_resilient-Ends :
    (services : List String) (attempts : List Attempt) (st : State)
    → Ends (run_resilient services attempts st) (gap (st.disconnected_at))
unfolding run_resilient follow
run_resilient-Ends services [] st = refl
run_resilient-Ends services (a ∷ later) st =
    then_attempts-Ends (attempt services a st) (run_resilient services later)
      (gap (st.disconnected_at)) (attempt-Ends services a st) (run_resilient-Ends services later)
