-- ===== src/Systemd/Automaton.antt =====
-- The automaton for the callbacks of internal/systemd/resilient.go, and the calls that leave its phase.
use systemd_transition_expor.Base.{
  ℕ, ◌≡◌, ◌∙◌, refl, String, Bool, true, false, not, ◌&&◌, ◌||◌, str_eq, Option, none, some, List,
  [], ◌∷◌, ◌++◌, ◌==◌, if◌then◌else◌, Bool-cases, Option-cases, inl, inr,
}
use systemd_transition_expor.Base.Dict.{lookup}
use systemd_transition_expor.Model.{UnitSnapshot}
use systemd_transition_expor.Systemd.Monitor.{
  Call, error_call, snapshot_call, state_call, recovery_call, Units, by_service, Wake, Answers, End,
  run_monitor, handle, handle_all, handle_signal, handle_found, then_calls, or_failed, reconcile,
  cancelled, connection_closed, incoming, Signal, is_unit_iface, is_interesting_change,
}
use systemd_transition_expor.Systemd.Resilient.{
  Attempt, Verdict, going, setup_failed, refused, first_snapshots, then_first, first_taken,
}

-- Not connected and without a gap, connected, or with a gap that began at a time.
pub data Phase : Type 0 where
  idle : Phase
  up : Phase
  lost : ℕ → Phase

-- The calls that may follow each other: in a gap only errors until its recovery, which is from the
-- time of the loss; the connection is reported from idle alone and its loss while it is up alone.
abbrev pub allowed : Phase → Call → Option Phase
allowed phase error_call = some phase
allowed (lost t) (snapshot_call s) = none
allowed phase (snapshot_call s) = some phase
allowed idle (state_call true t) = some up
allowed phase (state_call true t) = none
allowed up (state_call false t) = some (lost t)
allowed phase (state_call false t) = none
allowed (lost t) (recovery_call from until) = if from == t then some idle else none
allowed phase (recovery_call from until) = none

abbrev pub bind_phase : Option Phase → (Phase → Option Phase) → Option Phase
bind_phase none f = none
bind_phase (some p) f = f p

unfoldable pub follow : List Call → Phase → Option Phase
follow [] phase = some phase
follow (c ∷ cs) phase = bind_phase (allowed phase c) (follow cs)

abbrev pub gap : Option ℕ → Phase
gap none = idle
gap (some t) = lost t

pub follow-append :
    (xs ys : List Call) (p q : Phase) → follow xs p ≡ some q → follow (xs ++ ys) p ≡ follow ys q
unfolding follow
follow-append [] ys p q h = let e : p ≡ q = cc in rw e refl
follow-append (c ∷ xs) ys p q h = elim (Option-cases (allowed p c)) [
  | inl e ↦ let no : none ≡ some q = rw e at h in absurd (cc)
  | inr (r, e) ↦ rw e (follow-append xs ys r q (rw e at h))
]

-- Calls that leave a phase as it is.
abbrev pub Keeps : Phase → List Call → Type 0
Keeps p cs = follow cs p ≡ some p

Keeps-append : (p : Phase) (xs ys : List Call) → Keeps p xs → Keeps p ys → Keeps p (xs ++ ys)
Keeps-append p xs ys hx hy = follow-append xs ys p p hx ∙ hy

handle-Keeps : (a : Answers) (service : String) → Keeps up ((handle a service).0)
unfolding handle follow
handle-Keeps a service = elim (Option-cases (a.snapshot service)) [
  | inl e ↦ rw e refl
  | inr (s, e) ↦ rw e refl
]

then_calls-Keeps :
    (x rest : List Call × Bool)
    → Keeps up (x.0)
    → Keeps up (rest.0)
    → Keeps up ((then_calls x rest).0)
then_calls-Keeps (calls, false) rest h k = h
then_calls-Keeps (calls, true) rest h k = Keeps-append up calls (rest.0) h k

handle_all-Keeps : (a : Answers) (units : Units) → Keeps up ((handle_all a units).0)
unfolding handle_all follow
handle_all-Keeps a [] = refl
handle_all-Keeps a ((path, service) ∷ rest) =
    then_calls-Keeps (handle a service) (handle_all a rest) (handle-Keeps a service)
      (handle_all-Keeps a rest)

handle_found-Keeps :
    (a : Answers) (sig : Signal) (o : Option String) → Keeps up ((handle_found a sig o).0)
unfolding follow handle_found
handle_found-Keeps a sig none = refl
handle_found-Keeps a sig (some service) =
    elim (Bool-cases (is_unit_iface (sig.iface) && is_interesting_change (sig.changed))) [
      | inl e ↦ rw e (handle-Keeps a service)
      | inr e ↦ rw e refl
    ]

handle_signal-Keeps :
    (a : Answers) (units : Units) (sig : Signal) → Keeps up ((handle_signal a units sig).0)
unfolding handle_signal follow
handle_signal-Keeps a units sig =
    elim (Bool-cases (
      not (str_eq (sig.name) "org.freedesktop.DBus.Properties.PropertiesChanged")
      || not (sig.has_body))) [
        | inl e ↦ rw e refl
        | inr e ↦ rw e (handle_found-Keeps a sig (lookup (sig.path) units))
      ]

or_failed-Keeps :
    (x : List Call × Bool) (rest : List Call × End)
    → Keeps up (x.0)
    → Keeps up (rest.0)
    → Keeps up ((or_failed x rest).0)
or_failed-Keeps (calls, false) rest h k = h
or_failed-Keeps (calls, true) rest h k = Keeps-append up calls (rest.0) h k

pub run_monitor-Keeps :
    (units : Units) (wakes : List (Wake × Answers)) → Keeps up ((run_monitor units wakes).0)
unfolding run_monitor follow
run_monitor-Keeps units [] = refl
run_monitor-Keeps units ((cancelled, a) ∷ rest) = refl
run_monitor-Keeps units ((connection_closed, a) ∷ rest) = refl
run_monitor-Keeps units ((reconcile, a) ∷ rest) =
    or_failed-Keeps (handle_all a units) (run_monitor units rest) (handle_all-Keeps a units)
      (run_monitor-Keeps units rest)
run_monitor-Keeps units ((incoming none, a) ∷ rest) = refl
run_monitor-Keeps units ((incoming (some sig), a) ∷ rest) =
    or_failed-Keeps (handle_signal a units sig) (run_monitor units rest)
      (handle_signal-Keeps a units sig) (run_monitor-Keeps units rest)

then_first-Keeps :
    (x rest : List Call × Verdict)
    → Keeps idle (x.0)
    → Keeps idle (rest.0)
    → Keeps idle ((then_first x rest).0)
then_first-Keeps (calls, going) rest h k = Keeps-append idle calls (rest.0) h k
then_first-Keeps (calls, setup_failed) rest h k = h
then_first-Keeps (calls, refused) rest h k = h

first_taken-Keeps :
    (handled : UnitSnapshot → Bool) (o : Option UnitSnapshot)
    → Keeps idle ((first_taken handled o).0)
unfolding follow
first_taken-Keeps handled none = refl
first_taken-Keeps handled (some s) = refl

pub first_snapshots-Keeps :
    (a : Attempt) (boot_id : String) (units : Units) (services : List String)
    → Keeps idle ((first_snapshots a boot_id units services).0)
unfolding first_snapshots follow
first_snapshots-Keeps a boot_id units [] = refl
first_snapshots-Keeps a boot_id units (service ∷ rest) =
    elim (Bool-cases (by_service service units)) [
      | inl e ↦ rw e (
          then_first-Keeps (first_taken (a.handled) (a.snapshot boot_id service))
            (first_snapshots a boot_id units rest)
            (first_taken-Keeps (a.handled) (a.snapshot boot_id service))
            (first_snapshots-Keeps a boot_id units rest))
      | inr e ↦ rw e (first_snapshots-Keeps a boot_id units rest)
    ]
