-- ===== src/Engine/Dedup.antt =====
-- internal/engine/engine.go: a snapshot that comes a second time, or after the journal.
use systemd_transition_expor.Base.{
  ◌≢◌, ◌&&◌, not, ◌||◌, is_none, if◌then◌else◌, ℕ, ◌/◌, ◌≤◌, ◌≡◌, refl, Bool, false, some, List, [],
  ◌∷◌, arith, ap, ◌∙◌, eq_iff, str_eq, leb, inl, inr, Bool-cases,
}
use mathlib.Core.Path.{subst}
use systemd_transition_expor.Base.Dict.{lookup, insert, lookup-insert_self, insert-insert}
use systemd_transition_expor.Base.Sort.{place, sort_stable}
use systemd_transition_expor.Model.{down, UnitSnapshot, Event, ServiceState}
use systemd_transition_expor.Engine.Lookup.{state_or_zero-insert_self}
use systemd_transition_expor.Engine.{
  member, Engine, is_fresh, candidates, emit, from_snapshot, note_last, apply_known, apply,
  apply_recovery, state_or_zero, observed,
}

-- With neither instant fresh a snapshot has no candidates.
pub stale-candidates :
    (s : UnitSnapshot) (old : ServiceState)
    → is_fresh s.active_exit_timestamp_us old.last_active_exit_timestamp_us
        old.last_event_time_unix_ms
      ≡ false
    → is_fresh s.active_enter_timestamp_us old.last_active_enter_timestamp_us
        old.last_event_time_unix_ms
      ≡ false
    → candidates s old ≡ []
unfolding candidates sort_stable place
stale-candidates s old p q = rw (p, q)

-- What `note_last` leaves alone.
note_last-seen :
    (es : List Event) (s : ServiceState)
    → ((note_last es s).last_active_enter_timestamp_us ≡ s.last_active_enter_timestamp_us)
      × ((note_last es s).last_active_exit_timestamp_us ≡ s.last_active_exit_timestamp_us)
      × ((note_last es s).boot_id ≡ s.boot_id)
      × ((note_last es s).awaiting_sip ≡ s.awaiting_sip)
      × ((note_last es s).availability ≡ s.availability)
unfolding note_last
note_last-seen [] s = (refl, refl, refl, refl, refl)
note_last-seen (e ∷ es) s = note_last-seen es (record s {
  last_event_time_unix_ms = e.event_time_unix_ms;
  last_event_mono_us = e.event_time_monotonic_us;
  last_sequence = e.sequence;
})

-- A state that came from this snapshot is rebuilt by it as it is.
note_last-from_snapshot :
    (es : List Event) (s : UnitSnapshot) (old : ServiceState) (p : Bool)
    → let new = note_last es (from_snapshot s old p) in from_snapshot s new p ≡ new
unfolding note_last from_snapshot
note_last-from_snapshot [] s old p = refl
note_last-from_snapshot (e ∷ es) s old p =
    note_last-from_snapshot es s
      (record old {
        last_event_time_unix_ms = e.event_time_unix_ms;
        last_event_mono_us = e.event_time_monotonic_us;
        last_sequence = e.sequence;
      })
      p

-- A snapshot that the state already reflects changes nothing and emits nothing.
apply_known-settled :
    (e : Engine) (s : UnitSnapshot) (old : ServiceState)
    → candidates s old ≡ []
    → from_snapshot s old old.awaiting_sip ≡ old
    → apply_known e s old ≡ (record e { states = insert s.service old e.states }, [])
unfolding apply_known emit note_last
apply_known-settled e s old none_new same = rw none_new (
    ap
      (λ (x : ServiceState).
        let r : Engine × List Event = (record e { states = insert s.service x e.states }, []) in r)
      same)

-- `Apply` on a service whose state of this boot is known.
pub apply_at_known :
    (e : Engine) (s : UnitSnapshot) (old : ServiceState)
    → lookup s.service e.states ≡ some old
    → old.boot_id ≡ s.boot_id
    → apply e s ≡ apply_known e s old
unfolding apply state_or_zero
apply_at_known e s old h b = rw h (ground (arith, eq_iff old.boot_id s.boot_id))

stale-is_fresh : (us ms : ℕ) → is_fresh us us ms ≡ false
unfolding is_fresh
stale-is_fresh us ms = ground arith

-- What the state entered after a snapshot shows of it.
pub record Reflects (s : UnitSnapshot) (p : Bool) (new : ServiceState) : Type 0 where
  pub boot : new.boot_id ≡ s.boot_id
  pub exit : new.last_active_exit_timestamp_us ≡ s.active_exit_timestamp_us
  pub enter : new.last_active_enter_timestamp_us ≡ s.active_enter_timestamp_us
  pub waits : new.awaiting_sip ≡ p
  pub available : new.availability ≡ (if p then down else observed s.active_state)

pub note_last-Reflects :
    (es : List Event) (s : UnitSnapshot) (old : ServiceState) (p : Bool)
    → Reflects s p (note_last es (from_snapshot s old p))
unfolding from_snapshot
note_last-Reflects es s old p =
    let seen = note_last-seen es (from_snapshot s old p) in
    record { boot = seen.2; exit = seen.1; enter = seen.0; waits = seen.3; available = seen.4 }

settled_again :
    (e : Engine) (s : UnitSnapshot) (old : ServiceState) (es : List Event) (n : ℕ) (p : Bool)
    → let new = note_last es (from_snapshot s old p) in
      let e' : Engine = record e { states = insert s.service new e.states; seq = n } in
      apply e' s ≡ (e', [])
settled_again e s old es n p =
    let new = note_last es (from_snapshot s old p) in
    let e' : Engine = record e { states = insert s.service new e.states; seq = n } in
    let r = note_last-Reflects es s old p in
    let quiet : candidates s new ≡ [] =
      stale-candidates s new (rw r.exit (stale-is_fresh _ _)) (rw r.enter (stale-is_fresh _ _)) in
    apply_at_known e' s new (lookup-insert_self s.service new e.states) r.boot
    ∙ (apply_known-settled e' s new quiet
          (ap (λ q. from_snapshot s new q) r.waits ∙ note_last-from_snapshot es s old p)
        ∙ rw insert-insert)

-- `Apply` enters one state for the service of the snapshot, whatever the case.
pub apply_cases :
    (e : Engine) (s : UnitSnapshot)
    → (old : ServiceState) × (es : List Event) × (n : ℕ) × (p : Bool) × ((apply e s).0 ≡ record e {
      states = insert s.service (note_last es (from_snapshot s old p)) e.states;
      seq = n;
    })
unfolding apply apply_known note_last
apply_cases e s =
    let old = state_or_zero e s.service in
    elim (Bool-cases (is_none (lookup s.service e.states) || not (str_eq old.boot_id s.boot_id))) [
      | inl h ↦ (old, [], e.seq, false, rw h)
      | inr h ↦
          let r =
            emit s (member s.service e.delay_up) (candidates s old) e.seq old.availability
              old.awaiting_sip in
          (old, r.events, r.seq, r.pending, rw h)
    ]

-- Applying a snapshot a second time emits nothing and leaves the engine as it is.
pub apply_twice : (e : Engine) (s : UnitSnapshot) → apply (apply e s).0 s ≡ ((apply e s).0, [])
apply_twice e s = let (old, es, n, p, h) = apply_cases e s in rw h (settled_again e s old es n p)

-- A service whose last event is not older than both instants of a snapshot emits nothing.
quiet_apply :
    (e : Engine) (s : UnitSnapshot)
    → s.active_exit_timestamp_us / 1000 ≤ (state_or_zero e s.service).last_event_time_unix_ms
    → s.active_enter_timestamp_us / 1000 ≤ (state_or_zero e s.service).last_event_time_unix_ms
    → (apply e s).1 ≡ []
unfolding apply apply_known
quiet_apply e s h k =
    let old = state_or_zero e s.service in
    let quiet : candidates s old ≡ [] =
      stale-candidates s old (old_instant _ _ _ h) (old_instant _ _ _ k) in
    elim (Bool-cases (is_none (lookup s.service e.states) || not (str_eq old.boot_id s.boot_id))) [
      | inl c ↦ rw c
      | inr c ↦ rw (c, quiet) (unfold emit in refl)
    ]
  where
    old_instant : (us seen ms : ℕ) → us / 1000 ≤ ms → is_fresh us seen ms ≡ false
    old_instant us seen ms h = unfold is_fresh in ground arith

-- The test by which `ApplyRecovery` passes over an event.
abbrev passed_over : Engine → Event → Bool
passed_over e v =
    not (str_eq (state_or_zero e v.service).service "")
    && leb v.event_time_unix_ms (state_or_zero e v.service).last_event_time_unix_ms

recovery-last :
    (e : Engine) (v : Event)
    → v.event_time_unix_ms
      ≤ (state_or_zero (apply_recovery e v).0 v.service).last_event_time_unix_ms
unfolding apply_recovery
recovery-last e v = elim (Bool-cases (passed_over e v)) [
  | inl c ↦ rw c (ground arith)
  | inr c ↦ rw c (rw state_or_zero-insert_self (omega arith))
]

-- After a transition was recovered from the journal, a snapshot whose instants are not newer than
-- it emits nothing, whether the engine took the transition or knew a newer one.
pub journal_then_snapshot :
    (e : Engine) (v : Event) (s : UnitSnapshot)
    → v.service ≡ s.service
    → s.active_exit_timestamp_us / 1000 ≤ v.event_time_unix_ms
    → s.active_enter_timestamp_us / 1000 ≤ v.event_time_unix_ms
    → (apply (apply_recovery e v).0 s).1 ≡ []
journal_then_snapshot e v s same h k =
    let last =
      subst
        (λ k.
          v.event_time_unix_ms ≤ (state_or_zero (apply_recovery e v).0 k).last_event_time_unix_ms)
        same (recovery-last e v) in
    quiet_apply (apply_recovery e v).0 s (omega (arith, last)) (omega (arith, last))

-- A recovered transition of a named service that is applied a second time emits nothing and
-- leaves the engine as it is.
recovery_twice :
    (e : Engine) (v : Event)
    → v.service ≢ ""
    → apply_recovery (apply_recovery e v).0 v ≡ ((apply_recovery e v).0, [])
unfolding apply_recovery
recovery_twice e v h = elim (Bool-cases (passed_over e v)) [
  | inl c ↦ rw c (rw c)
  | inr c ↦ rw c (rw state_or_zero-insert_self (ground (arith, eq_iff v.service "")))
]
