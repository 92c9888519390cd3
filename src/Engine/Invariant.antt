-- ===== src/Engine/Invariant.antt =====
-- What holds of the engine's map between calls.
use systemd_transition_expor.Base.{
  ℕ, ◌≡◌, refl, String, Bool, true, false, not, ◌||◌, ◌&&◌, Option, none, some, List, [], ◌∷◌,
  arith, All, sym, ap, ◌∙◌, eq_iff, str_eq, ltb, leb, inl, inr, Bool-cases, Option-cases, is_none,
}
use systemd_transition_expor.Base.Dict.{Dict, lookup, insert, lookup-insert}
use systemd_transition_expor.Model.{down, is_up, EventSource, Event, UnitSnapshot, ServiceState}
use systemd_transition_expor.Engine.Dedup.{apply_cases, note_last-Reflects}
use systemd_transition_expor.Engine.Lookup.{state_or_zero-none}
use systemd_transition_expor.Engine.{
  Engine, new, state_or_zero, restore_state, named, replay, apply, from_snapshot, note_last,
  confirm_ready, ready_state, apply_recovery, with_boot, adopt_boot_id, reboot_one, apply_reboot,
}
use systemd_transition_expor.Engine.Run.{
  Call, snapshot, ready, recovered, rebooted, adopted, step, run, replay_all,
}

-- An entry names its own key, and is down while its UP transition is withheld.
pub record IsEntry (k : String) (s : ServiceState) : Type 0 where
  pub keyed : s.service ≡ k
  pub withheld : s.awaiting_sip ≡ true → s.availability ≡ down

pub record IsConsistent (e : Engine) : Type 0 where
  pub entry : (k : String) (s : ServiceState) → lookup k e.states ≡ some s → IsEntry k s

insert-IsConsistent :
    (e : Engine) (k : String) (x : ServiceState) (n : ℕ)
    → IsConsistent e
    → IsEntry k x
    → IsConsistent (record e { states = insert k x e.states; seq = n })
insert-IsConsistent e k x n h g = record {
  entry = λ j s p. elim (Bool-cases (str_eq k j)) [
    | inl c ↦ ground (arith, lookup-insert k j x e.states, eq_iff k j)
    | inr c ↦ h.entry j s (ground (arith, lookup-insert k j x e.states))
  ];
}

note_last-service : (es : List Event) (s : ServiceState) → (note_last es s).service ≡ s.service
unfolding note_last
note_last-service [] s = refl
note_last-service (x ∷ es) s = note_last-service es (record s {
  last_event_time_unix_ms = x.event_time_unix_ms;
  last_event_mono_us = x.event_time_monotonic_us;
  last_sequence = x.sequence;
})

noted-IsEntry :
    (es : List Event) (s : UnitSnapshot) (old : ServiceState) (p : Bool)
    → IsEntry s.service (note_last es (from_snapshot s old p))
unfolding from_snapshot
noted-IsEntry es s old p =
    let r = note_last-Reflects es s old p in
    record { keyed = note_last-service es (from_snapshot s old p); withheld = λ w. ground arith }

apply-IsConsistent : (e : Engine) (s : UnitSnapshot) → IsConsistent e → IsConsistent (apply e s).0
apply-IsConsistent e s h =
    let (old, es, n, p, same) = apply_cases e s in
    rw same (insert-IsConsistent e s.service _ n h (noted-IsEntry es s old p))

-- The entry of a service, or the zero value.
IsEntry-or_zero :
    (e : Engine) (k : String)
    → IsConsistent e
    → is_none (lookup k e.states) ≡ false
    → IsEntry k (state_or_zero e k)
unfolding state_or_zero
IsEntry-or_zero e k h p = elim (Option-cases (lookup k e.states)) [
  | inl q ↦ cc
  | inr (s, q) ↦ rw (q, state_or_zero) (h.entry k s q)
]

confirm_ready-IsConsistent :
    (e : Engine) (k : String) (t : ℕ) (src : EventSource)
    → IsConsistent e
    → IsConsistent (confirm_ready e k t src).0
unfolding confirm_ready ready_state
confirm_ready-IsConsistent e k t src h =
    let s = state_or_zero e k in
    elim (Bool-cases (is_none (lookup k e.states) || not s.awaiting_sip)) [
      | inl c ↦ rw c h
      | inr c ↦ rw c (
          insert-IsConsistent e k _ _ h
            (record { keyed = (IsEntry-or_zero e k h (ground arith)).keyed; withheld = λ w. cc }))
    ]

apply_recovery-IsConsistent :
    (e : Engine) (v : Event) → IsConsistent e → IsConsistent (apply_recovery e v).0
unfolding apply_recovery
apply_recovery-IsConsistent e v h =
    let s = state_or_zero e v.service in
    elim (Bool-cases
      (not (str_eq s.service "") && leb v.event_time_unix_ms s.last_event_time_unix_ms)) [
        | inl c ↦ rw c h
        | inr c ↦
            rw c
              (insert-IsConsistent e v.service _ _ h (record { keyed = refl; withheld = λ w. cc }))
      ]

reboot_one-IsConsistent :
    (e : Engine) (k b : String) (t : ℕ) → IsConsistent e → IsConsistent (reboot_one e k b t).0
unfolding reboot_one
reboot_one-IsConsistent e k b t h = elim (Bool-cases (is_none (lookup k e.states))) [
  | inl c ↦ rw c h
  | inr c ↦
      let g = IsEntry-or_zero e k h c in
      elim (Bool-cases (not (is_up (state_or_zero e k).availability))) [
        | inl d ↦
            rw (c, d)
              (insert-IsConsistent e k _ _ h (record { keyed = g.keyed; withheld = g.withheld }))
        | inr d ↦
            rw (c, d)
              (insert-IsConsistent e k _ _ h (record { keyed = g.keyed; withheld = λ w. refl }))
      ]
]

apply_reboot-IsConsistent :
    (e : Engine) (order : List String) (b : String) (t : ℕ)
    → IsConsistent e
    → IsConsistent (apply_reboot e order b t).0
unfolding apply_reboot
apply_reboot-IsConsistent e [] b t h = h
apply_reboot-IsConsistent e (k ∷ order) b t h =
    apply_reboot-IsConsistent (reboot_one e k b t).0 order b t (reboot_one-IsConsistent e k b t h)

abbrev reboot_all : String → Option ServiceState → Option ServiceState
reboot_all b none = none
reboot_all b (some s) = some (record s { boot_id = b })

lookup-with_boot :
    (b k : String) (m : Dict ServiceState) → lookup k (with_boot b m) ≡ reboot_all b (lookup k m)
unfolding with_boot lookup
lookup-with_boot b k [] = refl
lookup-with_boot b k ((j, x) ∷ m) = ground (arith, lookup-with_boot b k m)

with_boot-IsEntry :
    (b : String) (m : Dict ServiceState)
    → ((k : String) (s : ServiceState) → lookup k m ≡ some s → IsEntry k s)
    → (k : String) (s : ServiceState) → lookup k (with_boot b m) ≡ some s
    → IsEntry k s
with_boot-IsEntry b m h k s p = elim (Option-cases (lookup k m)) [
  | inl q ↦ cc (lookup-with_boot b k m, ap (reboot_all b) q)
  | inr (x, q) ↦
      let g = h k x q in
      let same : some (record x { boot_id = b }) ≡ some s =
        sym (lookup-with_boot b k m ∙ ap (reboot_all b) q) ∙ p in
      ground (arith, g)
]

adopt_boot_id-IsConsistent :
    (e : Engine) (b : String) → IsConsistent e → IsConsistent (adopt_boot_id e b)
unfolding adopt_boot_id
adopt_boot_id-IsConsistent e b h = record { entry = with_boot-IsEntry b e.states h.entry }

step-IsConsistent : (e : Engine) (c : Call) → IsConsistent e → IsConsistent (step e c).0
unfolding step
step-IsConsistent e (snapshot s) h = apply-IsConsistent e s h
step-IsConsistent e (ready k t src) h = confirm_ready-IsConsistent e k t src h
step-IsConsistent e (recovered v) h = apply_recovery-IsConsistent e v h
step-IsConsistent e (rebooted order b t) h = apply_reboot-IsConsistent e order b t h
step-IsConsistent e (adopted b) h = adopt_boot_id-IsConsistent e b h

run-IsConsistent : (e : Engine) (cs : List Call) → IsConsistent e → IsConsistent (run e cs).0
unfolding run
run-IsConsistent e [] h = h
run-IsConsistent e (c ∷ cs) h = run-IsConsistent (step e c).0 cs (step-IsConsistent e c h)

-- The loop of main over the states that the log kept.
unfoldable pub restore_all : Engine → List ServiceState → Engine
restore_all e [] = e
restore_all e (s ∷ ss) = restore_all (restore_state e s) ss

-- A state that could have been saved: it is down while its UP transition is withheld.
abbrev pub CouldBeSaved : ServiceState → Type 0
CouldBeSaved s = s.awaiting_sip ≡ true → s.availability ≡ down

restore_state-IsConsistent :
    (e : Engine) (s : ServiceState)
    → CouldBeSaved s
    → IsConsistent e
    → IsConsistent (restore_state e s)
unfolding restore_state
restore_state-IsConsistent e s g h = elim (Bool-cases (str_eq s.service "")) [
  | inl c ↦ rw c h
  | inr c ↦ rw c (insert-IsConsistent e s.service s _ h (record { keyed = refl; withheld = g }))
]

restore_all-IsConsistent :
    (e : Engine) (ss : List ServiceState)
    → All CouldBeSaved ss
    → IsConsistent e
    → IsConsistent (restore_all e ss)
unfolding restore_all
restore_all-IsConsistent e [] g h = h
restore_all-IsConsistent e (s ∷ ss) g h =
    restore_all-IsConsistent (restore_state e s) ss g.1 (restore_state-IsConsistent e s g.0 h)

named-keyed : (e : Engine) (k : String) → IsConsistent e → (named (state_or_zero e k) k).service ≡ k
unfolding named
named-keyed e k h = elim (Bool-cases (is_none (lookup k e.states))) [
  | inl c ↦ ground (arith, state_or_zero-none e k c, eq_iff (state_or_zero e k).service "")
  | inr c ↦ ground (arith, (IsEntry-or_zero e k h c).keyed)
]

replay-IsConsistent : (e : Engine) (v : Event) → IsConsistent e → IsConsistent (replay e v)
unfolding replay
replay-IsConsistent e v h =
    let s = named (state_or_zero e v.service) v.service in
    elim (Bool-cases (ltb v.event_time_unix_ms s.last_event_time_unix_ms)) [
      | inl c ↦ rw c (record { entry = h.entry })
      | inr c ↦ rw c (
          insert-IsConsistent e v.service _ _ h
            (record { keyed = named-keyed e v.service h; withheld = λ w. cc }))
    ]

replay_all-IsConsistent :
    (e : Engine) (vs : List Event) → IsConsistent e → IsConsistent (replay_all e vs)
unfolding replay_all
replay_all-IsConsistent e [] h = h
replay_all-IsConsistent e (v ∷ vs) h =
    replay_all-IsConsistent (replay e v) vs (replay-IsConsistent e v h)

new-IsConsistent : IsConsistent new
unfolding new lookup
new-IsConsistent = record { entry = λ k s p. cc }

-- From a new engine, over restored states that could have been saved, the replayed log and any
-- later calls, every entry of the map names its key, and is down while its UP transition is
-- withheld.
pub lifetime-IsConsistent :
    (saved : List ServiceState) (log : List Event) (cs : List Call)
    → All CouldBeSaved saved
    → IsConsistent (run (replay_all (restore_all new saved) log) cs).0
lifetime-IsConsistent saved log cs g =
    run-IsConsistent (replay_all (restore_all new saved) log) cs (
      replay_all-IsConsistent (restore_all new saved) log
        (restore_all-IsConsistent new saved g new-IsConsistent))
