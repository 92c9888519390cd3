-- ===== src/Engine/Readiness.antt =====
-- internal/engine/engine.go: UP transitions and probes, in `Apply` and `ConfirmReady`.
use systemd_transition_expor.Base.{
  ℕ, ◌/◌, ◌≤◌, ◌<◌, ◌≡◌, ◌≢◌, String, Bool, true, false, not, ◌||◌, ◌&&◌, none, some, List, [], ◌∷◌,
  arith, u64_inc, All, All-imp, ap, str_eq, ltb, inl, inr, Bool-cases, is_none, if◌then◌else◌,
}
use systemd_transition_expor.Base.Dict.{lookup, insert}
use systemd_transition_expor.Base.Sort.{All-sort_stable, IsSortedBy, sort_stable-IsSortedBy}
use systemd_transition_expor.Model.{
  AvailabilityState, up, is_up, is_down, EventSource, UnitSnapshot, Event, ServiceState,
}
use systemd_transition_expor.Engine.Lookup.{state_or_zero-insert_self}
use systemd_transition_expor.Engine.{
  Engine, Candidate, member, is_fresh, candidates, emit, systemd_event, apply_known, apply,
  confirm_ready, ready_event, ready_state, state, state_or_zero,
}

-- No UP transition of a delayed service comes out of the loop of `Apply`.
emit-delayed :
    (s : UnitSnapshot) (cs : List Candidate) (n : ℕ) (a : AvailabilityState) (p : Bool)
    → All (λ x. x.state ≢ up) (emit s true cs n a p).events
unfolding emit systemd_event
emit-delayed s [] n a p = tt
emit-delayed s (c ∷ cs) n a p = ground (
  arith,
  emit-delayed s cs n a true,
  emit-delayed s cs n a false,
  emit-delayed s cs (u64_inc n) c.state p,
  emit-delayed s cs (u64_inc n) c.state false,
)

-- `Apply` never emits an UP transition of a service whose UP is delayed.
pub apply-delayed :
    (e : Engine) (s : UnitSnapshot)
    → member s.service e.delay_up ≡ true
    → All (λ x. x.state ≢ up) (apply e s).1
unfolding apply apply_known
apply-delayed e s d =
    let old = state_or_zero e s.service in
    elim (Bool-cases (is_none (lookup s.service e.states) || not (str_eq old.boot_id s.boot_id))) [
      | inl c ↦ rw c tt
      | inr c ↦
          rw (c, d) (emit-delayed s (candidates s old) e.seq old.availability old.awaiting_sip)
    ]

-- The events are newer than the last event known of the service, and in the order of their times.
pub record AreNewer (last : ℕ) (es : List Event) : Type 0 where
  pub newer : All (λ x. last < x.event_time_unix_ms) es
  pub ordered : IsSortedBy (λ (x : Event). x.event_time_unix_ms) es

candidates-newer :
    (s : UnitSnapshot) (old : ServiceState)
    → All (λ c. old.last_event_time_unix_ms < c.unix_us / 1000) (candidates s old)
unfolding candidates is_fresh
candidates-newer s old = All-sort_stable _ _ _ (ground arith)

candidates-ordered :
    (s : UnitSnapshot) (old : ServiceState)
    → IsSortedBy (λ (c : Candidate). c.unix_us) (candidates s old)
unfolding candidates
candidates-ordered s old =
    sort_stable-IsSortedBy (λ a b. ltb a.unix_us b.unix_us) (λ c. c.unix_us) (λ x y h. ground arith)
      (λ x y h. ground arith) _

emit-All :
    (P : ℕ → Type 0) (s : UnitSnapshot) (d : Bool) (cs : List Candidate) (n : ℕ)
    (a : AvailabilityState) (p : Bool)
    → All (λ c. P (c.unix_us / 1000)) cs
    → All (λ x. P x.event_time_unix_ms) (emit s d cs n a p).events
unfolding emit systemd_event
emit-All P s d [] n a p h = tt
emit-All P s d (c ∷ cs) n a p h = elim (Bool-cases (is_up c.state && d)) [
  | inl u ↦ rw u (emit-All P s d cs n a true h.1)
  | inr u ↦ elim (Bool-cases (is_down c.state && (p && is_down a))) [
    | inl v ↦ rw (u, v) (emit-All P s d cs n a false h.1)
    | inr v ↦
        rw (u, v)
          (h.0, emit-All P s d cs (u64_inc n) c.state (if is_down c.state then false else p) h.1)
  ]
]

emit-ordered :
    (s : UnitSnapshot) (d : Bool) (cs : List Candidate) (n : ℕ) (a : AvailabilityState) (p : Bool)
    → IsSortedBy (λ (c : Candidate). c.unix_us) cs
    → IsSortedBy (λ (x : Event). x.event_time_unix_ms) (emit s d cs n a p).events
unfolding emit systemd_event
emit-ordered s d [] n a p h = tt
emit-ordered s d (c ∷ cs) n a p h = elim (Bool-cases (is_up c.state && d)) [
  | inl u ↦ rw u (emit-ordered s d cs n a true h.1)
  | inr u ↦ elim (Bool-cases (is_down c.state && (p && is_down a))) [
    | inl v ↦ rw (u, v) (emit-ordered s d cs n a false h.1)
    | inr v ↦
        let p' = if is_down c.state then false else p in
        rw (u, v)
          (
            emit-All (λ t. c.unix_us / 1000 ≤ t) s d cs (u64_inc n) c.state p'
                (All-imp _ _ cs (λ x le. omega arith) h.0),
            emit-ordered s d cs (u64_inc n) c.state p' h.1,
          )
  ]
]

apply_known-AreNewer :
    (e : Engine) (s : UnitSnapshot) (old : ServiceState)
    → AreNewer old.last_event_time_unix_ms (apply_known e s old).1
unfolding apply_known
apply_known-AreNewer e s old = record {
  newer =
      emit-All (λ t. old.last_event_time_unix_ms < t) s (member s.service e.delay_up)
        (candidates s old) e.seq old.availability old.awaiting_sip (candidates-newer s old);
  ordered =
      emit-ordered s (member s.service e.delay_up) (candidates s old) e.seq old.availability
        old.awaiting_sip (candidates-ordered s old);
}

-- The events of a snapshot are all newer than the last event known of its service, and come in
-- the order of their times.
pub apply-AreNewer :
    (e : Engine) (s : UnitSnapshot)
    → AreNewer (state_or_zero e s.service).last_event_time_unix_ms (apply e s).1
unfolding apply
apply-AreNewer e s =
    let old = state_or_zero e s.service in
    elim (Bool-cases (is_none (lookup s.service e.states) || not (str_eq old.boot_id s.boot_id))) [
      | inl c ↦ rw c (record { newer = tt; ordered = tt })
      | inr c ↦ rw c (apply_known-AreNewer e s old)
    ]

-- What `ConfirmReady` owes for a service that waits in state `s`: one UP event, newer than every
-- event known of the service and not before the answer, and the state that shows it.
pub record Released (s : ServiceState) (k : String) (at : ℕ) (src : EventSource) (e' : Engine)
    (x : Event) : Type 0 where
  pub rises : x.state ≡ up
  pub from : x.source ≡ src
  pub of : x.service ≡ k
  pub newer : s.last_event_time_unix_ms < x.event_time_unix_ms
  not_early : at ≤ x.event_time_unix_ms
  pub shown : state e' k ≡ some (ready_state s x)
  pub number : x.sequence ≡ e'.seq

-- The engine that `ConfirmReady` leaves for a service that waits in state `s`.
abbrev released : Engine → ServiceState → String → ℕ → EventSource → Engine
released e s k at src =
    let x = ready_event e s k at src in
    record e { states = insert k (ready_state s x) e.states; seq = x.sequence }

-- Every other call of `ConfirmReady` changes nothing and emits nothing.
confirm_ready_idle :
    (e : Engine) (k : String) (at : ℕ) (src : EventSource)
    → (state_or_zero e k).awaiting_sip ≡ false
    → confirm_ready e k at src ≡ (e, none)
unfolding confirm_ready
confirm_ready_idle e k at src h = ground arith

idle_cause :
    (e : Engine) (k : String)
    → (is_none (lookup k e.states) || not (state_or_zero e k).awaiting_sip) ≡ true
    → (state_or_zero e k).awaiting_sip ≡ false
unfolding state_or_zero
idle_cause e k h = ground arith

confirm_ready_done :
    (e : Engine) (k : String) (at : ℕ) (src : EventSource)
    → (state_or_zero (confirm_ready e k at src).0 k).awaiting_sip ≡ false
unfolding confirm_ready ready_state
confirm_ready_done e k at src =
    let s = state_or_zero e k in
    let x = ready_event e s k at src in
    elim (Bool-cases (is_none (lookup k e.states) || not s.awaiting_sip)) [
      | inl c ↦ rw c (idle_cause e k c)
      | inr c ↦ rw c (
          ap (λ (t : ServiceState). t.awaiting_sip)
            (state_or_zero-insert_self e k (ready_state s x) x.sequence))
    ]

-- Of two answers for one service only the first can emit an event: the second emits nothing and
-- leaves the engine as it is.
confirm_ready_once :
    (e : Engine) (k : String) (at at' : ℕ) (src src' : EventSource)
    → let e' = (confirm_ready e k at src).0 in confirm_ready e' k at' src' ≡ (e', none)
confirm_ready_once e k at at' src src' =
    confirm_ready_idle _ k at' src' (confirm_ready_done e k at src)
