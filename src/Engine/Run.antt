-- ===== src/Engine/Run.antt =====
-- Sequences of calls on the engine, as the callbacks of cmd/systemd-transition-exporter/main.go
-- make them, and the restart from a log of events.
use systemd_transition_expor.Base.{
  ℕ, ◌+◌, ◌≤◌, ◌<◌, ◌≡◌, refl, String, List, [], ◌∷◌, ◌++◌, arith, u64_inc, u64_mod, length, All,
  ◌∙◌,
}
use systemd_transition_expor.Model.{EventSource, UnitSnapshot, Event}
use systemd_transition_expor.Engine.{
  Engine, apply, confirm_ready, apply_recovery, adopt_boot_id, apply_reboot, replay,
}
use systemd_transition_expor.Engine.Numbering.{
  Numbered, advance, IsNumbered, IsNumbered-append, to_list, apply-IsNumbered,
  confirm_ready-IsNumbered, apply_recovery-IsNumbered, apply_reboot-IsNumbered,
}

pub data Call : Type 0 where
  snapshot : UnitSnapshot → Call
  ready : String → ℕ → EventSource → Call
  recovered : Event → Call
  rebooted : List String → String → ℕ → Call
  adopted : String → Call

unfoldable pub step : Engine → Call → Engine × List Event
step e (snapshot s) = apply e s
step e (ready k t src) = let (e', o) = confirm_ready e k t src in (e', to_list o)
step e (recovered v) = apply_recovery e v
step e (rebooted order b t) = apply_reboot e order b t
step e (adopted b) = (adopt_boot_id e b, [])

-- All events that the calls return, in order.
unfoldable pub run : Engine → List Call → Engine × List Event
run e [] = (e, [])
run e (c ∷ cs) = let (e', now) = step e c in let (e'', later) = run e' cs in (e'', now ++ later)

-- The loop of main over the events read from the log.
unfoldable pub replay_all : Engine → List Event → Engine
replay_all e [] = e
replay_all e (v ∷ vs) = replay_all (replay e v) vs

step-IsNumbered : (e : Engine) (c : Call) → IsNumbered e.seq (step e c).0.seq (step e c).1
unfolding step
step-IsNumbered e (snapshot s) = apply-IsNumbered e s
step-IsNumbered e (ready k t src) = confirm_ready-IsNumbered e k t src
step-IsNumbered e (recovered v) = apply_recovery-IsNumbered e v
step-IsNumbered e (rebooted order b t) = apply_reboot-IsNumbered e order b t
step-IsNumbered e (adopted b) = unfold adopt_boot_id in record { each = tt; last = refl }

run-IsNumbered : (e : Engine) (cs : List Call) → IsNumbered e.seq (run e cs).0.seq (run e cs).1
unfolding run
run-IsNumbered e [] = record { each = tt; last = refl }
run-IsNumbered e (c ∷ cs) =
    let (e', now) = step e c in
    let (e'', later) = run e' cs in
    IsNumbered-append e.seq e'.seq e''.seq now later (step-IsNumbered e c) (run-IsNumbered e' cs)

-- The numbers are n + 1, n + 2, and so on.
abbrev pub Consecutive : ℕ → List Event → Type 0
Consecutive n [] = Unit
Consecutive n (e ∷ es) = (e.sequence ≡ n + 1) × Consecutive (n + 1) es

no_wrap : (n : ℕ) → n + 1 < u64_mod → u64_inc n ≡ n + 1
no_wrap n h = omega arith

Numbered-Consecutive :
    (n : ℕ) (es : List Event) → n + length es < u64_mod → Numbered n es → Consecutive n es
Numbered-Consecutive n [] h k = tt
Numbered-Consecutive n (e ∷ es) h k =
    let p : u64_inc n ≡ n + 1 = omega arith in
    (k.0 ∙ p, Numbered-Consecutive (n + 1) es (omega arith) (rw p at k.1))

advance_no_wrap : (n : ℕ) (es : List Event) → n + length es < u64_mod → advance n es ≡ n + length es
advance_no_wrap n [] h = omega arith
advance_no_wrap n (e ∷ es) h =
    let p : u64_inc n ≡ n + 1 = omega arith in
    rw p (advance_no_wrap (n + 1) es (omega arith) ∙ omega arith)

-- Over any calls that stay below 2^64 events the events carry the consecutive numbers after the
-- counter, in the order in which they are returned, and the counter ends at the last of them.
pub run-Consecutive :
    (e : Engine) (cs : List Call)
    → e.seq + length (run e cs).1 < u64_mod
    → Consecutive e.seq (run e cs).1 × ((run e cs).0.seq ≡ e.seq + length (run e cs).1)
run-Consecutive e cs h =
    let k = run-IsNumbered e cs in
    (
      Numbered-Consecutive e.seq (run e cs).1 h k.each,
      k.last ∙ advance_no_wrap e.seq (run e cs).1 h,
    )

replay-seq : (e : Engine) (v : Event) → (e.seq ≤ (replay e v).seq) × (v.sequence ≤ (replay e v).seq)
unfolding replay
replay-seq e v = ground arith

replay_all-seq-ge : (e : Engine) (vs : List Event) → e.seq ≤ (replay_all e vs).seq
unfolding replay_all
replay_all-seq-ge e [] = omega arith
replay_all-seq-ge e (v ∷ vs) = omega (arith, replay-seq e v, replay_all-seq-ge (replay e v) vs)

replay_all-covers :
    (e : Engine) (vs : List Event) → All (λ v. v.sequence ≤ (replay_all e vs).seq) vs
unfolding replay_all
replay_all-covers e [] = tt
replay_all-covers e (v ∷ vs) = (
  omega (arith, replay-seq e v, replay_all-seq-ge (replay e v) vs),
  replay_all-covers (replay e v) vs,
)

Consecutive-above :
    (m n : ℕ) (es : List Event) → m ≤ n → Consecutive n es → All (λ x. m < x.sequence) es
Consecutive-above m n [] h k = tt
Consecutive-above m n (e ∷ es) h k =
    (omega (arith, k.0), Consecutive-above m (n + 1) es (omega arith) k.1)

All-above :
    (n : ℕ) (vs es : List Event)
    → All (λ v. v.sequence ≤ n) vs
    → Consecutive n es
    → All (λ v. All (λ x. v.sequence < x.sequence) es) vs
All-above n [] es h k = tt
All-above n (v ∷ vs) es h k = (Consecutive-above v.sequence n es h.0 k, All-above n vs es h.1 k)

-- After a restart that replays a log, every event emitted later has a greater sequence number
-- than every event of the log, as long as the numbers stay below 2^64.
pub restart_above_log :
    (e : Engine) (log : List Event) (cs : List Call)
    → (replay_all e log).seq + length (run (replay_all e log) cs).1 < u64_mod
    → All (λ v. All (λ x. v.sequence < x.sequence) (run (replay_all e log) cs).1) log
restart_above_log e log cs h =
    All-above (replay_all e log).seq log (run (replay_all e log) cs).1 (replay_all-covers e log)
      (run-Consecutive (replay_all e log) cs h).0
