-- ===== src/Probe/Spacing.antt =====
-- The times of the requests of a loop of runProbe (internal/sip/probe.go and its like).
use systemd_transition_expor.Base.{
  ℕ, suc, ◌+◌, ◌-◌, ◌≤◌, ◌≡◌, refl, Bool, true, false, ◌||◌, Option, none, some, List, [], ◌∷◌,
  ◌++◌, leb, All, All-imp, arith, Bool-cases, Option-cases, inl, inr,
}
use systemd_transition_expor.Base.Text.{Text}
use systemd_transition_expor.Probe.Rounds.{
  Reading, packet, timeout, failure, Round, Outcome, answer, no_answer, Run, ended, is_done, wait,
  probe_once, read_loop, send_of, after_round, run_probe,
}

-- The reads come in the order of time, and none times out before the deadline.
abbrev pub ReadTimes : ℕ → ℕ → Reading → Type 0
ReadTimes from deadline (packet t bytes rest) = (from ≤ t) × ReadTimes t deadline rest
ReadTimes from deadline (timeout t) = (from ≤ t) × (deadline ≤ t)
ReadTimes from deadline (failure t) = from ≤ t

abbrev pub RoundTimes : {E : Type 0} → ℕ → Round E → Type 0
RoundTimes interval r =
    (r.begun ≤ r.at) × ((r.at ≤ r.written_at) × ReadTimes (r.at) (r.at + interval) (r.reading))

-- Each time is at least the interval after those before it.
abbrev pub Spaced : ℕ → List ℕ → Type 0
Spaced interval [] = Unit
Spaced interval (t ∷ ts) = All (λ u. t + interval ≤ u) ts × Spaced interval ts

le_trans : (a b c : ℕ) → a ≤ b → b ≤ c → a ≤ c
le_trans a b c h k = omega arith

wait_late : (done : Option ℕ) (t d : ℕ) → t ≤ wait done t d
unfolding wait
wait_late none t d = ground arith
wait_late (some c) t d = ground arith

-- A wait that is not cut short lasts its time.
wait_full :
    (done : Option ℕ) (t d : ℕ) → is_done done (wait done t d) ≡ false → t + d ≤ wait done t d
unfolding wait
wait_full none t d h = ground arith
wait_full (some c) t d h = ground arith

module _ {E R : Type 0} (request : ℕ → E → Option R) (accept : R → Text → Bool) (interval : ℕ)
    (done : Option ℕ) where
  abbrev over : ℕ → Outcome → Bool
  over deadline (answer t) = true
  over deadline (no_answer err t) = is_done done t || leb deadline t

  waited_over :
      (t d deadline : ℕ) → deadline ≤ t + d → over deadline (no_answer true (wait done t d)) ≡ true
  waited_over t d deadline k = elim (Bool-cases (is_done done (wait done t d))) [
    | inl e ↦ rw e refl
    | inr e ↦ ground (arith, wait_full done t d e)
  ]

  timed_out : (t deadline : ℕ) → deadline ≤ t → (is_done done t || leb deadline t) ≡ true
  timed_out t deadline h = ground arith

  read_loop-over :
      (q : R) (from deadline : ℕ) (rd : Reading)
      → ReadTimes from deadline rd
      → (from ≤ ended (read_loop request accept interval done q deadline rd))
        × (over deadline (read_loop request accept interval done q deadline rd) ≡ true)
  read_loop-over q from deadline (packet t bytes rest) h = elim (Bool-cases (accept q bytes)) [
    | inl a ↦ rw a (h.0, refl)
    | inr a ↦ elim (Bool-cases (leb deadline t)) [
      | inl e ↦ rw (a, e) (h.0, timed_out t deadline (ground (arith, e)))
      | inr e ↦
          let later = read_loop-over q t deadline rest h.1 in
          rw (a, e) (omega (arith, h.0, later.0), later.1)
    ]
  ]
  read_loop-over q from deadline (timeout t) h = (h.0, timed_out t deadline h.1)
  read_loop-over q from deadline (failure t) h = elim (Bool-cases (is_done done t)) [
    | inl e ↦ rw e (h, rw e refl)
    | inr e ↦ rw e (
      le_trans from t (wait done t (deadline - t)) h (wait_late done t (deadline - t)),
      waited_over t (deadline - t) deadline (omega arith),
    )
  ]

  -- Sent or not, a round without an answer lasts the interval, unless the context is done.
  probe_once-over :
      (cseq : ℕ) (r : Round E)
      → RoundTimes interval r
      → (r.at ≤ ended (probe_once request accept interval done cseq r))
        × (over (r.at + interval) (probe_once request accept interval done cseq r) ≡ true)
  unfolding probe_once
  probe_once-over cseq r h = elim (Bool-cases (r.connected)) [
    | inr e ↦ rw e (unsent)
    | inl e ↦ elim (Option-cases (request cseq (r.inputs))) [
      | inl q ↦ rw (e, q) unsent
      | inr (q, k) ↦ elim (Bool-cases (r.written)) [
        | inl w ↦ rw (e, k, w) (read_loop-over q (r.at) (r.at + interval) (r.reading) h.1.1)
        | inr w ↦
            let d = r.at + interval - r.written_at in
            rw (e, k, w)
              (
                le_trans (r.at) (r.written_at) (wait done (r.written_at) d) h.1.0
                    (wait_late done (r.written_at) d),
                waited_over (r.written_at) d (r.at + interval) (omega arith),
              )
      ]
    ]
  ]
    where
      unsent :
          (r.at ≤ wait done (r.at) interval)
          × (over (r.at + interval) (no_answer true (wait done (r.at) interval)) ≡ true)
      unsent = (
        wait_late done (r.at) interval,
        waited_over (r.at) interval (r.at + interval) (omega arith),
      )

  -- The rounds follow each other.
  abbrev pub Timely : ℕ → ℕ → List (Round E) → Type 0
  Timely cseq from [] = Unit
  Timely cseq from (r ∷ rs) =
      (from ≤ r.begun)
      × (RoundTimes interval r
          × Timely (suc cseq) (ended (probe_once request accept interval done cseq r)) rs)

  after_round-Spaced :
      (o : Outcome) (at : ℕ) (later : Run)
      → at ≤ ended o
      → over (at + interval) o ≡ true
      → All (λ u. ended o ≤ u) (later.sends)
      → Spaced interval (later.sends)
      → All (λ u. at + interval ≤ u) ((after_round request accept interval done o later).sends)
        × Spaced interval ((after_round request accept interval done o later).sends)
  after_round-Spaced (answer t) at later h k a s = (tt, tt)
  after_round-Spaced (no_answer err t) at later h k a s = elim (Bool-cases (is_done done t)) [
    | inl e ↦ rw e (tt, tt)
    | inr e ↦
        let passed : at + interval ≤ t = ground (arith, k, e) in
        rw e (
          All-imp (λ u. t ≤ u) (λ u. at + interval ≤ u) (later.sends)
              (λ u b. le_trans (at + interval) t u passed b) a,
          s,
        )
  ]

  send_of-Spaced :
      (cseq from : ℕ) (r : Round E) (later : List ℕ)
      → from ≤ r.at
      → All (λ u. r.at + interval ≤ u) later × Spaced interval later
      → All (λ u. from ≤ u) (send_of request accept interval done cseq r ++ later)
        × Spaced interval (send_of request accept interval done cseq r ++ later)
  send_of-Spaced cseq from r later h a = elim (Bool-cases (r.connected)) [
    | inr e ↦ rw e (bound, a.1)
    | inl e ↦ elim (Option-cases (request cseq (r.inputs))) [
      | inl q ↦ rw (e, q) (bound, a.1)
      | inr (q, k) ↦ rw (e, k) ((h, bound), a)
    ]
  ]
    where
      bound : All (λ u. from ≤ u) later
      bound =
          All-imp (λ u. r.at + interval ≤ u) (λ u. from ≤ u) later (λ u b. omega (arith, h, b)) a.0

  sends-Spaced :
      (cseq from : ℕ) (rounds : List (Round E))
      → Timely cseq from rounds
      → All (λ u. from ≤ u) ((run_probe request accept interval done cseq rounds).sends)
        × Spaced interval ((run_probe request accept interval done cseq rounds).sends)
  unfolding run_probe
  sends-Spaced cseq from [] h = (tt, tt)
  sends-Spaced cseq from (r ∷ rs) h = elim (Bool-cases (is_done done (r.begun))) [
    | inl e ↦ rw e (tt, tt)
    | inr e ↦
        let o = probe_once request accept interval done cseq r in
        let later = run_probe request accept interval done (suc cseq) rs in
        let over_r = probe_once-over cseq r h.1.0 in
        let rest = sends-Spaced (suc cseq) (ended o) rs h.1.1 in
        rw e (
          send_of-Spaced cseq from r ((after_round request accept interval done o later).sends)
            (le_trans from (r.begun) (r.at) h.0 h.1.0.0)
            (after_round-Spaced o (r.at) later over_r.0 over_r.1 rest.0 rest.1))
  ]

-- Where reads come in the order of time and none times out before its deadline, the requests of a
-- loop stand at least the interval apart, whatever fails and whenever the loop is cancelled.
pub run_probe-Spaced :
    {E R : Type 0} (request : ℕ → E → Option R) (accept : R → Text → Bool) (interval : ℕ)
    (done : Option ℕ) (from : ℕ) (rounds : List (Round E))
    → Timely request accept interval done 1 from rounds
    → Spaced interval ((run_probe request accept interval done 1 rounds).sends)
run_probe-Spaced request accept interval done from rounds h =
    (sends-Spaced request accept interval done 1 from rounds h).1
