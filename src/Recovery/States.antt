-- ===== src/Recovery/States.antt =====
-- internal/recovery/backfill.go: the states at the ticks of a slot.
use native.Mathlib.Nat.{le-div_iff_mul-le}
use systemd_transition_expor.Base.{
  ℕ, zero, suc, ◌+◌, ◌-◌, ◌*◌, ◌/◌, ◌≤◌, ◌<◌, ◌≡◌, refl, String, true, List, [], ◌∷◌, ◌++◌, lt→ltb,
  eq_iff, arith, ◌∙◌,
}
use systemd_transition_expor.Model.{AvailabilityState, up, down, unknown, Event, StateSample}
use systemd_transition_expor.Recovery.Slot.{unix_milli}
use systemd_transition_expor.Recovery.Fill.{
  sample_at, catch_up, timeline, tick_fuel, state_at, has_sample, same_state,
}

has_sample-append :
    (service : String) (state : AvailabilityState) (ms : ℕ) (xs ys : List StateSample)
    → has_sample service state ms ys ≡ true
    → has_sample service state ms (xs ++ ys) ≡ true
has_sample-append service state ms [] ys h = h
has_sample-append service state ms (x ∷ xs) ys h =
    ground (arith, has_sample-append service state ms xs ys h)

same_state_refl : (s : AvailabilityState) → same_state s s ≡ true
same_state_refl up = refl
same_state_refl down = refl
same_state_refl unknown = refl

-- Of the events, what is caught up at `ms` no longer counts later.
catch_up-state :
    (service : String) (ms t : ℕ) (state : AvailabilityState) (es : List Event)
    → ms ≤ t
    → state_at state es t
      ≡ state_at (catch_up service ms state es).state (catch_up service ms state es).rest t
unfolding catch_up
catch_up-state service ms t state [] h = refl
catch_up-state service ms t state (e ∷ es) h =
    ground (arith, catch_up-state service ms t e.state es h)

-- What is left is after `ms`.
catch_up-rest :
    (service : String) (ms : ℕ) (state : AvailabilityState) (es : List Event)
    → state_at (catch_up service ms state es).state (catch_up service ms state es).rest ms
      ≡ (catch_up service ms state es).state
unfolding catch_up
catch_up-rest service ms state [] = refl
catch_up-rest service ms state (e ∷ es) = ground (arith, catch_up-rest service ms e.state es)

module _ (service : String) (interval end : ℕ) where
  timeline-tick :
      (fuel k ts t : ℕ) (state : AvailabilityState) (es : List Event)
      → k < fuel
      → t ≡ ts + k * interval
      → t < end
      → has_sample service
          (state_at state es (unix_milli t))
          (unix_milli t)
          (timeline fuel service interval end ts state es)
        ≡ true
  unfolding timeline sample_at
  timeline-tick zero k ts t state es lt e h = ground arith
  timeline-tick (suc fuel) zero ts t state es lt e h =
      let r = catch_up service (unix_milli ts) state es in
      let same_time : t ≡ ts = omega (arith, e) in
      let same : state_at state es (unix_milli ts) ≡ r.state =
        catch_up-state service (unix_milli ts) (unix_milli ts) state es (omega arith)
        ∙ catch_up-rest service (unix_milli ts) state es in
      rw (same_time, lt→ltb ts end (omega (arith, same_time)), same)
        (has_sample-append service r.state (unix_milli ts) r.out _
          (ground (arith, same_state_refl r.state, eq_iff service service)))
  timeline-tick (suc fuel) (suc k) ts t state es lt e h =
      let r = catch_up service (unix_milli ts) state es in
      let ih =
        timeline-tick fuel k (ts + interval) t r.state r.rest (omega arith) (omega (arith, e)) h in
      rw
        (
          lt→ltb ts end (omega (arith, e)),
          catch_up-state service (unix_milli ts) (unix_milli t) state es (omega (arith, e)),
        )
        (has_sample-append service _ (unix_milli t) r.out _ (ground (arith, ih)))

enough_fuel :
    (interval start end k : ℕ)
    → 0 < interval
    → start + k * interval < end
    → k < tick_fuel interval start end
enough_fuel interval start end k pos h =
    let le : k ≤ (end - start) / interval = (le-div_iff_mul-le pos).1 (omega (arith, h)) in
    omega (arith, le)

-- With a positive interval, every tick of it inside the slot has a sample, and the sample has the
-- state that the start state and the service's events up to that millisecond give.
pub service_fill-ticks :
    (service : String) (interval start end k : ℕ) (state : AvailabilityState) (es : List Event)
    → 0 < interval
    → start + k * interval < end
    → has_sample service
        (state_at state es (unix_milli (start + k * interval)))
        (unix_milli (start + k * interval))
        (timeline (tick_fuel interval start end) service interval end start state es)
      ≡ true
service_fill-ticks service interval start end k state es pos h =
    timeline-tick service interval end (tick_fuel interval start end) k start (start + k * interval)
      state es (enough_fuel interval start end k pos h) refl h
