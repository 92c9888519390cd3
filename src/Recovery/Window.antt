-- ===== src/Recovery/Window.antt =====
-- internal/recovery/backfill.go: the times of the samples of BuildStateFill.
use systemd_transition_expor.Base.{
  ℕ, zero, suc, ◌+◌, ◌≤◌, ◌≡◌, refl, String, not, ◌&&◌, ◌||◌, Option, none, some, List, [], ◌∷◌,
  ltb, leb, str_eq, arith, All, All-append, filter_by, Bool-cases, inl, inr, ltb→lt,
}
use systemd_transition_expor.Base.Dict.{Dict}
use systemd_transition_expor.Base.Sort.{All-sort_stable}
use systemd_transition_expor.Model.{AvailabilityState, Event, StateSample}
use systemd_transition_expor.Recovery.Slot.{unix_milli}
use systemd_transition_expor.Recovery.Fill.{
  sample_at, catch_up, event_samples, timeline, tick_fuel, in_window, service_events, Lookup,
  service_fill, joined, fill_all, before, sort_samples, build_state_fill,
}

module _ (lo hi : ℕ) where
  abbrev pub Inside : StateSample → Type 0
  Inside x = (lo ≤ x.timestamp_unix_ms) × (x.timestamp_unix_ms ≤ hi)

  abbrev EventInside : Event → Type 0
  EventInside e = (lo ≤ e.event_time_unix_ms) × (e.event_time_unix_ms ≤ hi)

  catch_up-Inside :
      (service : String) (ms : ℕ) (state : AvailabilityState) (es : List Event)
      → All EventInside es
      → All Inside (catch_up service ms state es).out
        × All EventInside (catch_up service ms state es).rest
  unfolding catch_up sample_at
  catch_up-Inside service ms state [] h = (tt, tt)
  catch_up-Inside service ms state (e ∷ es) h = elim (Bool-cases (leb e.event_time_unix_ms ms)) [
    | inl c ↦ let r = catch_up-Inside service ms e.state es h.1 in rw c ((h.0, r.0), r.1)
    | inr c ↦ rw c (tt, h)
  ]

  event_samples-Inside :
      (service : String) (es : List Event)
      → All EventInside es
      → All Inside (event_samples service es)
  unfolding event_samples sample_at
  event_samples-Inside service [] h = tt
  event_samples-Inside service (e ∷ es) h = (h.0, event_samples-Inside service es h.1)

  timeline-Inside :
      (fuel : ℕ) (service : String) (interval end ts : ℕ) (state : AvailabilityState)
      (es : List Event)
      → lo ≤ unix_milli ts
      → unix_milli end ≤ hi
      → All EventInside es
      → All Inside (timeline fuel service interval end ts state es)
  unfolding timeline sample_at
  timeline-Inside zero service interval end ts state es a b h = event_samples-Inside service es h
  timeline-Inside (suc fuel) service interval end ts state es a b h =
      elim (Bool-cases (ltb ts end)) [
        | inl c ↦
            let r = catch_up service (unix_milli ts) state es in
            let k = catch_up-Inside service (unix_milli ts) state es h in
            let lt = ltb→lt ts end c in
            rw c (
              All-append Inside r.out _ k.0 (
                (a, omega (arith, lt)),
                timeline-Inside fuel service interval end (ts + interval) r.state r.rest
                    (omega (arith, a)) b k.1,
              ))
        | inr c ↦ rw c (event_samples-Inside service es h)
      ]

  service_events-Inside :
      (service : String) (start end : ℕ) (events : List Event)
      → lo ≡ unix_milli start
      → hi ≡ unix_milli end
      → All EventInside (service_events service start end events)
  unfolding service_events
  service_events-Inside service start end events a b = All-sort_stable _ EventInside _ (kept events)
    where
      kept :
          (es : List Event)
          → All EventInside (filter_by (λ e. in_window start end e && str_eq e.service service) es)
      kept [] = tt
      kept (e ∷ es) = elim (Bool-cases (in_window start end e && str_eq e.service service)) [
        | inl c ↦ rw c (ground (arith, c, a, b), kept es)
        | inr c ↦ rw c (kept es)
      ]

-- The predicate on what was built, if it was.
abbrev pub Built : (StateSample → Type 0) → Option (List StateSample) → Type 0
Built P none = Unit
Built P (some xs) = All P xs

joined-Built :
    (P : StateSample → Type 0) (a b : Option (List StateSample))
    → Built P a
    → Built P b
    → Built P (joined a b)
unfolding joined
joined-Built P none b h k = tt
joined-Built P (some xs) none h k = tt
joined-Built P (some xs) (some ys) h k = All-append P xs ys h k

module _ (previous : Lookup) (start end : ℕ) (events : List Event) (interval : ℕ)
    (current : Dict AvailabilityState) where
  service_fill-Inside :
      (service : String) (es : List Event) (state : Option AvailabilityState)
      → All (EventInside (unix_milli start) (unix_milli end)) es
      → Built
          (Inside (unix_milli start) (unix_milli end))
          (service_fill service interval start end es state)
  unfolding service_fill
  service_fill-Inside service es none h = tt
  service_fill-Inside service es (some state) h =
      timeline-Inside (unix_milli start) (unix_milli end) (tick_fuel interval start end) service
        interval end start state es (omega arith) (omega arith) h

  fill_all-Inside :
      (services : List String)
      → Built
          (Inside (unix_milli start) (unix_milli end))
          (fill_all previous start end events interval current services)
  unfolding fill_all
  fill_all-Inside [] = tt
  fill_all-Inside (service ∷ services) =
      joined-Built _ _ _
        (service_fill-Inside service (service_events service start end events) _ (
          service_events-Inside (unix_milli start) (unix_milli end) service start end events refl
            refl))
        (fill_all-Inside services)

  sort_samples-Built :
      (P : StateSample → Type 0) (o : Option (List StateSample))
      → Built P o
      → Built P (sort_samples o)
  unfolding sort_samples
  sort_samples-Built P none h = tt
  sort_samples-Built P (some xs) h = All-sort_stable before P xs h

  -- Every sample of `BuildStateFill` lies between the milliseconds of the start and of the end.
  pub build_state_fill-Inside :
      (services : List String)
      → Built
          (Inside (unix_milli start) (unix_milli end))
          (build_state_fill previous start end events interval current services)
  unfolding build_state_fill
  build_state_fill-Inside services = elim (Bool-cases (leb interval 0 || not (ltb start end))) [
    | inl c ↦ rw c tt
    | inr c ↦ rw c (sort_samples-Built _ _ (fill_all-Inside services))
  ]
