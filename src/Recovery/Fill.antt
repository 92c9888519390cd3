-- ===== src/Recovery/Fill.antt =====
-- internal/recovery/backfill.go: `BuildStateFill`, the states of a slot at every tick of the
-- interval and at every recovered transition.
use systemd_transition_expor.Base.{
  ℕ, zero, suc, ◌+◌, ◌-◌, ◌/◌, String, Bool, true, false, not, ◌&&◌, ◌||◌, Option, none, some, List,
  [], ◌∷◌, ◌++◌, ltb, leb, ◌==◌, if◌then◌else◌, str_eq, filter_by,
}
use systemd_transition_expor.Base.Dict.{Dict, lookup}
use systemd_transition_expor.Base.Sort.{sort_stable}
use systemd_transition_expor.Model.{AvailabilityState, up, down, unknown, Event, StateSample}
use systemd_transition_expor.RemoteWrite.Series.{str_lt}
use systemd_transition_expor.Recovery.Slot.{unix_milli}

unfoldable pub invert_state : AvailabilityState → AvailabilityState
invert_state up = down
invert_state _ = up

abbrev is_known : AvailabilityState → Bool
is_known unknown = false
is_known _ = true

unfoldable pub sample_at : String → AvailabilityState → ℕ → StateSample
sample_at service state ms = record { service = service; state = state; timestamp_unix_ms = ms }

-- The inner loop: the events that are not after `ms` are emitted, and the last gives the state.
pub record Progress : Type 0 where
  pub state : AvailabilityState
  pub rest : List Event
  pub out : List StateSample

unfoldable pub catch_up : String → ℕ → AvailabilityState → List Event → Progress
catch_up service ms state [] = record { state = state; rest = []; out = [] }
catch_up service ms state (e ∷ es) =
    let r = catch_up service ms e.state es in
    if leb e.event_time_unix_ms ms
    then record r { out = sample_at service e.state e.event_time_unix_ms ∷ r.out }
    else record { state = state; rest = e ∷ es; out = [] }

-- The loop after the last tick.
unfoldable pub event_samples : String → List Event → List StateSample
event_samples service [] = []
event_samples service (e ∷ es) =
    sample_at service e.state e.event_time_unix_ms ∷ event_samples service es

-- The loop over the ticks, on fuel.
unfoldable pub timeline : ℕ → String → ℕ → ℕ → ℕ → AvailabilityState → List Event → List StateSample
timeline zero service interval end ts state es = event_samples service es
timeline (suc fuel) service interval end ts state es =
    let r = catch_up service (unix_milli ts) state es in
    let later = timeline fuel service interval end (ts + interval) r.state r.rest in
    if ltb ts end
    then r.out ++ sample_at service r.state (unix_milli ts) ∷ later
    else event_samples service es

-- One more than the number of ticks.
abbrev pub tick_fuel : ℕ → ℕ → ℕ → ℕ
tick_fuel interval start end = (end - start) / interval + 2

abbrev pub in_window : ℕ → ℕ → Event → Bool
in_window start end e =
    not (ltb e.event_time_unix_ms (unix_milli start)) && ltb e.event_time_unix_ms (unix_milli end)

-- The value of `byService` at the service, sorted.
unfoldable pub service_events : String → ℕ → ℕ → List Event → List Event
service_events service start end events =
    sort_stable (λ a b. ltb a.event_time_unix_ms b.event_time_unix_ms)
      (filter_by (λ e. in_window start end e && str_eq e.service service) events)

-- The order of the samples: by time, then by the service.
abbrev pub before : StateSample → StateSample → Bool
before a b =
    if a.timestamp_unix_ms == b.timestamp_unix_ms
    then str_lt a.service b.service
    else ltb a.timestamp_unix_ms b.timestamp_unix_ms

-- The answer of `previousState`: an error, or what was found.
abbrev pub Lookup : Type 0
Lookup = String → ℕ → Option (Option AvailabilityState)

abbrev baseline : Option (Option AvailabilityState) → Option AvailabilityState
baseline none = none
baseline (some none) = some down
baseline (some (some s)) = some s

unfoldable pub slot_start_state :
    Lookup → String → ℕ → List Event → Option AvailabilityState → Option AvailabilityState
slot_start_state previous service start (e ∷ es) current = some (invert_state e.state)
slot_start_state previous service start [] (some s) =
    if is_known s then some s else baseline (previous service start)
slot_start_state previous service start [] none = baseline (previous service start)

unfoldable pub joined :
    Option (List StateSample) → Option (List StateSample) → Option (List StateSample)
joined none ys = none
joined (some xs) none = none
joined (some xs) (some ys) = some (xs ++ ys)

-- The samples of one service, or the error of its start state.
unfoldable pub service_fill :
    String → ℕ → ℕ → ℕ → List Event → Option AvailabilityState → Option (List StateSample)
service_fill service interval start end es none = none
service_fill service interval start end es (some state) =
    some (timeline (tick_fuel interval start end) service interval end start state es)

unfoldable pub sort_samples : Option (List StateSample) → Option (List StateSample)
sort_samples none = none
sort_samples (some xs) = some (sort_stable before xs)

module _ (previous : Lookup) (start end : ℕ) (events : List Event) (interval : ℕ)
    (current : Dict AvailabilityState) where
  unfoldable pub fill_all : List String → Option (List StateSample)
  fill_all [] = some []
  fill_all (service ∷ services) =
      let es = service_events service start end events in
      joined
        (service_fill service interval start end es
          (slot_start_state previous service start es (lookup service current)))
        (fill_all services)

  -- `none` is an error.
  unfoldable pub build_state_fill : List String → Option (List StateSample)
  build_state_fill services =
      if leb interval 0 || not (ltb start end) then some [] else sort_samples (fill_all services)

-- What the state is at a time, by the events in their order.
abbrev pub state_at : AvailabilityState → List Event → ℕ → AvailabilityState
state_at initial [] ms = initial
state_at initial (e ∷ es) ms =
    if leb e.event_time_unix_ms ms then state_at e.state es ms else initial

abbrev pub same_state : AvailabilityState → AvailabilityState → Bool
same_state up up = true
same_state down down = true
same_state unknown unknown = true
same_state _ _ = false

-- Whether the list has the sample.
abbrev pub has_sample : String → AvailabilityState → ℕ → List StateSample → Bool
has_sample service state ms [] = false
has_sample service state ms (x ∷ xs) =
    (str_eq x.service service && same_state x.state state && x.timestamp_unix_ms == ms)
    || has_sample service state ms xs
