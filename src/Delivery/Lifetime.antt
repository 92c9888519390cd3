-- ===== src/Delivery/Lifetime.antt =====
-- internal/delivery/worker.go: `Run` from its start over any rounds of its loop.
use systemd_transition_expor.Base.{
  ℕ, ◌≤◌, Bool, true, false, if◌then◌else◌, Bool-cases, inl, inr, Option, none, some, List, [], ◌∷◌,
  length, arith,
}
use systemd_transition_expor.Model.{Event}
use systemd_transition_expor.RemoteWrite.{SendError}
use systemd_transition_expor.Delivery.Samples.{max_pending_states}
use systemd_transition_expor.Delivery.Slots.{max_edges}
use systemd_transition_expor.Delivery.Worker.{Target, Config, Worker, Input, done, new, queue_size}
use systemd_transition_expor.Delivery.Rounds.{Round, step}
use systemd_transition_expor.Delivery.Startup.{
  first_edges, rest_sent, startup_fill_sent, old_sent, startup, start,
}
use systemd_transition_expor.Delivery.Bounds.{IsBounded, step-IsBounded, length-buffer_states}

abbrev pub ends : Input → Bool
ends done = true
ends input = false

module _ {S : Type 0} (target : Target S) (config : Config) where
  -- The loop, over the rounds that it makes with what comes over the channel; it ends with the
  -- context.
  unfoldable pub rounds : List Round → Worker S → Worker S
  rounds [] w = w
  rounds (r ∷ rs) w =
      let w' = step target config r w in
      let later = rounds rs w' in if ends r.input then w' else later

  unfoldable pub run : ℕ → List Round → S → Worker S
  run now rs sender = rounds rs (start target config now (new sender))

  abbrev Small : Worker S → Type 0
  Small w = (length w.pending_states ≤ max_pending_states) × (length w.queue ≤ queue_size)

  rest_sent-Small :
      (es : List Event) (x : Option SendError × S) (w : Worker S)
      → Small w
      → Small (rest_sent target config es x w)
  unfolding rest_sent
  rest_sent-Small es (none, s) w h = h
  rest_sent-Small es (some x, s) w h = h

  startup_fill_sent-Small :
      (now : ℕ) (es : List Event) (x : Option SendError × S) (w : Worker S)
      → Small w
      → Small (startup_fill_sent target config now es x w)
  unfolding startup_fill_sent
  startup_fill_sent-Small now es (none, s) w h =
      rest_sent-Small es (target.send_events es s) (record w { sender = s }) h
  startup_fill_sent-Small now es (some x, s) w h = rest_sent-Small es (target.send_events es s) _ (
      ground
        (arith, h, length-buffer_states target config now w.pending_states config.startup_fill h.0))

  old_sent-Small :
      (now : ℕ) (pending es : List Event) (x : Option SendError × S) (w : Worker S)
      → Small w
      → Small (old_sent target config now pending es x w)
  unfolding old_sent
  old_sent-Small now pending es (some x, s) w h = h
  old_sent-Small now pending es (none, s) w h =
      startup_fill_sent-Small now es (target.send_states config.startup_fill s)
        (record w { sender = s }) h

  startup-Small : (now : ℕ) (w : Worker S) → Small w → Small (startup target config now w)
  unfolding startup
  startup-Small now w h = old_sent-Small now _ _ _ w h

  first_edges-IsBounded : (now : ℕ) → length (first_edges target config now).pending ≤ max_edges
  unfolding first_edges
  first_edges-IsBounded now = ground arith

  start-IsBounded : (now : ℕ) (w : Worker S) → Small w → IsBounded (start target config now w)
  unfolding start
  start-IsBounded now w h = let k = startup-Small now w h in (k.0, first_edges-IsBounded now, k.1)

  rounds-IsBounded : (rs : List Round) (w : Worker S) → IsBounded w → IsBounded (rounds rs w)
  unfolding rounds
  rounds-IsBounded [] w h = h
  rounds-IsBounded (r ∷ rs) w h =
      let k = step-IsBounded target config r w h in
      let later = rounds-IsBounded rs (step target config r w) k in
      elim (Bool-cases (ends r.input)) [ inl c ↦ rw c k | inr c ↦ rw c later ]

  -- From the start of `Run`, whatever is enqueued before and within its rounds, whatever they meet
  -- and the receiver answers, the worker never holds more than 10000 samples, four slot edges or
  -- 100000 commands in its queue.
  pub run-IsBounded : (now : ℕ) (rs : List Round) (sender : S) → IsBounded (run now rs sender)
  unfolding run new
  run-IsBounded now rs sender =
      rounds-IsBounded rs (start target config now (new sender))
        (start-IsBounded now (new sender) (omega arith, omega arith))
