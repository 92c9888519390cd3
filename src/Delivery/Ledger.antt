-- ===== src/Delivery/Ledger.antt =====
-- internal/delivery/worker.go: the transitions of a whole `Run`, with a sender whose calls are counted.
use systemd_transition_expor.Base.{
  ℕ, ◌+◌, if◌then◌else◌, ◌≡◌, refl, ap, Option, none, some, List, [], ◌∷◌, length, arith, filter_by,
  ltb, Bool-cases, inl, inr,
}
use systemd_transition_expor.Model.{Event}
use systemd_transition_expor.RemoteWrite.{SendError, is_permanent}
use systemd_transition_expor.Delivery.Worker.{Target, Config, Worker, new, mark_degraded}
use systemd_transition_expor.Delivery.Rounds.{Round, step}
use systemd_transition_expor.Delivery.Startup.{
  before_slot, from_slot, rest_sent, startup_fill_sent, old_sent, startup, start,
}
use systemd_transition_expor.Delivery.Lifetime.{ends, rounds, run}
use systemd_transition_expor.Delivery.Outcomes.{
  accounted, Counts, admitted_in, queued, in_job, step-accounted,
}

module _ {S : Type 0} where
  abbrev handed : ℕ → List Event → Option SendError × S → Option SendError × (S × ℕ)
  handed n es (none, s) = (none, (s, n + length es))
  handed n es (some x, s) = (some x, (s, n))

  -- The sender, with the number of events that were in calls of `Send` that returned no error.
  abbrev pub counting : Target S → Target (S × ℕ)
  counting target = record {
    send_events = λ es p. handed p.1 es (target.send_events es p.0);
    send_states = λ xs p. let x = target.send_states xs p.0 in (x.0, (x.1, p.1));
    last_sent = λ p. target.last_sent p.0;
    ended = λ p. target.ended p.0;
  }

  abbrev pub handed_over : S × ℕ → ℕ
  handed_over p = p.1

  -- The startup events that the sender has not sent already.
  abbrev pub unsent : Target S → Config → S → List Event
  unsent target config sender =
      filter_by (λ e. ltb (target.last_sent sender) e.sequence) config.startup_events

module _ {S : Type 0} (target : Target S) (config : Config) where
  sends :
      (es : List Event) (p : S × ℕ)
      → Counts handed_over p.1 (length es) ((counting target).send_events es p)
  sends es (s, n) = of_call (target.send_events es s)
    where
      of_call : (x : Option SendError × S) → Counts handed_over n (length es) (handed n es x)
      of_call (none, s) = refl
      of_call (some x, s) = refl

  -- A worker without a batch has taken so many events more than the other, less what it counts.
  abbrev Totals : ℕ → Worker (S × ℕ) → Worker (S × ℕ) → Type 0
  Totals n w w' =
      (length w'.batch + w'.dropped + handed_over w'.sender ≡ w.dropped + n)
      × (w'.queue ≡ w.queue)
      × (w'.pending_recovery ≡ w.pending_recovery)

  length-slot :
      (o : Option ℕ) (es : List Event)
      → length (before_slot (counting target) config o es)
          + length (from_slot (counting target) config o es)
        ≡ length es
  unfolding before_slot from_slot
  length-slot none es = omega arith
  length-slot (some slot) [] = omega arith
  length-slot (some slot) (e ∷ es) = ground (arith, length-slot (some slot) es)

  rest_sent-Totals :
      (n : ℕ) (es : List Event) (x : Option SendError × (S × ℕ)) (w : Worker (S × ℕ))
      → length w.batch ≡ 0
      → Counts handed_over n (length es) x
      → Totals (n + length es) w (rest_sent (counting target) config es x w)
  unfolding rest_sent mark_degraded
  rest_sent-Totals n es (none, s) w b h = (omega (arith, b, h), refl, refl)
  rest_sent-Totals n es (some x, s) w b h = (omega (arith, b, h), refl, refl)

  startup_fill_sent-Totals :
      (now : ℕ) (es : List Event) (x : Option SendError × (S × ℕ)) (w : Worker (S × ℕ))
      → length w.batch ≡ 0
      → Totals
          (handed_over x.1 + length es)
          w
          (startup_fill_sent (counting target) config now es x w)
  unfolding startup_fill_sent mark_degraded
  startup_fill_sent-Totals now es (none, s) w b =
      rest_sent-Totals s.1 es ((counting target).send_events es s) (record w { sender = s }) b
        (sends es s)
  startup_fill_sent-Totals now es (some x, s) w b = elim (Bool-cases (target.ended s.0)) [
    | inl c ↦ elim (Bool-cases (is_permanent x)) [
      | inl d ↦ rw (c, d) (rest_sent-Totals s.1 es _ _ b (sends es s))
      | inr d ↦ rw (c, d) (rest_sent-Totals s.1 es _ _ b (sends es s))
    ]
    | inr c ↦ elim (Bool-cases (is_permanent x)) [
      | inl d ↦ rw (c, d) (rest_sent-Totals s.1 es _ _ b (sends es s))
      | inr d ↦ rw (c, d) (rest_sent-Totals s.1 es _ _ b (sends es s))
    ]
  ]

  -- `old` events are in the first call; the other unsent ones are `es`.
  old_sent-Totals :
      (now old : ℕ) (pending es : List Event) (x : Option SendError × (S × ℕ)) (w : Worker (S × ℕ))
      → length w.batch ≡ 0
      → old + length es ≡ length pending
      → Counts handed_over (handed_over w.sender) old x
      → Totals
          (handed_over w.sender + length pending)
          w
          (old_sent (counting target) config now pending es x w)
  unfolding old_sent mark_degraded
  old_sent-Totals now old pending es (some x, s) w b e h = (omega (arith, b, h), refl, refl)
  old_sent-Totals now old pending es (none, s) w b e h =
      let (total, queue, job) =
        startup_fill_sent-Totals now es ((counting target).send_states config.startup_fill s)
          (record w { sender = s }) b in
      (omega (arith, total, h, e), queue, job)

  start-accounted :
      (now : ℕ) (s : S)
      → accounted handed_over (start (counting target) config now (new (s, 0)))
        ≡ length (unsent target config s)
  unfolding start startup new
  start-accounted now s =
      let pending = unsent target config s in
      let old = before_slot (counting target) config config.startup_slot pending in
      let es = from_slot (counting target) config config.startup_slot pending in
      let (total, queue, job) =
        old_sent-Totals now (length old) pending es ((counting target).send_events old (s, 0))
          (new (s, 0)) refl (length-slot config.startup_slot pending) (sends old (s, 0)) in
      ground (arith, total, ap queued queue, ap in_job job)

  -- The events of the commands that the queue takes over some rounds.
  unfoldable pub admitted_over : List Round → Worker (S × ℕ) → ℕ
  admitted_over [] w = 0
  admitted_over (r ∷ rs) w =
      let w' = step (counting target) config r w in
      let first = admitted_in (counting target) config r w in
      let later = admitted_over rs w' in if ends r.input then first else first + later

  rounds-accounted :
      (rs : List Round) (w : Worker (S × ℕ))
      → accounted handed_over (rounds (counting target) config rs w)
        ≡ accounted handed_over w + admitted_over rs w
  unfolding rounds admitted_over
  rounds-accounted [] w = omega arith
  rounds-accounted (r ∷ rs) w =
      let w' = step (counting target) config r w in
      let one = step-accounted handed_over (counting target) config sends (λ xs p. refl) r w in
      let later = rounds-accounted rs w' in
      elim (Bool-cases (ends r.input)) [
        | inl c ↦ rw c one
        | inr c ↦ rw c (omega (arith, one, later))
      ]

  -- Whatever a `Run` meets: the number of the startup events above the sender's position and of the
  -- events in commands that the queue has taken is the number of those in the batch, the queue
  -- and the recovery job, those counted as dropped, and those in calls of `Send` that returned no error.
  pub run-accounted :
      (now : ℕ) (rs : List Round) (sender : S)
      → let w = run (counting target) config now rs (sender, 0) in
        let first = start (counting target) config now (new (sender, 0)) in
        length w.batch + queued w.queue + in_job w.pending_recovery + w.dropped + w.sender.1
        ≡ length (unsent target config sender) + admitted_over rs first
  unfolding run
  run-accounted now rs sender =
      let first = start (counting target) config now (new (sender, 0)) in
      omega (arith, rounds-accounted rs first, start-accounted now sender)
