-- ===== src/Delivery/Acknowledged.antt =====
-- The worker's flush with the sender of remote_write.
use systemd_transition_expor.Base.{
  ℕ, suc, ◌<◌, ◌≡◌, refl, true, false, Option, none, some, List, [], ◌∷◌, All, length, arith,
  Bool-cases, inl, inr,
}
use systemd_transition_expor.Base.Text.{is_empty}
use systemd_transition_expor.Model.{Event}
use systemd_transition_expor.RemoteWrite.{SendError, World, Sender, send}
use systemd_transition_expor.RemoteWrite.Delivery.{acknowledged}
use systemd_transition_expor.RemoteWrite.Checkpoint.{Distinct, send_delivers}
use systemd_transition_expor.Delivery.Worker.{Target, remote_target, Config, Worker, flushed, flush}

empty-All : (P : Event → Type 0) (xs : List Event) → is_empty xs ≡ true → All P xs
empty-All P [] h = tt
empty-All P (x ∷ xs) h = cc

nonempty-length : (xs : List Event) → is_empty xs ≡ false → 0 < length xs
nonempty-length [] h = ground arith
nonempty-length (x ∷ xs) h = omega arith

module _ {S : Type 0} (target : Target S) (config : Config) where
  -- A flush that is through and has dropped nothing was a send without an error.
  flushed-sent :
      (x : Option SendError × S) (w : Worker S)
      → 0 < length w.batch
      → (flushed target config x w).0 ≡ true
      → (flushed target config x w).1.dropped ≡ w.dropped
      → (x.0 ≡ none) × ((flushed target config x w).1.sender ≡ x.1)
  unfolding flushed
  flushed-sent (none, s) w l h d = (refl, refl)
  flushed-sent (some x, s) w l h d = ground arith

module _ (world : World) (limit : ℕ) (config : Config) where
  abbrev target : Target Sender
  target = remote_target world limit

  -- With a positive batch size of the sender and a batch of distinct numbers: if `flush` returns
  -- true and nothing was dropped, every event of the batch above the sender's position was carried
  -- by a request that was answered by a 2xx status.
  pub flush_acknowledges :
      (k : ℕ) (w : Worker Sender)
      → w.sender.batch_size ≡ suc k
      → Distinct w.batch
      → (flush target config w).0 ≡ true
      → (flush target config w).1.dropped ≡ w.dropped
      → All
          (λ e.
            w.sender.last_sent < e.sequence
            → acknowledged (flush target config w).1.sender.accepted e ≡ true)
          w.batch
  unfolding flush
  flush_acknowledges k w n ds h d = elim (Bool-cases (is_empty w.batch)) [
    | inl c ↦ empty-All _ w.batch c
    | inr c ↦
        let r = send world w.batch w.sender in
        let h' : (flushed target config r w).0 ≡ true = rw c at h in
        let d' : (flushed target config r w).1.dropped ≡ w.dropped = rw c at d in
        let sent = flushed-sent target config r w (nonempty-length w.batch c) h' d' in
        rw (c, sent.1) (send_delivers world k w.batch w.sender n ds sent.0)
  ]
