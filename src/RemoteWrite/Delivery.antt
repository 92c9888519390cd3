-- ===== src/RemoteWrite/Delivery.antt =====
-- internal/remote_write/remote_write.go: the batches of `Send`, by what the receiver has accepted.
use systemd_transition_expor.Base.{
  ℕ, zero, suc, ◌≤◌, ◌<◌, ◌≡◌, ◌≢◌, refl, Bool, true, false, ◌||◌, ◌&&◌, Option, none, some, List,
  [], ◌∷◌, ◌++◌, arith, sym, ap, ◌∙◌, All, All-imp, All-append, All-take, take, drop,
  take-append-drop, length, length-drop,
}
use mathlib.Core.Path.{subst}
use systemd_transition_expor.Model.{Event}
use systemd_transition_expor.RemoteWrite.Series.{
  Request, point_of, event_points, carries, request_of, request_of-carries,
}
use systemd_transition_expor.RemoteWrite.Attempts.{Attempted, send_series-Attempted}
use systemd_transition_expor.RemoteWrite.{
  SendError, World, Sender, send_series, save_checkpoint, last_sequence, checked, saved_batch,
  send_batch, then_rest, send_batches, max_attempts,
}

-- One of the accepted requests carries the sample of the event.
abbrev pub acknowledged : List Request → Event → Bool
acknowledged [] e = false
acknowledged (r ∷ rs) e = carries r (point_of e) || acknowledged rs e

acknowledged-append :
    (rs : List Request) (r : Request) (e : Event)
    → acknowledged (rs ++ r ∷ []) e ≡ (acknowledged rs e || carries r (point_of e))
acknowledged-append [] r e = ground arith
acknowledged-append (q ∷ rs) r e = ground (arith, acknowledged-append rs r e)

-- The sequence numbers ascend strictly.
abbrev pub IsStrict : List Event → Type 0
IsStrict [] = Unit
IsStrict (x ∷ xs) = All (λ (y : Event). x.sequence < y.sequence) xs × IsStrict xs

IsStrict-drop : (n : ℕ) (xs : List Event) → IsStrict xs → IsStrict (drop n xs)
IsStrict-drop zero xs h = h
IsStrict-drop (suc n) [] h = tt
IsStrict-drop (suc n) (x ∷ xs) h = IsStrict-drop n xs h.1

-- What a batch leaves behind is above its last number.
drop-above :
    (d n : ℕ) (xs : List Event)
    → IsStrict xs
    → All (λ y. d < y.sequence) xs
    → All (λ y. last_sequence d (take n xs) < y.sequence) (drop n xs)
drop-above d zero xs h k = k
drop-above d (suc n) [] h k = tt
drop-above d (suc n) (x ∷ xs) h k = drop-above x.sequence n xs h.1 h.0

last_sequence-above :
    (m d : ℕ) (xs : List Event) → m < d → All (λ y. m < y.sequence) xs → m < last_sequence d xs
last_sequence-above m d [] h k = h
last_sequence-above m d (x ∷ xs) h k = last_sequence-above m x.sequence xs k.0 k.1

batch-carried :
    (es : List Event) (r : Request)
    → All (λ p. carries r p ≡ true) (event_points es)
    → All (λ e. carries r (point_of e) ≡ true) es
unfolding event_points
batch-carried [] r h = tt
batch-carried (e ∷ es) r h = (h.0, batch-carried es r h.1)

-- What a batch owes.
record BatchSent (batch : List Event) (s : Sender) (x : Option SendError) (s' : Sender)
    : Type 0 where
  pub kept : (e : Event) → acknowledged s.accepted e ≡ true → acknowledged s'.accepted e ≡ true
  sizes : s'.batch_size ≡ s.batch_size
  pub done : x ≡ none → All (λ e. acknowledged s'.accepted e ≡ true) batch
  moved : x ≡ none → s.last_sent < last_sequence 0 batch → s'.last_sent ≡ last_sequence 0 batch
  stuck : x ≢ none → s'.last_sent ≡ s.last_sent

module _ (world : World) where
  saved_batch-same :
      (x : Option SendError) (seq : ℕ) (s : Sender)
      → ((saved_batch world x seq s).1.accepted ≡ s.accepted)
        × ((saved_batch world x seq s).1.batch_size ≡ s.batch_size)
        × ((saved_batch world x seq s).0 ≡ none → x ≡ none)
        × ((saved_batch world x seq s).0 ≡ none
            → s.last_sent < seq
            → (saved_batch world x seq s).1.last_sent ≡ seq)
        × ((saved_batch world x seq s).0 ≢ none
            → (saved_batch world x seq s).1.last_sent ≡ s.last_sent)
  unfolding saved_batch checked save_checkpoint
  saved_batch-same (some x) seq s = (refl, refl, λ h. h, λ h. cc, λ h. refl)
  saved_batch-same none seq s =
      (ground arith, ground arith, ground arith, ground arith, ground arith)

  send_batch-BatchSent :
      (e : Event) (es : List Event) (s : Sender)
      → BatchSent (e ∷ es) s (send_batch world (e ∷ es) s).0 (send_batch world (e ∷ es) s).1
  unfolding send_batch
  send_batch-BatchSent e es s =
      let batch = e ∷ es in
      let r = request_of (event_points batch) in
      let (x, s') = send_series world r s in
      let a = send_series-Attempted world r s in
      let b = saved_batch-same x (last_sequence 0 batch) s' in
      let s'' = (saved_batch world x (last_sequence 0 batch) s').1 in
      let carried = batch-carried batch r (request_of-carries (event_points batch)) in
      record {
        kept = λ v h. rw (b.0) (keeps v x s' a h);
        sizes = b.1 ∙ a.sizes;
        done = λ z.
            let grown : s''.accepted ≡ s.accepted ++ r ∷ [] = b.0 ∙ a.delivered (b.2 z) in
            All-imp _ _ batch
              (λ v c. rw grown (acknowledged-append s.accepted r v ∙ or_right _ _ c)) carried;
        moved = λ z m. b.3 z (subst (λ n. n < last_sequence 0 batch) (sym a.position) m);
        stuck = λ z. b.4 z ∙ a.position;
      }
    where
      or_right : (p q : Bool) → q ≡ true → (p || q) ≡ true
      or_right p q h = ground arith

      r : Request
      r = request_of (event_points (e ∷ es))

      keeps :
          (v : Event) (x : Option SendError) (s' : Sender)
          → Attempted (world.encodes r && world.makes s.requests) max_attempts r s x s'
          → acknowledged s.accepted v ≡ true
          → acknowledged s'.accepted v ≡ true
      keeps v none s' a h =
          rw (a.delivered refl)
            (acknowledged-append s.accepted r v ∙ ap (λ t. t || carries r (point_of v)) h)
      keeps v (some x) s' a h = rw (a.undelivered (λ z. cc)) h

-- What a run of batches over `rest` owes.
pub record RunSent (rest : List Event) (s : Sender) (x : Option SendError) (s' : Sender)
    : Type 0 where
  pub kept : (e : Event) → acknowledged s.accepted e ≡ true → acknowledged s'.accepted e ≡ true
  pub grows : s.last_sent ≤ s'.last_sent
  pub done : x ≡ none → All (λ e. acknowledged s'.accepted e ≡ true) rest
  pub passed : All (λ e. e.sequence ≤ s'.last_sent → acknowledged s'.accepted e ≡ true) rest

All-split {ℓ} :
    {A : Type ℓ} (P : A → Type 0) (n : ℕ) (xs : List A)
    → All P (take n xs)
    → All P (drop n xs)
    → All P xs
All-split P n xs h k =
    subst (All P) (take-append-drop n xs) (All-append P (take n xs) (drop n xs) h k)

below-All :
    (n : ℕ) (xs : List Event)
    → All (λ y. n < y.sequence) xs
    → (rs : List Request) → All (λ e. e.sequence ≤ n → acknowledged rs e ≡ true) xs
below-All n xs h rs = All-imp _ _ xs (λ e lt le. absurd (omega arith)) h

module _ (world : World) where
  -- The first batch failed: nothing of the rest is passed.
  RunSent-stop :
      (n : ℕ) (xs : List Event) (s : Sender) (x : Option SendError) (s' : Sender)
      (batch : List Event)
      → All (λ y. s.last_sent < y.sequence) xs
      → x ≢ none
      → BatchSent batch s x s'
      → RunSent xs s x s'
  RunSent-stop n xs s x s' batch h ne b = record {
    kept = b.kept;
    grows = omega (arith, b.stuck ne);
    done = λ z. absurd (ne z);
    passed =
        below-All s'.last_sent xs (subst (λ m. All (λ y. m < y.sequence) xs) (sym (b.stuck ne)) h)
          s'.accepted;
  }

  -- The first batch was sent and saved, and the run over what follows it.
  RunSent-go :
      (n : ℕ) (xs : List Event) (s s' s'' : Sender) (x : Option SendError)
      → s.last_sent < last_sequence 0 (take n xs)
      → BatchSent (take n xs) s none s'
      → RunSent (drop n xs) s' x s''
      → RunSent xs s x s''
  RunSent-go n xs s s' s'' x m b g =
      let sent = All-imp _ _ (take n xs) (λ e c. g.kept e c) (b.done refl) in
      record {
        kept = λ e c. g.kept e (b.kept e c);
        grows = omega (arith, b.moved refl m, g.grows);
        done = λ z. All-split _ n xs sent (g.done z);
        passed = All-split _ n xs (All-imp _ _ (take n xs) (λ e c le. c) sent) g.passed;
      }

  then_rest-RunSent :
      (n : ℕ) (xs : List Event) (s : Sender) (x : Option SendError) (s' : Sender)
      (next : Option SendError × Sender)
      → s.last_sent < last_sequence 0 (take n xs)
      → All (λ y. s.last_sent < y.sequence) xs
      → BatchSent (take n xs) s x s'
      → (x ≡ none → RunSent (drop n xs) s' next.0 next.1)
      → RunSent xs s (then_rest x s' next).0 (then_rest x s' next).1
  unfolding then_rest
  then_rest-RunSent n xs s none s' next m h b g = RunSent-go n xs s s' next.1 next.0 m b (g refl)
  then_rest-RunSent n xs s (some x) s' next m h b g =
      RunSent-stop n xs s (some x) s' (take n xs) h (λ z. cc) b

  pub send_batches-RunSent :
      (fuel k : ℕ) (xs : List Event) (s : Sender)
      → length xs ≤ fuel
      → s.batch_size ≡ suc k
      → IsStrict xs
      → All (λ y. s.last_sent < y.sequence) xs
      → RunSent xs s (send_batches world fuel xs s).0 (send_batches world fuel xs s).1
  unfolding send_batches
  send_batches-RunSent zero k [] s f n o h = record {
    kept = λ e c. c;
    grows = omega arith;
    done = λ z. tt;
    passed = tt;
  }
  send_batches-RunSent zero k (e ∷ es) s f n o h = absurd (omega arith)
  send_batches-RunSent (suc fuel) k [] s f n o h = record {
    kept = λ e c. c;
    grows = omega arith;
    done = λ z. tt;
    passed = tt;
  }
  send_batches-RunSent (suc fuel) k (e ∷ es) s f n o h =
      let xs = e ∷ es in
      let (x, s') = send_batch world (take s.batch_size xs) s in
      let next = send_batches world fuel (drop s.batch_size xs) s' in
      let b : BatchSent (take s.batch_size xs) s x s' =
        subst
          (λ m.
            BatchSent (take m xs) s (send_batch world (take m xs) s).0
              (send_batch world (take m xs) s).1)
          (sym n) (send_batch-BatchSent world e (take k es) s) in
      let m : s.last_sent < last_sequence 0 (take s.batch_size xs) =
        subst (λ m. s.last_sent < last_sequence 0 (take m xs)) (sym n)
          (last_sequence-above s.last_sent e.sequence (take k es) h.0 (All-take _ k es h.1)) in
      then_rest-RunSent s.batch_size xs s x s' next m h b (λ z.
        let moved : s'.last_sent ≡ last_sequence 0 (take s.batch_size xs) = b.moved z m in
        let after : All (λ y. last_sequence 0 (take s.batch_size xs) < y.sequence)
            (drop s.batch_size xs) =
          subst (λ m. All (λ y. last_sequence 0 (take m xs) < y.sequence) (drop m xs)) (sym n)
            (drop-above e.sequence k es o.1 o.0) in
        send_batches-RunSent fuel k (drop s.batch_size xs) s'
          (omega (arith, length-drop s.batch_size xs)) (b.sizes ∙ n)
          (IsStrict-drop s.batch_size xs o)
          (subst (λ m. All (λ y. m < y.sequence) (drop s.batch_size xs)) (sym moved) after))
