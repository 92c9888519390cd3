-- ===== src/Probe/Answers.antt =====
-- When a loop of runProbe (internal/sip/probe.go and its like) reports, and with which time.
use systemd_transition_expor.Base.{
  ℕ, suc, ◌+◌, ◌<◌, ◌≡◌, refl, Bool, true, false, not, Option, some, List, [], ◌∷◌, ◌++◌, All,
  Bool-cases, inl, inr, lt→leb,
}
use systemd_transition_expor.Base.Text.{Text}
use systemd_transition_expor.Probe.Rounds.{
  Reading, packet, Round, Outcome, answer, no_answer, Run, is_done, probe_once, read_loop,
  after_round, run_probe,
}

-- Packets and their times, before what is read later.
abbrev pub deliver : List (ℕ × Text) → Reading → Reading
deliver [] rest = rest
deliver ((t, bytes) ∷ ps) rest = packet t bytes (deliver ps rest)

module _ {E R : Type 0} (request : ℕ → E → Option R) (accept : R → Text → Bool) (interval : ℕ)
    (done : Option ℕ) where
  read_loop-deliver :
      (q : R) (deadline : ℕ) (early : List (ℕ × Text)) (rest : Reading)
      → All (λ p. (accept q p.1 ≡ false) × (p.0 < deadline)) early
      → read_loop request accept interval done q deadline (deliver early rest)
        ≡ read_loop request accept interval done q deadline rest
  read_loop-deliver q deadline [] rest h = refl
  read_loop-deliver q deadline ((t, bytes) ∷ ps) rest h =
      rw (h.0.0, lt→leb deadline t h.0.1) (read_loop-deliver q deadline ps rest h.1)

  -- After the round the loop makes the next request.
  abbrev pub goes_on : Outcome → Bool
  goes_on (answer t) = false
  goes_on (no_answer err t) = not (is_done done t)

  abbrev pub AllGoOn : ℕ → List (Round E) → Type 0
  AllGoOn cseq [] = Unit
  AllGoOn cseq (r ∷ rs) =
      (is_done done (r.begun) ≡ false)
      × ((goes_on (probe_once request accept interval done cseq r) ≡ true) × AllGoOn (suc cseq) rs)

  abbrev number_after : ℕ → List (Round E) → ℕ
  number_after cseq [] = cseq
  number_after cseq (r ∷ rs) = number_after (suc cseq) rs

  after_round-goes_on :
      (o : Outcome) (later : Run)
      → goes_on o ≡ true
      → after_round request accept interval done o later ≡ later
  after_round-goes_on (answer t) later h = cc
  after_round-goes_on (no_answer err t) later h = elim (Bool-cases (is_done done t)) [
    | inl e ↦ let no : false ≡ true = rw e at h in cc
    | inr e ↦ rw e refl
  ]

  run_probe-append :
      (cseq : ℕ) (earlier rs : List (Round E))
      → AllGoOn cseq earlier
      → (run_probe request accept interval done cseq (earlier ++ rs)).ready
        ≡ (run_probe request accept interval done (number_after cseq earlier) rs).ready
  unfolding run_probe
  run_probe-append cseq [] rs h = refl
  run_probe-append cseq (r ∷ earlier) rs h =
      rw
        (
          h.0,
          after_round-goes_on (probe_once request accept interval done cseq r)
              (run_probe request accept interval done (suc cseq) (earlier ++ rs)) h.1.0,
        )
        (run_probe-append (suc cseq) earlier rs h.1.1)

  round-ready :
      (cseq : ℕ) (r : Round E) (q : R) (early : List (ℕ × Text)) (t : ℕ) (bytes : Text)
      (rest : Reading) (rs : List (Round E))
      → is_done done (r.begun) ≡ false
      → r.connected ≡ true
      → r.written ≡ true
      → request cseq (r.inputs) ≡ some q
      → r.reading ≡ deliver early (packet t bytes rest)
      → All (λ p. (accept q p.1 ≡ false) × (p.0 < r.at + interval)) early
      → accept q bytes ≡ true
      → (run_probe request accept interval done cseq (r ∷ rs)).ready ≡ some t
  unfolding run_probe probe_once
  round-ready cseq r q early t bytes rest rs live connected written asked reading missed hit =
      rw
        (
          live,
          connected,
          asked,
          written,
          reading,
          read_loop-deliver q (r.at + interval) early (packet t bytes rest) missed,
          hit,
        )
        refl

-- A loop that is still going makes a report in the first round in which a packet is accepted, before
-- which the round has read others before its deadline alone, and with the time of that packet,
-- whatever it would have read afterwards.
pub ready_first :
    {E R : Type 0} (request : ℕ → E → Option R) (accept : R → Text → Bool) (interval : ℕ)
    (done : Option ℕ) (earlier rs : List (Round E)) (r : Round E) (q : R) (early : List (ℕ × Text))
    (t : ℕ) (bytes : Text) (rest : Reading)
    → AllGoOn request accept interval done 1 earlier
    → is_done done (r.begun) ≡ false
    → r.connected ≡ true
    → r.written ≡ true
    → request (number_after request accept interval done 1 earlier) (r.inputs) ≡ some q
    → r.reading ≡ deliver early (packet t bytes rest)
    → All (λ p. (accept q p.1 ≡ false) × (p.0 < r.at + interval)) early
    → accept q bytes ≡ true
    → (run_probe request accept interval done 1 (earlier ++ r ∷ rs)).ready ≡ some t
ready_first request accept interval done earlier rs r q early t bytes rest go live connected written
      asked reading missed hit =
    rw (run_probe-append request accept interval done 1 earlier (r ∷ rs) go) (
      round-ready request accept interval done (number_after request accept interval done 1 earlier)
        r q early t bytes rest rs live connected written asked reading missed hit)
