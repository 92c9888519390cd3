-- ===== src/Probe/Rounds.antt =====
-- runProbe, probeOnce and wait of internal/agw/probe.go, internal/dns/probe.go and
-- internal/sip/probe.go, which differ in the request and in the test of an answer alone. Time is a
-- number. What the network does in a round is an input; a packet is what a read returned.
use systemd_transition_expor.Base.{
  ℕ, suc, ◌+◌, ◌-◌, Bool, true, false, Option, none, some, List, [], ◌∷◌, ◌++◌, if◌then◌else◌, ltb,
  leb, ◌==◌, is_none,
}
use systemd_transition_expor.Base.Text.{Text}
use systemd_transition_expor.Probe.Agw.{ping, is_pong}
use systemd_transition_expor.Probe.Dns.{query, answered}
use systemd_transition_expor.Probe.Sip.{Message, options, is_ok}

-- The reads of a round, each with its time: the packets, and how the last read failed.
pub data Reading : Type 0 where
  packet : ℕ → Text → Reading → Reading
  timeout : ℕ → Reading
  failure : ℕ → Reading

-- `inputs` is what the request is made of: random bytes, a counter, the local address. `at` is the
-- time at which the request is written, or at which what comes before failed.
pub record Round (E : Type 0) : Type 0 where
  pub begun : ℕ
  pub connected : Bool
  pub inputs : E
  pub at : ℕ
  pub written : Bool
  pub written_at : ℕ
  pub reading : Reading

-- An answer at a time, or the end of the round without one, with or without an error.
pub data Outcome : Type 0 where
  answer : ℕ → Outcome
  no_answer : Bool → ℕ → Outcome

pub record Run : Type 0 where
  pub sends : List ℕ
  pub ready : Option ℕ

abbrev pub ended : Outcome → ℕ
ended (answer t) = t
ended (no_answer err t) = t

-- Whether a context that is cancelled at the given time, if ever, is done at a time.
abbrev pub is_done : Option ℕ → ℕ → Bool
is_done none t = false
is_done (some c) t = leb c t

abbrev max : ℕ → ℕ → ℕ
max a b = if leb a b then b else a

abbrev woken : Option ℕ → ℕ → ℕ → ℕ
woken none t d = t + d
woken (some c) t d = if ltb c (t + d) then max t c else t + d

-- When `wait` returns that begins at `t`; where the deadline is over, `d` is zero.
unfoldable pub wait : Option ℕ → ℕ → ℕ → ℕ
wait done t d = if d == 0 then t else woken done t d

module _ {E R : Type 0} (request : ℕ → E → Option R) (accept : R → Text → Bool) (interval : ℕ)
    (done : Option ℕ) where
  abbrev pub read_loop : R → ℕ → Reading → Outcome
  read_loop q deadline (packet t bytes rest) =
      let later = read_loop q deadline rest in
      if accept q bytes then answer t else if leb deadline t then no_answer false t else later
  read_loop q deadline (timeout t) = no_answer (is_done done t) t
  read_loop q deadline (failure t) =
      if is_done done t then no_answer true t else no_answer true (wait done t (deadline - t))

  abbrev pub exchange : Option R → Round E → Outcome
  exchange none r = no_answer true (wait done (r.at) interval)
  exchange (some q) r =
      let deadline = r.at + interval in
      if r.written
      then read_loop q deadline (r.reading)
      else no_answer true (wait done (r.written_at) (deadline - r.written_at))

  -- The round of a number, which is the CSeq of a request of SIP.
  unfoldable pub probe_once : ℕ → Round E → Outcome
  probe_once cseq r =
      if r.connected
      then exchange (request cseq (r.inputs)) r
      else no_answer true (wait done (r.at) interval)

  -- The time of the request, if there is one.
  abbrev pub send_of : ℕ → Round E → List ℕ
  send_of cseq r =
      if r.connected then (if is_none (request cseq (r.inputs)) then [] else r.at ∷ []) else []

  abbrev pub after_round : Outcome → Run → Run
  after_round (answer t) later = record { sends = []; ready = some t }
  after_round (no_answer err t) later =
      if is_done done t then record { sends = []; ready = none } else later

  -- The first rounds of a loop, with the reports that it makes.
  unfoldable pub run_probe : ℕ → List (Round E) → Run
  run_probe cseq [] = record { sends = []; ready = none }
  run_probe cseq (r ∷ rs) =
      let later = after_round (probe_once cseq r) (run_probe (suc cseq) rs) in
      if is_done done (r.begun)
      then record { sends = []; ready = none }
      else record later { sends = send_of cseq r ++ later.sends }

-- The three loops. A process has one identifier and one counter of pings.
abbrev pub agw_probe : ℕ → ℕ → Option ℕ → List (Round ℕ) → Run
agw_probe pid interval done rounds =
    run_probe (λ cseq seq. some (ping pid seq)) (λ q bytes. is_pong bytes q.1) interval done 1
      rounds

abbrev pub dns_probe : ℕ → Option ℕ → List (Round (Option (ℕ × ℕ))) → Run
dns_probe interval done rounds =
    run_probe (λ cseq bytes. query bytes) (λ q bytes. answered bytes q.0) interval done 1 rounds

-- The local address of the socket and the random bytes of the tokens.
pub record SipInputs : Type 0 where
  pub host : Text
  pub port : ℕ
  pub call_id : Option (List ℕ)
  pub branch : Option (List ℕ)
  pub tag : Option (List ℕ)

abbrev sip_request : Text → ℕ → SipInputs → Option Message
sip_request uri cseq e = options uri (e.host) (e.port) cseq (e.call_id) (e.branch) (e.tag)

abbrev pub sip_probe : Text → ℕ → Option ℕ → List (Round SipInputs) → Run
sip_probe uri interval done rounds =
    run_probe (sip_request uri) (λ m bytes. is_ok bytes (m.call_id)) interval done 1 rounds
