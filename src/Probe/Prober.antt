-- ===== src/Probe/Prober.antt =====
-- The type Prober of internal/agw/probe.go, internal/dns/probe.go and internal/sip/probe.go, which
-- is the same in the three: at most one loop of requests per service. An operation is one step. Start
-- and finish hold the mutex throughout; Stop cancels the loop after it has unlocked, which is taken
-- in one step with the removal here.
use systemd_transition_expor.Base.{
  ℕ, String, Bool, true, false, not, ◌&&◌, Option, none, some, List, [], ◌∷◌, if◌then◌else◌, map,
  ◌==◌, filter_by, str_eq, u64_inc,
}
use systemd_transition_expor.Base.Dict.{Dict, lookup, insert, remove}

-- What the loop of a service asks, and how often.
pub record Probe : Type 0 where
  pub service : String
  pub uri : String
  pub addr : String
  pub interval : ℕ

-- A goroutine that has not returned yet; `cancelled` says whether its context is done.
pub record Loop : Type 0 where
  pub service : String
  pub id : ℕ
  pub cancelled : Bool

-- A run is its identifier: its cancel function is that of the loop with the identifier.
pub record Prober : Type 0 where
  pub probes : Dict Probe
  pub running : Dict ℕ
  pub next : ℕ
  pub loops : List Loop

abbrev by_name : List Probe → Dict Probe → Dict Probe
by_name [] d = d
by_name (p ∷ ps) d = by_name ps (insert (p.service) p d)

unfoldable pub new : List Probe → Prober
new probes = record { probes = by_name probes []; running = []; next = 0; loops = [] }

abbrev pub is_run : String → ℕ → Loop → Bool
is_run service id l = str_eq (l.service) service && l.id == id

abbrev pub cancel : String → ℕ → Loop → Loop
cancel service id l = if is_run service id l then record l { cancelled = true } else l

abbrev pub launch : String → Option Probe → Prober → Prober
launch service none p = p
launch service (some probe) p =
    let id = u64_inc (p.next) in
    record p {
      next = id;
      running = insert service id (p.running);
      loops = record { service = service; id = id; cancelled = false } ∷ p.loops;
    }

abbrev pub start_unless : Option ℕ → String → Prober → Prober
start_unless (some id) service p = p
start_unless none service p = launch service (lookup service (p.probes)) p

unfoldable pub start : String → Prober → Prober
start service p = start_unless (lookup service (p.running)) service p

-- The run is removed under the mutex; its cancel after the unlock is in the same step.
abbrev pub stop_run : Option ℕ → String → Prober → Prober
stop_run none service p = p
stop_run (some id) service p = record p {
  running = remove service (p.running);
  loops = map (cancel service id) (p.loops);
}

unfoldable pub stop : String → Prober → Prober
stop service p = stop_run (lookup service (p.running)) service p

abbrev pub holds_id : Option ℕ → ℕ → Bool
holds_id none id = false
holds_id (some current) id = current == id

-- The loop of the run returns.
unfoldable pub finish : String → ℕ → Prober → Prober
finish service id p = record p {
  loops = filter_by (λ l. not (is_run service id l)) (p.loops);
  running =
      if holds_id (lookup service (p.running)) id then remove service (p.running) else p.running;
}

pub data Op : Type 0 where
  start_op : String → Op
  stop_op : String → Op
  finish_op : String → ℕ → Op

abbrev pub perform : Op → Prober → Prober
perform (start_op s) p = start s p
perform (stop_op s) p = stop s p
perform (finish_op s id) p = finish s id p

abbrev pub perform_all : List Op → Prober → Prober
perform_all [] p = p
perform_all (op ∷ ops) p = perform_all ops (perform op p)
