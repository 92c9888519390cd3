-- ===== src/Engine/Numbering.antt =====
-- internal/engine/engine.go: the sequence numbers of the emitted events.
use systemd_transition_expor.Base.{
  sym, ap, ◌∙◌, ℕ, ◌≡◌, refl, String, Bool, true, false, Option, none, some, List, [], ◌∷◌, ◌++◌,
  arith, u64_inc,
}
use systemd_transition_expor.Model.{
  AvailabilityState, EventSource, UnitSnapshot, Event, ServiceState,
}
use systemd_transition_expor.Engine.{
  Engine, Candidate, candidates, emit, systemd_event, apply_known, apply, member, state_or_zero,
  confirm_ready, apply_recovery, reboot_one, apply_reboot,
}

-- The events follow the counter `n` one by one.
abbrev pub Numbered : ℕ → List Event → Type 0
Numbered n [] = Unit
Numbered n (e ∷ es) = (e.sequence ≡ u64_inc n) × Numbered (u64_inc n) es

-- The counter after that many events.
abbrev pub advance : ℕ → List Event → ℕ
advance n [] = n
advance n (e ∷ es) = advance (u64_inc n) es

Numbered-append :
    (n : ℕ) (es fs : List Event)
    → Numbered n es
    → Numbered (advance n es) fs
    → Numbered n (es ++ fs)
Numbered-append n [] fs h k = k
Numbered-append n (e ∷ es) fs h k = (h.0, Numbered-append (u64_inc n) es fs h.1 k)

advance-append : (n : ℕ) (es fs : List Event) → advance n (es ++ fs) ≡ advance (advance n es) fs
advance-append n [] fs = refl
advance-append n (e ∷ es) fs = advance-append (u64_inc n) es fs

-- The counter `n` before, `m` after, and the events in between.
pub record IsNumbered (n m : ℕ) (es : List Event) : Type 0 where
  pub each : Numbered n es
  pub last : m ≡ advance n es

pub IsNumbered-append :
    (n m k : ℕ) (es fs : List Event)
    → IsNumbered n m es
    → IsNumbered m k fs
    → IsNumbered n k (es ++ fs)
IsNumbered-append n m k es fs h g = record {
  each = Numbered-append n es fs h.each (rw (h.last) at g.each);
  last = g.last ∙ ap (λ t. advance t fs) h.last ∙ sym (advance-append n es fs);
}

emit-IsNumbered :
    (s : UnitSnapshot) (d : Bool) (cs : List Candidate) (n : ℕ) (a : AvailabilityState) (p : Bool)
    → IsNumbered n (emit s d cs n a p).seq (emit s d cs n a p).events
unfolding emit systemd_event
emit-IsNumbered s d [] n a p = ground arith
emit-IsNumbered s d (c ∷ cs) n a p = ground (
  arith,
  emit-IsNumbered s d cs n a true,
  emit-IsNumbered s d cs n a false,
  emit-IsNumbered s d cs (u64_inc n) c.state p,
  emit-IsNumbered s d cs (u64_inc n) c.state false,
)

apply_known-IsNumbered :
    (e : Engine) (s : UnitSnapshot) (old : ServiceState)
    → IsNumbered e.seq (apply_known e s old).0.seq (apply_known e s old).1
unfolding apply_known
apply_known-IsNumbered e s old =
    emit-IsNumbered s (member s.service e.delay_up) (candidates s old) e.seq old.availability
      old.awaiting_sip

pub apply-IsNumbered :
    (e : Engine) (s : UnitSnapshot) → IsNumbered e.seq (apply e s).0.seq (apply e s).1
unfolding apply
apply-IsNumbered e s = ground (arith, apply_known-IsNumbered e s (state_or_zero e s.service))

abbrev pub to_list : Option Event → List Event
to_list none = []
to_list (some e) = e ∷ []

pub confirm_ready-IsNumbered :
    (e : Engine) (k : String) (t : ℕ) (src : EventSource)
    → IsNumbered e.seq (confirm_ready e k t src).0.seq (to_list (confirm_ready e k t src).1)
unfolding confirm_ready
confirm_ready-IsNumbered e k t src = ground arith

pub apply_recovery-IsNumbered :
    (e : Engine) (v : Event) → IsNumbered e.seq (apply_recovery e v).0.seq (apply_recovery e v).1
unfolding apply_recovery
apply_recovery-IsNumbered e v = ground arith

reboot_one-IsNumbered :
    (e : Engine) (k b : String) (t : ℕ)
    → IsNumbered e.seq (reboot_one e k b t).0.seq (reboot_one e k b t).1
unfolding reboot_one
reboot_one-IsNumbered e k b t = ground arith

pub apply_reboot-IsNumbered :
    (e : Engine) (order : List String) (b : String) (t : ℕ)
    → IsNumbered e.seq (apply_reboot e order b t).0.seq (apply_reboot e order b t).1
unfolding apply_reboot
apply_reboot-IsNumbered e [] b t = ground arith
apply_reboot-IsNumbered e (k ∷ order) b t =
    let (e', now) = reboot_one e k b t in
    let (e'', later) = apply_reboot e' order b t in
    IsNumbered-append e.seq e'.seq e''.seq now later (reboot_one-IsNumbered e k b t)
      (apply_reboot-IsNumbered e' order b t)
