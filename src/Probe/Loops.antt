-- ===== src/Probe/Loops.antt =====
-- internal/sip/probe.go and its like: the loops of a prober over the operations of a run.
use systemd_transition_expor.Base.{
  ℕ, suc, ◌+◌, ◌-◌, ◌≤◌, ◌<◌, ◌≡◌, refl, ap, ◌∙◌, String, Bool, false, not, ◌&&◌, Option, none,
  some, List, [], ◌∷◌, if◌then◌else◌, map, length, filter_by, str_eq, eq_iff, arith, u64_inc,
  u64_mod, ==_refl, Bool-cases, inl, inr, Option-cases,
}
use systemd_transition_expor.Base.Dict.{Dict, lookup, remove, lookup-insert, lookup-remove}
use systemd_transition_expor.Probe.Prober.{
  Probe, Loop, Prober, Op, start_op, stop_op, finish_op, new, start, stop, finish, perform,
  perform_all, is_run, cancel, holds_id,
}

-- The loops of a service that nothing has cancelled.
abbrev pub live : String → List Loop → List Loop
live service ls = filter_by (λ l. str_eq (l.service) service && not (l.cancelled)) ls

abbrev pub registered : String → Option ℕ → List Loop
registered service none = []
registered service (some id) = record { service = service; id = id; cancelled = false } ∷ []

-- From the newest to the oldest the identifiers fall, and none exceeds the counter.
abbrev pub Falling : ℕ → List Loop → Type 0
Falling bound [] = Unit
Falling bound (l ∷ ls) = (l.id ≤ bound) × ((1 ≤ l.id) × Falling (l.id - 1) ls)

abbrev OneLoop : Prober → Type 0
OneLoop p =
    (service : String) → live service (p.loops) ≡ registered service (lookup service (p.running))

filter_by-filter_by :
    (p q : Loop → Bool) (ls : List Loop)
    → filter_by p (filter_by q ls) ≡ filter_by q (filter_by p ls)
filter_by-filter_by p q [] = refl
filter_by-filter_by p q (l ∷ ls) = ground (arith, filter_by-filter_by p q ls)

-- To the loops that are not cancelled, cancelling one is taking it away.
live-cancel :
    (other service : String) (id : ℕ) (ls : List Loop)
    → live other (map (cancel service id) ls)
      ≡ filter_by (λ l. not (is_run service id l)) (live other ls)
live-cancel other service id [] = refl
live-cancel other service id (l ∷ ls) = ground (arith, live-cancel other service id ls)

str_eq-apart : (s t : String) → str_eq s t ≡ false → str_eq t s ≡ false
str_eq-apart s t h = ground (arith, eq_iff s t, eq_iff t s)

registered-apart :
    (s other : String) (id : ℕ) (o : Option ℕ)
    → str_eq s other ≡ false
    → filter_by (λ l. not (is_run s id l)) (registered other o) ≡ registered other o
registered-apart s other id none h = refl
registered-apart s other id (some n) h = rw (str_eq-apart s other h) refl

registered-same :
    (s : String) (id : ℕ) (o : Option ℕ)
    → filter_by (λ l. not (is_run s id l)) (registered s o)
      ≡ registered s (if holds_id o id then none else o)
registered-same s id none = refl
registered-same s id (some n) = ground (arith, eq_iff s s)

-- Taking a run's loop away is taking the run out of the map.
registered-without :
    (s other : String) (id : ℕ) (d : Dict ℕ)
    → filter_by (λ l. not (is_run s id l)) (registered other (lookup other d))
      ≡ registered other (lookup other (if holds_id (lookup s d) id then remove s d else d))
registered-without s other id d = elim (Bool-cases (str_eq s other)) [
  | inl k ↦
      let q = (eq_iff s other).0 k in
      rw (← q, registered-same s id (lookup s d)) (ground (arith, lookup-remove s s d, eq_iff s s))
  | inr k ↦ elim (Bool-cases (holds_id (lookup s d) id)) [
    | inl e ↦ rw (e, lookup-remove s other d, k) (registered-apart s other id (lookup other d) k)
    | inr e ↦ rw e (registered-apart s other id (lookup other d) k)
  ]
]

start-OneLoop : (s : String) (p : Prober) → OneLoop p → OneLoop (start s p)
unfolding start
start-OneLoop s p h other = elim (Option-cases (lookup s (p.running))) [
  | inr (id, e) ↦ rw e (h other)
  | inl e ↦ elim (Option-cases (lookup s (p.probes))) [
    | inl q ↦ rw (e, q) (h other)
    | inr (probe, q) ↦
        rw (e, q, lookup-insert s other (u64_inc (p.next)) (p.running))
          (elim (Bool-cases (str_eq s other)) [
            | inl k ↦
                let same = (eq_iff s other).0 k in
                let free : lookup other (p.running) ≡ none = rw (← same) e in
                rw k (
                  ap (λ ls. record { service = s; id = u64_inc (p.next); cancelled = false } ∷ ls)
                    (h other ∙ ap (registered other) free)
                  ∙ ap (λ t. record { service = t; id = u64_inc (p.next); cancelled = false } ∷ [])
                      same)
            | inr k ↦ rw k (h other)
          ])
  ]
]

stop-OneLoop : (s : String) (p : Prober) → OneLoop p → OneLoop (stop s p)
unfolding stop
stop-OneLoop s p h other = elim (Option-cases (lookup s (p.running))) [
  | inl e ↦ rw e (h other)
  | inr (id, e) ↦
      rw
        (
          e,
          live-cancel other s id (p.loops),
          h other,
          registered-without s other id (p.running),
          e,
          ==_refl id,
        )
        refl
]

finish-OneLoop : (s : String) (id : ℕ) (p : Prober) → OneLoop p → OneLoop (finish s id p)
unfolding finish
finish-OneLoop s id p h other =
    rw
      (
        filter_by-filter_by (λ l. str_eq (l.service) other && not (l.cancelled))
            (λ l. not (is_run s id l)) (p.loops),
        h other,
      )
      (registered-without s other id (p.running))

perform-OneLoop : (op : Op) (p : Prober) → OneLoop p → OneLoop (perform op p)
perform-OneLoop (start_op s) p h = start-OneLoop s p h
perform-OneLoop (stop_op s) p h = stop-OneLoop s p h
perform-OneLoop (finish_op s id) p h = finish-OneLoop s id p h

perform_all-OneLoop : (ops : List Op) (p : Prober) → OneLoop p → OneLoop (perform_all ops p)
perform_all-OneLoop [] p h = h
perform_all-OneLoop (op ∷ ops) p h = perform_all-OneLoop ops (perform op p) (perform-OneLoop op p h)

Falling-widen : (a b : ℕ) (ls : List Loop) → a ≤ b → Falling a ls → Falling b ls
Falling-widen a b [] h f = tt
Falling-widen a b (l ∷ ls) h f = (omega (arith, f.0), f.1)

Falling-filter_by :
    (q : Loop → Bool) (n : ℕ) (ls : List Loop) → Falling n ls → Falling n (filter_by q ls)
Falling-filter_by q n [] f = tt
Falling-filter_by q n (l ∷ ls) f = elim (Bool-cases (q l)) [
  | inl e ↦ rw e (f.0, (f.1.0, Falling-filter_by q (l.id - 1) ls f.1.1))
  | inr e ↦
      rw e (Falling-filter_by q n ls (Falling-widen (l.id - 1) n ls (omega (arith, f.0)) f.1.1))
]

cancel-id : (s : String) (id : ℕ) (l : Loop) → (cancel s id l).id ≡ l.id
cancel-id s id l = elim (Bool-cases (is_run s id l)) [ inl e ↦ rw e refl | inr e ↦ rw e refl ]

Falling-cancel :
    (s : String) (id n : ℕ) (ls : List Loop) → Falling n ls → Falling n (map (cancel s id) ls)
Falling-cancel s id n [] f = tt
Falling-cancel s id n (l ∷ ls) f =
    rw (cancel-id s id l) (f.0, (f.1.0, Falling-cancel s id (l.id - 1) ls f.1.1))

abbrev Numbered : ℕ → Prober → Type 0
Numbered n p = (p.next ≤ n) × Falling (p.next) (p.loops)

perform-Numbered :
    (op : Op) (n : ℕ) (p : Prober)
    → suc n < u64_mod
    → Numbered n p
    → Numbered (suc n) (perform op p)
unfolding start stop finish
perform-Numbered (start_op s) n p h k = elim (Option-cases (lookup s (p.running))) [
  | inr (id, e) ↦ rw e (omega (arith, k.0), k.1)
  | inl e ↦ elim (Option-cases (lookup s (p.probes))) [
    | inl q ↦ rw (e, q) (omega (arith, k.0), k.1)
    | inr (probe, q) ↦
        let fits : u64_inc (p.next) ≡ suc (p.next) = omega (arith, k.0) in
        rw (e, q, fits)
          (
            omega (arith, k.0),
            (
              omega arith,
              (omega arith, Falling-widen (p.next) (suc (p.next) - 1) (p.loops) (omega arith) k.1),
            ),
          )
  ]
]
perform-Numbered (stop_op s) n p h k = elim (Option-cases (lookup s (p.running))) [
  | inl e ↦ rw e (omega (arith, k.0), k.1)
  | inr (id, e) ↦ rw e (omega (arith, k.0), Falling-cancel s id (p.next) (p.loops) k.1)
]
perform-Numbered (finish_op s id) n p h k =
    (omega (arith, k.0), Falling-filter_by (λ l. not (is_run s id l)) (p.next) (p.loops) k.1)

perform_all-Numbered :
    (ops : List Op) (n : ℕ) (p : Prober)
    → n + length ops < u64_mod
    → Numbered n p
    → Falling ((perform_all ops p).next) ((perform_all ops p).loops)
perform_all-Numbered [] n p h k = k.1
perform_all-Numbered (op ∷ ops) n p h k =
    perform_all-Numbered ops (suc n) (perform op p) (omega arith)
      (perform-Numbered op n p (omega arith) k)

-- After fewer than two to the power of 64 starts, stops and returns of loops, in any order, the
-- loops of a service that are not cancelled are none or the one that is registered: a service has
-- never two of them, what is registered is alive, and a loop that was stopped takes nothing from
-- its successor. No two loops have the same identifier.
pub one_loop :
    (probes : List Probe) (ops : List Op) (service : String)
    → length ops < u64_mod
    → let p = perform_all ops (new probes) in
      (live service (p.loops) ≡ registered service (lookup service (p.running)))
      × Falling (p.next) (p.loops)
unfolding new lookup
one_loop probes ops service h = (
  perform_all-OneLoop ops (new probes) (λ s. refl) service,
  perform_all-Numbered ops 0 (new probes) (omega (arith, h)) (omega arith, tt),
)
