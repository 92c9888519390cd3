-- ===== src/Main/Ahead.antt =====
-- Sequences of the actions of main.go: what the log has taken, and what may follow it.
use systemd_transition_expor.Base.{
  ◌≡◌, ◌⊎◌, refl, String, Bool, true, false, List, [], ◌∷◌, ◌++◌, map, if◌then◌else◌, All, All-imp,
  All-append, inl, inr,
}
use systemd_transition_expor.Model.{Event, ServiceState, StateSample}
use systemd_transition_expor.Engine.{Engine}
use systemd_transition_expor.Main.{
  Action, append, enqueue_event, count_event, save_state, show_state, start_probes, stop_probes,
  record_recovery, enqueue_recovery, Actions, then_do, Imported, joined,
}

abbrev pub In : Event → List Event → Type 0
In e [] = ⊥
In e (x ∷ xs) = (x ≡ e) ⊎ In e xs

-- What the log has taken after the actions.
abbrev pub durable : List Event → List Action → List Event
durable d [] = d
durable d (append e true ∷ t) = durable (e ∷ d) t
durable d (a ∷ t) = durable d t

abbrev pub Ahead : List Event → List Action → Type 0
Ahead d [] = Unit
Ahead d (append e true ∷ t) = Ahead (e ∷ d) t
Ahead d (enqueue_event k e ∷ t) = In e d × Ahead d t
Ahead d (count_event e ∷ t) = In e d × Ahead d t
Ahead d (enqueue_recovery k fill es ∷ t) = All (λ e. In e d) es × Ahead d t
Ahead d (a ∷ t) = Ahead d t

pub Ahead-append :
    (d : List Event) (xs ys : List Action)
    → Ahead d xs
    → Ahead (durable d xs) ys
    → Ahead d (xs ++ ys)
Ahead-append d [] ys h k = k
Ahead-append d (append e true ∷ xs) ys h k = Ahead-append (e ∷ d) xs ys h k
Ahead-append d (append e false ∷ xs) ys h k = Ahead-append d xs ys h k
Ahead-append d (enqueue_event t e ∷ xs) ys h k = (h.0, Ahead-append d xs ys h.1 k)
Ahead-append d (count_event e ∷ xs) ys h k = (h.0, Ahead-append d xs ys h.1 k)
Ahead-append d (save_state s ok ∷ xs) ys h k = Ahead-append d xs ys h k
Ahead-append d (show_state s a ∷ xs) ys h k = Ahead-append d xs ys h k
Ahead-append d (start_probes s ∷ xs) ys h k = Ahead-append d xs ys h k
Ahead-append d (stop_probes s ∷ xs) ys h k = Ahead-append d xs ys h k
Ahead-append d (record_recovery a b c ∷ xs) ys h k = Ahead-append d xs ys h k
Ahead-append d (enqueue_recovery t fill es ∷ xs) ys h k = (h.0, Ahead-append d xs ys h.1 k)

durable-append :
    (d : List Event) (xs ys : List Action) → durable d (xs ++ ys) ≡ durable (durable d xs) ys
durable-append d [] ys = refl
durable-append d (append e true ∷ xs) ys = durable-append (e ∷ d) xs ys
durable-append d (append e false ∷ xs) ys = durable-append d xs ys
durable-append d (enqueue_event t e ∷ xs) ys = durable-append d xs ys
durable-append d (count_event e ∷ xs) ys = durable-append d xs ys
durable-append d (save_state s ok ∷ xs) ys = durable-append d xs ys
durable-append d (show_state s a ∷ xs) ys = durable-append d xs ys
durable-append d (start_probes s ∷ xs) ys = durable-append d xs ys
durable-append d (stop_probes s ∷ xs) ys = durable-append d xs ys
durable-append d (record_recovery a b c ∷ xs) ys = durable-append d xs ys
durable-append d (enqueue_recovery t fill es ∷ xs) ys = durable-append d xs ys

durable-grows : (e : Event) (d : List Event) (xs : List Action) → In e d → In e (durable d xs)
durable-grows e d [] h = h
durable-grows e d (append x true ∷ xs) h = durable-grows e (x ∷ d) xs (inr h)
durable-grows e d (append x false ∷ xs) h = durable-grows e d xs h
durable-grows e d (enqueue_event t x ∷ xs) h = durable-grows e d xs h
durable-grows e d (count_event x ∷ xs) h = durable-grows e d xs h
durable-grows e d (save_state s ok ∷ xs) h = durable-grows e d xs h
durable-grows e d (show_state s a ∷ xs) h = durable-grows e d xs h
durable-grows e d (start_probes s ∷ xs) h = durable-grows e d xs h
durable-grows e d (stop_probes s ∷ xs) h = durable-grows e d xs h
durable-grows e d (record_recovery a b c ∷ xs) h = durable-grows e d xs h
durable-grows e d (enqueue_recovery t fill es ∷ xs) h = durable-grows e d xs h

-- The actions are in order, and where they succeed the log has the given events.
abbrev pub Good : List Event → Actions → List Event → Type 0
Good d (as', ok) es = Ahead d as' × (ok ≡ true → All (λ e. In e (durable d as')) es)

All-grows :
    (es d : List Event) (xs : List Action)
    → All (λ e. In e d) es
    → All (λ e. In e (durable d xs)) es
All-grows es d xs h =
    All-imp (λ e. In e d) (λ e. In e (durable d xs)) es (λ e k. durable-grows e d xs k) h

-- What comes after actions that succeed may rest on the events that they wrote.
pub then_do-Good :
    (d : List Event) (x rest : Actions) (es fs : List Event)
    → Good d x es
    → ((d' : List Event) → All (λ e. In e d') es → Good d' rest fs)
    → Good d (then_do x rest) (es ++ fs)
then_do-Good d (xs, false) rest es fs h k = (h.0, λ no. absurd (cc))
then_do-Good d (xs, true) (ys, ok) es fs h k =
    let held = h.1 refl in
    let r = k (durable d xs) held in
    (
      Ahead-append d xs ys h.0 r.0,
      λ yes. rw (durable-append d xs ys) (
          All-append (λ e. In e (durable (durable d xs) ys)) es fs
            (All-grows es (durable d xs) ys held) (r.1 yes)),
    )

pub logged-Good :
    (d : List Event) (e : Event) (b c : Bool)
    → b ≡ true
    → Good d (if b then (append e c ∷ [], c) else ([], true)) (e ∷ [])
logged-Good d e false c h = absurd (cc)
logged-Good d e true true h = (tt, λ yes. (inl refl, tt))
logged-Good d e true false h = (tt, λ no. absurd (cc))

pub saved-Good :
    (d : List Event) (s : ServiceState) (b c : Bool)
    → Good d (if b then (save_state s c ∷ [], c) else ([], true)) []
saved-Good d s false c = (tt, λ yes. tt)
saved-Good d s true c = (tt, λ yes. tt)

pub enqueued-Good :
    (d : List Event) (e : Event) (targets : List String)
    → In e d
    → Good d (map (λ t. enqueue_event t e) targets, true) []
enqueued-Good d e [] h = (tt, λ yes. tt)
enqueued-Good d e (t ∷ targets) h = ((h, (enqueued-Good d e targets h).0), λ yes. tt)

pub recovery-Good :
    (d : List Event) (fill : List StateSample) (es : List Event) (targets : List String)
    → All (λ e. In e d) es
    → Good d (map (λ t. enqueue_recovery t fill es) targets, true) []
recovery-Good d fill es [] h = (tt, λ yes. tt)
recovery-Good d fill es (t ∷ targets) h = ((h, (recovery-Good d fill es targets h).0), λ yes. tt)

pub probing-Ahead :
    (d : List Event) (service : String) (b : Bool)
    → Ahead d ((if b then start_probes service else stop_probes service) ∷ [])
probing-Ahead d service true = tt
probing-Ahead d service false = tt

pub joined-Good :
    (d : List Event) (x : Actions) (e : Engine) (es : List Event) (rest : Imported)
    → Good d x es
    → ((d' : List Event) → Good d' (rest.actions) (rest.recovered))
    → Good d ((joined x e es rest).actions) ((joined x e es rest).recovered)
joined-Good d (xs, true) e es rest h k =
    then_do-Good d (xs, true) (rest.actions) es (rest.recovered) h (λ d' held. k d')
joined-Good d (xs, false) e es rest h k = (h.0, λ no. absurd (cc))
