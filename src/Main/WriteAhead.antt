-- ===== src/Main/WriteAhead.antt =====
-- The order of appending and handing on in the callbacks of main.go.
use systemd_transition_expor.Base.{
  ℕ, ◌≡◌, String, Bool, true, false, Option, none, some, List, [], ◌∷◌, ◌++◌, map, if◌then◌else◌,
  All, Bool-cases, inl, inr,
}
use systemd_transition_expor.Base.Text.{is_empty}
use systemd_transition_expor.Model.{EventSource, UnitSnapshot, Event, ServiceState, StateSample, up}
use systemd_transition_expor.Engine.{Engine, state, apply, confirm_ready, apply_recovery}
use systemd_transition_expor.Recovery.Slot.{recovery_window}
use systemd_transition_expor.Main.{
  enqueue_event, count_event, show_state, Outside, Actions, then_do, append_event, save,
  persist_event, persist_all, on_snapshot, saved_if_any, published, publish_ready, save_current,
  import_event, import_events, import_all, deliver, state_after, recovered_slot, on_recovery,
  probes_for,
}
use systemd_transition_expor.Main.Ahead.{
  In, Ahead, Ahead-append, Good, then_do-Good, logged-Good, saved-Good, enqueued-Good,
  recovery-Good, probing-Ahead, joined-Good,
}

module _ (o : Outside) (logged : o.log_enabled ≡ true) where
  append_event-Good : (d : List Event) (e : Event) → Good d (append_event o e) (e ∷ [])
  unfolding append_event
  append_event-Good d e = logged-Good d e (o.log_enabled) (o.accepts e) logged

  save-Good : (d : List Event) (s : ServiceState) → Good d (save o s) []
  unfolding save
  save-Good d s = saved-Good d s (o.log_enabled) (o.saves s)

  persist_event-Good :
      (d : List Event) (e : Event) (b : Bool) → Good d (persist_event o e b) (e ∷ [])
  unfolding persist_event
  persist_event-Good d e true =
      then_do-Good d (append_event o e) (map (λ t. enqueue_event t e) (o.targets), true) (e ∷ []) []
        (append_event-Good d e) (λ d' h. enqueued-Good d' e (o.targets) h.0)
  persist_event-Good d e false =
      then_do-Good d (append_event o e) ([], true) (e ∷ []) [] (append_event-Good d e)
        (λ d' h. (tt, λ yes. tt))

  persist_all-Good : (d : List Event) (es : List Event) → Good d (persist_all o es) es
  unfolding persist_all
  persist_all-Good d [] = (tt, λ yes. tt)
  persist_all-Good d (e ∷ es) =
      then_do-Good d (persist_event o e true)
        (then_do (count_event e ∷ [], true) (persist_all o es)) (e ∷ []) es
        (persist_event-Good d e true)
        (λ d' h.
          then_do-Good d' (count_event e ∷ [], true) (persist_all o es) [] es ((h.0, tt), λ yes. tt)
            (λ d'' k. persist_all-Good d'' es))

  shown-Ahead :
      (d : List Event) (s : Option ServiceState) (service : String)
      → Ahead d (saved_if_any o s ++ show_state service up ∷ [])
  unfolding saved_if_any
  shown-Ahead d none service = tt
  shown-Ahead d (some s) service =
      Ahead-append d ((save o s).0) (show_state service up ∷ []) ((save-Good d s).0) tt

  current-Good : (d : List Event) (s : Option ServiceState) → Good d (save_current o s) []
  unfolding save_current
  current-Good d none = (tt, λ yes. tt)
  current-Good d (some s) = save-Good d s

  on_snapshot-Ahead :
      (d : List Event) (e : Engine) (s : UnitSnapshot) → Ahead d (((on_snapshot o e s).0).0)
  unfolding on_snapshot
  on_snapshot-Ahead d e s =
      let r = apply e s in
      let now = state_after s (state (r.0) (s.service)) in
      let last : Actions =
        (show_state (s.service) (now.availability) ∷ probes_for now (s.service), true) in
      (then_do-Good d (persist_all o (r.1)) (then_do (save o now) last) (r.1) []
        (persist_all-Good d (r.1))
        (λ d' h.
          then_do-Good d' (save o now) last [] [] (save-Good d' now)
            (λ d'' k. (probing-Ahead d'' (s.service) (now.awaiting_sip), λ yes. tt)))).0

  published-Ahead :
      (d : List Event) (r : Engine × Option Event) (service : String)
      → Ahead d (((published o r service).0).0)
  unfolding published saved_if_any
  published-Ahead d (e, none) service = tt
  published-Ahead d (e, some event) service =
      (then_do-Good d (persist_event o event true) _ (event ∷ []) []
        (persist_event-Good d event true)
        (λ d' h. ((h.0, shown-Ahead d' (state e service) service), λ yes. tt))).0

  import_event-Good :
      (d : List Event) (e : Engine) (event : Event) → Good d (import_event o e event) (event ∷ [])
  unfolding import_event save_current
  import_event-Good d e event =
      let after = save_current o (state e (event.service)) in
      then_do-Good d (persist_event o event false) (then_do (count_event event ∷ [], true) after)
        (event ∷ []) [] (persist_event-Good d event false)
        (λ d' h.
          then_do-Good d' (count_event event ∷ [], true) after [] [] ((h.0, tt), λ yes. tt)
            (λ d'' k. current-Good d'' (state e (event.service))))

  import_events-Good :
      (d : List Event) (e : Engine) (es : List Event) → Good d (import_events o e es) es
  unfolding import_events
  import_events-Good d e [] = (tt, λ yes. tt)
  import_events-Good d e (event ∷ es) =
      then_do-Good d (import_event o e event) (import_events o e es) (event ∷ []) es
        (import_event-Good d e event) (λ d' h. import_events-Good d' e es)

  import_all-Good :
      (d : List Event) (e : Engine) (candidates : List Event)
      → Good d ((import_all o e candidates).actions) ((import_all o e candidates).recovered)
  unfolding import_all
  import_all-Good d e [] = (tt, λ yes. tt)
  import_all-Good d e (c ∷ candidates) =
      let r = apply_recovery e c in
      joined-Good d (import_events o (r.0) (r.1)) (r.0) (r.1) (import_all o (r.0) candidates)
        (import_events-Good d (r.0) (r.1)) (λ d'. import_all-Good d' (r.0) candidates)

  deliver-Good :
      (d : List Event) (es : List Event) (fill : Option (List StateSample))
      → All (λ e. In e d) es
      → Good d (deliver o es fill) []
  deliver-Good d es none h = (tt, λ no. tt)
  deliver-Good d es (some fill) h = recovery-Good d fill es (o.targets) h

  recovered_slot-Ahead :
      (d : List Event) (e : Engine) (from : ℕ) (slot : Option (ℕ × ℕ)) (found : Option (List Event))
      (fill : Option (List StateSample))
      → Ahead d (((recovered_slot o e from slot found fill).0).0)
  unfolding recovered_slot
  recovered_slot-Ahead d e from none found fill = tt
  recovered_slot-Ahead d e from (some (start, end)) none fill = tt
  recovered_slot-Ahead d e from (some (start, end)) (some candidates) fill =
      let i = import_all o e candidates in
      let last = if is_empty (o.targets) then ([], true) else deliver o (i.recovered) fill in
      (then_do-Good d (i.actions) last (i.recovered) [] (import_all-Good d e candidates) (λ d' h.
        elim (Bool-cases (is_empty (o.targets))) [
          | inl k ↦ rw k (tt, λ yes. tt)
          | inr k ↦ rw k (deliver-Good d' (i.recovered) fill h)
        ])).0

-- With a log that is enabled, whatever it takes and refuses: in each of the three callbacks an event
-- is handed to the workers, by itself or as one of a recovery, and counted by the metrics only after
-- the log has taken it.
pub callbacks-Ahead :
    (o : Outside) (e : Engine) (s : UnitSnapshot) (service : String) (at : ℕ) (source : EventSource)
    (offset size from to : ℕ) (found : Option (List Event)) (fill : Option (List StateSample))
    → o.log_enabled ≡ true
    → Ahead [] (((on_snapshot o e s).0).0)
      × Ahead [] (((publish_ready o e service at source).0).0)
      × Ahead [] (((on_recovery o offset size e from to found fill).0).0)
unfolding publish_ready on_recovery
callbacks-Ahead o e s service at source offset size from to found fill logged = (
  on_snapshot-Ahead o logged [] e s,
  published-Ahead o logged [] (confirm_ready e service at source) service,
  recovered_slot-Ahead o logged [] e from (recovery_window offset to size) found fill,
)
