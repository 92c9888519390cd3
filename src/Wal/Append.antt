-- ===== src/Wal/Append.antt =====
-- `writeEvent` and `flushLocked` of internal/wal/wal.go against the file and the pending events.
use systemd_transition_expor.Base.{
  ℕ, suc, ◌+◌, ◌≡◌, refl, Bool, true, false, not, ◌&&◌, inl, inr, Option, none, some, List, [], ◌∷◌,
  ◌++◌, ltb, lt→ltb, ◌==◌, if◌then◌else◌, length, take, is_none, arith, sym, ap, ◌∙◌, Bool-cases,
  Option-cases,
}
use mathlib.Core.List.{append-nil, append_assoc}
use systemd_transition_expor.Base.Text.{Text}
use systemd_transition_expor.Model.{Event}
use systemd_transition_expor.Wal.Codec.{EventCodec}
use systemd_transition_expor.Wal.Records.{newline}
use systemd_transition_expor.Wal.Replay.{lines, lines-append}
use systemd_transition_expor.Wal.{
  Errno, other, WriteFault, Faults, Wal, append_record, sync_event, flushed_one, write_event,
  flush_pending,
}

-- A failed write was rolled back.
abbrev pub RollsBack : WriteFault → Type 0
RollsBack f = f.truncates ≡ true

pub record AllRollBack (f : Faults) : Type 0 where
  pub own : RollsBack f.own
  pub flushed : (i : ℕ) → RollsBack (f.flushed i)

rolled_back :
    (s arrived : Text) (b : Bool)
    → b ≡ true
    → (if ltb 0 (length arrived) && b then s else s ++ arrived) ≡ s
rolled_back s [] b h = append-nil s
rolled_back s (c ∷ arrived) b h = rw (lt→ltb 0 (suc (length arrived)) (omega arith), h)

-- What `appendRecord` may come to: the file is longer by the payload, or as it was.
data Appended (w : Wal) (payload : Text) (r : Option Errno) (w' : Wal) : Type 0 where
  grown : r ≡ none → w' ≡ record w { events = w.events ++ payload } → Appended w payload r w'
  refused : (x : Errno) → r ≡ some x → w' ≡ w → Appended w payload r w'

append_record-Appended :
    (f : WriteFault) (payload : Text) (w : Wal)
    → RollsBack f
    → Appended w payload (append_record f payload w).0 (append_record f payload w).1
unfolding append_record
append_record-Appended f payload w h =
    let arrived = take f.arrived payload in
    elim (Option-cases f.seek) [
      | inr (x, c) ↦ rw c (refused x refl refl)
      | inl c ↦ elim (Bool-cases (is_none f.write && length arrived == length payload)) [
        | inl d ↦ rw (c, d) (grown refl refl)
        | inr d ↦
            rw (c, d)
              (elim (Option-cases f.write) [
                | inl g ↦ refused other (rw g) (rw (rolled_back w.events arrived f.truncates h))
                | inr (x, g) ↦ refused x (rw g) (rw (rolled_back w.events arrived f.truncates h))
              ])
      ]
    ]

-- What a write of an event may come to: stored, in the file but not durable, or not written.
pub data Written (w : Wal) (payload : Text) (r : Option Errno) (w' : Wal) : Type 0 where
  stored : r ≡ none → w' ≡ record w { events = w.events ++ payload } → Written w payload r w'
  unsynced :
      (x : Errno)
      → r ≡ some x
      → w' ≡ record w { events = w.events ++ payload; sync_needed = true }
      → Written w payload r w'
  failed : (x : Errno) → r ≡ some x → w' ≡ w → Written w payload r w'

module _ (codec : EventCodec) where
  open codec use {encode}

  abbrev pub line : Event → Text
  line v = encode v ++ newline ∷ []

  sync_event-Written :
      (f : WriteFault) (w : Wal) (payload : Text) (r : Option Errno) (w' : Wal)
      → Appended w payload r w'
      → Written w payload (sync_event codec f r w').0 (sync_event codec f r w').1
  unfolding sync_event
  sync_event-Written f w payload r w' (refused x e same) = rw e (failed x refl same)
  sync_event-Written f w payload r w' (grown e same) =
      rw e (elim (Bool-cases (w'.fsync && not (is_none f.sync))) [
        | inr c ↦ rw c (stored refl same)
        | inl c ↦ rw c (elim (Option-cases f.sync) [
          | inl d ↦ absurd (no_sync w'.fsync f.sync c d)
          | inr (x, d) ↦
              unsynced x d
                (ap (λ (t : Wal). let q : Wal = record t { sync_needed = true } in q) same)
        ])
      ])
    where
      no_sync : (b : Bool) (o : Option Errno) → (b && not (is_none o)) ≡ true → o ≡ none → ⊥
      no_sync b o c d = ground arith

  pub write_event-Written :
      (f : WriteFault) (v : Event) (w : Wal)
      → RollsBack f
      → Written w (line v) (write_event codec f v w).0 (write_event codec f v w).1
  unfolding write_event
  write_event-Written f v w h =
      sync_event-Written f w (line v) _ _ (append_record-Appended f (line v) w h)

  -- The file consists of whole lines, and its events followed by the pending ones are `all`.
  pub record Holds (all : List Event) (w : Wal) : Type 0 where
    pub file : List Event
    pub on_disk : w.events ≡ lines codec file
    pub in_order : file ++ w.pending ≡ all

  pub snoc_line :
      (file : List Event) (v : Event) → lines codec file ++ line v ≡ lines codec (file ++ v ∷ [])
  snoc_line file v = sym (
      lines-append codec file (v ∷ [])
      ∙ unfold lines in ap (λ t. lines codec file ++ t) (append-nil (line v)))

  Holds-grown :
      (all : List Event) (w w' : Wal) (v : Event) (rest : List Event)
      → Holds all w
      → w.pending ≡ v ∷ rest
      → w'.events ≡ w.events ++ line v
      → w'.pending ≡ rest
      → Holds all w'
  Holds-grown all w w' v rest h p e q = record {
    file = h.file ++ v ∷ [];
    on_disk = e ∙ (ap (λ t. t ++ line v) h.on_disk ∙ snoc_line h.file v);
    in_order =
        ap (λ t. (h.file ++ v ∷ []) ++ t) q
        ∙ (append_assoc h.file (v ∷ []) rest ∙ (ap (λ t. h.file ++ t) (sym p) ∙ h.in_order));
  }

  pub Holds-same :
      (all : List Event) (w w' : Wal)
      → Holds all w
      → w'.events ≡ w.events
      → w'.pending ≡ w.pending
      → Holds all w'
  Holds-same all w w' h e q = record {
    file = h.file;
    on_disk = e ∙ h.on_disk;
    in_order = ap (λ t. h.file ++ t) q ∙ h.in_order;
  }

  -- The log after a flush: nothing lost, and nothing left to do if it succeeded.
  pub record Flushed (all : List Event) (r : Option Errno) (w : Wal) : Type 0 where
    pub holds : Holds all w
    pub drained : r ≡ none → w.pending ≡ []
    pub synced : r ≡ none → w.sync_needed ≡ false

  flushed_one-Flushed :
      (all : List Event) (v : Event) (rest : List Event) (w : Wal) (r : Option Errno) (w' : Wal)
      (next : Option Errno × Wal)
      → Holds all w
      → w.pending ≡ v ∷ rest
      → w.sync_needed ≡ false
      → Written w (line v) r w'
      → (r ≡ none
          → w'.sync_needed ≡ false
          → Holds all (record w' { pending = rest })
          → Flushed all next.0 next.1)
      → Flushed all (flushed_one codec r rest w' next).0 (flushed_one codec r rest w' next).1
  unfolding flushed_one
  flushed_one-Flushed all v rest w r w' next h p n (stored e same) go = rw e (
      go e (ap (λ t. t.sync_needed) same ∙ n)
        (Holds-grown all w _ v rest h p (ap (λ t. t.events) same) refl))
  flushed_one-Flushed all v rest w r w' next h p n (unsynced x e same) go = rw e (
      simp (ap (λ (t : Wal). t.sync_needed) same) (record {
        holds = Holds-grown all w _ v rest h p (ap (λ t. t.events) same) refl;
        drained = λ z. cc;
        synced = λ z. cc;
      }))
  flushed_one-Flushed all v rest w r w' next h p n (failed x e same) go = rw e (
      simp (ap (λ (t : Wal). t.sync_needed) same ∙ n) (record {
        holds = Holds-same all w w' h (ap (λ t. t.events) same) (ap (λ t. t.pending) same);
        drained = λ z. cc;
        synced = λ z. cc;
      }))

  pub flush_pending-Flushed :
      (fs : ℕ → WriteFault) (i : ℕ) (vs : List Event) (all : List Event) (w : Wal)
      → ((j : ℕ) → RollsBack (fs j))
      → Holds all w
      → w.pending ≡ vs
      → w.sync_needed ≡ false
      → Flushed all (flush_pending codec fs i vs w).0 (flush_pending codec fs i vs w).1
  unfolding flush_pending
  flush_pending-Flushed fs i [] all w f h p n = record {
    holds = h;
    drained = λ z. p;
    synced = λ z. n;
  }
  flush_pending-Flushed fs i (v ∷ vs) all w f h p n =
      let (r, w') = write_event codec (fs i) v w in
      let w'' : Wal = record w' { pending = vs } in
      flushed_one-Flushed all v vs w r w' (flush_pending codec fs (i + 1) vs w'') h p n
        (write_event-Written (fs i) v w (f i))
        (λ e m g. flush_pending-Flushed fs (i + 1) vs all w'' f g refl m)
