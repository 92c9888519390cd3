-- ===== src/Recovery/Timed.antt =====
-- internal/recovery/journal.go: the times and units of the events that are read from the journal.
use systemd_transition_expor.Base.{
  ℕ, ◌*◌, ◌/◌, ◌≤◌, ◌<◌, ◌≡◌, refl, String, Bool, true, Option, none, some, List, [], ◌∷◌, arith,
  All, Bool-cases, Option-cases, inl, inr, ◌⊎◌, if◌then◌else◌,
}
use systemd_transition_expor.Base.Text.{Text}
use systemd_transition_expor.Model.{AvailabilityState, up, down, Event}
use systemd_transition_expor.Recovery.Slot.{unix_milli}
use systemd_transition_expor.Recovery.Journal.{
  JournalRecord, message_state, parse_timestamp_us, belongs, event_of, recover_lines, i64_mod,
}

-- A time that an `int64` holds in nanoseconds, that is, before the year 2262.
abbrev pub IsTimed : Option JournalRecord → Type 0
IsTimed none = Unit
IsTimed (some r) = parse_timestamp_us r.rtus * 1000 < i64_mod

chosen-IsKnown :
    (a b c d : Bool) (s : AvailabilityState)
    → (if a
        then some up
        else if b
        then some down
        else if c
        then some up
        else if d
        then some down
        else none)
      ≡ some s
    → (s ≡ up) ⊎ (s ≡ down)
chosen-IsKnown a b c d s h = ground arith

message_state-IsKnown :
    (i m : Text) (s : AvailabilityState) → message_state i m ≡ some s → (s ≡ up) ⊎ (s ≡ down)
unfolding message_state
message_state-IsKnown i m s h = search chosen-IsKnown

belongs-window :
    (service : String) (from to : ℕ) (r : JournalRecord)
    → IsTimed (some r)
    → belongs service from to r ≡ true
    → (unix_milli from ≤ parse_timestamp_us r.rtus / 1000)
      × (parse_timestamp_us r.rtus / 1000 ≤ unix_milli to)
belongs-window service from to r t h = ground arith

abbrev pub InWindow : String → ℕ → ℕ → Event → Type 0
InWindow service from to e =
    (e.service ≡ service)
    × ((e.state ≡ up) ⊎ (e.state ≡ down))
    × (unix_milli from ≤ e.event_time_unix_ms)
    × (e.event_time_unix_ms ≤ unix_milli to)

-- Every event that is read from the journal's lines names the unit, is UP or DOWN, and lies
-- between the milliseconds of the two times, if the records' times are before the year 2262.
pub recover_lines-InWindow :
    (as_string : Text → String) (service : String) (from to : ℕ)
    (lines : List (Option JournalRecord))
    → All IsTimed lines
    → All (InWindow service from to) (recover_lines as_string service from to lines)
unfolding recover_lines event_of
recover_lines-InWindow as_string service from to [] h = tt
recover_lines-InWindow as_string service from to (none ∷ lines) h =
    recover_lines-InWindow as_string service from to lines h.1
recover_lines-InWindow as_string service from to (some r ∷ lines) h =
    let ih = recover_lines-InWindow as_string service from to lines h.1 in
    elim (Option-cases (message_state r.message_id r.message)) [
      | inl e ↦ rw e ih
      | inr (state, e) ↦ elim (Bool-cases (belongs service from to r)) [
        | inl b ↦
            rw (e, b)
              (
                (
                  refl,
                  message_state-IsKnown r.message_id r.message state e,
                  (belongs-window service from to r h.0 b).0,
                  (belongs-window service from to r h.0 b).1,
                ),
                ih,
              )
        | inr b ↦ rw (e, b) ih
      ]
    ]
