-- ===== src/Recovery/Journal.antt =====
-- internal/recovery/journal.go: what becomes of the records that journalctl prints. The command
-- and the decoding of a line are outside; a run of the command is an `Output`.
use systemd_transition_expor.Base.{
  ℕ, ◌*◌, ◌/◌, ◌%◌, String, Bool, true, false, not, ◌&&◌, ◌||◌, Option, none, some, List, [], ◌∷◌,
  ◌++◌, ltb, leb, ◌==◌, if◌then◌else◌, str_eq, u64_mod, inl, inr, is_none, ◌⊎◌,
}
use systemd_transition_expor.Base.Text.{Text, codes, text_eq, trim_space, to_lower, has_prefix}
use systemd_transition_expor.Base.Decimal.{number}
use systemd_transition_expor.Base.Sort.{sort_stable}
use systemd_transition_expor.Model.{
  AvailabilityState, up, down, state_name, recovery, canonical_boot_id, Event,
}
use systemd_transition_expor.RemoteWrite.Series.{str_lt}
use systemd_transition_expor.Recovery.Slot.{unix_milli}

-- `journalRecord`; the fields that the code reads.
pub record JournalRecord : Type 0 where
  pub message : Text
  pub message_id : Text
  pub unit : String
  pub boot_id : String
  pub rtus : Text

abbrev pub message_id_unit_started : Text
message_id_unit_started = codes "39f53479d3a045ac8e11786248231fbf"

abbrev pub message_id_unit_stopped : Text
message_id_unit_stopped = codes "9d1aaa27d60140bd96365438aad20286"

abbrev pub message_id_unit_failed : Text
message_id_unit_failed = codes "7d4958e842da4a758f6c1cdc7b36dcc5"

-- `none` where the code returns false.
unfoldable pub message_state : Text → Text → Option AvailabilityState
message_state message_id message =
    let i = to_lower (trim_space message_id) in
    let m = to_lower (trim_space message) in
    if text_eq i message_id_unit_started
    then some up
    else if text_eq i message_id_unit_stopped || text_eq i message_id_unit_failed
    then some down
    else if has_prefix m (codes "started ")
    then some up
    else if has_prefix m (codes "stopped ") || has_prefix m (codes "failed to start ")
    then some down
    else none

abbrev pub i64_mod : ℕ
i64_mod = u64_mod / 2

abbrev in_range : Option ℕ → ℕ
in_range none = 0
in_range (some v) = if ltb v i64_mod then v else 0

-- A negative number, an error and a number out of range all give 0.
unfoldable pub parse_timestamp_us : Text → ℕ
parse_timestamp_us s = parse (trim_space s)
  where
    parse : Text → ℕ
    parse [] = 0
    parse (c ∷ t) = if c == b'+' then in_range (number t) else in_range (number (c ∷ t))

-- `us*1000` as an `int64`: `none` for what is negative, which lies before every time here.
abbrev nanoseconds : ℕ → Option ℕ
nanoseconds us = let n = us * 1000 % u64_mod in if ltb n i64_mod then some n else none

abbrev within : ℕ → ℕ → Option ℕ → Bool
within from to none = false
within from to (some t) = not (ltb t from) && ltb t to

abbrev pub is_own : String → String → Bool
is_own unit service = str_eq unit "" || str_eq unit service

abbrev pub belongs : String → ℕ → ℕ → JournalRecord → Bool
belongs service from to r =
    let us = parse_timestamp_us r.rtus in
    is_own r.unit service && not (us == 0) && within from to (nanoseconds us)

-- A run of the command: whether it started, its decoded lines, the scanner's error, its status.
pub record Output : Type 0 where
  pub starts : Bool
  pub lines : List (Option JournalRecord)
  pub scan_error : Bool
  pub exit_status : ℕ

pub data JournalError : Type 0 where
  not_started scan_failed no_entries exited : JournalError

-- `none` where `Recover` returns the error.
unfoldable pub gathered : JournalError ⊎ List Event → Option (List Event) → Option (List Event)
gathered (inl no_entries) rest = rest
gathered (inl _) rest = none
gathered (inr es) none = none
gathered (inr es) (some rest) = some (es ++ rest)

abbrev pub earlier : Event → Event → Bool
earlier a b =
    if a.event_time_unix_ms == b.event_time_unix_ms
    then str_lt a.service b.service
    else ltb a.event_time_unix_ms b.event_time_unix_ms

unfoldable pub sort_events : Option (List Event) → Option (List Event)
sort_events none = none
sort_events (some es) = some (sort_stable earlier es)

-- `as_string` is the conversion of the bytes of a boot id.
module _ (as_string : Text → String) where
  unfoldable pub event_of : String → JournalRecord → AvailabilityState → Event
  event_of service r state = record {
    sequence = 0;
    service = service;
    state = state;
    event_time_unix_ms = parse_timestamp_us r.rtus / 1000;
    event_time_monotonic_us = 0;
    boot_id = as_string (canonical_boot_id (codes r.boot_id));
    source = recovery;
    systemd_active_state = state_name state;
    systemd_sub_state = "";
  }

  -- A record becomes an event if it tells of a transition of this unit between the two times.
  unfoldable pub recover_lines : String → ℕ → ℕ → List (Option JournalRecord) → List Event
  recover_lines service from to [] = []
  recover_lines service from to (none ∷ lines) = recover_lines service from to lines
  recover_lines service from to (some r ∷ lines) =
      let rest = recover_lines service from to lines in
      told (message_state r.message_id r.message) rest
    where
      told : Option AvailabilityState → List Event → List Event
      told none rest = rest
      told (some state) rest =
          if belongs service from to r then event_of service r state ∷ rest else rest

  unfoldable pub recover_unit : String → ℕ → ℕ → Output → JournalError ⊎ List Event
  recover_unit service from to o =
      if not o.starts
      then inl not_started
      else if o.scan_error
      then inl scan_failed
      else if o.exit_status == 0
      then inr (recover_lines service from to o.lines)
      else if o.exit_status == 1
      then inl no_entries
      else inl exited

  module _ (journal : String → Output) (from to : ℕ) where
    unfoldable pub recover_units : List String → Option (List Event)
    recover_units [] = some []
    recover_units (service ∷ services) =
        gathered (recover_unit service from to (journal service)) (recover_units services)

    unfoldable pub recover : List String → Option (List Event)
    recover services = if ltb to from then some [] else sort_events (recover_units services)

  -- `previousState`: the newest matching record before `at`; a status of 1 means no entry.
  unfoldable pub previous_of : String → ℕ → List (Option JournalRecord) → Option AvailabilityState
  previous_of service at [] = none
  previous_of service at (none ∷ lines) = previous_of service at lines
  previous_of service at (some r ∷ lines) =
      let rest = previous_of service at lines in
      let us = parse_timestamp_us r.rtus in
      told (message_state r.message_id r.message)
        (is_own r.unit service && not (us == 0 || leb (unix_milli at) (us / 1000))) rest
    where
      told : Option AvailabilityState → Bool → Option AvailabilityState → Option AvailabilityState
      told (some state) true rest = some state
      told _ _ rest = rest

  unfoldable pub previous_state : String → ℕ → Output → Option (Option AvailabilityState)
  previous_state service at o =
      let found = previous_of service at o.lines in
      if not o.starts
      then none
      else if o.scan_error && is_none found
      then none
      else if not (is_none found)
      then some found
      else if o.exit_status == 0 || o.exit_status == 1
      then some none
      else none
