-- ===== src/Wal/Examples.antt =====
-- A log on a disk that fills up and recovers, and a log cut in the middle of a record.
use systemd_transition_expor.Base.{
  ℕ, ◌+◌, ◌≡◌, refl, true, false, ◌⊎◌, none, some, [], ◌∷◌, ◌++◌, take, is_none,
}
use systemd_transition_expor.Model.{down, systemd, Event, zero_state}
use systemd_transition_expor.Wal.SampleCodec.{sample_codec}
use systemd_transition_expor.Wal.Records.{newline, read_all, repair}
use systemd_transition_expor.Wal.Replay.{lines, survivor, torn_append, replay_after_crash}
use systemd_transition_expor.Wal.Append.{Holds}
use systemd_transition_expor.Wal.Ledger.{Accepts, append-Accepts, save_state-Holds}
use systemd_transition_expor.Wal.StateFile.{payload, write_state_atomic}
use systemd_transition_expor.Wal.{
  no_space, WriteFault, StateFault, Faults, Wal, append, save_state, write_state,
}

abbrev event : ℕ → Event
event n = record {
  sequence = n;
  service = "named.service";
  state = down;
  event_time_unix_ms = 1000 + n;
  event_time_monotonic_us = 5;
  boot_id = "b1";
  source = systemd;
  systemd_active_state = "inactive";
  systemd_sub_state = "dead";
}

abbrev works : WriteFault
works = record { seek = none; arrived = 1000; write = none; truncates = true; sync = none }

-- Three bytes arrive, then the disk is full.
abbrev full : WriteFault
full = record { seek = none; arrived = 3; write = some no_space; truncates = true; sync = none }

abbrev state_works : StateFault
state_works = record {
  open_tmp = none;
  arrived = 1000;
  write = none;
  sync = none;
  close = none;
  rename = none;
  remove = none;
  rename_again = none;
  dir_open = none;
  dir_sync = none;
  dir_close = none;
}

abbrev disk_full : Faults
disk_full = record { pre_sync = none; flushed = λ i. full; own = full; on_state = state_works }

abbrev disk_works : Faults
disk_works = record { pre_sync = none; flushed = λ i. works; own = works; on_state = state_works }

abbrev one_event : Wal
one_event = record {
  events = lines sample_codec (event 1 ∷ []);
  state_json = none;
  fsync = true;
  states = [];
  repaired = record { skipped_records = 0; truncated_bytes = 0; state_reset = false };
  pending = [];
  state_dirty = false;
  sync_needed = false;
  blocked = false;
}

one_event-Holds : Holds sample_codec (event 1 ∷ []) one_event
one_event-Holds = record { file = event 1 ∷ []; on_disk = refl; in_order = refl }

append-Accepts_example :
    Accepts sample_codec
      (event 1 ∷ [])
      (event 2)
      (append sample_codec disk_full (event 2) one_event).0
      (append sample_codec disk_full (event 2) one_event).1
append-Accepts_example =
    append-Accepts sample_codec (event 1 ∷ []) disk_full (event 2) one_event
      (record { own = refl; flushed = λ i. refl }) one_event-Holds

save_state-Holds_example :
    Holds sample_codec
      (event 1 ∷ [])
      (save_state sample_codec disk_full (record zero_state { service = "a" }) one_event).1
save_state-Holds_example =
    save_state-Holds sample_codec (event 1 ∷ []) disk_full (record zero_state { service = "a" })
      one_event (record { own = refl; flushed = λ i. refl }) one_event-Holds

torn_append_example :
    (repair sample_codec (
      lines sample_codec (event 1 ∷ [])
      ++ take 7 (sample_codec.encode (event 2) ++ newline ∷ []))).1
    ≡ lines sample_codec (event 1 ∷ survivor sample_codec 7 (event 2))
torn_append_example = torn_append sample_codec (event 1 ∷ []) (event 2) 7

replay_after_crash_example :
    read_all sample_codec
      (repair sample_codec (
        lines sample_codec (event 1 ∷ [])
        ++ take 7 (sample_codec.encode (event 2) ++ newline ∷ []))).1
    ≡ (
      event 1 ∷ survivor sample_codec 7 (event 2),
      record { skipped_records = 0; truncated_bytes = 0; state_reset = false },
    )
replay_after_crash_example = replay_after_crash sample_codec (event 1 ∷ []) (event 2) 7

-- Three bytes of the new content arrive.
abbrev torn_state : StateFault
torn_state = record state_works { arrived = 3; write = some no_space }

write_state_atomic_example :
    ((write_state sample_codec torn_state one_event).0 ≡ none
      → (write_state sample_codec torn_state one_event).1.state_json
        ≡ some (payload sample_codec one_event))
    × (((write_state sample_codec torn_state one_event).1.state_json ≡ none)
        ⊎ ((write_state sample_codec torn_state one_event).1.state_json
            ≡ some (payload sample_codec one_event))
        ⊎ (((write_state sample_codec torn_state one_event).1.state_json ≡ none)
            × (is_none torn_state.rename ≡ false)
            × (is_none (write_state sample_codec torn_state one_event).0 ≡ false)))
write_state_atomic_example = write_state_atomic sample_codec torn_state one_event
