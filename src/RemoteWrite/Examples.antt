-- ===== src/RemoteWrite/Examples.antt =====
-- A sender against a receiver that refuses once, and the theorems at that run.
use systemd_transition_expor.Base.{
  ℕ, ◌+◌, ◌≡◌, ◌≤◌, ◌<◌, refl, true, false, none, some, List, [], ◌∷◌, ◌==◌, if◌then◌else◌, arith,
  All,
}
use systemd_transition_expor.Base.{Bool, Option}
use systemd_transition_expor.Base.Dict.{lookup, insert, remove}
use systemd_transition_expor.Base.Text.{Text}
use systemd_transition_expor.RemoteWrite.Startup.{
  Files, MigrationFault, Migrated, migrate_checkpoint,
}
use systemd_transition_expor.RemoteWrite.Migration.{migrate_checkpoint-Migrated}
use systemd_transition_expor.Base.Sort.{sort_stable}
use systemd_transition_expor.Model.{Event, up, systemd}
use systemd_transition_expor.RemoteWrite.Series.{carries, event_points, request_of}
use systemd_transition_expor.RemoteWrite.{
  status, World, CheckpointFault, Sender, max_attempts, send, send_series, save_checkpoint,
  send_batches, send_batch, saved_batch, pending_events, attempt, settle, judge, asked, succeeded,
  note_retry, note_failure, checked, then_rest,
}
use systemd_transition_expor.RemoteWrite.Series.{request_of-carries}
use systemd_transition_expor.RemoteWrite.Attempts.{Attempted, send_series-Attempted}
use systemd_transition_expor.RemoteWrite.Delivery.{acknowledged}
use systemd_transition_expor.RemoteWrite.Checkpoint.{send_delivers, send_skips_nothing}

abbrev no_fault : CheckpointFault
no_fault = record {
  mkdir = false;
  open_tmp = false;
  write = false;
  sync = false;
  close = false;
  rename = false;
  dir_open = false;
  dir_sync = false;
  dir_close = false;
}

-- The first request meets a 503, the later ones are accepted.
abbrev refuses_once : World
refuses_once = record {
  net = λ n. if n == 0 then status 503 else status 204;
  ends = λ n. false;
  disk = λ n. no_fault;
  encodes = λ r. true;
  makes = λ n. true;
}

abbrev rejects : World
rejects = record refuses_once { net = λ n. status 400 }

abbrev fresh : Sender
fresh = record {
  batch_size = 2;
  last_sent = 1;
  stats = record { successful_requests = 0; failed_requests = 0; retries = 0; sent_samples = 0 };
  checkpoint = some 1;
  accepted = [];
  requests = 0;
  saves = 0;
}

abbrev event : ℕ → Event
event n = record {
  service = "sip.service";
  state = up;
  event_time_unix_ms = 1000 + n;
  event_time_monotonic_us = 0;
  systemd_sub_state = "running";
  sequence = n;
  boot_id = "b";
  source = systemd;
  systemd_active_state = "active";
}

abbrev events : List Event
events = event 3 ∷ event 1 ∷ event 2 ∷ event 4 ∷ []

sends : (send refuses_once events fresh).0 ≡ none
unfolding send send_batches send_batch send_series attempt settle judge asked succeeded note_retry
    note_failure saved_batch save_checkpoint checked then_rest pending_events sort_stable
sends = refl

send_delivers_example :
    All
      (λ e. 1 < e.sequence → acknowledged (send refuses_once events fresh).1.accepted e ≡ true)
      events
send_delivers_example = send_delivers refuses_once 1 events fresh refl (omega arith) sends

send_skips_nothing_example :
    (fresh.last_sent ≤ (send rejects events fresh).1.last_sent)
    × All
        (λ e.
          fresh.last_sent < e.sequence
          → e.sequence ≤ (send rejects events fresh).1.last_sent
          → acknowledged (send rejects events fresh).1.accepted e ≡ true)
        events
send_skips_nothing_example = send_skips_nothing rejects 1 events fresh refl (omega arith)

send_series-Attempted_example :
    Attempted true max_attempts
      (request_of (event_points events))
      fresh
      (send_series refuses_once (request_of (event_points events)) fresh).0
      (send_series refuses_once (request_of (event_points events)) fresh).1
send_series-Attempted_example =
    send_series-Attempted refuses_once (request_of (event_points events)) fresh

request_of-carries_example :
    All (λ p. carries (request_of (event_points events)) p ≡ true) (event_points events)
request_of-carries_example = request_of-carries (event_points events)

-- A migration that cannot write its marker, and one that can.
abbrev migration : Bool → MigrationFault
migration fails = record {
  marker_read = false;
  stat = false;
  source_read = false;
  mkdir = false;
  create = false;
  write = false;
  written = 0;
  sync = false;
  close = false;
  removes = true;
  marker_write = fails;
  left_marker = some [];
}

abbrev legacy : Files
legacy = ("old", 53 ∷ []) ∷ []

abbrev as_five : Text → Option ℕ
as_five t = some 5

migrate_checkpoint-Migrated_example :
    let r = migrate_checkpoint as_five (migration true) "old" "new" "old.migrated" [] legacy in
    (lookup "old" (r.1) ≡ lookup "old" legacy) × Migrated "old" "new" "old.migrated" legacy r
migrate_checkpoint-Migrated_example =
    migrate_checkpoint-Migrated as_five (migration true) "old" "new" "old.migrated" [] legacy refl
      refl refl refl

taken_back :
    lookup "new"
      ((migrate_checkpoint as_five (migration true) "old" "new" "old.migrated" [] legacy).1)
    ≡ none
unfolding migrate_checkpoint lookup insert remove
taken_back = refl

-- Once there is a marker another destination gets nothing.
one_shot :
    let once =
      (migrate_checkpoint as_five (migration false) "old" "new" "old.migrated" [] legacy).1 in
    migrate_checkpoint as_five (migration false) "old" "newer" "old.migrated" [] once ≡ (true, once)
unfolding migrate_checkpoint lookup insert remove
one_shot = refl
