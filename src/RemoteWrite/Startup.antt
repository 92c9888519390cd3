-- ===== src/RemoteWrite/Startup.antt =====
-- What happens before the first send: MigrateCheckpoint, New and loadCheckpoint. A file is its bytes
-- under its path; JSON is a parameter.
use systemd_transition_expor.Base.{
  ℕ, ◌≡◌, ◌⊎◌, String, Bool, true, false, not, ◌||◌, Option, none, some, [], ◌∷◌, ◌++◌,
  if◌then◌else◌, str_eq, leb, take,
}
use systemd_transition_expor.Base.Dict.{Dict, lookup, insert, remove}
use systemd_transition_expor.Base.Text.{Text}
use systemd_transition_expor.RemoteWrite.{Stats, Sender}

abbrev pub Files : Type 0
Files = Dict Text

-- The calls that fail: reading the marker, the look at the destination, reading the source, and so
-- on in the order of the code; `removes` is whether the removal of a failed copy succeeds.
-- `written` bytes of the copy arrive if its write fails, and `left_marker` is what a failing write
-- leaves of the marker.
pub record MigrationFault : Type 0 where
  pub marker_read : Bool
  pub stat : Bool
  pub source_read : Bool
  pub mkdir : Bool
  pub create : Bool
  pub write : Bool
  pub written : ℕ
  pub sync : Bool
  pub close : Bool
  pub removes : Bool
  pub marker_write : Bool
  pub left_marker : Option Text

abbrev pub marked : String → Option Text → Files → Files
marked marker none files = files
marked marker (some t) files = insert marker t files

-- os.WriteFile of the marker, with what it says.
abbrev pub write_marker : MigrationFault → String → Text → Files → Bool × Files
write_marker f marker content files =
    if f.marker_write
    then (false, marked marker (f.left_marker) files)
    else (true, insert marker content files)

-- What the deferred function leaves of the destination when a later step has failed.
abbrev pub kept_if : MigrationFault → String → Bool × Files → Bool × Files
kept_if f destination (true, files) = (true, files)
kept_if f destination (false, files) =
    (false, if f.removes then remove destination files else files)

-- The new file is written, made durable and closed, and the marker is written.
abbrev pub copy : MigrationFault → String → String → Text → Text → Files → Bool × Files
copy f destination marker content bytes files =
    let created = insert destination (bytes ++ 10 ∷ []) files in
    let partial = insert destination (take f.written (bytes ++ 10 ∷ [])) files in
    if f.create
    then (false, files)
    else if f.write
    then kept_if f destination (false, partial)
    else if f.sync || f.close
    then kept_if f destination (false, created)
    else kept_if f destination (write_marker f marker content created)

module _ (decode : Text → Option ℕ) where
  abbrev pub decoded_copy :
      MigrationFault → String → String → Text → Text → Option ℕ → Files → Bool × Files
  decoded_copy f destination marker content bytes none files = (false, files)
  decoded_copy f destination marker content bytes (some n) files =
      if f.mkdir then (false, files) else copy f destination marker content bytes files

  abbrev pub copy_source :
      MigrationFault → String → String → Text → Option Text → Files → Bool × Files
  copy_source f destination marker content none files = (true, files)
  copy_source f destination marker content (some bytes) files =
      if f.source_read
      then (false, files)
      else decoded_copy f destination marker content bytes (decode bytes) files

  abbrev pub unless_there :
      MigrationFault → String → String → String → Text → Option Text → Files → Bool × Files
  unless_there f source destination marker content (some old) files =
      if f.stat then (false, files) else write_marker f marker content files
  unless_there f source destination marker content none files =
      if f.stat
      then (false, files)
      else copy_source f destination marker content (lookup source files) files

  abbrev pub unless_marked :
      MigrationFault → String → String → String → Text → Option Text → Files → Bool × Files
  unless_marked f source destination marker content (some old) files =
      if f.marker_read then (false, files) else (true, files)
  unless_marked f source destination marker content none files =
      if f.marker_read
      then (false, files)
      else unless_there f source destination marker content (lookup destination files) files

  -- `marker` is the source's path with ".migrated", `content` the destination's with a newline.
  -- The result is whether there was no error.
  unfoldable pub migrate_checkpoint :
      MigrationFault → String → String → String → Text → Files → Bool × Files
  migrate_checkpoint f source destination marker content files =
      if str_eq source "" || (str_eq destination "" || str_eq source destination)
      then (true, files)
      else unless_marked f source destination marker content (lookup marker files) files

-- The checkpoint's file: missing, unreadable, or with some bytes.
pub data CheckpointFile : Type 0 where
  missing : CheckpointFile
  unreadable : CheckpointFile
  holds : Text → CheckpointFile

unfoldable pub load_checkpoint : (Text → Option ℕ) → CheckpointFile → Sender → Option Sender
load_checkpoint decode missing s = some s
load_checkpoint decode unreadable s = none
load_checkpoint decode (holds bytes) s = loaded (decode bytes)
  where
    loaded : Option ℕ → Option Sender
    loaded none = none
    loaded (some n) = some (record s { last_sent = n })

-- The outcomes of New: no sender, an error, or a sender.
pub data Created : Type 0 where
  disabled : Created
  failed : Created
  created : Sender → Created

abbrev created_if : Option Sender → Created
created_if none = failed
created_if (some s) = created s

abbrev fresh : ℕ → Option ℕ → Sender
fresh batch_size checkpoint = record {
  batch_size = if leb batch_size 0 then 100 else batch_size;
  last_sent = 0;
  stats = record { successful_requests = 0; failed_requests = 0; retries = 0; sent_samples = 0 };
  checkpoint = checkpoint;
  accepted = [];
  requests = 0;
  saves = 0;
}

abbrev number_in : (Text → Option ℕ) → CheckpointFile → Option ℕ
number_in decode (holds bytes) = decode bytes
number_in decode file = none

-- A batch size below zero is replaced as zero is.
unfoldable pub new : (Text → Option ℕ) → Bool → Text → ℕ → CheckpointFile → Created
unfolding load_checkpoint
new decode enabled url batch_size file =
    if not enabled
    then disabled
    else if no_url url
    then failed
    else created_if (load_checkpoint decode file (fresh batch_size (number_in decode file)))
  where
    no_url : Text → Bool
    no_url [] = true
    no_url (c ∷ t) = false

unfoldable pub last_sent : Sender → ℕ
last_sent s = s.last_sent

unfoldable pub stats : Sender → Stats
stats s = s.stats

-- The destination is as before, or it is a copy of the source that the marker is beside.
abbrev pub Migrated : String → String → String → Files → Bool × Files → Type 0
Migrated source destination marker files (ok, files') =
    (lookup destination files' ≡ lookup destination files)
    ⊎ ((bytes : Text) × ((ok ≡ true)
          × (lookup destination files ≡ none)
          × (lookup source files ≡ some bytes)
          × (lookup destination files' ≡ some (bytes ++ 10 ∷ []))))
