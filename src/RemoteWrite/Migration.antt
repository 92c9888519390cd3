-- ===== src/RemoteWrite/Migration.antt =====
-- MigrateCheckpoint of internal/remote_write/remote_write.go: what it leaves of the files.
use systemd_transition_expor.Base.{
  ℕ, ◌≡◌, ◌∙◌, refl, String, Bool, true, false, ◌||◌, Option, none, some, [], ◌∷◌, ◌++◌,
  if◌then◌else◌, str_eq, eq_iff, inl, inr, take,
}
use systemd_transition_expor.Base.Dict.{
  lookup, insert, remove, lookup-insert, lookup-insert_self, lookup-remove,
}
use systemd_transition_expor.Base.Text.{Text}
use systemd_transition_expor.RemoteWrite.Startup.{
  Files, MigrationFault, Migrated, marked, kept_if, copy, decoded_copy, copy_source, unless_there,
  unless_marked, migrate_checkpoint,
}

module _ (source destination marker : String) (files : Files)
    (apart_source : str_eq marker source ≡ false)
    (apart_destination : str_eq marker destination ≡ false)
    (two : str_eq destination source ≡ false) where
  abbrev Kept : Bool × Files → Type 0
  Kept (ok, files') =
      (lookup source files' ≡ lookup source files)
      × Migrated source destination marker files (ok, files')

  unchanged : (ok : Bool) → Kept (ok, files)
  unchanged ok = (refl, inl refl)

  lookup-other :
      (key other : String) (t : Text) (fs : Files)
      → str_eq key other ≡ false
      → lookup other (insert key t fs) ≡ lookup other fs
  lookup-other key other t fs h = rw (lookup-insert key other t fs, h) refl

  marked-other :
      (other : String) (o : Option Text) (fs : Files)
      → str_eq marker other ≡ false
      → lookup other (marked marker o fs) ≡ lookup other fs
  marked-other other none fs h = refl
  marked-other other (some t) fs h = lookup-other marker other t fs h

  abbrev wrote : Bool → Option Text → Text → Files → Bool × Files
  wrote b o content fs = if b then (false, marked marker o fs) else (true, insert marker content fs)

  -- The marker's write leaves the two other files alone.
  marker-other :
      (other : String) (b : Bool) (o : Option Text) (content : Text) (fs : Files)
      → str_eq marker other ≡ false
      → lookup other ((wrote b o content fs).1) ≡ lookup other fs
  marker-other other true o content fs h = marked-other other o fs h
  marker-other other false o content fs h = lookup-other marker other content fs h

  removed-Kept :
      (fs : Files)
      → lookup destination files ≡ none
      → lookup source fs ≡ lookup source files
      → Kept (false, remove destination fs)
  removed-Kept fs free same = (
    rw (lookup-remove destination source fs, two) same,
    inl (
        rw (lookup-remove destination destination fs, free)
          (rw ((eq_iff destination destination).1 refl) refl)),
  )

  kept_if-failed :
      (f : MigrationFault) (fs : Files)
      → f.removes ≡ true
      → lookup destination files ≡ none
      → lookup source fs ≡ lookup source files
      → Kept (kept_if f destination (false, fs))
  kept_if-failed f fs removed free same = rw removed (removed-Kept fs free same)

  kept_if-Kept :
      (f : MigrationFault) (bytes : Text) (r : Bool × Files)
      → f.removes ≡ true
      → lookup destination files ≡ none
      → lookup source files ≡ some bytes
      → lookup source (r.1) ≡ lookup source files
      → lookup destination (r.1) ≡ some (bytes ++ 10 ∷ [])
      → Kept (kept_if f destination r)
  kept_if-Kept f bytes (true, fs) removed free held same there =
      (same, inr (bytes, (refl, free, held, there)))
  kept_if-Kept f bytes (false, fs) removed free held same there =
      kept_if-failed f fs removed free same

  when : (b : Bool) (ok : Bool) (r : Bool × Files) → Kept r → Kept (if b then (ok, files) else r)
  when true ok r h = unchanged ok
  when false ok r h = h

  either : (b : Bool) (r r' : Bool × Files) → Kept r → Kept r' → Kept (if b then r else r')
  either true r r' h k = h
  either false r r' h k = k

  copy-Kept :
      (f : MigrationFault) (bytes content : Text)
      → f.removes ≡ true
      → lookup destination files ≡ none
      → lookup source files ≡ some bytes
      → Kept (copy f destination marker content bytes files)
  copy-Kept f bytes content removed free held =
      let created = insert destination (bytes ++ 10 ∷ []) files in
      let partial = insert destination (take (f.written) (bytes ++ 10 ∷ [])) files in
      let marked_copy = wrote (f.marker_write) (f.left_marker) content created in
      when (f.create) false _ (
        either (f.write) (kept_if f destination (false, partial)) _
          (kept_if-failed f partial removed free
            (lookup-other destination source (take (f.written) (bytes ++ 10 ∷ [])) files two))
          (either (f.sync || f.close) (kept_if f destination (false, created))
            (kept_if f destination marked_copy)
            (kept_if-failed f created removed free
              (lookup-other destination source (bytes ++ 10 ∷ []) files two))
            (kept_if-Kept f bytes marked_copy removed free held
              (marker-other source (f.marker_write) (f.left_marker) content created apart_source
                ∙ lookup-other destination source (bytes ++ 10 ∷ []) files two)
              (marker-other destination (f.marker_write) (f.left_marker) content created
                  apart_destination
                ∙ lookup-insert_self destination (bytes ++ 10 ∷ []) files))))

  wrote-Kept : (b : Bool) (o : Option Text) (content : Text) → Kept (wrote b o content files)
  wrote-Kept true o content = (
    marked-other source o files apart_source,
    inl (marked-other destination o files apart_destination),
  )
  wrote-Kept false o content = (
    lookup-other marker source content files apart_source,
    inl (lookup-other marker destination content files apart_destination),
  )

  module _ (decode : Text → Option ℕ) (f : MigrationFault) (content : Text)
      (removed : f.removes ≡ true) where
    decoded_copy-Kept :
        (bytes : Text) (o : Option ℕ)
        → lookup destination files ≡ none
        → lookup source files ≡ some bytes
        → Kept (decoded_copy decode f destination marker content bytes o files)
    decoded_copy-Kept bytes none free held = unchanged false
    decoded_copy-Kept bytes (some n) free held =
        when (f.mkdir) false (copy f destination marker content bytes files)
          (copy-Kept f bytes content removed free held)

    copy_source-Kept :
        (o : Option Text)
        → lookup destination files ≡ none
        → lookup source files ≡ o
        → Kept (copy_source decode f destination marker content o files)
    copy_source-Kept none free held = unchanged true
    copy_source-Kept (some bytes) free held =
        when (f.source_read) false
          (decoded_copy decode f destination marker content bytes (decode bytes) files)
          (decoded_copy-Kept bytes (decode bytes) free held)

    unless_there-Kept :
        (o : Option Text)
        → lookup destination files ≡ o
        → Kept (unless_there decode f source destination marker content o files)
    unless_there-Kept (some old) h =
        when (f.stat) false (wrote (f.marker_write) (f.left_marker) content files)
          (wrote-Kept (f.marker_write) (f.left_marker) content)
    unless_there-Kept none h =
        when (f.stat) false
          (copy_source decode f destination marker content (lookup source files) files)
          (copy_source-Kept (lookup source files) h refl)

    unless_marked-Kept :
        (o : Option Text) → Kept (unless_marked decode f source destination marker content o files)
    unless_marked-Kept (some old) = when (f.marker_read) false (true, files) (unchanged true)
    unless_marked-Kept none =
        when (f.marker_read) false
          (unless_there decode f source destination marker content (lookup destination files) files)
          (unless_there-Kept (lookup destination files) refl)

-- Where the removal of a failed copy succeeds, whatever else fails, a migration leaves the source as
-- it is, and the destination as it was or, without an error and where there was none, as a copy of
-- the source with a newline: no part of a copy stays. The marker is neither of the two, and the two
-- are not the same.
pub migrate_checkpoint-Migrated :
    (decode : Text → Option ℕ) (f : MigrationFault) (source destination marker : String)
    (content : Text) (files : Files)
    → f.removes ≡ true
    → str_eq marker source ≡ false
    → str_eq marker destination ≡ false
    → str_eq destination source ≡ false
    → let r = migrate_checkpoint decode f source destination marker content files in
      (lookup source (r.1) ≡ lookup source files) × Migrated source destination marker files r
unfolding migrate_checkpoint
migrate_checkpoint-Migrated decode f source destination marker content files removed a b c =
    when source destination marker files a b c
      (str_eq source "" || (str_eq destination "" || str_eq source destination)) true
      (unless_marked decode f source destination marker content (lookup marker files) files)
      (unless_marked-Kept source destination marker files a b c decode f content removed
        (lookup marker files))
