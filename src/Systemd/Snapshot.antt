-- ===== src/Systemd/Snapshot.antt =====
-- The properties of a unit and the snapshot that is made of them.
use systemd_transition_expor.Base.{
  ℕ, ◌≡◌, ◌∙◌, refl, String, Bool, true, false, ◌||◌, Option, none, some, [], ◌∷◌, str_eq,
}
use systemd_transition_expor.Base.Dict.{Dict, lookup, insert, lookup-insert}
use systemd_transition_expor.Model.{UnitSnapshot}

-- The values of D-Bus variants that the code tells apart; a negative int64 is one of them.
pub data Variant : Type 0 where
  text_value : String → Variant
  uint64_value : ℕ → Variant
  int64_value : ℕ → Variant
  negative_int64 : ℕ → Variant
  uint32_value : ℕ → Variant
  other_value : Variant

pub data PropertyProblem : Type 0 where
  missing : String → PropertyProblem
  wrong_type : String → PropertyProblem

pub data Read (A : Type 0) : Type 0 where
  unread : PropertyProblem → Read A
  read : A → Read A

abbrev pub and_read : {A B : Type 0} → Read A → (A → Read B) → Read B
and_read (unread p) f = unread p
and_read (read a) f = f a

unfoldable pub as_uint64 : Variant → ℕ
as_uint64 (uint64_value x) = x
as_uint64 (int64_value x) = x
as_uint64 (uint32_value x) = x
as_uint64 v = 0

abbrev pub text_of : String → Option Variant → Read String
text_of name none = unread (missing name)
text_of name (some (text_value s)) = read s
text_of name (some v) = unread (wrong_type name)

abbrev pub timestamp_of : String → Option Variant → Read ℕ
unfolding as_uint64
timestamp_of name none = unread (missing name)
timestamp_of name (some v) = read (as_uint64 v)

unfoldable pub snapshot_from_properties : String → String → ℕ → Dict Variant → Read UnitSnapshot
snapshot_from_properties service boot_id observed_at props =
    and_read (text_of "ActiveState" (lookup "ActiveState" props)) (λ active.
      and_read (text_of "SubState" (lookup "SubState" props)) (λ sub.
        and_read (timestamp_of "ActiveEnterTimestamp" (lookup "ActiveEnterTimestamp" props))
          (λ enter.
            and_read (timestamp_of "ActiveExitTimestamp" (lookup "ActiveExitTimestamp" props))
              (λ exit.
                and_read
                  (timestamp_of "ActiveEnterTimestampMonotonic"
                    (lookup "ActiveEnterTimestampMonotonic" props))
                  (λ enter_mono.
                    and_read
                      (timestamp_of "ActiveExitTimestampMonotonic"
                        (lookup "ActiveExitTimestampMonotonic" props))
                      (λ exit_mono. read record {
                        service = service;
                        active_state = active;
                        sub_state = sub;
                        active_enter_timestamp_us = enter;
                        active_exit_timestamp_us = exit;
                        active_enter_timestamp_monotonic_us = enter_mono;
                        active_exit_timestamp_monotonic_us = exit_mono;
                        boot_id = boot_id;
                        observed_at = observed_at;
                      }))))))

abbrev pub is_interesting : String → Bool
is_interesting n =
    str_eq n "ActiveState"
    || (str_eq n "SubState"
        || (str_eq n "ActiveEnterTimestamp"
            || (str_eq n "ActiveExitTimestamp"
                || (str_eq n "ActiveEnterTimestampMonotonic"
                    || str_eq n "ActiveExitTimestampMonotonic"))))

unfoldable pub interesting : Dict Variant → Bool
interesting [] = false
interesting ((n, v) ∷ p) = is_interesting n || interesting p

-- What the changes that a signal carries make of the properties.
abbrev pub update : Dict Variant → Dict Variant → Dict Variant
update props [] = props
update props ((n, v) ∷ changes) = update (insert n v props) changes

neither : (a b : Bool) → (a || b) ≡ false → (a ≡ false) × (b ≡ false)
neither true b h = absurd (cc)
neither false b h = (refl, h)

lookup-other :
    (n key : String) (v : Variant) (props : Dict Variant)
    → str_eq n key ≡ false
    → lookup key (insert n v props) ≡ lookup key props
lookup-other n key v props h = rw (lookup-insert n key v props, h) refl

snapshot-insert :
    (service boot_id : String) (at : ℕ) (n : String) (v : Variant) (props : Dict Variant)
    → is_interesting n ≡ false
    → snapshot_from_properties service boot_id at (insert n v props)
      ≡ snapshot_from_properties service boot_id at props
unfolding snapshot_from_properties
snapshot-insert service boot_id at n v props h =
    let a = neither (str_eq n "ActiveState") _ h in
    let b = neither (str_eq n "SubState") _ a.1 in
    let c = neither (str_eq n "ActiveEnterTimestamp") _ b.1 in
    let d = neither (str_eq n "ActiveExitTimestamp") _ c.1 in
    let e = neither (str_eq n "ActiveEnterTimestampMonotonic") _ d.1 in
    rw
      (
        lookup-other n "ActiveState" v props a.0,
        lookup-other n "SubState" v props b.0,
        lookup-other n "ActiveEnterTimestamp" v props c.0,
        lookup-other n "ActiveExitTimestamp" v props d.0,
        lookup-other n "ActiveEnterTimestampMonotonic" v props e.0,
        lookup-other n "ActiveExitTimestampMonotonic" v props e.1,
      )
      refl

-- Changes that the monitor passes over, since none of them is interesting, change nothing in the
-- snapshot of a unit: it is read, or fails to be, as before.
pub snapshot-update :
    (service boot_id : String) (at : ℕ) (props changes : Dict Variant)
    → interesting changes ≡ false
    → snapshot_from_properties service boot_id at (update props changes)
      ≡ snapshot_from_properties service boot_id at props
unfolding interesting
snapshot-update service boot_id at props [] h = refl
snapshot-update service boot_id at props ((n, v) ∷ changes) h =
    let k = neither (is_interesting n) (interesting changes) h in
    snapshot-update service boot_id at (insert n v props) changes k.1
    ∙ snapshot-insert service boot_id at n v props k.0
