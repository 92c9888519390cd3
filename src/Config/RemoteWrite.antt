-- ===== src/Config/RemoteWrite.antt =====
-- Load of internal/config/config.go: the remote write settings that it accepts.
use systemd_transition_expor.Base.{
  ℕ, suc, ◌≡◌, ◌*◌, sym, ◌∙◌, refl, Bool, true, false, not, ◌&&◌, Option, some, List, [], ◌∷◌, ◌++◌,
  ◌==◌, map, if◌then◌else◌, All, Bool-cases, ◌⊎◌, inl, inr,
}
use systemd_transition_expor.Base.Text.{Text, codes, is_empty, trim_space}
use systemd_transition_expor.Recovery.Slot.{minute_ns}
use systemd_transition_expor.Config.Target.{ℤ, le_zero, or_default}
use systemd_transition_expor.Config.Settings.{
  second_ns, RemoteWriteTarget, RemoteWriteConfig, Config, Loaded, rejected, accepted, seen_in,
  empty_url, duplicate_url, both_urls, no_urls, no_services, bad_fill_interval, bad_window,
  uneven_window, bad_label,
}
use systemd_transition_expor.Config.Passed.{passed, Distinct, Fresh, Fresh-cons}
use systemd_transition_expor.Config.Services.{with_services-parts}
use systemd_transition_expor.Config.Load.{
  new_target, put_target, check_urls, within, divides_hour, labels_valid, with_defaults,
  check_settings, with_targets, chosen_urls, check_enabled, with_slots, check_remote_write, load,
  load_decoded, with_server_defaults, check_services, with_services,
}

abbrev pub urls_of : List RemoteWriteTarget → List Text
urls_of ts = map (λ t. t.url) ts

put_target-parts :
    (t : RemoteWriteTarget) (r : Loaded (List RemoteWriteTarget)) (out : List RemoteWriteTarget)
    → put_target t r ≡ accepted out
    → (rest : List RemoteWriteTarget) × ((r ≡ accepted rest) × (out ≡ t ∷ rest))
put_target-parts t (rejected p) out h = absurd (cc)
put_target-parts t (accepted rest) out h = (rest, (refl, cc))

module _ (sum : Text → Text) where
  abbrev pub IsTarget : RemoteWriteTarget → Type 0
  IsTarget t = (is_empty (t.url) ≡ false) × (t.id ≡ sum (t.url))

  check_urls-valid :
      (legacy : Bool) (checkpoint : Text) (i : ℕ) (seen raws : List Text)
      (out : List RemoteWriteTarget)
      → check_urls sum legacy checkpoint i seen raws ≡ accepted out
      → (is_empty out ≡ is_empty raws)
        × Fresh seen (urls_of out)
        × Distinct (urls_of out)
        × All IsTarget out
  unfolding check_urls new_target
  check_urls-valid legacy checkpoint i seen [] out h =
      let e : out ≡ [] = cc in rw e (refl, tt, tt, tt)
  check_urls-valid legacy checkpoint i seen (raw ∷ raws) out h =
      let url = trim_space raw in
      let later = check_urls sum legacy checkpoint (suc i) (url ∷ seen) raws in
      let kept = put_target (new_target sum legacy checkpoint i url) later in
      let a =
        passed (is_empty url) (empty_url i)
          (if seen_in url seen then rejected duplicate_url else kept) out h in
      let b = passed (seen_in url seen) duplicate_url kept out a.1 in
      let parts = put_target-parts (new_target sum legacy checkpoint i url) later out b.1 in
      let rest = check_urls-valid legacy checkpoint (suc i) (url ∷ seen) raws parts.0 parts.1.0 in
      let apart = Fresh-cons url seen (urls_of parts.0) rest.1 in
      rw (parts.1.1) (refl, (b.0, apart.0), (apart.1, rest.2), ((a.0, refl), rest.3))

  -- The settings of a delivery that is enabled.
  abbrev pub IsSound : RemoteWriteConfig → Type 0
  IsSound r =
      (is_empty (r.targets) ≡ false)
      × Distinct (urls_of (r.targets))
      × All IsTarget (r.targets)
      × (within (10 * second_ns) (4 * minute_ns) (r.recovery_fill_interval) ≡ true)
      × (within (5 * minute_ns) (60 * minute_ns) (r.recovery_window) ≡ true)
      × (divides_hour (r.recovery_window) ≡ true)
      × (labels_valid (r.labels) ≡ true)
      × (le_zero (r.batch_size) ≡ false)
      × (le_zero (r.flush_interval) ≡ false)
      × (le_zero (r.retry_interval) ≡ false)
      × (le_zero (r.timeout) ≡ false)
      × (le_zero (r.state_interval) ≡ false)
      × (is_empty (r.checkpoint) ≡ false)

or_default-positive : (d : ℤ) (n : ℕ) → (n == 0) ≡ false → le_zero (or_default d n) ≡ false
or_default-positive d n k = elim (Bool-cases (le_zero d)) [
  | inl e ↦ rw (e, k) refl
  | inr e ↦ rw (e, e) refl
]

taken :
    {A : Type 0} (b : Bool) (x y : Loaded A) (out : A)
    → (if b then x else y) ≡ accepted out
    → ((b ≡ true) × (x ≡ accepted out)) ⊎ ((b ≡ false) × (y ≡ accepted out))
taken true x y out h = inl (refl, h)
taken false x y out h = inr (refl, h)

not-false : (b : Bool) → not b ≡ false → b ≡ true
not-false true h = refl
not-false false h = cc

module _ (r : RemoteWriteConfig) where
  abbrev settled : RemoteWriteConfig
  settled = record r { state_interval = or_default (r.state_interval) minute_ns }

  fourth : Loaded RemoteWriteConfig
  fourth = if not (labels_valid (r.labels)) then rejected bad_label else accepted settled

  third : Loaded RemoteWriteConfig
  third = if not (divides_hour (r.recovery_window)) then rejected uneven_window else fourth

  second : Loaded RemoteWriteConfig
  second =
      if not (within (5 * minute_ns) (60 * minute_ns) (r.recovery_window))
      then rejected bad_window
      else third

  check_settings-parts :
      (out : RemoteWriteConfig)
      → check_settings r ≡ accepted out
      → (out ≡ settled)
        × (within (10 * second_ns) (4 * minute_ns) (r.recovery_fill_interval) ≡ true)
        × (within (5 * minute_ns) (60 * minute_ns) (r.recovery_window) ≡ true)
        × (divides_hour (r.recovery_window) ≡ true)
        × (labels_valid (r.labels) ≡ true)
  unfolding check_settings fourth third second
  check_settings-parts out h =
      let fill = within (10 * second_ns) (4 * minute_ns) (r.recovery_fill_interval) in
      let window = within (5 * minute_ns) (60 * minute_ns) (r.recovery_window) in
      let a = passed (not fill) bad_fill_interval second out h in
      let b = passed (not window) bad_window third out a.1 in
      let c = passed (not (divides_hour (r.recovery_window))) uneven_window fourth out b.1 in
      let d = passed (not (labels_valid (r.labels))) bad_label (accepted settled) out c.1 in
      (
        cc,
        not-false fill a.0,
        not-false window b.0,
        not-false (divides_hour (r.recovery_window)) c.0,
        not-false (labels_valid (r.labels)) d.0,
      )

with_targets-parts :
    (r : RemoteWriteConfig) (o : Loaded (List RemoteWriteTarget)) (out : RemoteWriteConfig)
    → with_targets r o ≡ accepted out
    → (ts : List RemoteWriteTarget) × ((o ≡ accepted ts)
        × (check_settings (record r { targets = r.targets ++ ts }) ≡ accepted out))
with_targets-parts r (rejected p) out h = absurd (cc)
with_targets-parts r (accepted ts) out h = (ts, (refl, h))

module _ (sum : Text → Text) where
  check_enabled-IsSound :
      (r out : RemoteWriteConfig)
      → r.targets ≡ []
      → check_enabled sum r ≡ accepted out
      → IsSound sum out
  unfolding check_enabled with_defaults
  check_enabled-IsSound r out none_yet h =
      let d = with_defaults r in
      let urls = (chosen_urls r).0 in
      let found = check_urls sum ((chosen_urls r).1) (d.checkpoint) 0 [] urls in
      let a =
        passed (not (is_empty (r.url)) && not (is_empty (r.urls))) both_urls
          (if is_empty urls then rejected no_urls else with_targets d found) out h in
      let b = passed (is_empty urls) no_urls (with_targets d found) out a.1 in
      let parts = with_targets-parts d found out b.1 in
      let v = check_urls-valid sum ((chosen_urls r).1) (d.checkpoint) 0 [] urls parts.0 parts.1.0 in
      let s = check_settings-parts (record d { targets = d.targets ++ parts.0 }) out parts.1.1 in
      rw (s.0, none_yet)
        (
          v.0 ∙ b.0,
          v.2,
          v.3,
          s.1,
          s.2,
          s.3,
          s.4,
          or_default-positive (r.batch_size) 100 refl,
          or_default-positive (r.flush_interval) second_ns refl,
          or_default-positive (r.retry_interval) second_ns refl,
          or_default-positive (r.timeout) (10 * second_ns) refl,
          or_default-positive (r.state_interval) minute_ns refl,
          named (r.checkpoint),
        )
    where
      named :
          (t : Text)
          → is_empty (
              if is_empty t
              then codes "/var/lib/systemd-transition-exporter/remote_write.checkpoint"
              else t)
            ≡ false
      named [] = refl
      named (c ∷ t) = refl

  check_remote_write-IsSound :
      (r out : RemoteWriteConfig)
      → r.targets ≡ []
      → check_remote_write sum r ≡ accepted out
      → out.enabled ≡ true
      → IsSound sum out
  unfolding check_remote_write
  check_remote_write-IsSound r out none_yet h on =
      elim (taken (r.enabled) (check_enabled sum (with_slots r)) (accepted (with_slots r)) out h) [
        | inl (e, k) ↦ check_enabled-IsSound (with_slots r) out none_yet k
        | inr (e, k) ↦
            let off : out.enabled ≡ r.enabled = cc in
            let no : true ≡ false = sym on ∙ (off ∙ e) in absurd (cc)
      ]

-- Where a configuration that Load accepts enables remote write, it has at least one target; the
-- targets have URLs that are not empty and of which no two are the same; the ticks of the recovery are 10
-- seconds to 4 minutes apart, its slot lasts 5 to 60 minutes and divides the hour; the names of the
-- labels are valid; the batch size and the intervals are positive, and there is a checkpoint. The
-- file's decoder makes no targets.
pub load-IsSound :
    (split : Text → Option (Text × Text)) (join : Text → Text → Text) (sum : Text → Text)
    (unmarshal : Text → Option Config) (file : Text) (d c : Config)
    → unmarshal file ≡ some d
    → (d.remote_write).targets ≡ []
    → load split join sum unmarshal (some file) ≡ accepted c
    → (c.remote_write).enabled ≡ true
    → IsSound sum (c.remote_write)
unfolding load with_server_defaults
load-IsSound split join sum unmarshal file d c decoded none_yet h on =
    let w = with_server_defaults d in
    let g : load_decoded split join sum (some d) ≡ accepted c = rw decoded at h in
    let services = check_services split join 0 [] (w.services) in
    let k = passed (is_empty (w.services)) no_services (with_services sum w services) c g in
    let parts = with_services-parts sum w services c k.1 in
    check_remote_write-IsSound sum (d.remote_write) (c.remote_write) none_yet parts.1 on
