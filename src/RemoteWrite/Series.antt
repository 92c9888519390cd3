-- ===== src/RemoteWrite/Series.antt =====
-- The Remote Write request: one series for each service, its samples in the order of their times.
use Prim.Native.Nat.{Ordering}
use Prim.Native.String.{compare}
use systemd_transition_expor.Base.{
  ℕ, ◌+◌, ◌≡◌, refl, String, Bool, true, false, ◌&&◌, ◌||◌, List, [], ◌∷◌, ◌++◌, ltb, ◌==◌,
  if◌then◌else◌, length, str_eq, eq_iff, arith, All, All-imp, ap, ◌∙◌,
}
use systemd_transition_expor.Base.Dict.{Dict}
use systemd_transition_expor.Base.Sort.{place, sort_stable}
use systemd_transition_expor.Model.{AvailabilityState, is_up, Event, StateSample}

-- The order of Go's strings.
abbrev pub str_lt : String → String → Bool
str_lt s t = elim (compare s t) [ Ordering.lt ↦ true | _ ↦ false ]

pub record Label : Type 0 where
  pub name : String
  pub value : String

abbrev reserved : String → Bool
reserved n = str_eq n "__name__" || str_eq n "name"

-- The configured labels, less the two that the sender writes itself.
unfoldable pub other_labels : Dict String → List Label
other_labels [] = []
other_labels ((n, v) ∷ m) =
    let rest = other_labels m in if reserved n then rest else record { name = n; value = v } ∷ rest

-- `labels`: the metric and the service first, then the configured labels by name.
unfoldable pub labels : Dict String → String → List Label
labels configured service =
    record { name = "__name__"; value = "systemd_service_state" }
    ∷ record { name = "name"; value = service }
    ∷ sort_stable (λ a b. str_lt a.name b.name) (other_labels configured)

-- `prompb.Sample`; the value is 1 for UP and 0 otherwise.
pub record Sample : Type 0 where
  pub value : ℕ
  pub timestamp : ℕ

-- A sample with the service of its series.
pub record Point : Type 0 where
  pub service : String
  pub sample : Sample

abbrev pub value_of : AvailabilityState → ℕ
value_of s = if is_up s then 1 else 0

unfoldable pub point_of : Event → Point
point_of e = record {
  service = e.service;
  sample = record { value = value_of e.state; timestamp = e.event_time_unix_ms };
}

unfoldable pub event_points : List Event → List Point
event_points [] = []
event_points (e ∷ es) = point_of e ∷ event_points es

unfoldable pub sample_points : List StateSample → List Point
sample_points [] = []
sample_points (x ∷ xs) =
    record {
      service = x.service;
      sample = record { value = value_of x.state; timestamp = x.timestamp_unix_ms };
    }
    ∷ sample_points xs

-- A series is named by its service; its labels are `labels configured service`.
abbrev pub Request : Type 0
Request = List (String × List Sample)

-- The samples are appended to the series of their service.
unfoldable pub add_point : Point → Request → Request
add_point p [] = (p.service, p.sample ∷ []) ∷ []
add_point p ((k, samples) ∷ r) =
    if str_eq k p.service then (k, samples ++ p.sample ∷ []) ∷ r else (k, samples) ∷ add_point p r

unfoldable pub add_points : List Point → Request → Request
add_points [] r = r
add_points (p ∷ ps) r = add_points ps (add_point p r)

unfoldable pub sort_samples : Request → Request
sort_samples [] = []
sort_samples ((k, samples) ∷ r) =
    (k, sort_stable (λ a b. ltb a.timestamp b.timestamp) samples) ∷ sort_samples r

unfoldable pub request_of : List Point → Request
request_of ps = sort_stable (λ a b. str_lt a.0 b.0) (sort_samples (add_points ps []))

unfoldable pub sample_count : Request → ℕ
sample_count [] = 0
sample_count ((k, samples) ∷ r) = length samples + sample_count r

-- Whether a request carries a point.
abbrev same_sample : Sample → Sample → Bool
same_sample a b = a.value == b.value && a.timestamp == b.timestamp

abbrev pub among : Sample → List Sample → Bool
among x [] = false
among x (y ∷ ys) = same_sample y x || among x ys

abbrev pub carries : Request → Point → Bool
carries [] p = false
carries ((k, samples) ∷ r) p = (str_eq k p.service && among p.sample samples) || carries r p

among-append_left :
    (x : Sample) (ys zs : List Sample) → among x ys ≡ true → among x (ys ++ zs) ≡ true
among-append_left x [] zs h = cc
among-append_left x (y ∷ ys) zs h = ground (arith, among-append_left x ys zs)

among-append_last : (x : Sample) (ys : List Sample) → among x (ys ++ x ∷ []) ≡ true
among-append_last x [] = ground arith
among-append_last x (y ∷ ys) = ground (arith, among-append_last x ys)

module _ (less : Sample → Sample → Bool) (x : Sample) where
  among-place : (y : Sample) (ys : List Sample) → among x (place less y ys) ≡ among x (y ∷ ys)
  unfolding place
  among-place y [] = refl
  among-place y (z ∷ ys) = ground (arith, among-place y ys)

  among-sort_stable : (ys : List Sample) → among x (sort_stable less ys) ≡ among x ys
  unfolding sort_stable
  among-sort_stable [] = refl
  among-sort_stable (y ∷ ys) =
      among-place y (sort_stable less ys) ∙ ap (λ b. same_sample y x || b) (among-sort_stable ys)

carries-sort_samples : (r : Request) (p : Point) → carries (sort_samples r) p ≡ carries r p
unfolding sort_samples
carries-sort_samples [] p = refl
carries-sort_samples ((k, samples) ∷ r) p = ground (
  arith,
  among-sort_stable (λ a b. ltb a.timestamp b.timestamp) p.sample samples,
  carries-sort_samples r p,
)

module _ (less : (String × List Sample) → (String × List Sample) → Bool) (p : Point) where
  carries-place :
      (x : String × List Sample) (r : Request) → carries (place less x r) p ≡ carries (x ∷ r) p
  unfolding place
  carries-place x [] = refl
  carries-place x (y ∷ r) = ground (arith, carries-place x r)

  carries-sort_stable : (r : Request) → carries (sort_stable less r) p ≡ carries r p
  unfolding sort_stable
  carries-sort_stable [] = refl
  carries-sort_stable (x ∷ r) =
      ground (arith, carries-place x (sort_stable less r), carries-sort_stable r)

carries-add_point :
    (q p : Point) (r : Request) → carries r p ≡ true → carries (add_point q r) p ≡ true
unfolding add_point
carries-add_point q p [] h = cc
carries-add_point q p ((k, samples) ∷ r) h =
    ground (arith, among-append_left p.sample samples (q.sample ∷ []), carries-add_point q p r)

carries-add_point_self : (p : Point) (r : Request) → carries (add_point p r) p ≡ true
unfolding add_point
carries-add_point_self p [] = ground (arith, eq_iff p.service p.service)
carries-add_point_self p ((k, samples) ∷ r) =
    ground
      (arith, among-append_last p.sample samples, carries-add_point_self p r, eq_iff k p.service)

carries-add_points :
    (ps : List Point) (p : Point) (r : Request)
    → carries r p ≡ true
    → carries (add_points ps r) p ≡ true
unfolding add_points
carries-add_points [] p r h = h
carries-add_points (q ∷ ps) p r h =
    carries-add_points ps p (add_point q r) (carries-add_point q p r h)

add_points-carries :
    (ps : List Point) (r : Request) → All (λ p. carries (add_points ps r) p ≡ true) ps
unfolding add_points
add_points-carries [] r = tt
add_points-carries (p ∷ ps) r = (
  carries-add_points ps p (add_point p r) (carries-add_point_self p r),
  add_points-carries ps (add_point p r),
)

request_of-same :
    (ps : List Point) (p : Point) → carries (request_of ps) p ≡ carries (add_points ps []) p
unfolding request_of
request_of-same ps p =
    carries-sort_stable _ p (sort_samples (add_points ps []))
    ∙ carries-sort_samples (add_points ps []) p

-- The request built from points carries every one of them, under its service.
pub request_of-carries : (ps : List Point) → All (λ p. carries (request_of ps) p ≡ true) ps
request_of-carries ps = All-imp _ _ ps (λ p h. request_of-same ps p ∙ h) (add_points-carries ps [])
