-- ===== src/Wal/SampleCodec.antt =====
-- A codec that meets the laws of `EventCodec`, for the tests: every number is one cell, shifted past
-- the spaces, every text ends with a mark, and braces stand round the record.
use Prim.Native.Nat.{compare, Ordering}
use Prim.Native.Char.{Char, char, code, IsLt, IsScalar}
use systemd_transition_expor.Base.{
  ℕ, ◌+◌, ◌-◌, ◌≡◌, refl, String, false, Option, none, some, [], ◌∷◌, ◌++◌, arith, ap, ◌∙◌,
  if◌then◌else◌, ◌==◌, All, All-append,
}
use mathlib.Core.List.{append_assoc}
use systemd_transition_expor.Base.Text.{Text, is_empty, trim_left, trim_right, trim_space}
use systemd_transition_expor.Model.{
  AvailabilityState, unknown, up, down, EventSource, systemd, host_reboot, recovery, sip, dns, agw,
  Event,
}
use systemd_transition_expor.Wal.Codec.{EventCodec}

abbrev Both : Ordering → Ordering → Type 0
Both Ordering.lt o = IsLt o
Both Ordering.eq _ = ⊥
Both Ordering.gt _ = ⊥

abbrev Scalar : Ordering → Ordering → Ordering → Type 0
Scalar Ordering.lt _ _ = Unit
Scalar Ordering.eq o p = Both o p
Scalar Ordering.gt o p = Both o p

is_lt : (o : Ordering) → Option (IsLt o)
is_lt Ordering.lt = some tt
is_lt Ordering.eq = none
is_lt Ordering.gt = none

is_both : (o p : Ordering) → Option (Both o p)
is_both Ordering.lt p = is_lt p
is_both Ordering.eq p = none
is_both Ordering.gt p = none

is_scalar : (o p q : Ordering) → Option (Scalar o p q)
unfolding is_lt is_both
is_scalar Ordering.lt p q = some tt
is_scalar Ordering.eq p q = is_both p q
is_scalar Ordering.gt p q = is_both p q

is_lt-some : (o : Ordering) (h : IsLt o) → is_lt o ≡ some h
unfolding is_lt
is_lt-some Ordering.lt h = refl
is_lt-some Ordering.eq h = absurd h
is_lt-some Ordering.gt h = absurd h

is_both-some : (o p : Ordering) (h : Both o p) → is_both o p ≡ some h
unfolding is_both
is_both-some Ordering.lt p h = is_lt-some p h
is_both-some Ordering.eq p h = absurd h
is_both-some Ordering.gt p h = absurd h

is_scalar-some : (o p q : Ordering) (h : Scalar o p q) → is_scalar o p q ≡ some h
unfolding is_scalar
is_scalar-some Ordering.lt p q h = refl
is_scalar-some Ordering.eq p q h = is_both-some p q h
is_scalar-some Ordering.gt p q h = is_both-some p q h

with_scalar : (n : ℕ) → Option (IsScalar n) → Option Char
with_scalar n none = none
with_scalar n (some p) = some (char n p)

to_char : ℕ → Option Char
unfolding with_scalar is_scalar
to_char n = with_scalar n (is_scalar (compare n 55296) (compare 57343 n) (compare n 1114112))

to_char-code : (c : Char) → to_char (code c) ≡ some c
unfolding to_char
to_char-code (char n p) =
    ap (with_scalar n) (is_scalar-some (compare n 55296) (compare 57343 n) (compare n 1114112) p)

encode_text : String → Text
encode_text String.[] = 33 ∷ []
encode_text (String.◌∷◌ c s) = (code c + 48) ∷ encode_text s

prepend : Option Char → Option (String × Text) → Option (String × Text)
prepend (some c) (some (s, rest)) = some (String.◌∷◌ c s, rest)
prepend _ _ = none

decode_text : Text → Option (String × Text)
unfolding to_char prepend
decode_text [] = none
decode_text (n ∷ rest) =
    let more = prepend (to_char (n - 48)) (decode_text rest) in
    if n == 33 then some (String.[], rest) else more

back : (n : ℕ) → n + 48 - 48 ≡ n
back n = omega arith

not_mark : (n : ℕ) → (n + 48 == 33) ≡ false
not_mark n = ground arith

decode_text-encode :
    (s : String) (rest : Text) → decode_text (encode_text s ++ rest) ≡ some (s, rest)
unfolding decode_text encode_text
decode_text-encode String.[] rest = refl
decode_text-encode (String.◌∷◌ c s) rest =
    rw (not_mark (code c), back (code c), to_char-code c, decode_text-encode s rest) refl

state_cell : AvailabilityState → ℕ
state_cell unknown = 48
state_cell up = 49
state_cell down = 50

cell_state : ℕ → AvailabilityState
cell_state n = if n == 49 then up else if n == 50 then down else unknown

cell_state-state_cell : (a : AvailabilityState) → cell_state (state_cell a) ≡ a
unfolding cell_state state_cell
cell_state-state_cell unknown = refl
cell_state-state_cell up = refl
cell_state-state_cell down = refl

source_cell : EventSource → ℕ
source_cell systemd = 48
source_cell host_reboot = 49
source_cell recovery = 50
source_cell sip = 51
source_cell dns = 52
source_cell agw = 53

cell_source : ℕ → EventSource
cell_source n =
    if n == 49
    then host_reboot
    else if n == 50
    then recovery
    else if n == 51
    then sip
    else if n == 52
    then dns
    else if n == 53
    then agw
    else systemd

cell_source-source_cell : (a : EventSource) → cell_source (source_cell a) ≡ a
unfolding cell_source source_cell
cell_source-source_cell systemd = refl
cell_source-source_cell host_reboot = refl
cell_source-source_cell recovery = refl
cell_source-source_cell sip = refl
cell_source-source_cell dns = refl
cell_source-source_cell agw = refl

-- The record without its last brace.
pub front : Event → Text
front v =
    123
    ∷ (v.sequence + 48)
    ∷ state_cell v.state
    ∷ (v.event_time_unix_ms + 48)
    ∷ (v.event_time_monotonic_us + 48)
    ∷ source_cell v.source
    ∷ (encode_text v.service
        ++ (encode_text v.boot_id
            ++ (encode_text v.systemd_active_state ++ encode_text v.systemd_sub_state)))

pub encode_event : Event → Text
encode_event v = front v ++ 125 ∷ []

infixl 5 ◌>>=◌
◌>>=◌ {ℓ κ} : {A : Type ℓ} {B : Type κ} → Option A → (A → Option B) → Option B
none >>= f = none
some a >>= f = f a

pub decode_event : Text → Option Event
unfolding ◌>>=◌
decode_event (brace ∷ number ∷ state ∷ time ∷ mono ∷ source ∷ rest) = do
  (service, r1) ← decode_text rest
  (boot, r2) ← decode_text r1
  (active, r3) ← decode_text r2
  (sub, r4) ← decode_text r3
  some (record {
    sequence = number - 48;
    service = service;
    state = cell_state state;
    event_time_unix_ms = time - 48;
    event_time_monotonic_us = mono - 48;
    boot_id = boot;
    source = cell_source source;
    systemd_active_state = active;
    systemd_sub_state = sub;
  })
decode_event _ = none

regroup : (a b c d e : Text) → (a ++ (b ++ (c ++ d))) ++ e ≡ a ++ (b ++ (c ++ (d ++ e)))
regroup a b c d e = simp append_assoc

pub decode_event-encode : (v : Event) → decode_event (encode_event v) ≡ some v
unfolding decode_event encode_event front
decode_event-encode v =
    rw
      (
        regroup (encode_text v.service) (encode_text v.boot_id) (encode_text v.systemd_active_state)
            (encode_text v.systemd_sub_state) (125 ∷ []),
        decode_text-encode v.service _,
        decode_text-encode v.boot_id _,
        decode_text-encode v.systemd_active_state _,
        decode_text-encode v.systemd_sub_state _,
      )
      (simp (
        back v.sequence,
        back v.event_time_unix_ms,
        back v.event_time_monotonic_us,
        cell_state-state_cell,
        cell_source-source_cell,
      ))

-- Neither a line feed nor another space.
abbrev pub Visible : Text → Type 0
Visible s = All (λ c. (c == 10) ≡ false) s

not_feed : (n : ℕ) → (n + 48 == 10) ≡ false
not_feed n = ground arith

state_not_feed : (a : AvailabilityState) → (state_cell a == 10) ≡ false
unfolding state_cell
state_not_feed a = ground arith

source_not_feed : (a : EventSource) → (source_cell a == 10) ≡ false
unfolding source_cell
source_not_feed a = ground arith

encode_text-Visible : (s : String) → Visible (encode_text s)
unfolding encode_text
encode_text-Visible String.[] = (refl, tt)
encode_text-Visible (String.◌∷◌ c s) = (ground arith, encode_text-Visible s)

pub encode_event-Visible : (v : Event) → Visible (encode_event v)
unfolding encode_event front
encode_event-Visible v =
    let P = λ (c : ℕ). (c == 10) ≡ false in
    let texts =
      All-append P _ (encode_text v.systemd_sub_state) (encode_text-Visible v.systemd_active_state)
        (encode_text-Visible v.systemd_sub_state) in
    let more = All-append P _ _ (encode_text-Visible v.boot_id) texts in
    let cells = All-append P _ _ (encode_text-Visible v.service) more in
    (
      refl,
      (
        not_feed v.sequence,
        (
          state_not_feed v.state,
          (
            not_feed v.event_time_unix_ms,
            (
              not_feed v.event_time_monotonic_us,
              (source_not_feed v.source, All-append P _ (125 ∷ []) cells (refl, tt)),
            ),
          ),
        ),
      ),
    )

pub snoc-not-empty : (s : Text) → is_empty (s ++ 125 ∷ []) ≡ false
snoc-not-empty [] = refl
snoc-not-empty (c ∷ s) = refl

trim_right-brace : (s : Text) → trim_right (s ++ 125 ∷ 10 ∷ []) ≡ s ++ 125 ∷ []
unfolding trim_right
trim_right-brace [] = refl
trim_right-brace (c ∷ s) = rw (trim_right-brace s) (ground (arith, snoc-not-empty s))

pub encode_event-trims : (v : Event) → trim_space (encode_event v ++ 10 ∷ []) ≡ encode_event v
unfolding trim_space encode_event
encode_event-trims v = rw append_assoc (starts v ∙ trim_right-brace (front v))
  where
    starts :
        (v : Event)
        → trim_right (trim_left (front v ++ 125 ∷ 10 ∷ [])) ≡ trim_right (front v ++ 125 ∷ 10 ∷ [])
    starts v = unfold trim_left front in refl

pub encode_event-not_blank : (v : Event) → is_empty (encode_event v) ≡ false
unfolding encode_event
encode_event-not_blank v = snoc-not-empty (front v)

-- The states are only ever written by the tests.
abbrev pub sample_codec : EventCodec
sample_codec = record {
  encode = encode_event;
  decode = decode_event;
  decode_encode = decode_event-encode;
  one_line = encode_event-Visible;
  trims = encode_event-trims;
  not_blank = encode_event-not_blank;
  encode_states = λ m. [];
  decode_states = λ t. none;
}
