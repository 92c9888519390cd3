-- ===== src/Wal/Codec.antt =====
-- What the log uses of Go's encoding/json, with its documented behaviour: a struct that was encoded
-- decodes to itself, and a compact object holds no line feed and no space at its ends.
use systemd_transition_expor.Base.{false, Option, some, ◌≡◌, All, ◌==◌, [], ◌∷◌, ◌++◌}
use systemd_transition_expor.Base.Dict.{Dict}
use systemd_transition_expor.Base.Text.{Text, is_empty, trim_space}
use systemd_transition_expor.Model.{Event, ServiceState}

pub record EventCodec : Type 0 where
  pub encode : Event → Text
  pub decode : Text → Option Event
  pub decode_encode : (v : Event) → decode (encode v) ≡ some v
  pub one_line : (v : Event) → All (λ c. (c == 10) ≡ false) (encode v)
  -- `TrimSpace` of the line gives back the record, which is not empty.
  pub trims : (v : Event) → trim_space (encode v ++ 10 ∷ []) ≡ encode v
  pub not_blank : (v : Event) → is_empty (encode v) ≡ false
  pub encode_states : Dict ServiceState → Text
  pub decode_states : Text → Option (Dict ServiceState)
