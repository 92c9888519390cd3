-- ===== src/Engine/Lookup.antt =====
-- Reading the state of a service after a write.
use systemd_transition_expor.Base.{ℕ, ◌≡◌, String, true, arith, str_eq, is_none, if◌then◌else◌}
use systemd_transition_expor.Base.Dict.{lookup, insert, lookup-insert, lookup-insert_self}
use systemd_transition_expor.Model.{ServiceState, zero_state}
use systemd_transition_expor.Engine.{Engine, state_or_zero}

pub state_or_zero-insert_self :
    (e : Engine) (k : String) (x : ServiceState) (n : ℕ)
    → state_or_zero (record e { states = insert k x e.states; seq = n }) k ≡ x
unfolding state_or_zero
state_or_zero-insert_self e k x n = rw (lookup-insert_self k x e.states, state_or_zero)

pub state_or_zero-insert :
    (e : Engine) (k j : String) (x : ServiceState) (n : ℕ)
    → state_or_zero (record e { states = insert k x e.states; seq = n }) j
      ≡ (if str_eq k j then x else state_or_zero e j)
unfolding state_or_zero
state_or_zero-insert e k j x n = ground (arith, lookup-insert k j x e.states)

pub state_or_zero-none :
    (e : Engine) (k : String) → is_none (lookup k e.states) ≡ true → state_or_zero e k ≡ zero_state
unfolding state_or_zero
state_or_zero-none e k h = ground arith
