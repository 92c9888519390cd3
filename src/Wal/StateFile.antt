-- ===== src/Wal/StateFile.antt =====
-- `writeStateLocked` of internal/wal/wal.go: the state file and what a failing call leaves of it.
use systemd_transition_expor.Base.{
  ℕ, ◌≡◌, true, false, ◌⊎◌, inl, inr, none, some, [], ◌∷◌, ◌++◌, ◌==◌, arith, is_none, length, take,
  take_whole, Bool-cases,
}
use systemd_transition_expor.Base.Text.{Text}
use systemd_transition_expor.Wal.Codec.{EventCodec}
use systemd_transition_expor.Wal.Records.{newline}
use systemd_transition_expor.Wal.{StateFault, Wal, sync_dir, write_state}

module _ (codec : EventCodec) where
  open codec use {encode_states}

  -- The content that a write of the state file stands for.
  abbrev pub payload : Wal → Text
  payload w = encode_states w.states ++ newline ∷ []

  sync_dir-same : (f : StateFault) (w : Wal) → (sync_dir codec f w).1 ≡ w
  unfolding sync_dir
  sync_dir-same f w = ground arith

  -- After `writeStateLocked` state.json is as it was, or is the whole new content, or is missing
  -- after a rename that failed, with an error; without an error it is the whole new content.
  pub write_state_atomic :
      (f : StateFault) (w : Wal)
      → ((write_state codec f w).0 ≡ none → (write_state codec f w).1.state_json ≡ some (payload w))
        × (((write_state codec f w).1.state_json ≡ w.state_json)
            ⊎ ((write_state codec f w).1.state_json ≡ some (payload w))
            ⊎ (((write_state codec f w).1.state_json ≡ none)
                × (is_none f.rename ≡ false)
                × (is_none (write_state codec f w).0 ≡ false)))
  unfolding write_state
  write_state_atomic f w =
      elim (Bool-cases (length (take f.arrived (payload w)) == length (payload w))) [
        | inr c ↦ ground (arith, c, sync_dir-same f)
        | inl c ↦
            let whole = take_whole f.arrived (payload w) (same_number c) in
            ground (arith, c, whole, sync_dir-same f)
      ]
    where
      same_number : {m n : ℕ} → (m == n) ≡ true → m ≡ n
      same_number h = ground (arith, h)
