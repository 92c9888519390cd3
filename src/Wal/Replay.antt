-- ===== src/Wal/Replay.antt =====
-- internal/wal/wal.go: what the reader makes of a log that the writer left, whole or torn.
use systemd_transition_expor.Base.{
  ℕ, suc, zero, ◌+◌, ◌≤◌, ◌≡◌, refl, false, inl, inr, leb, lt→ltb, leb→le, List, [], ◌∷◌, ◌++◌,
  ◌==◌, if◌then◌else◌, length, take, take_all, take-length-append, length-append, All, All-take,
  arith, sym, ap, ◌∙◌, Bool-cases,
}
use mathlib.Core.List.{append-nil, append_assoc}
use systemd_transition_expor.Base.Text.{Text}
use systemd_transition_expor.Model.{Event}
use systemd_transition_expor.Wal.Codec.{EventCodec}
use systemd_transition_expor.Wal.Records.{
  newline, Records, add_line, read_lines, read_records, repair, read_all,
}

abbrev pub NoNewline : Text → Type 0
NoNewline s = All (λ c. (c == newline) ≡ false) s

regroup :
    (s rest tail : Text) → ((s ++ newline ∷ []) ++ rest) ++ tail ≡ s ++ newline ∷ (rest ++ tail)
regroup [] rest tail = refl
regroup (c ∷ s) rest tail = ap (λ t. c ∷ t) (regroup s rest tail)

module _ (codec : EventCodec) where
  open codec use {encode, decode, decode_encode, one_line, trims, not_blank}

  -- The file that holds these events, one line each.
  unfoldable pub lines : List Event → Text
  lines [] = []
  lines (v ∷ vs) = (encode v ++ newline ∷ []) ++ lines vs

  pub lines-append : (vs ws : List Event) → lines (vs ++ ws) ≡ lines vs ++ lines ws
  unfolding lines
  lines-append [] ws = refl
  lines-append (v ∷ vs) ws =
      rw (lines-append vs ws) (sym (append_assoc (encode v ++ newline ∷ []) (lines vs) (lines ws)))

  read_lines-tail :
      (line tail : Text)
      → NoNewline tail
      → read_lines codec line tail
        ≡ record { events = []; skipped = 0; truncated = length line + length tail; complete = 0 }
  unfolding read_lines
  read_lines-tail line [] h = ground arith
  read_lines-tail line (c ∷ tail) h =
      rw h.0
        (read_lines-tail (line ++ c ∷ []) tail h.1 ∙ ground (arith, length-append line (c ∷ [])))

  read_lines-line :
      (line s rest : Text)
      → NoNewline s
      → read_lines codec line (s ++ newline ∷ rest)
        ≡ add_line codec (line ++ s) (read_lines codec [] rest)
  unfolding read_lines
  read_lines-line line [] rest h = rw append-nil
  read_lines-line line (c ∷ s) rest h =
      rw h.0 (read_lines-line (line ++ c ∷ []) s rest h.1 ∙ rw append_assoc)

  add_line-encode :
      (v : Event) (r : Records)
      → add_line codec (encode v) r
        ≡ record r { events = v ∷ r.events; complete = r.complete + (length (encode v) + 1) }
  unfolding add_line
  add_line-encode v r = rw (trims v, not_blank v, decode_encode v)

  -- A log of complete lines with a torn line behind them reads as its events; the torn bytes are
  -- counted, and the end of the last complete line is found.
  read_records-lines :
      (vs : List Event) (tail : Text)
      → NoNewline tail
      → read_records codec (lines vs ++ tail)
        ≡ record { events = vs; skipped = 0; truncated = length tail; complete = length (lines vs) }
  unfolding read_records lines
  read_records-lines [] tail h = read_lines-tail [] tail h ∙ ground arith
  read_records-lines (v ∷ vs) tail h =
      ap (read_lines codec []) (regroup (encode v) (lines vs) tail)
      ∙ (read_lines-line [] (encode v) (lines vs ++ tail) (one_line v)
          ∙ (add_line-encode v (read_lines codec [] (lines vs ++ tail))
              ∙ (ap
                    (λ (r : Records).
                      let q : Records = record r {
                        events = v ∷ r.events;
                        complete = r.complete + (length (encode v) + 1);
                      } in
                      q)
                    (read_records-lines vs tail h)
                  ∙ ground (
                    arith,
                    length-append (encode v ++ newline ∷ []) (lines vs),
                    length-append (encode v) (newline ∷ []),
                  ))))

  -- `Repair` removes the torn bytes, reports their number and keeps every complete line.
  repair-lines :
      (vs : List Event) (tail : Text)
      → NoNewline tail
      → ((repair codec (lines vs ++ tail)).1 ≡ lines vs)
        × ((repair codec (lines vs ++ tail)).0.truncated_bytes ≡ length tail)
  unfolding repair
  repair-lines vs [] h =
      let r = read_records-lines vs [] h in
      (rw r (append-nil (lines vs)), ap (λ (x : Records). x.truncated) r)
  repair-lines vs (c ∷ tail) h =
      let r = read_records-lines vs (c ∷ tail) h in
      (
        simp r (
            rw (lt→ltb 0 (suc (length tail)) (omega arith))
              (take-length-append (lines vs) (c ∷ tail))),
        ap (λ (x : Records). x.truncated) r,
      )

  take-before : (n : ℕ) (s t : Text) → n ≤ length s → take n (s ++ t) ≡ take n s
  take-before zero s t h = refl
  take-before (suc n) [] t h = absurd (omega arith)
  take-before (suc n) (c ∷ s) t h = ap (λ x. c ∷ x) (take-before n s t (omega arith))

  -- What of a record that was cut after `n` bytes survives: nothing, unless its newline was written.
  abbrev pub survivor : ℕ → Event → List Event
  survivor n v = if leb n (length (encode v)) then [] else v ∷ []

  -- After a crash in the middle of an append, at any byte, `Repair` leaves a log of complete
  -- lines: the old events, and the new one exactly if its newline had been written.
  pub torn_append :
      (vs : List Event) (v : Event) (n : ℕ)
      → (repair codec (lines vs ++ take n (encode v ++ newline ∷ []))).1
        ≡ lines (vs ++ survivor n v)
  torn_append vs v n = elim (Bool-cases (leb n (length (encode v)))) [
    | inl c ↦
        rw (c, append-nil, take-before n (encode v) (newline ∷ []) (leb→le n _ c))
          (repair-lines vs (take n (encode v))
            (All-take (λ c. (c == newline) ≡ false) n (encode v) (one_line v))).0
    | inr c ↦
        let whole : take n (encode v ++ newline ∷ []) ≡ encode v ++ newline ∷ [] =
          take_all n _ (ground (arith, length-append (encode v) (newline ∷ []))) in
        rw (c, whole)
          (ap (λ s. (repair codec s).1) (whole_log vs v) ∙ (repair-lines (vs ++ v ∷ []) [] tt).0)
  ]
    where
      whole_log :
          (vs : List Event) (v : Event)
          → lines vs ++ (encode v ++ newline ∷ []) ≡ lines (vs ++ v ∷ []) ++ []
      whole_log vs v = rw (append-nil, lines-append) (unfold lines in rw append-nil)

  -- A crash in the middle of an append, at any byte, leaves a log whose repaired text reads as
  -- the old events, and the new one exactly if its newline had been written, with no record
  -- skipped and no byte torn.
  pub replay_after_crash :
      (vs : List Event) (v : Event) (n : ℕ)
      → read_all codec (repair codec (lines vs ++ take n (encode v ++ newline ∷ []))).1 ≡ (
        vs ++ survivor n v,
        record { skipped_records = 0; truncated_bytes = 0; state_reset = false },
      )
  unfolding read_all
  replay_after_crash vs v n =
      let all = vs ++ survivor n v in
      let clean : read_records codec (lines all)
          ≡ record { events = all; skipped = 0; truncated = 0; complete = length (lines all) } =
        ap (read_records codec) (sym (append-nil (lines all))) ∙ read_records-lines all [] tt in
      rw (torn_append vs v n) (simp clean)
