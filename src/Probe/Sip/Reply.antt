-- ===== src/Probe/Sip/Reply.antt =====
-- internal/sip/options.go: the answer that repeats the header lines of a request.
use systemd_transition_expor.Base.{
  ℕ, ◌/◌, ◌%◌, ◌≤◌, ◌≡◌, refl, Bool, true, false, not, ◌&&◌, ◌||◌, some, List, [], ◌∷◌, ◌++◌,
  if◌then◌else◌, ◌==◌, All, All-append, arith, sym, ap, ◌∙◌, Bool-cases, inl, inr, drop, ==_refl,
}
use mathlib.Core.List.{append_assoc, append-nil}
use systemd_transition_expor.Base.Text.{
  Text, codes, is_space, trim_left, trim_right, trim_space, text_eq, lower, contains, has_prefix,
}
use systemd_transition_expor.Base.Decimal.{decimal, number, digits, decimal-digits, is_digit}
use systemd_transition_expor.Probe.Sip.{
  hex, hex_digit, host_of, header_lines, joined_lines, Message, options, cut, split_lines,
  fields_from, equal_fold, reads_200, status_is_200, first_call_id, is_ok,
}

abbrev pub NoNewline : Text → Type 0
NoNewline s = All (λ c. (c == 10) ≡ false) s

abbrev Solid : Text → Type 0
Solid s = All (λ c. is_space c ≡ false) s

split_lines-line :
    (l s : Text) → NoNewline l → split_lines (l ++ 13 ∷ 10 ∷ s) ≡ (l ++ 13 ∷ []) ∷ split_lines s
unfolding split_lines
split_lines-line [] s h = refl
split_lines-line (c ∷ l) s h = rw (h.0, split_lines-line l s h.1) refl

then_kept : (b : Bool) (c : ℕ) (s : Text) → (if b && false then [] else c ∷ s) ≡ c ∷ s
then_kept true c s = refl
then_kept false c s = refl

trim_right-Solid : (s t : Text) → Solid s → trim_right (s ++ t) ≡ s ++ trim_right t
unfolding trim_right
trim_right-Solid [] t h = refl
trim_right-Solid (c ∷ s) t h = rw (h.0, then_kept, trim_right-Solid s t h.1) refl

cut-before : (d : ℕ) (n t : Text) → All (λ c. (c == d) ≡ false) n → cut d (n ++ d ∷ t) ≡ some (n, t)
unfolding cut
cut-before d [] t k = rw (==_refl d) refl
cut-before d (c ∷ n) t k = rw (k.0, cut-before d n t k.1) refl

append-NoNewline : (s t : Text) → NoNewline s → NoNewline t → NoNewline (s ++ t)
append-NoNewline s t hs ht = All-append _ s t hs ht

no_newline : Text → Bool
no_newline [] = true
no_newline (c ∷ s) = not (c == 10) && no_newline s

literal : (s : Text) → no_newline s ≡ true → NoNewline s
unfolding no_newline
literal [] h = tt
literal (c ∷ s) h = (ground (arith, h), literal s (ground (arith, h)))

Solid-NoNewline : (s : Text) → Solid s → NoNewline s
Solid-NoNewline [] h = tt
Solid-NoNewline (c ∷ s) h = (ground (arith, h.0), Solid-NoNewline s h.1)

hex-Solid : (bs : List ℕ) → Solid (hex bs)
hex-Solid [] = tt
hex-Solid (b ∷ bs) =
    (digit (b / 16 % 16) (omega arith), (digit (b % 16) (omega arith), hex-Solid bs))
  where
    digit : (n : ℕ) → n ≤ 15 → is_space (hex_digit n) ≡ false
    digit n h = ground arith

decimal-NoNewline : (n : ℕ) → NoNewline (decimal n)
decimal-NoNewline n = of_digits (decimal n) (decimal-digits n)
  where
    of_digits : (s : Text) → All (λ c. is_digit c ≡ true) s → NoNewline s
    of_digits [] h = tt
    of_digits (c ∷ s) h = (ground (arith, h.0), of_digits s h.1)

-- The name of a header is what stands before its colon.
cut-name :
    (c : ℕ) (n t : Text)
    → Solid (c ∷ n)
    → All (λ d. (d == b':') ≡ false) (c ∷ n)
    → cut b':' (trim_space ((c ∷ n) ++ b':' ∷ t)) ≡ some (c ∷ n, trim_right t)
unfolding trim_space trim_left
cut-name c n t s k =
    rw (s.0, trim_right-Solid (c ∷ n) (b':' ∷ t) s, trim_right-Solid (b':' ∷ []) t (refl, tt))
      (cut-before b':' (c ∷ n) (trim_right t) k)

-- A header line of another name is passed over.
first_call_id-skip :
    (c : ℕ) (n t s : Text)
    → Solid (c ∷ n)
    → All (λ d. (d == b':') ≡ false) (c ∷ n)
    → equal_fold (trim_space (c ∷ n)) (codes "Call-ID") || text_eq (c ∷ n) (codes "i") ≡ false
    → NoNewline ((c ∷ n) ++ b':' ∷ t)
    → first_call_id (split_lines (((c ∷ n) ++ b':' ∷ t) ++ 13 ∷ 10 ∷ s))
      ≡ first_call_id (split_lines s)
unfolding first_call_id
first_call_id-skip c n t s solid plain other line =
    rw
      (
        split_lines-line ((c ∷ n) ++ b':' ∷ t) s line,
        append_assoc (c ∷ n) (b':' ∷ t) (13 ∷ []),
        cut-name c n (t ++ 13 ∷ []) solid plain,
        other,
      )
      refl

trimmed_value : (h : Text) → Solid h → trim_space (trim_right (32 ∷ (h ++ 13 ∷ []))) ≡ h
unfolding trim_space trim_left trim_right
trimmed_value [] s = refl
trimmed_value (c ∷ h) s =
    rw
      (
        trim_right-Solid (c ∷ h) (13 ∷ []) s,
        append-nil h,
        s.0,
        sym (append-nil h),
        trim_right-Solid (c ∷ h) [] s,
      )
      refl

first_call_id-hit :
    (h s : Text)
    → Solid h
    → first_call_id (split_lines ((codes "Call-ID:" ++ (codes " " ++ h)) ++ 13 ∷ 10 ∷ s)) ≡ some h
unfolding first_call_id trim_space trim_left trim_right lower no_newline
first_call_id-hit h s solid =
    rw
      (
        split_lines-line (codes "Call-ID: " ++ h) s (
            append-NoNewline (codes "Call-ID: ") h (literal (codes "Call-ID: ") refl)
              (Solid-NoNewline h solid)),
        cut-name b'C' (codes "all-ID") (32 ∷ (h ++ 13 ∷ []))
            (refl, (refl, (refl, (refl, (refl, (refl, (refl, tt)))))))
            (refl, (refl, (refl, (refl, (refl, (refl, (refl, tt))))))),
      )
      (ap some (trimmed_value h solid))

ok_line : Text
ok_line = codes "SIP/2.0 200 OK"

module _ (uri host : Text) (port cseq : ℕ) (id branch tag : List ℕ) (uri_line : NoNewline uri)
    (host_line : NoNewline host) where
  via : NoNewline (
      codes "Via:"
      ++ (codes " SIP/2.0/UDP "
          ++ (host
              ++ (codes ":"
                  ++ (decimal port
                      ++ (codes ";branch=z9hG4bK" ++ (hex branch ++ codes ";rport")))))))
  unfolding no_newline
  via = append-NoNewline (codes "Via: SIP/2.0/UDP ") _ (literal (codes "Via: SIP/2.0/UDP ") refl) (
      append-NoNewline host _ host_line (
        append-NoNewline (codes ":") _ (literal (codes ":") refl) (
          append-NoNewline (decimal port) _ (decimal-NoNewline port) (
            append-NoNewline (codes ";branch=z9hG4bK") _ (literal (codes ";branch=z9hG4bK") refl) (
              append-NoNewline (hex branch) _ (Solid-NoNewline _ (hex-Solid branch))
                (literal (codes ";rport") refl))))))

  from : NoNewline (
      codes "From:"
      ++ (codes " <sip:systemd-transition-exporter@" ++ (host ++ (codes ">;tag=" ++ hex tag))))
  unfolding no_newline
  from =
      append-NoNewline (codes "From: <sip:systemd-transition-exporter@") _
        (literal (codes "From: <sip:systemd-transition-exporter@") refl)
        (append-NoNewline host _ host_line (
          append-NoNewline (codes ">;tag=") _ (literal (codes ">;tag=") refl)
            (Solid-NoNewline _ (hex-Solid tag))))

  to : NoNewline (codes "To:" ++ (codes " <" ++ (uri ++ codes ">")))
  unfolding no_newline
  to =
      append-NoNewline (codes "To: <") _ (literal (codes "To: <") refl)
        (append-NoNewline uri _ uri_line (literal (codes ">") refl))

  lines_after : ℕ → Text
  lines_after n =
      joined_lines (drop n (header_lines uri host port cseq (hex id) (hex branch) (hex tag)))

  first_call_id-header_lines : first_call_id (split_lines (lines_after 0)) ≡ some (hex id)
  unfolding header_lines trim_space trim_left trim_right lower lines_after
  first_call_id-header_lines =
      first_call_id-skip b'V' (codes "ia")
        (codes " SIP/2.0/UDP "
          ++ (host
              ++ (codes ":"
                  ++ (decimal port
                      ++ (codes ";branch=z9hG4bK" ++ (hex branch ++ codes ";rport"))))))
        (lines_after 1) (refl, (refl, (refl, tt))) (refl, (refl, (refl, tt))) refl via
      ∙ (first_call_id-skip b'F' (codes "rom")
            (codes " <sip:systemd-transition-exporter@" ++ (host ++ (codes ">;tag=" ++ hex tag)))
            (lines_after 2) (refl, (refl, (refl, (refl, tt)))) (refl, (refl, (refl, (refl, tt))))
            refl from
          ∙ (first_call_id-skip b'T' (codes "o") (codes " <" ++ (uri ++ codes ">")) (lines_after 3)
                (refl, (refl, tt)) (refl, (refl, tt)) refl to
              ∙ first_call_id-hit (hex id) (lines_after 4) (hex-Solid id)))

  reply-is_ok :
      (other : Text) → is_ok (ok_line ++ 13 ∷ 10 ∷ lines_after 0) other ≡ text_eq (hex id) other
  unfolding is_ok ok_line cut split_lines first_call_id status_is_200 fields_from reads_200
      trim_space trim_left trim_right lower number digits
  reply-is_ok other = rw (first_call_id-header_lines) refl

host_of-NoNewline : (host : Text) → NoNewline host → NoNewline (host_of host)
unfolding host_of no_newline
host_of-NoNewline host h =
    elim (Bool-cases (contains host (codes ":") && not (has_prefix host (codes "[")))) [
      | inl e ↦ rw e (refl, append-NoNewline host _ h (literal (codes "]") refl))
      | inr e ↦ rw e h
    ]

-- The answer 200 OK that repeats the header lines of a request, whose target and host have no
-- newline, is taken for a Call-ID exactly if it is the one that the request was given.
pub is_ok-reply :
    (uri host : Text) (port cseq : ℕ) (a b c : List ℕ) (m : Message) (other : Text)
    → NoNewline uri
    → NoNewline host
    → options uri host port cseq (some a) (some b) (some c) ≡ some m
    → is_ok
        (joined_lines (
          codes "SIP/2.0 200 OK"
          ∷ header_lines uri (host_of host) port cseq (hex a) (hex b) (hex c)))
        other
      ≡ text_eq (m.call_id) other
unfolding options ok_line lines_after
is_ok-reply uri host port cseq a b c m other hu hh sent =
    let e : m.call_id ≡ hex a = cc in
    rw e (reply-is_ok uri (host_of host) port cseq a b c hu (host_of-NoNewline host hh) other)
