-- ===== src/Probe/Sip.antt =====
-- internal/sip/options.go: the OPTIONS request and the test of an answer. A packet is a list of
-- bytes, and letters are those of ASCII.
pub mod Reply
use systemd_transition_expor.Base.{
  ℕ, suc, ◌+◌, ◌-◌, ◌/◌, ◌%◌, ◌≡◌, refl, Bool, true, false, not, ◌&&◌, ◌||◌, Option, none, some,
  List, [], ◌∷◌, ◌++◌, map, if◌then◌else◌, ◌==◌, ltb, leb, length,
}
use systemd_transition_expor.Base.Text.{
  Text, codes, is_empty, is_space, trim_space, to_lower, text_eq, has_prefix, contains,
}
use systemd_transition_expor.Base.Decimal.{decimal, number}

-- `hex.EncodeToString`
abbrev pub hex_digit : ℕ → ℕ
hex_digit n = if ltb n 10 then b'0' + n else b'a' + (n - 10)

abbrev pub hex : List ℕ → Text
hex [] = []
hex (b ∷ bs) = hex_digit (b / 16 % 16) ∷ hex_digit (b % 16) ∷ hex bs

-- The host of the socket's address, in brackets if it is an IPv6 address.
unfoldable pub host_of : Text → Text
host_of host =
    if contains host (codes ":") && not (has_prefix host (codes "["))
    then codes "[" ++ (host ++ codes "]")
    else host

-- The lines of the request after its first, each without its line end.
unfoldable pub header_lines : Text → Text → ℕ → ℕ → Text → Text → Text → List Text
header_lines uri host port cseq call_id branch tag =
    (codes "Via:"
      ++ (codes " SIP/2.0/UDP "
          ++ (host
              ++ (codes ":"
                  ++ (decimal port ++ (codes ";branch=z9hG4bK" ++ (branch ++ codes ";rport")))))))
    ∷ (codes "From:"
        ++ (codes " <sip:systemd-transition-exporter@" ++ (host ++ (codes ">;tag=" ++ tag))))
    ∷ (codes "To:" ++ (codes " <" ++ (uri ++ codes ">")))
    ∷ (codes "Call-ID:" ++ (codes " " ++ call_id))
    ∷ (codes "CSeq:" ++ (codes " " ++ (decimal cseq ++ codes " OPTIONS")))
    ∷ codes "Max-Forwards: 70"
    ∷ codes "Content-Length: 0"
    ∷ []
    ∷ []

-- Each line with CR and LF.
abbrev pub joined_lines : List Text → Text
joined_lines [] = []
joined_lines (l ∷ ls) = l ++ (13 ∷ 10 ∷ joined_lines ls)

pub record Message : Type 0 where
  pub call_id : Text
  pub bytes : Text

-- The three tokens are hexadecimal texts of random bytes; `none` where there are none.
unfoldable pub options :
    Text → Text → ℕ → ℕ → Option (List ℕ) → Option (List ℕ) → Option (List ℕ) → Option Message
options uri local_host port cseq (some a) (some b) (some c) = some record {
  call_id = hex a;
  bytes = joined_lines (
      (codes "OPTIONS " ++ (uri ++ codes " SIP/2.0"))
      ∷ header_lines uri (host_of local_host) port cseq (hex a) (hex b) (hex c));
}
options uri local_host port cseq _ _ _ = none

-- `bytes.Cut` at one byte: what stands before and after the first of them.
abbrev then_cut : ℕ → Option (Text × Text) → Option (Text × Text)
then_cut c none = none
then_cut c (some (before, after)) = some (c ∷ before, after)

unfoldable pub cut : ℕ → Text → Option (Text × Text)
cut d [] = none
cut d (c ∷ s) = let rest = cut d s in if c == d then some ([], s) else then_cut c rest

abbrev pub before_cut : Text → Option (Text × Text) → Text
before_cut s none = s
before_cut s (some (before, after)) = before

-- `bytes.Split` at the newlines.
abbrev pub then_char : ℕ → List Text → List Text
then_char c [] = (c ∷ []) ∷ []
then_char c (l ∷ ls) = (c ∷ l) ∷ ls

unfoldable pub split_lines : Text → List Text
split_lines [] = [] ∷ []
split_lines (c ∷ s) = let rest = split_lines s in if c == 10 then [] ∷ rest else then_char c rest

-- `bytes.Fields`, with the bytes of the current field read so far.
unfoldable pub fields_from : Text → Text → List Text
fields_from field [] = if is_empty field then [] else field ∷ []
fields_from field (c ∷ s) =
    let next = fields_from [] s in
    let more = fields_from (field ++ c ∷ []) s in
    if is_space c then (if is_empty field then next else field ∷ next) else more

abbrev pub equal_fold : Text → Text → Bool
equal_fold s t = text_eq (to_lower s) (to_lower t)

abbrev is_some_200 : Option ℕ → Bool
is_some_200 none = false
is_some_200 (some n) = n == 200

-- `strconv.Atoi` gives 200: with or without a plus sign. Other results are not told apart.
unfoldable pub reads_200 : Text → Bool
reads_200 [] = false
reads_200 (c ∷ s) = if c == b'+' then is_some_200 (number s) else is_some_200 (number (c ∷ s))

unfoldable pub status_is_200 : List Text → Bool
status_is_200 (version ∷ code ∷ rest) = equal_fold version (codes "SIP/2.0") && reads_200 code
status_is_200 _ = false

-- The loop over the lines: the first header that is a Call-ID, in its long or short form.
abbrev pub header : Option (Text × Text) → Option Text → Option Text
header none rest = rest
header (some (name, value)) rest =
    if equal_fold (trim_space name) (codes "Call-ID") || text_eq name (codes "i")
    then some (trim_space value)
    else rest

unfoldable pub first_call_id : List Text → Option Text
first_call_id [] = none
first_call_id (raw ∷ lines) = header (cut b':' (trim_space raw)) (first_call_id lines)

abbrev pub is_call_id : Option Text → Text → Bool
is_call_id none id = false
is_call_id (some value) id = text_eq value id

unfoldable pub is_ok : Text → Text → Bool
is_ok packet call_id =
    if status_is_200 (fields_from [] (trim_space (before_cut packet (cut 10 packet))))
    then is_call_id (first_call_id (split_lines packet)) call_id
    else false
