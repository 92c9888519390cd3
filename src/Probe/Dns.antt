-- ===== src/Probe/Dns.antt =====
-- internal/dns/query.go: the query and the test of an answer. A packet is a list of bytes.
use systemd_transition_expor.Base.{
  ℕ, ◌+◌, ◌*◌, ◌/◌, ◌%◌, ◌<◌, ◌≡◌, Bool, false, ◌&&◌, Option, none, some, [], ◌∷◌, ◌++◌,
  if◌then◌else◌, ◌==◌, ltb, leb, length, arith,
}
use systemd_transition_expor.Base.Text.{Text}

abbrev pub type_txt : ℕ
type_txt = 16

abbrev pub class_chaos : ℕ
class_chaos = 3

-- `binary.BigEndian.Uint16` and `PutUint16`.
abbrev pub u16 : ℕ → ℕ → ℕ
u16 hi lo = hi * 256 + lo

abbrev pub put_u16 : ℕ → Text
put_u16 n = n / 256 % 256 ∷ n % 256 ∷ []

-- The labels of version.bind, each after its length, and the root.
abbrev pub question_name : Text
question_name =
    7 ∷ b'v' ∷ b'e' ∷ b'r' ∷ b's' ∷ b'i' ∷ b'o' ∷ b'n' ∷ 4 ∷ b'b' ∷ b'i' ∷ b'n' ∷ b'd' ∷ 0 ∷ []

unfoldable pub query_packet : ℕ → Text
query_packet id =
    put_u16 id
    ++ ((0 ∷ 0 ∷ put_u16 1)
        ++ ((0 ∷ 0 ∷ 0 ∷ 0 ∷ 0 ∷ 0 ∷ [])
            ++ (question_name ++ (put_u16 type_txt ++ put_u16 class_chaos))))

-- The two random bytes are the argument, `none` where there are none to be had.
unfoldable pub query : Option (ℕ × ℕ) → Option (ℕ × Text)
unfolding query_packet
query none = none
query (some (hi, lo)) = some (u16 hi lo, query_packet (u16 hi lo))

-- The bit 0x80 of the third byte marks a response.
unfoldable pub answered : Text → ℕ → Bool
answered (a ∷ b ∷ c ∷ rest) id =
    if ltb (3 + length rest) 12 then false else u16 a b == id && c / 128 % 2 == 1
answered _ id = false

-- A query is no answer to itself.
echo_unanswered : (id : ℕ) → answered (query_packet id) id ≡ false
unfolding answered query_packet
echo_unanswered id = ground arith

same_id : (a b hi lo : ℕ) → b < 256 → lo < 256 → (u16 a b == u16 hi lo) ≡ (a == hi && b == lo)
same_id a b hi lo hb hl = ground arith

-- Of the packets of at least twelve bytes exactly those with the response bit that begin with the
-- two bytes of the query's identifier are taken as its answer, and the query itself is not.
answered-query :
    (hi lo id : ℕ) (packet : Text) (a b c : ℕ) (rest : Text)
    → query (some (hi, lo)) ≡ some (id, packet)
    → lo < 256
    → b < 256
    → (answered packet id ≡ false)
      × (answered (a ∷ b ∷ c ∷ rest) id
          ≡ (leb 9 (length rest) && ((a == hi && b == lo) && (c / 128 % 2 == 1))))
unfolding query answered
answered-query hi lo id packet a b c rest q hl hb =
    let e : u16 hi lo ≡ id = cc in
    let f : query_packet (u16 hi lo) ≡ packet = cc in
    (rw (← f, ← e) (echo_unanswered (u16 hi lo)), rw (← e, same_id a b hi lo hb hl) (ground arith))
