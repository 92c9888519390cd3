-- ===== src/Probe/Agw.antt =====
-- internal/agw/ping.go: the ping with its token, and the test of an answer.
use systemd_transition_expor.Base.{
  ℕ, ◌≡◌, ◌≢◌, refl, Bool, true, false, [], ◌∷◌, ◌++◌, if◌then◌else◌, ◌==◌, length, drop, All,
  All-append, arith, u64_inc, Bool-cases, inl, inr,
}
use systemd_transition_expor.Base.Text.{
  Text, codes, has_prefix, contains, has_prefix-append, contains-append,
}
use systemd_transition_expor.Base.Decimal.{decimal, decimal_injective, decimal-digits, is_digit}

abbrev pub command : Text
command = codes "d7:command4:pinge"

abbrev pub result : Text
result = codes "d6:result4:ponge"

abbrev pub space : ℕ
space = 32

-- `fmt.Sprintf("0_%d_%d", pid, n)`
unfoldable pub token_of : ℕ → ℕ → Text
token_of pid n = codes "0_" ++ (decimal pid ++ (codes "_" ++ decimal n))

-- The counter after the call, the token and the packet.
unfoldable pub ping : ℕ → ℕ → ℕ × Text × Text
unfolding token_of
ping pid seq = let n = u64_inc seq in (n, token_of pid n, token_of pid n ++ space ∷ command)

unfoldable pub is_pong : Text → Text → Bool
is_pong packet token =
    let prefix = token ++ space ∷ [] in
    if has_prefix packet prefix then contains (drop (length prefix) packet) result else false

abbrev NoSpace : Text → Type 0
NoSpace t = All (λ c. (c == space) ≡ false) t

-- Of texts without a space, only one can stand before the first space of a packet.
same_prefix :
    (packet s t : Text)
    → NoSpace s
    → NoSpace t
    → has_prefix packet (s ++ space ∷ []) ≡ true
    → has_prefix packet (t ++ space ∷ []) ≡ true
    → s ≡ t
same_prefix [] [] t hs ht p q = cc
same_prefix [] (c ∷ s) t hs ht p q = cc
same_prefix (a ∷ packet) [] [] hs ht p q = refl
same_prefix (a ∷ packet) [] (d ∷ t) hs ht p q = ground arith
same_prefix (a ∷ packet) (c ∷ s) [] hs ht p q = ground arith
same_prefix (a ∷ packet) (c ∷ s) (d ∷ t) hs ht p q =
    ground (arith, same_prefix packet s t hs.1 ht.1)

digits-NoSpace : (t : Text) → All (λ c. is_digit c ≡ true) t → NoSpace t
digits-NoSpace [] h = tt
digits-NoSpace (c ∷ t) h = (ground arith, digits-NoSpace t h.1)

token_of-NoSpace : (pid n : ℕ) → NoSpace (token_of pid n)
unfolding token_of
token_of-NoSpace pid n = (
  refl,
  (
    refl,
    All-append _ (decimal pid) _ (digits-NoSpace _ (decimal-digits pid))
        (refl, digits-NoSpace _ (decimal-digits n)),
  ),
)

cancel_front : (s t u : Text) → s ++ t ≡ s ++ u → t ≡ u
cancel_front [] t u h = h
cancel_front (c ∷ s) t u h = cancel_front s t u (cc)

token_of_injective : (pid n m : ℕ) → token_of pid n ≡ token_of pid m → n ≡ m
unfolding token_of
token_of_injective pid n m h = decimal_injective n m (
    cancel_front (codes "_") _ _ (cancel_front (decimal pid) _ _ (cancel_front (codes "0_") _ _ h)))

is_pong-prefix :
    (packet token : Text)
    → is_pong packet token ≡ true
    → has_prefix packet (token ++ space ∷ []) ≡ true
unfolding is_pong
is_pong-prefix packet token h = elim (Bool-cases (has_prefix packet (token ++ space ∷ []))) [
  | inl e ↦ e
  | inr e ↦ let no : false ≡ true = rw e at h in cc
]

-- A packet is the pong of one ping of the process at most: what answers the ping of one number
-- answers the ping of no other.
pub is_pong_once :
    (packet : Text) (pid n m : ℕ)
    → n ≢ m
    → is_pong packet (token_of pid n) ≡ true
    → is_pong packet (token_of pid m) ≡ false
unfolding is_pong
is_pong_once packet pid n m ne h =
    elim (Bool-cases (has_prefix packet (token_of pid m ++ space ∷ []))) [
      | inr e ↦ rw e refl
      | inl e ↦ absurd (
          ne (
            token_of_injective pid n m (
              same_prefix packet (token_of pid n) (token_of pid m) (token_of-NoSpace pid n)
                (token_of-NoSpace pid m) (is_pong-prefix packet (token_of pid n) h) e)))
    ]

drop-length-append : (s t : Text) → drop (length s) (s ++ t) ≡ t
drop-length-append [] t = refl
drop-length-append (c ∷ s) t = drop-length-append s t

-- The answer of AGW is taken: the echoed token, a space, and somewhere the result.
is_pong-echo :
    (token before after : Text)
    → is_pong ((token ++ space ∷ []) ++ (before ++ (result ++ after))) token ≡ true
unfolding is_pong
is_pong-echo token before after =
    rw
      (
        has_prefix-append (token ++ space ∷ []) (before ++ (result ++ after)),
        drop-length-append (token ++ space ∷ []) (before ++ (result ++ after)),
      )
      (contains-append before result after)
