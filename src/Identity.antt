-- ===== src/Identity.antt =====
-- internal/identity/identity.go: the names of the host, and the warnings on labels that do not name
-- it. Names are ASCII texts.
use systemd_transition_expor.Base.{
  ℕ, ◌≡◌, refl, Bool, true, false, ◌&&◌, ◌||◌, Option, none, some, List, [], ◌∷◌, ◌++◌,
  if◌then◌else◌, ◌==◌, Bool-cases, inl, inr, arith,
}
use systemd_transition_expor.Base.Text.{
  Text, codes, is_empty, trim_space, trim_left, trim_right, to_lower, lower, text_eq, has_prefix,
}

-- `strings.TrimSuffix` by a point.
unfoldable pub trim_dot : Text → Text
trim_dot [] = []
trim_dot (c ∷ s) = let rest = trim_dot s in if is_empty s && c == b'.' then [] else c ∷ rest

-- What stands before the first character that passes a test.
abbrev pub before : (ℕ → Bool) → Text → Text
before p [] = []
before p (c ∷ s) = let rest = before p s in if p c then [] else c ∷ rest

abbrev is_blank : ℕ → Bool
is_blank c = c == 32 || (c == 9 || (c == 10 || c == 13))

unfoldable pub normalize_hostname : Text → Text
unfolding trim_dot
normalize_hostname s = before is_blank (trim_dot (to_lower (trim_space s)))

abbrev pub append_unique : List Text → Text → List Text
append_unique [] name = name ∷ []
append_unique (existing ∷ names) name =
    let rest = append_unique names name in
    if text_eq existing name then existing ∷ names else existing ∷ rest

abbrev is_dot : ℕ → Bool
is_dot c = c == b'.'

-- The short form, if there is a point after the first character.
abbrev short_form : Text → Option Text
short_form host =
    let front = before is_dot host in
    if is_empty front || text_eq front host then none else some front

abbrev append_short : List Text → Option Text → List Text
append_short names none = names
append_short names (some short) = append_unique names short

unfoldable pub append_hostname : List Text → Text → List Text
unfolding normalize_hostname
append_hostname names raw =
    let host = normalize_hostname raw in
    if is_empty host || text_eq host (codes "localhost")
    then names
    else append_short (append_unique names host) (short_form host)

abbrev append_read : List Text → Option Text → List Text
unfolding append_hostname
append_read names none = names
append_read names (some raw) = append_hostname names raw

-- What os.Hostname and /etc/hostname give, `none` where they fail.
unfoldable pub local_hostnames : Option Text → Option Text → List Text
unfolding append_read
local_hostnames hostname file = append_read (append_read [] hostname) file

abbrev pub primary_hostname : List Text → Text
primary_hostname [] = codes "unknown"
primary_hostname (name ∷ names) = name

abbrev pub same_host : Text → Text → Bool
same_host want got =
    text_eq want got || (has_prefix want (got ++ codes ".") || has_prefix got (want ++ codes "."))

abbrev pub matches_any : Text → List Text → Bool
unfolding normalize_hostname
matches_any want [] = false
matches_any want (host ∷ hosts) =
    let got = normalize_hostname host in
    let rest = matches_any want hosts in
    if is_empty got then rest else if same_host want got then true else rest

unfoldable pub matches_host : Text → List Text → Bool
unfolding normalize_hostname matches_any
matches_host instance hosts =
    let want = normalize_hostname instance in
    if is_empty want then false else matches_any want hosts

-- The warnings by their kinds, the second with the instance and the names of the host.
pub data Warning : Type 0 where
  no_instance : Warning
  other_host : Text → List Text → Warning

-- The value of the label instance, empty where there is none.
unfoldable pub warnings : Text → List Text → List Warning
unfolding matches_host
warnings label hosts =
    let instance = trim_space label in
    if is_empty instance
    then no_instance ∷ []
    else if matches_host instance hosts
    then []
    else other_host instance hosts ∷ []

text_eq-sym : (s t : Text) → text_eq s t ≡ text_eq t s
text_eq-sym [] [] = refl
text_eq-sym [] (d ∷ t) = refl
text_eq-sym (c ∷ s) [] = refl
text_eq-sym (c ∷ s) (d ∷ t) = ground (arith, text_eq-sym s t)

or_comm : (a b : Bool) → (a || b) ≡ (b || a)
or_comm true true = refl
or_comm true false = refl
or_comm false true = refl
or_comm false false = refl

same_host-sym : (w g : Text) → same_host w g ≡ same_host g w
same_host-sym w g =
    rw (text_eq-sym w g, or_comm (has_prefix w (g ++ codes ".")) (has_prefix g (w ++ codes ".")))
      refl

both_named :
    (w g : Text)
    → (if is_empty w
        then false
        else if is_empty g
        then false
        else if same_host w g
        then true
        else false)
      ≡ (if is_empty g
          then false
          else if is_empty w
          then false
          else if same_host g w
          then true
          else false)
both_named w g = elim (Bool-cases (is_empty w)) [
  | inl e ↦ elim (Bool-cases (is_empty g)) [ inl k ↦ rw (e, k) refl | inr k ↦ rw (e, k) refl ]
  | inr e ↦ elim (Bool-cases (is_empty g)) [
    | inl k ↦ rw (e, k) refl
    | inr k ↦ rw (e, k, same_host-sym w g) refl
  ]
]

-- Of two names each matches the other as the only name of the host or neither does: a short name
-- its full one and the full one the short one, without regard to case.
matches_host-sym : (a b : Text) → matches_host a (b ∷ []) ≡ matches_host b (a ∷ [])
unfolding matches_host matches_any
matches_host-sym a b = both_named (normalize_hostname a) (normalize_hostname b)

-- Tests: a host with its short form, and a label that was copied from another.
host_and_short :
    local_hostnames (some (codes "DB1.example.org. ")) none
    ≡ codes "db1.example.org" ∷ codes "db1" ∷ []
unfolding local_hostnames append_hostname normalize_hostname trim_space trim_left trim_right lower
    trim_dot
host_and_short = refl

copied :
    warnings (codes "db2") (codes "db1" ∷ []) ≡ other_host (codes "db2") (codes "db1" ∷ []) ∷ []
unfolding warnings matches_host matches_any normalize_hostname trim_space trim_left trim_right lower
    trim_dot
copied = refl

-- The bare name localhost comes in by the short form of a longer one.
localhost_named :
    local_hostnames (some (codes "localhost.localdomain")) none
    ≡ codes "localhost.localdomain" ∷ codes "localhost" ∷ []
unfolding local_hostnames append_hostname normalize_hostname trim_space trim_left trim_right lower
    trim_dot
localhost_named = refl
