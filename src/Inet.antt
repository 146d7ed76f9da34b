-- ===== src/Inet.antt =====
-- src/inet.c: the parsing of addresses.
--
-- An address is the list of its bytes or words, and the memory of a result that is not written
-- stays as it was. `int` values are patterns of 32 bits. `digits` of the two digit loops is a local
-- variable that is never written, so what it holds in the k-th call is an argument. A read past the
-- buffer of the string is a fault. The loops run on fuel, one more than the length.
pub mod Groups
pub mod Parse
pub mod Tests
use xrossfire.Base.{
  ℕ, zero, suc, ◌+◌, ◌-◌, ◌*◌, ◌%◌, ◌^◌, Bool, true, false, ◌||◌, ◌&&◌, not, Option, none, some,
  List, [], ◌∷◌, ◌==◌, ltb, leb, if◌then◌else◌, ◌>>=◌, get_elem?, set,
}
use xrossfire.Text.{Text, initializer, equals}

-- The addresses of ASTER, ASTER_V4 and ASTER_V6.
pub record Statics : Type 0 where
  pub aster_address : ℕ
  pub aster_v4_address : ℕ
  pub aster_v6_address : ℕ

unfoldable pub aster : Statics → Text
aster statics = initializer statics.aster_address (42 ∷ [])

unfoldable pub aster_v4 : Statics → Text
aster_v4 statics = initializer statics.aster_v4_address (42 ∷ 118 ∷ 52 ∷ [])

unfoldable pub aster_v6 : Statics → Text
aster_v6 statics = initializer statics.aster_v6_address (42 ∷ 118 ∷ 54 ∷ [])

-- `none` leaves `*i` as it was.
unfoldable pub xchar_to_digit10 : ℕ → Option ℕ
xchar_to_digit10 c = if leb 48 c && leb c 57 then some (c - 48) else none

unfoldable pub xchar_to_digit16 : ℕ → Option ℕ
xchar_to_digit16 c =
    if leb 48 c && leb c 57
    then some (c - 48)
    else (if leb 65 c && leb c 70
        then some (c - 65 + 10)
        else (if leb 97 c && leb c 102 then some (c - 97 + 10) else none))

-- The loop of both: the value, and the offset after it.
unfoldable pub parse_digits : (ℕ → Option ℕ) → ℕ → ℕ → Text → ℕ → ℕ → Option (ℕ × ℕ)
parse_digits to_digit zero digits s offset value = none
parse_digits to_digit (suc fuel) digits s offset value = elim (ltb offset s.length) [
  | false ↦ some (value, offset)
  | true ↦
      (get_elem? s.buf offset >>= λ c. elim (to_digit c) [
        | none ↦ parse_digits to_digit fuel digits s (offset + 1) ((value * 10 + digits) % 2 ^ 32)
        | some i ↦ some (value, offset)
      ])
]

unfoldable pub string_parse_digit10 : ℕ → Text → ℕ → Option (ℕ × ℕ)
unfolding parse_digits
string_parse_digit10 digits s offset =
    parse_digits xchar_to_digit10 (s.length + 1) digits s offset 0

unfoldable pub string_parse_digit16 : ℕ → Text → ℕ → Option (ℕ × ℕ)
unfolding parse_digits
string_parse_digit16 digits s offset =
    parse_digits xchar_to_digit16 (s.length + 1) digits s offset 0

-- `value < 0 || limit < value`.
abbrev pub out_of_range : ℕ → ℕ → Bool
out_of_range limit value = leb (2 ^ 31) value || ltb limit value

-- The parsed number must be in range, and the separator must stand after it: none is FAIL.
unfoldable pub check_group : ℕ → ℕ → Text → ℕ × ℕ → Option (Option (ℕ × ℕ))
check_group limit separator s (value, offset) =
    if out_of_range limit value
    then some none
    else (get_elem? s.buf offset >>= λ c.
        some (if not (c == separator) then none else some (value, offset)))

unfoldable pub ipv4_group : ℕ → Text → ℕ → Option (Option (ℕ × ℕ))
ipv4_group digits s offset = string_parse_digit10 digits s offset >>= check_group 255 46 s

-- The next step, unless the one before it failed.
abbrev pub and_then {ℓ} :
    {A B : Type ℓ} → Option (Option A) → (A → Option (Option B)) → Option (Option B)
and_then none f = none
and_then (some none) f = some none
and_then (some (some a)) f = f a

unfoldable pub parse_ipv4_bytes : (ℕ → ℕ) → Text → Option (Option (List ℕ))
parse_ipv4_bytes digits s = and_then (ipv4_group (digits 0) s 0) λ b1.
    and_then (ipv4_group (digits 1) s (b1.1 + 1)) λ b2.
      and_then (ipv4_group (digits 2) s b2.1) λ b3. string_parse_digit10 (digits 3) s b3.1 >>= λ b4.
      some (
        if out_of_range 255 b4.0
        then none
        else (if not (s.length == b4.1) then none else some (b1.0 ∷ b2.0 ∷ b3.0 ∷ b4.0 ∷ [])))

abbrev pub written : List ℕ → Option (List ℕ) → Bool × List ℕ
written in_addr none = (false, in_addr)
written in_addr (some bytes) = (true, bytes)

unfoldable pub parse_ipv4 : Statics → (ℕ → ℕ) → Text → List ℕ → Option (Bool × List ℕ)
unfolding parse_ipv4_bytes
parse_ipv4 statics digits s in_addr =
    if equals (some s) (some (aster statics)) || equals (some s) (some (aster_v4 statics))
    then some (true, 0 ∷ 0 ∷ 0 ∷ 0 ∷ [])
    else (parse_ipv4_bytes digits s >>= λ bytes. some (written in_addr bytes))

-- The loop over the first seven words, with the rounds left, and the last word.
unfoldable pub parse_ipv6_words : ℕ → ℕ → (ℕ → ℕ) → Text → ℕ → List ℕ → Option (Bool × List ℕ)
parse_ipv6_words zero i digits s offset in_addr = string_parse_digit16 (digits i) s offset >>= λ w7.
    some (if out_of_range 65_535 w7.0 then (false, in_addr) else (true, set in_addr 7 w7.0))
parse_ipv6_words (suc n) i digits s offset in_addr =
    string_parse_digit16 (digits i) s offset >>= check_group 65_535 58 s >>= λ word. elim word [
      | none ↦ some (false, in_addr)
      | some w ↦ parse_ipv6_words n (i + 1) digits s w.1 (set in_addr i w.0)
    ]

unfoldable pub parse_ipv6 : Statics → (ℕ → ℕ) → Text → List ℕ → Option (Bool × List ℕ)
unfolding parse_ipv6_words
parse_ipv6 statics digits s in_addr =
    if equals (some s) (some (aster_v6 statics))
    then some (true, 0 ∷ 0 ∷ 0 ∷ 0 ∷ 0 ∷ 0 ∷ 0 ∷ 0 ∷ [])
    else parse_ipv6_words 7 0 digits s 0 in_addr

pub record Parsed : Type 0 where
  pub result : Bool
  pub ip_type : ℕ
  pub in_addr : List ℕ
  pub in6_addr : List ℕ

-- XF_IPV4 is 1 and XF_IPV6 is 2.
unfoldable pub inet_parse : Statics → (ℕ → ℕ) → (ℕ → ℕ) → Text → ℕ → List ℕ → List ℕ → Option Parsed
unfolding parse_ipv4 parse_ipv6
inet_parse statics digits digits6 s ip_type in_addr in6_addr =
    parse_ipv4 statics digits s in_addr >>= λ v4.
    if v4.0
    then some (record { result = true; ip_type = 1; in_addr = v4.1; in6_addr = in6_addr })
    else (parse_ipv6 statics digits6 s in6_addr >>= λ v6. some (record {
      result = v6.0;
      ip_type = if v6.0 then 2 else ip_type;
      in_addr = v4.1;
      in6_addr = v6.1;
    }))
