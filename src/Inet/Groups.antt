-- ===== src/Inet/Groups.antt =====
-- src/inet.c: where the digit loops stop, and what the groups of an address make of it.
use xrossfire.Base.{
  ℕ, zero, suc, ◌+◌, ◌≤◌, ◌<◌, ◌≡◌, ◌≢◌, refl, ap, ◌∙◌, ◌⊎◌, inl, inr, false, Option, none, some,
  ◌==◌, ==_iff, ltb, ltb→lt, get_elem?, get_elem?-lt, Bool-cases, Option-cases, arith, ◌>>=◌,
  Returns,
}
use xrossfire.Text.{Text}
use xrossfire.Text.Equality.{IsValid}
use xrossfire.Inet.{
  xchar_to_digit10, xchar_to_digit16, parse_digits, string_parse_digit10, string_parse_digit16,
  out_of_range, check_group, ipv4_group,
}

-- The offset is in the string or at its end, and a digit or the terminator stands there.
pub record Stops (to_digit : ℕ → Option ℕ) (s : Text) (out : ℕ × ℕ) : Type 0 where
  pub within : out.1 ≤ s.length
  pub unit : ℕ
  pub stands : get_elem? s.buf out.1 ≡ some unit
  pub ends : (unit ≡ 0) ⊎ (to_digit unit ≢ none)

not_less : (a b : ℕ) → ltb a b ≡ false → a ≤ b → a ≡ b
not_less a b h p = ground arith

digit_found : (m : Option ℕ) (i : ℕ) → m ≡ some i → m ≢ none
digit_found m i p q = cc

-- On a valid string, from an offset within it, the loops over digits come to an end without a
-- fault if their fuel exceeds the units that are left. They stop at a unit that is a digit, or at
-- the terminator.
pub parse_digits-Stops :
    (to_digit : ℕ → Option ℕ) (fuel digits : ℕ) (s : Text) (offset value : ℕ)
    → IsValid s
    → offset ≤ s.length
    → s.length < offset + fuel
    → Returns (parse_digits to_digit fuel digits s offset value) (Stops to_digit s)
unfolding parse_digits
parse_digits-Stops to_digit zero digits s offset value v p q = absurd (omega arith)
parse_digits-Stops to_digit (suc fuel) digits s offset value v p q =
    elim (Bool-cases (ltb offset s.length)) [
      | inl more ↦
          let inside = ltb→lt offset s.length more in
          let (c, here) = get_elem?-lt s.buf offset (rw v.sized (omega arith)) in
          rw (more, parse_digits)
            (rw here (elim (Option-cases (to_digit c)) [
              | inl e ↦ rw e (
                  parse_digits-Stops to_digit fuel digits s (offset + 1) _ v (omega arith)
                    (omega arith))
              | inr (i, e) ↦ rw e (
                (value, offset),
                refl,
                record {
                  within = p;
                  unit = c;
                  stands = here;
                  ends = inr (digit_found (to_digit c) i e);
                },
              )
            ]))
      | inr over ↦
          rw (over, parse_digits)
            (
              (value, offset),
              refl,
              record {
                within = p;
                unit = 0;
                stands = rw (not_less offset s.length over p) v.terminated;
                ends = inl refl;
              },
            )
    ]

not_separator :
    (to_digit : ℕ → Option ℕ) (separator c : ℕ)
    → separator ≢ 0
    → to_digit separator ≡ none
    → (c ≡ 0) ⊎ (to_digit c ≢ none)
    → (c == separator) ≡ false
not_separator to_digit separator c p q (inl e) = ground arith
not_separator to_digit separator c p q (inr d) = elim (Bool-cases (c == separator)) [
  | inl e ↦ absurd (d (ap to_digit ((==_iff c separator).0 e) ∙ q))
  | inr e ↦ e
]

pub check_group_fails :
    (to_digit : ℕ → Option ℕ) (limit separator : ℕ) (s : Text) (out : ℕ × ℕ)
    → separator ≢ 0
    → to_digit separator ≡ none
    → Stops to_digit s out
    → check_group limit separator s out ≡ some none
unfolding check_group
check_group_fails to_digit limit separator s (value, offset) p q i =
    elim (Bool-cases (out_of_range limit value)) [
      | inl e ↦ rw e refl
      | inr e ↦ rw (e, i.stands) (rw (not_separator to_digit separator i.unit p q i.ends) refl)
    ]

dot_no_digit : xchar_to_digit10 46 ≡ none
unfolding xchar_to_digit10
dot_no_digit = refl

colon_no_digit : xchar_to_digit16 58 ≡ none
unfolding xchar_to_digit16
colon_no_digit = refl

pub ipv4_group_fails :
    (digits : ℕ) (s : Text) (offset : ℕ)
    → IsValid s
    → offset ≤ s.length
    → ipv4_group digits s offset ≡ some none
unfolding ipv4_group string_parse_digit10
ipv4_group_fails digits s offset v p =
    let (out, ran, i) =
      parse_digits-Stops xchar_to_digit10 (s.length + 1) digits s offset 0 v p (omega arith) in
    rw ran
      (check_group_fails xchar_to_digit10 255 46 s out (λ e. absurd (omega arith)) dot_no_digit i)

pub ipv6_group_fails :
    (digits : ℕ) (s : Text) (offset : ℕ)
    → IsValid s
    → offset ≤ s.length
    → (string_parse_digit16 digits s offset >>= check_group 65_535 58 s) ≡ some none
unfolding string_parse_digit16
ipv6_group_fails digits s offset v p =
    let (out, ran, i) =
      parse_digits-Stops xchar_to_digit16 (s.length + 1) digits s offset 0 v p (omega arith) in
    rw ran (
      check_group_fails xchar_to_digit16 65_535 58 s out (λ e. absurd (omega arith)) colon_no_digit
        i)
