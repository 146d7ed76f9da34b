-- ===== src/Inet/Parse.antt =====
-- src/inet.c: which strings are parsed.
use xrossfire.Base.{
  ℕ, suc, ◌≡◌, ◌↔◌, refl, sym, ◌∙◌, Bool, true, false, ◌||◌, none, some, List, [], ◌∷◌,
  if◌then◌else◌, Bool-cases, inl, inr, arith, subst,
}
use xrossfire.Text.{Text, initializer, list_eq, equals}
use xrossfire.Text.Equality.{
  IsValid, contents, list_eq_same, same_list, equals_iff, terminated-IsValid,
}
use xrossfire.Inet.{
  Statics, aster, aster_v4, aster_v6, parse_ipv4_bytes, parse_ipv4, parse_ipv6, parse_ipv6_words,
  Parsed, inet_parse,
}
use xrossfire.Inet.Groups.{ipv4_group_fails, ipv6_group_fails}

-- A string that stands at the address of one of the three is that string.
pub record IsCoherent (statics : Statics) (s : Text) : Type 0 where
  pub with_aster : s.address ≡ (aster statics).address → s ≡ aster statics
  pub with_v4 : s.address ≡ (aster_v4 statics).address → s ≡ aster_v4 statics
  pub with_v6 : s.address ≡ (aster_v6 statics).address → s ≡ aster_v6 statics

same_truth : (a b : Bool) → (a ≡ true) ↔ (b ≡ true) → a ≡ b
same_truth true b h = sym (h.0 refl)
same_truth false true h = h.1 refl
same_truth false false h = refl

initializer-IsValid :
    (address : ℕ) (units : List ℕ)
    → IsValid (initializer address units) × (contents (initializer address units) ≡ units)
unfolding initializer
initializer-IsValid address units =
    terminated-IsValid address _ _ units refl (initializer address units) refl

-- Comparison with a static string.
equals_static :
    (s : Text) (address : ℕ) (units : List ℕ)
    → IsValid s
    → (s.address ≡ (initializer address units).address → s ≡ initializer address units)
    → equals (some s) (some (initializer address units)) ≡ list_eq (contents s) units
equals_static s address units v coherent =
    let constant = initializer-IsValid address units in
    let (to, from) = equals_iff s (initializer address units) v constant.0 coherent in
    same_truth (equals (some s) (some (initializer address units))) (list_eq (contents s) units) (
      (λ h.
          subst (λ xs. list_eq (contents s) xs ≡ true) (to h ∙ constant.1)
            (list_eq_same (contents s))),
      (λ h. from (same_list (contents s) units h ∙ sym constant.1)),
    )

no_bytes : (digits : ℕ → ℕ) (s : Text) → IsValid s → parse_ipv4_bytes digits s ≡ some none
unfolding parse_ipv4_bytes
no_bytes digits s v = rw (ipv4_group_fails (digits 0) s 0 v (omega arith)) refl

no_words :
    (n : ℕ) (digits : ℕ → ℕ) (s : Text) (in_addr : List ℕ)
    → IsValid s
    → parse_ipv6_words (suc n) 0 digits s 0 in_addr ≡ some (false, in_addr)
unfolding parse_ipv6_words
no_words n digits s in_addr v = rw (ipv6_group_fails (digits 0) s 0 v (omega arith)) refl

-- The strings "*" and "*v4", and "*v6".
abbrev pub any_ipv4 : List ℕ → Bool
any_ipv4 units = list_eq units (42 ∷ []) || list_eq units (42 ∷ 118 ∷ 52 ∷ [])

abbrev pub any_ipv6 : List ℕ → Bool
any_ipv6 units = list_eq units (42 ∷ 118 ∷ 54 ∷ [])

abbrev outcome : Bool → List ℕ → List ℕ → Bool × List ℕ
outcome true any in_addr = (true, any)
outcome false any in_addr = (false, in_addr)

decided :
    (b : Bool) (any in_addr : List ℕ)
    → (if b then some (true, any) else some (false, in_addr)) ≡ some (outcome b any in_addr)
decided true any in_addr = refl
decided false any in_addr = refl

pub parse_ipv4_lem :
    (statics : Statics) (digits : ℕ → ℕ) (s : Text) (in_addr : List ℕ)
    → IsValid s
    → IsCoherent statics s
    → parse_ipv4 statics digits s in_addr
      ≡ some (outcome (any_ipv4 (contents s)) (0 ∷ 0 ∷ 0 ∷ 0 ∷ []) in_addr)
unfolding parse_ipv4 aster aster_v4
parse_ipv4_lem statics digits s in_addr v c =
    rw
      (
        equals_static s statics.aster_address (42 ∷ []) v c.with_aster,
        equals_static s statics.aster_v4_address (42 ∷ 118 ∷ 52 ∷ []) v c.with_v4,
        no_bytes digits s v,
      )
      (decided (any_ipv4 (contents s)) (0 ∷ 0 ∷ 0 ∷ 0 ∷ []) in_addr)

pub parse_ipv6_lem :
    (statics : Statics) (digits : ℕ → ℕ) (s : Text) (in_addr : List ℕ)
    → IsValid s
    → IsCoherent statics s
    → parse_ipv6 statics digits s in_addr
      ≡ some (outcome (any_ipv6 (contents s)) (0 ∷ 0 ∷ 0 ∷ 0 ∷ 0 ∷ 0 ∷ 0 ∷ 0 ∷ []) in_addr)
unfolding parse_ipv6 aster_v6
parse_ipv6_lem statics digits s in_addr v c =
    rw
      (
        equals_static s statics.aster_v6_address (42 ∷ 118 ∷ 54 ∷ []) v c.with_v6,
        no_words 6 digits s in_addr v,
      )
      (decided (any_ipv6 (contents s)) (0 ∷ 0 ∷ 0 ∷ 0 ∷ 0 ∷ 0 ∷ 0 ∷ 0 ∷ []) in_addr)

-- What is accepted: no address but the three names.
abbrev pub accepts : List ℕ → ℕ → List ℕ → List ℕ → Parsed
accepts units ip_type in_addr in6_addr =
    if any_ipv4 units
    then record { result = true; ip_type = 1; in_addr = 0 ∷ 0 ∷ 0 ∷ 0 ∷ []; in6_addr = in6_addr }
    else (if any_ipv6 units
        then record {
          result = true;
          ip_type = 2;
          in_addr = in_addr;
          in6_addr = 0 ∷ 0 ∷ 0 ∷ 0 ∷ 0 ∷ 0 ∷ 0 ∷ 0 ∷ [];
        }
        else record { result = false; ip_type = ip_type; in_addr = in_addr; in6_addr = in6_addr })

-- Of the valid strings, each the record itself if it stands at the address of one of the three
-- constants, `xf_inet_parse` accepts `*` and `*v4` as any IPv4 address and `*v6` as any IPv6
-- address, and no other. It never faults, and what it does not answer keeps its value.
pub inet_parse_lem :
    (statics : Statics) (digits digits6 : ℕ → ℕ) (s : Text) (ip_type : ℕ)
    (in_addr in6_addr : List ℕ)
    → IsValid s
    → IsCoherent statics s
    → inet_parse statics digits digits6 s ip_type in_addr in6_addr
      ≡ some (accepts (contents s) ip_type in_addr in6_addr)
unfolding inet_parse
inet_parse_lem statics digits digits6 s ip_type in_addr in6_addr v c =
    rw (parse_ipv4_lem statics digits s in_addr v c, parse_ipv6_lem statics digits6 s in6_addr v c)
      (elim (Bool-cases (any_ipv4 (contents s))) [
        | inl e ↦ rw e refl
        | inr e ↦
            rw e
              (elim (Bool-cases (any_ipv6 (contents s))) [ inl d ↦ rw d refl | inr d ↦ rw d refl ])
      ])
