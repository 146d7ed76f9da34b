-- ===== src/Inet/Tests.antt =====
-- Runs of src/inet.c: an address with digits.
use xrossfire.Base.{◌≡◌, refl, some, [], ◌∷◌, arith}
use xrossfire.Base.Int.{pos}
use xrossfire.Text.{Text, initializer}
use xrossfire.Text.Equality.{IsValid, contents}
use xrossfire.Inet.{Statics, aster, aster_v4, aster_v6, inet_parse}
use xrossfire.Inet.Parse.{IsCoherent, accepts, inet_parse_lem}

abbrev statics : Statics
statics = record { aster_address = 1; aster_v4_address = 2; aster_v6_address = 3 }

-- "127.0.0.1".
abbrev numeric : Text
numeric = record {
  address = 9;
  ref = pos 1;
  length = 9;
  buf = 49 ∷ 50 ∷ 55 ∷ 46 ∷ 48 ∷ 46 ∷ 48 ∷ 46 ∷ 49 ∷ 0 ∷ [];
}

numeric-IsValid : IsValid numeric
numeric-IsValid = record { sized = refl; terminated = refl }

numeric-IsCoherent : IsCoherent statics numeric
unfolding aster aster_v4 aster_v6 initializer
numeric-IsCoherent = record {
  with_aster = λ h. absurd (omega arith);
  with_v4 = λ h. absurd (omega arith);
  with_v6 = λ h. absurd (omega arith);
}

inet_parse_lem_example :
    inet_parse statics (λ k. 0) (λ k. 0) numeric 5 (6 ∷ []) (7 ∷ [])
    ≡ some (accepts (contents numeric) 5 (6 ∷ []) (7 ∷ []))
inet_parse_lem_example =
    inet_parse_lem statics (λ k. 0) (λ k. 0) numeric 5 (6 ∷ []) (7 ∷ []) numeric-IsValid
      numeric-IsCoherent
