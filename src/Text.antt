-- ===== src/Text.antt =====
-- src/string.c, and `xf_string` of include/xrossfire/base.h: counted strings of 16-bit units.
--
-- A string is the record at an address; a pointer to one is an `Option`. A static string has the
-- count -1. The counts are `LONG`s that no program takes 2 ^ 31 references of, so they are signed
-- numbers here. `malloc` is an argument: the address that it returns, or none.
pub mod Equality
pub mod References
pub mod Tests
use xrossfire.Base.{
  ℕ, zero, suc, ◌+◌, ◌*◌, ◌%◌, ◌^◌, Bool, true, false, not, Option, none, some, List, [], ◌∷◌, ◌++◌,
  ◌==◌, ltb, leb, if◌then◌else◌, ◌>>=◌, take, length, get_elem?,
}
use xrossfire.Base.Int.{ℤ, pos, negsuc, ◌+ℤ◌, ◌-ℤ◌, ltb_ℤ, leb_ℤ}

pub record Text : Type 0 where
  pub address : ℕ
  pub ref : ℤ
  pub length : ℕ
  pub buf : List ℕ

-- XF_STRING_INITIALIZER of a literal: its units and the terminator.
unfoldable pub initializer : ℕ → List ℕ → Text
initializer address units = record {
  address = address;
  ref = negsuc 0;
  length = length units;
  buf = units ++ (0 ∷ []);
}

unfoldable pub empty : Text
unfolding initializer
empty = initializer 0 []

pub data Created : Type 0 where
  created : Text → Created
  out_of_memory : Created

-- `memcpy` of `length` units reads the argument's array, which is a fault past its end.
unfoldable pub copy_units : ℕ → List ℕ → Option (List ℕ)
copy_units zero chars = some []
copy_units (suc n) [] = none
copy_units (suc n) (c ∷ chars) = do rest ← copy_units n chars; some (c ∷ rest)

abbrev pub to_count : ℤ → ℕ
to_count (pos n) = n
to_count (negsuc n) = 0

unfoldable pub new : List ℕ → ℤ → Option ℕ → Option Created
unfolding copy_units empty
new chars length malloc = if leb_ℤ length (pos 0) then some (created empty) else (elim malloc [
  | none ↦ some out_of_memory
  | some p ↦
      (copy_units (to_count length) chars >>= λ units. some (
        created
          (record { address = p; ref = pos 1; length = to_count length; buf = units ++ (0 ∷ []) })))
])

-- What a release leaves: the string, or freed memory.
pub data Cell : Type 0 where
  live : Text → Cell
  freed : Cell

-- A NULL pointer is left alone.
unfoldable pub release : Option Text → Option Cell
unfolding ◌-ℤ◌
release none = none
release (some self) =
    if ltb_ℤ self.ref (pos 0)
    then some (live self)
    else (let ref = self.ref -ℤ pos 1 in
        if leb_ℤ ref (pos 0) then some freed else some (live (record self { ref = ref })))

unfoldable pub add_ref : Option Text → Option Text
unfolding ◌+ℤ◌
add_ref none = none
add_ref (some self) =
    if ltb_ℤ self.ref (pos 0) then some self else some (record self { ref = self.ref +ℤ pos 1 })

unfoldable pub get_ref : Option Text → ℤ
get_ref none = pos 0
get_ref (some self) = self.ref

abbrev pub list_eq : List ℕ → List ℕ → Bool
list_eq [] [] = true
list_eq (x ∷ xs) (y ∷ ys) = if x == y then list_eq xs ys else false
list_eq _ _ = false

-- `memcmp(a, b, n) == 0`, n in units.
abbrev pub memcmp_eq : List ℕ → List ℕ → ℕ → Bool
memcmp_eq a b n = list_eq (take n a) (take n b)

unfoldable pub equals : Option Text → Option Text → Bool
equals none none = true
equals none (some other) = false
equals (some self) none = false
equals (some self) (some other) =
    if self.address == other.address
    then true
    else (if not (self.length == other.length)
        then false
        else memcmp_eq self.buf other.buf self.length)

-- The sum is an `int` that wraps round, and what is returned is 0.
unfoldable pub hash_units : ℕ → ℕ → List ℕ → ℕ → Option ℕ
hash_units zero i buf hash = some hash
hash_units (suc n) i buf hash = do
  c ← get_elem? buf i
  hash_units n (i + 1) buf ((hash * 12386131 + c) % 2 ^ 32)

unfoldable pub get_hashcode : Text → Option ℕ
unfolding hash_units
get_hashcode self = do hash ← hash_units self.length 0 self.buf 0; some 0
