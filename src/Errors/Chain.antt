-- ===== src/Errors/Chain.antt =====
-- src/error.c: the release of a record and of its causes.
use xrossfire.Base.{
  ℕ, zero, suc, ◌<◌, ◌≡◌, ◌≢◌, refl, sym, ap, ◌∙◌, ◌⊎◌, inl, inr, true, Option, none, some, List,
  [], ◌∷◌, ◌==◌, ==_iff, ==_self, Bool-cases, arith, length, All,
}
use xrossfire.Base.Int.{ℤ, pos, ◌<ℤ◌, ltb_ℤ}
use xrossfire.Text.{Text, live, freed}
use xrossfire.Text
use xrossfire.Errors.{
  Pointer, null, out_of_memory, at, ErrorInfo, Errors, update, string_release, error_info_release,
}

-- A string that is never counted: none, or a static one.
abbrev pub IsStatic : (ℕ → Option Text) → Option ℕ → Type 0
IsStatic strings none = Unit
IsStatic strings (some p) = (t : Text) × (strings p ≡ some t) × (t.ref <ℤ pos 0)

-- The records from a pointer along the causes, with static strings; no record is met twice.
abbrev pub IsChain : (ℕ → Option ErrorInfo) → (ℕ → Option Text) → Pointer → List ℕ → Type 0
IsChain infos strings self [] = (self ≡ null) ⊎ (self ≡ out_of_memory)
IsChain infos strings self (p ∷ ps) =
    (self ≡ at p)
    × All (λ q. p ≢ q) ps
    × (info : ErrorInfo) × (infos p ≡ some info)
    × IsStatic strings info.kind
    × IsStatic strings info.message
    × IsChain infos strings info.cause ps

-- The store without some addresses.
abbrev pub free_all : List ℕ → (ℕ → Option ErrorInfo) → ℕ → Option ErrorInfo
free_all [] infos = infos
free_all (p ∷ ps) infos = update p none (free_all ps infos)

pub update_other {ℓ} :
    {A : Type ℓ} (p k : ℕ) (v : Option A) (store : ℕ → Option A)
    → k ≢ p
    → update p v store k ≡ store k
update_other p k v store n = elim (Bool-cases (k == p)) [
  | inl e ↦ absurd (n ((==_iff k p).0 e))
  | inr e ↦ rw e refl
]

pub update_here {ℓ} :
    {A : Type ℓ} (p : ℕ) (v : Option A) (store : ℕ → Option A) → update p v store p ≡ v
update_here p v store = rw (==_self p) refl

pub free_all_other :
    (p : ℕ) (ps : List ℕ) (infos : ℕ → Option ErrorInfo)
    → All (λ q. p ≢ q) ps
    → free_all ps infos p ≡ infos p
free_all_other p [] infos n = refl
free_all_other p (q ∷ ps) infos n =
    update_other q p none (free_all ps infos) n.0 ∙ free_all_other p ps infos n.1

update_same {ℓ} :
    {A : Type ℓ} (p : ℕ) (v : Option A) (store : ℕ → Option A)
    → store p ≡ v
    → (k : ℕ) → update p v store k ≡ store k
update_same p v store h k = elim (Bool-cases (k == p)) [
  | inl e ↦ rw e (sym h ∙ ap store (sym ((==_iff k p).0 e)))
  | inr e ↦ rw e refl
]

release_static : (t : Text) → t.ref <ℤ pos 0 → Text.release (some t) ≡ some (live t)
unfolding Text.release
release_static t h = rw (negative t.ref h) refl
  where
    negative : (a : ℤ) → a <ℤ pos 0 → ltb_ℤ a (pos 0) ≡ true
    negative a h = ground arith

string_release_static :
    (strings : ℕ → Option Text) (p : Option ℕ)
    → IsStatic strings p
    → string_release p strings ≡ some strings
unfolding string_release
string_release_static strings none h = refl
string_release_static strings (some p) (t, here, static) =
    rw (here, release_static t static) (ap some λ i k. update_same p (some t) strings here k i)

-- Let the records from a pointer along the causes be distinct and have static strings, or none.
-- The release of the pointer, with fuel for each record and one step more, frees all of them,
-- whatever their counts, and nothing else.
pub release_chain :
    (fuel : ℕ) (self : Pointer) (s : Errors) (ps : List ℕ)
    → IsChain s.infos s.strings self ps
    → length ps < fuel
    → error_info_release fuel self s ≡ some (record s { infos = free_all ps s.infos })
unfolding error_info_release
release_chain zero self s ps c h = absurd (omega arith)
release_chain (suc fuel) self s [] (inl e) h = rw e refl
release_chain (suc fuel) self s [] (inr e) h = rw e refl
release_chain (suc fuel) self s (p ∷ ps) (e, apart, info, here, kind, message, rest) h =
    rw (e, error_info_release)
      (rw here (
        rw (string_release_static s.strings info.kind kind) (
          rw (string_release_static s.strings info.message message) (
            rw (release_chain fuel info.cause s ps rest (omega arith))
              (rw (free_all_other p ps s.infos apart ∙ here) refl)))))
