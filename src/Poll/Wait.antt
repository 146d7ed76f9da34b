-- ===== src/Poll/Wait.antt =====
-- src/poll.c: how long the loop waits, and what a round of it does.
use native.Mathlib.Numerals.{add-one}
use xrossfire.Base.{
  ℕ, zero, suc, ◌≤◌, ◌≡◌, refl, sym, ap, ◌∙◌, ◌⊎◌, inl, inr, Bool, true, false, Option, some, List,
  [], ◌∷◌, ◌>>=◌, if◌then◌else◌, get_elem?, take, length, arith, Returns, Bool-cases, All,
}
use mathlib.Core.Path.{fun_ext}
use xrossfire.Base.Int.{ℤ, pos, ◌≤ℤ◌, ltb_ℤ}
use xrossfire.Poll.{Pollings, least_from, get_wait_timeout, process_from, poll_round}
use xrossfire.Poll.Table.{IsValid, registered}

-- The fold that the loop computes.
pub least : (ℕ → ℤ) → ℤ → List ℕ → ℤ
least ask m [] = m
least ask m (p ∷ ps) = least ask (if ltb_ℤ (ask p) m then ask p else m) ps

-- All procedures in order.
unfoldable pub run_all {ℓ} : {S : Type ℓ} → (ℕ → S → S) → List ℕ → S → S
run_all run [] s = s
run_all run (p ∷ ps) s = run_all run ps (run p s)

least_from-suc :
    (n i x : ℕ) (xs : List ℕ) (ask : ℕ → ℤ) (m : ℤ)
    → least_from n (suc i) (x ∷ xs) ask m ≡ least_from n i xs ask m
unfolding least_from
least_from-suc zero i x xs ask m = refl
least_from-suc (suc n) i x xs ask m = simp add-one (
    ap (λ (f : ℕ → Option ℤ). get_elem? xs i >>= f)
      (fun_ext λ p. least_from-suc n (suc i) x xs ask (if ltb_ℤ (ask p) m then ask p else m)))

least_from-least :
    (n : ℕ) (xs : List ℕ) (ask : ℕ → ℤ) (m : ℤ)
    → n ≤ length xs
    → least_from n 0 xs ask m ≡ some (least ask m (take n xs))
unfolding least_from least
least_from-least zero xs ask m h = refl
least_from-least (suc n) [] ask m h = absurd (omega arith)
least_from-least (suc n) (x ∷ xs) ask m h =
    least_from-suc n 0 x xs ask (if ltb_ℤ (ask x) m then ask x else m)
    ∙ least_from-least n xs ask (if ltb_ℤ (ask x) m then ask x else m) (omega arith)

least-le_start : (ask : ℕ → ℤ) (m : ℤ) (ps : List ℕ) → least ask m ps ≤ℤ m
unfolding least
least-le_start ask m [] = omega arith
least-le_start ask m (p ∷ ps) =
    ground (arith, least-le_start ask (if ltb_ℤ (ask p) m then ask p else m) ps)

least-le-All : (ask : ℕ → ℤ) (m : ℤ) (ps : List ℕ) → All (λ p. least ask m ps ≤ℤ ask p) ps
unfolding least
least-le-All ask m [] = tt
least-le-All ask m (p ∷ ps) =
    let m' = if ltb_ℤ (ask p) m then ask p else m in
    (ground (arith, least-le_start ask m' ps), least-le-All ask m' ps)

-- Some procedure answers `a`.
abbrev pub Answers : (ℕ → ℤ) → ℤ → List ℕ → Type 0
Answers ask a [] = ⊥
Answers ask a (p ∷ ps) = (ask p ≡ a) ⊎ Answers ask a ps

least-Answers :
    (ask : ℕ → ℤ) (m : ℤ) (ps : List ℕ) → (least ask m ps ≡ m) ⊎ Answers ask (least ask m ps) ps
unfolding least
least-Answers ask m [] = inl refl
least-Answers ask m (p ∷ ps) =
    pick (ltb_ℤ (ask p) m) (least-Answers ask (if ltb_ℤ (ask p) m then ask p else m) ps)
  where
    pick :
        (b : Bool)
        → let a = least ask (if b then ask p else m) ps in
          (a ≡ (if b then ask p else m)) ⊎ Answers ask a ps
          → (a ≡ m) ⊎ (ask p ≡ a) ⊎ Answers ask a ps
    pick true (inl e) = inr (inl (sym e))
    pick true (inr a) = inr (inr a)
    pick false (inl e) = inl e
    pick false (inr a) = inr (inr a)

-- On a valid table the wait is computed without a fault: it is at most five minutes and at most
-- each procedure's answer, and it is five minutes or one of the answers.
pub get_wait_timeout_lem :
    (s : Pollings) (ask : ℕ → ℤ)
    → IsValid s
    → Returns (get_wait_timeout s ask) λ m.
      (m ≤ℤ pos 300_000)
      × All (λ p. m ≤ℤ ask p) (registered s)
      × ((m ≡ pos 300_000) ⊎ Answers ask m (registered s))
unfolding get_wait_timeout
get_wait_timeout_lem s ask v =
    let start : ℤ = pos 300_000 in
    (
      least ask start (registered s),
      least_from-least s.n_pollings s.pollings ask start (omega (arith, v.slots, v.bounded)),
      (
        least-le_start ask start (registered s),
        least-le-All ask start (registered s),
        least-Answers ask start (registered s),
      ),
    )

module _ {ℓ} {S : Type ℓ} where
  process_from-suc :
      (n i x : ℕ) (xs : List ℕ) (run : ℕ → S → S) (s : S)
      → process_from n (suc i) (x ∷ xs) run s ≡ process_from n i xs run s
  unfolding process_from
  process_from-suc zero i x xs run s = refl
  process_from-suc (suc n) i x xs run s = simp add-one (
      ap (λ (f : ℕ → Option S). get_elem? xs i >>= f)
        (fun_ext λ p. process_from-suc n (suc i) x xs run (run p s)))

  process_from-run_all :
      (n : ℕ) (xs : List ℕ) (run : ℕ → S → S) (s : S)
      → n ≤ length xs
      → process_from n 0 xs run s ≡ some (run_all run (take n xs) s)
  unfolding process_from run_all
  process_from-run_all zero xs run s h = refl
  process_from-run_all (suc n) [] run s h = absurd (omega arith)
  process_from-run_all (suc n) (x ∷ xs) run s h =
      process_from-suc n 0 x xs run (run x s)
      ∙ process_from-run_all n xs run (run x s) (omega arith)

  -- A round of the loop over a valid table never faults: it waits if the least wait is positive,
  -- and else runs every registered procedure once, in order.
  pub poll_round_lem :
      (t : Pollings) (ask : S → ℕ → ℤ) (run : ℕ → S → S) (wait : ℤ → S → S) (s : S)
      → IsValid t
      → Returns (get_wait_timeout t (ask s)) λ timeout.
        poll_round t ask run wait s
        ≡ some (if ltb_ℤ (pos 0) timeout then wait timeout s else run_all run (registered t) s)
  unfolding poll_round
  poll_round_lem t ask run wait s v =
      let (timeout, ran, bounds) = get_wait_timeout_lem t (ask s) v in
      let ran' =
        process_from-run_all t.n_pollings t.pollings run s (omega (arith, v.slots, v.bounded)) in
      (
        timeout,
        ran,
        rw ran (elim (Bool-cases (ltb_ℤ (pos 0) timeout)) [
          | inl later ↦ rw later
          | inr now ↦ rw now ran'
        ]),
      )
