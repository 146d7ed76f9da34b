-- ===== src/Timeout/Drain.antt =====
-- src/timeout.c: the processing loop while nothing else touches the table.
use xrossfire.Base.{
  ℕ, zero, suc, ◌<◌, ◌≡◌, sym, ap, ◌∙◌, inl, inr, some, List, [], ◌∷◌, ◌++◌, Returns, >>=-eq-some,
  Bool-cases, Option-cases,
}
use mathlib.Core.Option.{some-injective}
use native.Mathlib.Nat.{le_refl}
use xrossfire.Base.Int.{ℤ, leb_ℤ}
use xrossfire.Avl.Root
use xrossfire.Timeout.{Timeout, Timeouts, process}
use xrossfire.Timeout.Queue.{IsValid, pending}
use xrossfire.Timeout.Process.{Processes, count_due, unlink_first, process-Processes}

abbrev pub leave_alone : Timeout → Timeouts → Timeouts
leave_alone x s = s

process_order :
    (fuel : ℕ) (ticks : ℤ) (s : Timeouts) (out : Timeouts × List Timeout)
    → IsValid s
    → process fuel ticks leave_alone s ≡ some out
    → out.1 ++ pending out.0 ≡ pending s
unfolding process
process_order zero ticks s out v p = cc
process_order (suc fuel) ticks s out v p = elim (Option-cases (Root.get_min s.tree)) [
  | inl e ↦ ap (λ o. o.1 ++ pending o.0) (sym (some-injective (s, []) out (rw (e, process) at p)))
  | inr (x, e) ↦ elim (Bool-cases (leb_ℤ x.key.timestamp ticks)) [
    | inr late ↦
        ap (λ o. o.1 ++ pending o.0)
          (sym (some-injective (s, []) out (rw late at (rw (e, process) at p))))
    | inl due ↦
        let (tree, ran, (v', split)) = unlink_first s v e in
        let q = rw ran at (rw due at (rw (e, process) at p)) in
        let (o, ran', last) =
          >>=-eq-some (process fuel ticks leave_alone (record s { tree = tree })) _ q in
        ap (λ o. o.1 ++ pending o.0) (sym (some-injective (o.0, x ∷ o.1) out last))
        ∙ ap (λ es. x ∷ es) (process_order fuel ticks (record s { tree = tree }) o v' ran')
        ∙ sym split
  ]
]

-- If the callbacks leave the table alone, processing a valid table with fuel for each due entry
-- and one round more calls the due timeouts in order of time and then of age: those called
-- followed by those left are the pending timeouts before, and none of those left is due.
pub process_drains :
    (fuel : ℕ) (ticks : ℤ) (s : Timeouts)
    → IsValid s
    → count_due ticks (pending s) < fuel
    → Returns
        (process fuel ticks leave_alone s)
        λ out. Processes ticks out × (out.1 ++ pending out.0 ≡ pending s)
process_drains fuel ticks s v h =
    let (out, ran, i) =
      process-Processes ticks leave_alone (λ x t w. w) (λ x t w. le_refl _) fuel s v h in
    (out, ran, (i, process_order fuel ticks s out v ran))
