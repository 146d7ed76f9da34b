-- ===== src/Timeout/Process.antt =====
-- src/timeout.c: what the polling procedure does when it is asked how long to wait, and when it is
-- asked to run what is due.
use xrossfire.Base.{
  ℕ, zero, suc, ◌+◌, ◌<◌, ◌≤◌, ◌≡◌, ◌≢◌, ◌↔◌, refl, subst, sym, ap, ◌∙◌, inl, inr, true, false,
  none, some, List, [], ◌∷◌, arith, All, All-imp, head?, tail, Returns, Bool-cases, Option-cases,
  if◌then◌else◌,
}
use xrossfire.Base.Int.{ℤ, pos, ◌-ℤ◌, ◌<ℤ◌, ◌≤ℤ◌, leb_ℤ}
use mathlib.Core.Option.{some-injective}
use xrossfire.Avl.{Tree, null, node, to_list}
use xrossfire.Avl.Root
use xrossfire.Avl.Root.{AvlTree, entries}
use xrossfire.Avl.Root.Refines.{remove_min_refines, lookups_refine}
use xrossfire.Avl.Sorted.{IsIncreasing, Above}
use xrossfire.Timeout.{Callback, Timeout, Timeouts, wait_timeout, process}
use xrossfire.Timeout.Order.{Handle, handle_order, timestamp-le_of_lt}
use xrossfire.Timeout.Queue.{IsValid, pending}

abbrev pub IsDue : ℤ → Timeout → Type 0
IsDue ticks e = e.key.timestamp ≤ℤ ticks

abbrev pub IsLate : ℤ → Timeout → Type 0
IsLate ticks e = ticks <ℤ e.key.timestamp

-- The number of entries that are due.
unfoldable pub count_due : ℤ → List Timeout → ℕ
count_due ticks [] = 0
count_due ticks (e ∷ es) = (if leb_ℤ e.key.timestamp ticks then 1 else 0) + count_due ticks es

Above-IsLate :
    (ticks : ℤ) (k : Handle) (es : List Timeout)
    → ticks <ℤ k.timestamp
    → Above k es
    → All (IsLate ticks) es
unfolding handle_order
Above-IsLate ticks k es h a =
    All-imp {Q = IsLate ticks} (λ e p. omega (arith, timestamp-le_of_lt k e.key p)) es a

pub IsLate-All :
    (ticks : ℤ) (es : List Timeout) {x : Timeout}
    → IsIncreasing es
    → head? es ≡ some x
    → IsLate ticks x
    → All (IsLate ticks) es
IsLate-All ticks [] s p h = tt
IsLate-All ticks (y ∷ ys) {x} s p h =
    let e = some-injective y x p in
    let h' : IsLate ticks y = rw e h in (h', Above-IsLate ticks y.key ys h' s.0)

head-IsLate :
    (ticks : ℤ) (es : List Timeout) {x : Timeout}
    → head? es ≡ some x
    → All (IsLate ticks) es
    → IsLate ticks x
head-IsLate ticks [] p a = cc
head-IsLate ticks (y ∷ ys) {x} p a = subst (IsLate ticks) (some-injective y x p) a.0

pub nil_of_head? : (es : List Timeout) → head? es ≡ none → es ≡ []
nil_of_head? [] p = refl
nil_of_head? (y ∷ ys) p = cc

cons_of_head? : (es : List Timeout) {x : Timeout} → head? es ≡ some x → es ≡ x ∷ tail es
cons_of_head? [] p = cc
cons_of_head? (y ∷ ys) {x} p = ap (λ z. z ∷ ys) (some-injective y x p)

positive_iff : (a t : ℤ) → (pos 0 <ℤ a -ℤ t) ↔ (t <ℤ a)
unfolding ◌-ℤ◌
positive_iff a t = (λ h. ground arith, λ h. ground arith)

-- On a valid table, the wait asked for is positive exactly when no pending timeout is due.
pub wait_timeout_lem :
    (s : Timeouts) (ticks : ℤ)
    → IsValid s
    → (pos 0 <ℤ wait_timeout s ticks) ↔ All (IsLate ticks) (pending s)
unfolding wait_timeout
wait_timeout_lem s ticks v =
    let first = (lookups_refine s.tree).0 in
    elim (Option-cases (Root.get_min s.tree)) [
      | inl e ↦
          rw (e, wait_timeout)
            (rw (nil_of_head? (pending s) (sym first ∙ e)) (λ _. tt, λ _. omega arith))
      | inr (x, e) ↦
          let h = sym first ∙ e in
          let (up, down) = positive_iff x.key.timestamp ticks in
          rw (e, wait_timeout)
            (
              λ p. IsLate-All ticks (pending s) v.tree.increasing h (up p),
              λ a. down (head-IsLate ticks (pending s) h a),
            )
    ]

-- The first entry comes off a table that has one.
pub unlink_first :
    (s : Timeouts) {x : Timeout}
    → IsValid s
    → Root.get_min s.tree ≡ some x
    → Returns
        (Root.remove_min s.tree)
        λ tree. IsValid (record s { tree = tree }) × (pending s ≡ x ∷ entries tree)
unlink_first s {x} v e =
    let split = cons_of_head? (pending s) (sym (lookups_refine s.tree).0 ∙ e) in
    let (tree, ran, i) = remove_min_refines s.tree v.tree (not_null s.tree.root split) in
    (
      tree,
      ran,
      (
        record {
          tree = i.valid;
          young = rw i.contents ((subst (All (λ (e : Timeout). e.key.id < s.seq)) split v.young).1);
        },
        split ∙ ap (λ es. x ∷ es) (sym i.contents),
      ),
    )
  where
    not_null : (t : Tree Handle Callback) {es : List Timeout} → to_list t ≡ x ∷ es → t ≢ null
    not_null null p q = cc
    not_null (node l h y r) p q = cc

pub record Processes (ticks : ℤ) (out : Timeouts × List Timeout) : Type 0 where
  pub valid : IsValid out.0
  pub late : All (IsLate ticks) (pending out.0)
  pub fired : All (IsDue ticks) out.1

pub count_due_cons :
    (ticks : ℤ) (s : Timeouts) {x : Timeout} {es : List Timeout}
    → pending s ≡ x ∷ es
    → leb_ℤ x.key.timestamp ticks ≡ true
    → count_due ticks (pending s) ≡ 1 + count_due ticks es
unfolding count_due
count_due_cons ticks s p d = rw (p, count_due) (rw d)

due_of_leb : (a t : ℤ) → leb_ℤ a t ≡ true → a ≤ℤ t
due_of_leb a t h = ground arith

pub late_of_leb : (a t : ℤ) → leb_ℤ a t ≡ false → t <ℤ a
late_of_leb a t h = ground arith

module _ (ticks : ℤ) (fire : Timeout → Timeouts → Timeouts)
    (keeps : (x : Timeout) (s : Timeouts) → IsValid s → IsValid (fire x s))
    (calm : (x : Timeout) (s : Timeouts)
      → IsValid s
      → count_due ticks (pending (fire x s)) ≤ count_due ticks (pending s)) where
  -- Let every callback keep the table valid and not raise the number of entries that are due. On
  -- a valid table, the processing loop comes to an end without a fault, one round for each due
  -- entry and a last one being enough; the table is then valid, no pending timeout is due, and
  -- each procedure that was called was due.
  pub process-Processes :
      (fuel : ℕ) (s : Timeouts)
      → IsValid s
      → count_due ticks (pending s) < fuel
      → Returns (process fuel ticks fire s) (Processes ticks)
  unfolding process
  process-Processes zero s v h = absurd (omega arith)
  process-Processes (suc fuel) s v h =
      let first = (lookups_refine s.tree).0 in
      elim (Option-cases (Root.get_min s.tree)) [
        | inl e ↦
            let empty = nil_of_head? (pending s) (sym first ∙ e) in
            ((s, []), rw (e, process), record { valid = v; late = rw empty tt; fired = tt })
        | inr (x, e) ↦ elim (Bool-cases (leb_ℤ x.key.timestamp ticks)) [
          | inr late ↦ (
            (s, []),
            rw (e, process) (rw late),
            record {
              valid = v;
              late =
                  IsLate-All ticks (pending s) v.tree.increasing (sym first ∙ e)
                    (late_of_leb x.key.timestamp ticks late);
              fired = tt;
            },
          )
          | inl due ↦
              let (tree, ran, (v', split)) = unlink_first s v e in
              let s' : Timeouts = record s { tree = tree } in
              let bound = calm x s' v' in
              let fewer = count_due_cons ticks s split due in
              let (out, ran', i) =
                process-Processes fuel (fire x s') (keeps x s' v') (omega (arith, bound, fewer)) in
              (
                (out.0, x ∷ out.1),
                rw (e, process) (rw (due, ran, ran')),
                record {
                  valid = i.valid;
                  late = i.late;
                  fired = (due_of_leb x.key.timestamp ticks due, i.fired);
                },
              )
        ]
      ]
