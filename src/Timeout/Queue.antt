-- ===== src/Timeout/Queue.antt =====
-- src/timeout.c: scheduling and cancelling, against the list of pending timeouts in order.
use xrossfire.Base.{
  ℕ, ◌+◌, ◌<◌, ◌≡◌, refl, ap, ◌∙◌, Bool, true, false, none, List, [], ◌∷◌, arith, All, All-imp,
  head?, Returns, Returns-bind,
}
use xrossfire.Base.Int.{ℤ}
use xrossfire.Order.{is_lt, is_eq, is_gt, sign}
use xrossfire.Avl.Root
use xrossfire.Avl.Root.{AvlTree, entries}
use xrossfire.Avl.Root.Refines.{insert_refines, remove_refines, init-IsValid, lookups_refine}
use xrossfire.Avl.Sorted.{insert_entry, find_key, erase_key}
use xrossfire.Avl.Cancel.{
  erase_key-insert_entry, find_key-insert_entry, find_key-erase_key, insert_entry-All,
  erase_key-All,
}
use xrossfire.Timeout.{
  Callback, Timeout, Timeouts, init, new_timeout, schedule, cancel, is_some, is_address,
}
use xrossfire.Timeout.Order.{Handle, handle_order}

abbrev pub pending : Timeouts → List Timeout
pending s = entries s.tree

-- The tree is a valid search tree, and every pending timeout is older than the next one.
pub record IsValid (s : Timeouts) : Type 0 where
  pub tree : Root.IsValid s.tree
  pub young : All (λ (e : Timeout). e.key.id < s.seq) (pending s)

pub init-IsValid_lem : IsValid init
unfolding init Root.init
init-IsValid_lem = record { tree = init-IsValid; young = tt }

find_key-young :
    (k : Handle) (xs : List Timeout)
    → All (λ (e : Timeout). e.key.id < k.id) xs
    → find_key k xs ≡ none
unfolding find_key
find_key-young k [] a = refl
find_key-young k (y ∷ ys) a = elim (sign (handle_order.compare k y.key)) [
  | is_lt p ↦ rw (p, find_key) (find_key-young k ys a.1)
  | is_gt p ↦ rw (p, find_key) (find_key-young k ys a.1)
  | is_eq p ↦ absurd (not_younger k y.key (handle_order.eq_same k y.key p) a.0)
]
  where
    not_younger : (a b : Handle) → a ≡ b → b.id < a.id → ⊥
    not_younger a b e h = ground arith

pub record Schedules (s : Timeouts) (self : ℕ) (timeout : ℤ) (callback : Callback) (ticks : ℤ)
    (out : Timeouts × Timeout × Bool) : Type 0 where
  pub valid : IsValid out.0
  pub written : out.1 ≡ new_timeout s.seq self timeout callback ticks
  pub fresh : find_key out.1.key (pending s) ≡ none
  pub contents : pending out.0 ≡ insert_entry out.1 (pending s)
  pub wakes : out.2 ≡ is_address (head? (pending out.0)) self

-- On a valid table, scheduling never faults and leaves a valid table. The handle is new, the
-- entry has the clock plus the timeout as its time and stands at its place among the pending
-- timeouts, and the polling thread is woken exactly when the entry is now the first.
pub schedule-Schedules :
    (s : Timeouts) (self : ℕ) (timeout : ℤ) (callback : Callback) (ticks : ℤ)
    → IsValid s
    → Returns (schedule s self timeout callback ticks) (Schedules s self timeout callback ticks)
unfolding schedule
schedule-Schedules s self timeout callback ticks v =
    let x = new_timeout s.seq self timeout callback ticks in
    Returns-bind (Schedules s self timeout callback ticks) (Root.insert s.tree x) _
      (insert_refines s.tree x v.tree)
      λ out i. (
        _,
        refl,
        record {
          valid = record {
            tree = i.valid;
            young = rw i.contents (
                insert_entry-All (λ (e : Timeout). e.key.id < s.seq + 1) x (pending s) (omega arith)
                  (All-imp {P = λ (e : Timeout). e.key.id < s.seq}
                    {Q = λ (e : Timeout). e.key.id < s.seq + 1} (λ e h. omega arith) (pending s)
                    v.young));
          };
          written = refl;
          fresh = find_key-young x.key (pending s) v.young;
          contents = i.contents;
          wakes = ap (λ m. is_address m self) (lookups_refine out.0).0;
        },
      )

pub record Cancels (s : Timeouts) (key : Handle) (out : Timeouts × Bool) : Type 0 where
  pub valid : IsValid out.0
  pub contents : pending out.0 ≡ erase_key key (pending s)
  pub result : out.1 ≡ is_some (find_key key (pending s))

-- On a valid table, cancelling a handle never faults, leaves a valid table with the pending
-- timeouts before less the one with this handle, and answers whether it was pending.
pub cancel-Cancels :
    (s : Timeouts) (key : Handle) → IsValid s → Returns (cancel s key) (Cancels s key)
unfolding cancel
cancel-Cancels s key v =
    Returns-bind (Cancels s key) (Root.remove s.tree key) _ (remove_refines s.tree key v.tree)
      λ out i. (
        _,
        refl,
        record {
          valid = record {
            tree = i.valid;
            young =
                rw i.contents
                  (erase_key-All (λ (e : Timeout). e.key.id < s.seq) key (pending s) v.young);
          };
          contents = i.contents;
          result = ap is_some i.removed;
        },
      )

-- On a valid table, cancelling what was just scheduled succeeds and gives back the pending
-- timeouts from before.
pub cancel-schedule :
    (s : Timeouts) (self : ℕ) (timeout : ℤ) (callback : Callback) (ticks : ℤ)
    → IsValid s
    → Returns (schedule s self timeout callback ticks) λ out.
      Returns (cancel out.0 out.1.key) λ undone. (undone.1 ≡ true) × (pending undone.0 ≡ pending s)
cancel-schedule s self timeout callback ticks v =
    let (out, ran, i) = schedule-Schedules s self timeout callback ticks v in
    let (undone, ran', j) = cancel-Cancels out.0 out.1.key i.valid in
    let found = find_key-insert_entry out.1 (pending s) i.fresh in
    (
      out,
      ran,
      (
        undone,
        ran',
        (
          j.result ∙ ap (λ xs. is_some (find_key out.1.key xs)) i.contents ∙ ap is_some found,
          j.contents
              ∙ ap (erase_key out.1.key) i.contents
              ∙ erase_key-insert_entry out.1 (pending s) i.fresh,
        ),
      ),
    )

-- On a valid table, a second cancel of the same handle answers false, and the handle is not
-- pending after it.
pub cancel-cancel :
    (s : Timeouts) (key : Handle)
    → IsValid s
    → Returns (cancel s key) λ out.
      Returns
        (cancel out.0 key)
        λ again. (again.1 ≡ false) × (find_key key (pending again.0) ≡ none)
cancel-cancel s key v =
    let (out, ran, i) = cancel-Cancels s key v in
    let (again, ran', j) = cancel-Cancels out.0 key i.valid in
    let gone =
      ap (find_key key) i.contents ∙ find_key-erase_key key (pending s) v.tree.increasing in
    (
      out,
      ran,
      (
        again,
        ran',
        (
          j.result ∙ ap is_some gone,
          ap (find_key key) j.contents
              ∙ find_key-erase_key key (pending out.0) i.valid.tree.increasing,
        ),
      ),
    )
