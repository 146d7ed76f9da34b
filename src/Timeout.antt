-- ===== src/Timeout.antt =====
-- src/timeout.c and include/xrossfire/timeout.h: the table of timeouts, a tree ordered by time.
--
-- A `xf_timeout_t` is the entry of a tree node: its address, its key and its callback; the links
-- and the height live in the tree. `xf_ticks()` is the operating system's clock, so each function
-- takes the value that it reads. `long long` values are not wrapped: a clock in milliseconds plus
-- an `int`, and a counter of calls, stay below 2 ^ 63. The monitor that `xf_poll_enter` takes
-- makes each function one step; the processing loop releases it round each callback, and the
-- argument `fire` is what the callback and other threads then do to the table.
pub mod Order
pub mod Queue
pub mod Process
pub mod Drain
pub mod Tests
use Prim.Native.Nat.{Ordering}
use Prim.Native.Nat.Ordering.{lt, eq, gt}
use xrossfire.Base.{
  ℕ, zero, suc, ◌+◌, ◌≡◌, Bool, true, false, not, Option, none, some, List, [], ◌∷◌, ◌==◌, leb,
  if◌then◌else◌, ◌>>=◌, arith,
}
use xrossfire.Base.Int.{ℤ, pos, ◌+ℤ◌, ◌-ℤ◌, leb_ℤ, ==ℤ}
use xrossfire.Avl.{Entry}
use xrossfire.Avl.Root.{AvlTree}
use xrossfire.Avl.Root
use Order.{Handle, handle_order}

pub record Callback : Type 0 where
  pub procedure : ℕ
  pub context : ℕ

abbrev pub Timeout : Type 0
Timeout = Entry Handle Callback

pub record Timeouts : Type 0 where
  pub tree : AvlTree Handle Callback
  pub seq : ℕ

unfoldable pub init : Timeouts
init = record { tree = Root.init; seq = 0 }

-- The entry that is written to `self`.
unfoldable pub new_timeout : ℕ → ℕ → ℤ → Callback → ℤ → Timeout
new_timeout seq self timeout callback ticks = record {
  address = self;
  key = record { id = seq; timestamp = ticks +ℤ timeout };
  value = callback;
}

abbrev pub is_address : Option Timeout → ℕ → Bool
is_address none self = false
is_address (some node) self = node.address == self

-- For a record that is not in the table, as every caller makes one. The table, the entry, and whether
-- the polling thread is woken up.
unfoldable pub schedule : Timeouts → ℕ → ℤ → Callback → ℤ → Option (Timeouts × Timeout × Bool)
unfolding new_timeout
schedule s self timeout callback ticks =
    let x = new_timeout s.seq self timeout callback ticks in
    (do
      (tree, inserted) ← Root.insert s.tree x
      some (record { tree = tree; seq = s.seq + 1 }, x, is_address (Root.get_min tree) self))

abbrev pub is_some : Option Timeout → Bool
is_some none = false
is_some (some x) = true

unfoldable pub cancel : Timeouts → Handle → Option (Timeouts × Bool)
cancel s key = do
  (tree, node) ← Root.remove s.tree key
  some (record s { tree = tree }, is_some node)

-- XF_POLLING_GET_WAIT_TIMEOUT.
unfoldable pub wait_timeout : Timeouts → ℤ → ℤ
wait_timeout s ticks = elim (Root.get_min s.tree) [
  | none ↦ pos 300_000
  | some node ↦ node.key.timestamp -ℤ ticks
]

-- XF_POLLING_PROCESS: the loop, with fuel, and the entries whose procedures it calls, in order.
unfoldable pub process :
    ℕ → ℤ → (Timeout → Timeouts → Timeouts) → Timeouts → Option (Timeouts × List Timeout)
process zero ticks fire s = none
process (suc fuel) ticks fire s = elim (Root.get_min s.tree) [
  | none ↦ some (s, [])
  | some node ↦
      let rest = (do
        tree ← Root.remove_min s.tree
        (s', fired) ← process fuel ticks fire (fire node (record s { tree = tree }))
        some (s', node ∷ fired)) in
      if leb_ℤ node.key.timestamp ticks then rest else some (s, [])
]
