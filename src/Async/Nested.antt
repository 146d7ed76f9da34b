-- ===== src/Async/Nested.antt =====
-- src/async.c: an operation of several phases that fails inside another one of several phases.
pub mod Tests
use xrossfire.Base.{
  ℕ, suc, ◌≡◌, ◌≢◌, refl, ap, sym, ◌∙◌, false, Option, none, some, Returns, ◌==◌, ==_iff, ==_self,
  Bool, Bool-cases, inl, inr,
}
use xrossfire.Base.Int.{ℤ, pos, ltb_ℤ, ◌-ℤ◌}
use xrossfire.Timeout.Order.{handle_order}
use xrossfire.Timeout.Queue.{IsValid}
use xrossfire.Async.{Async, World, set_child}
use xrossfire.Async.Notify.{Platform, release, notify, finish, run_next_phase, phase_error}
use xrossfire.Async.Counts.{Operation, cancelled, minus_one}
use xrossfire.Async.Phases.{Step}
use xrossfire.Async.Parent.{parent_at, Ended, Finished, finish-Finished}
use xrossfire.Async.Linked.{child, Linked, child_timeout-Linked, Ending, error_phase-Ending}

-- Two addresses differ.
differ : (a b : ℕ) → a ≢ b → (a == b) ≡ false
differ a b h = elim (Bool-cases (a == b)) [ inl e ↦ absurd (h ((==_iff a b).0 e)) | inr e ↦ e ]

-- The inner operation, at `p`, has one holder and the outer one, at `q`, as its parent.
pub record IsInner (q : ℕ) (self : Async) : Type 0 where
  pub one_holder : self.ref ≡ pos 1
  pub inside : self.parent ≡ some q

-- A child whose parent is freed by the notification lets go of freed memory.
orphan_faults {ℓ} :
    {W : Type ℓ} (platform : Platform W) (p q fuel error : ℕ) (self : Async) (w w' : World W)
    → (q == p) ≡ false
    → IsInner q self
    → w.asyncs p ≡ some self
    → notify platform fuel q error w ≡ some w'
    → w'.asyncs p ≡ some self
    → w'.asyncs q ≡ none
    → IsValid w'.timeouts
    → finish platform (notify platform fuel) p error w ≡ none
unfolding finish release set_child
orphan_faults platform p q fuel error self w w' other i here ran here' gone valid =
    let (out, cancels, rest) = cancelled platform self.timeout w'.timeouts valid in
    rw here (simp (i.inside, ran, here', i.one_holder, minus_one 0, cancels, other, gone) refl)

module _ {ℓ} {W : Type ℓ} (platform : Platform W) (p q : ℕ) (op : Operation) (p_q : p ≢ q)
    (p_op : p ≢ op.address) (q_op : q ≢ op.address) (procedure context : ℕ)
    (act : ℤ → ℕ → W → Step W)
    (calm : (phase : ℤ) (error : ℕ) (w : World W)
      → platform.procedure procedure q phase error context w
        ≡ some (
          record w { rest = (act phase error w.rest).after },
          (act phase error w.rest).error,
          (act phase error w.rest).next,
        ))
    (act' : ℕ → W → W)
    (calm' : (error : ℕ) (w : World W)
      → platform.completed op.completed error op.context w
        ≡ some (record w { rest = act' error w.rest })) where
  -- The outer operation, without a timeout, with the inner one as its child, for an operation with
  -- a completion procedure and n + 2 holders.
  abbrev pub Surrounds : ℕ → ℤ → Bool → Bool → W → World W → Type ℓ
  Surrounds n phase gone canceled =
      Linked platform q op q_op procedure context act calm (some p) phase gone
        (parent_at op (suc n) canceled false (some q))

  record Gone (self : Async) (w : World W) : Type ℓ where
    kept : w.asyncs p ≡ some self
    freed : w.asyncs q ≡ none
    valid : IsValid w.timeouts

  -- The notification of the outer operation frees it.
  outer-Gone :
      (fuel n error : ℕ) (phase : ℤ) (gone canceled : Bool) (self : Async) (r : W) (w : World W)
      → (error == 0) ≡ false
      → w.asyncs p ≡ some self
      → Surrounds n phase gone canceled r w
      → Returns (notify platform (suc (suc fuel)) q error w) (Gone self)
  unfolding notify
  outer-Gone fuel n error phase gone canceled self r w fails here h =
      let parent = parent_at op (suc n) canceled false (some q) in
      let (w', ran, (h', same)) =
        child_timeout-Linked platform q op q_op procedure context act calm (some p) phase gone
          parent r w h in
      let e =
        error_phase-Ending platform q op q_op procedure context act calm (some p) fuel error phase
          gone parent r w' fails h' in
      let (w'', ran', f) =
        finish-Finished platform q op q_op act' calm' procedure context e.phase e.gone (some p) fuel
          n (act phase_error error r).error canceled (act phase_error error r).after e.state
          e.pair in
      rw ran (
        rw h'.0.here (
          rw e.ends (
            w'',
            ran',
            record {
              kept =
                  f.others p (differ p q p_q) (differ p op.address p_op)
                  ∙ e.others p (differ p q p_q)
                  ∙ ap (λ (store : ℕ → Option Async). store p) same
                  ∙ here;
              freed = f.ended.freed;
              valid = f.ended.valid;
            },
          )))

  -- Let an operation of several phases, with one holder, have another one of several phases as
  -- its parent, and let that have an operation with a completion procedure and n + 2 holders as
  -- its own. Let neither of the last two have a timeout pending, and let their procedures not
  -- touch the records and the table of timeouts, which is valid. If the first ends with an error,
  -- it faults, with fuel for two steps: its parent runs its error phase and is freed, and then
  -- the first writes to it.
  pub nested_faults :
      (fuel n error : ℕ) (phase : ℤ) (gone canceled : Bool) (self : Async) (r : W) (w : World W)
      → (error == 0) ≡ false
      → IsInner q self
      → w.asyncs p ≡ some self
      → Surrounds n phase gone canceled r w
      → finish platform (notify platform (suc (suc fuel))) p error w ≡ none
  nested_faults fuel n error phase gone canceled self r w fails i here h =
      let (w', ran, g) = outer-Gone fuel n error phase gone canceled self r w fails here h in
      orphan_faults platform p q (suc (suc fuel)) error self w w' (differ q p (λ e. p_q (sym e))) i
        here ran g.kept g.freed g.valid
