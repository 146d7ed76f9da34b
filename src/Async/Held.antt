-- ===== src/Async/Held.antt =====
-- src/async.c: what an event makes of the count of those who hold an operation.
use xrossfire.Base.{
  ℕ, zero, suc, ◌≡◌, refl, sym, subst, ap, ◌∙◌, Bool, true, false, Option, some, ◌>>=◌,
  if◌then◌else◌, Returns, arith, ◌==◌,
}
use xrossfire.Base.Int.{pos, ◌+ℤ◌}
use xrossfire.Timeout
use xrossfire.Async.{World}
use xrossfire.Async.Notify.{Platform, release}
use xrossfire.Async.Create.{add_ref}
use xrossfire.Async.Counts.{
  Operation, record_at, Holds, here_after, cancelled, release-Holds, unarmed, still_armed,
}
use xrossfire.Async.Life.{holders_of, total}

-- One more who holds it.
total-holders_of :
    (others : ℕ) (armed running called : Bool)
    → total armed (holders_of (suc others) running called)
      ≡ suc (total armed (holders_of others running called))
total-holders_of others true true true = refl
total-holders_of others true true false = refl
total-holders_of others true false true = refl
total-holders_of others true false false = refl
total-holders_of others false true true = refl
total-holders_of others false true false = refl
total-holders_of others false false true = refl
total-holders_of others false false false = refl

-- A callback that is to come holds it, too.
holders_of_running :
    (others : ℕ) (called : Bool)
    → suc (holders_of others false called) ≡ holders_of others true called
holders_of_running others true = refl
holders_of_running others false = refl

total-holders_pos :
    (others : ℕ) (armed running called : Bool)
    → (holders_of others running called == 0) ≡ false
    → (n : ℕ) × (total armed (holders_of others running called) ≡ suc n)
total-holders_pos others true running called h = (holders_of others running called, refl)
total-holders_pos zero false false true h = cc
total-holders_pos (suc others) false false true h = (others, refl)
total-holders_pos others false false false h = (others, refl)
total-holders_pos others false true true h = (others, refl)
total-holders_pos others false true false h = (suc others, refl)

module _ {ℓ} {W : Type ℓ} (platform : Platform W) (op : Operation) where
  counted :
      (n : ℕ) (armed canceled called : Bool) (r : W) (w : World W)
      → Holds platform op (total armed (suc n)) armed canceled called r w
      → Holds platform op (suc (if armed then suc n else n)) armed canceled called r w
  counted n true canceled called r w h = h
  counted n false canceled called r w h = h

  -- A call that completes it unless it is completed, whatever else holds it.
  pub closes :
      (m : Option (World W)) (after : W) (others : ℕ)
      (armed running canceled canceled' called : Bool) (r : W) (w : World W)
      → ((n : ℕ)
          → Holds platform op (suc (if armed then suc n else n)) armed canceled false r w
          → Returns m (Holds platform op n false canceled' true after))
      → ((n : ℕ)
          → Holds platform op (suc (if armed then suc n else n)) armed canceled true r w
          → Returns m (Holds platform op (suc n) false canceled' true r))
      → (holders_of others running called == 0) ≡ false
      → Holds platform op (total armed (holders_of others running called)) armed canceled called r w
      → Returns m (
          Holds platform op
            (holders_of others running true)
            false
            canceled'
            true
            (if called then r else after))
  closes m after others armed false c c' false r w first again alive h =
      first others (counted others armed c false r w h)
  closes m after others armed true c c' false r w first again alive h =
      first (suc others) (counted (suc others) armed c false r w h)
  closes m after others armed true c c' true r w first again alive h =
      again others (counted others armed c true r w h)
  closes m after zero armed false c c' true r w first again alive h = cc
  closes m after (suc others) armed false c c' true r w first again alive h =
      again others (counted others armed c true r w h)

  plus_one : (n : ℕ) → pos n +ℤ pos 1 ≡ pos (suc n)
  unfolding ◌+ℤ◌
  plus_one n = ground arith

  add_ref-Holds :
      (n : ℕ) (armed canceled called : Bool) (r : W) (w : World W)
      → Holds platform op (suc n) armed canceled called r w
      → Returns
          (add_ref (some op.address) w)
          (Holds platform op (suc (suc n)) armed canceled called r)
  unfolding add_ref
  add_ref-Holds n armed canceled called r w h = rw h.here (
    _,
    refl,
    record {
      here =
          here_after platform op.address _ w.asyncs
          ∙ ap (λ k. some (record (record_at op n canceled called) { ref = k })) (plus_one (suc n));
      rest_is = h.rest_is;
      valid = h.valid;
      armed_is = h.armed_is;
    },
  )

  pub retained :
      (others : ℕ) (armed running canceled called : Bool) (r : W) (w : World W)
      → (holders_of others running called == 0) ≡ false
      → Holds platform op (total armed (holders_of others running called)) armed canceled called r w
      → Returns (add_ref (some op.address) w) (
          Holds platform op
            (total armed (holders_of (suc others) running called))
            armed
            canceled
            called
            r)
  retained others armed running canceled called r w alive h =
      let (n, is) = total-holders_pos others armed running called alive in
      subst
        (λ k. Returns (add_ref (some op.address) w) (Holds platform op k armed canceled called r))
        (sym (total-holders_of others armed running called ∙ ap suc is))
        (add_ref-Holds n armed canceled called r w
          (subst (λ k. Holds platform op k armed canceled called r w) is h))

  still_holds :
      (n : ℕ) (armed canceled called : Bool) (r : W) (w : World W)
      → Holds platform op
          (total armed n)
          (still_armed platform (total armed n) armed)
          canceled
          called
          r
          w
      → Holds platform op (total armed n) armed canceled called r w
  still_holds n true canceled called r w h = h
  still_holds n false canceled called r w h = unarmed platform op n canceled called r w h

  pub released :
      (others : ℕ) (armed running canceled called : Bool) (r : W) (w : World W)
      → Holds platform op
          (total armed (holders_of (suc others) running called))
          armed
          canceled
          called
          r
          w
      → Returns (release platform (some op.address) w) (
          Holds platform op
            (total armed (holders_of others running called))
            armed
            canceled
            called
            r)
  released others armed running canceled called r w h =
      let n = holders_of others running called in
      let (w', ran, h') = release-Holds platform op (total armed n) armed canceled called r w (
        subst (λ k. Holds platform op k armed canceled called r w)
          (total-holders_of others armed running called) h) in
      (w', ran, still_holds n armed canceled called r w' h')

  pub expired :
      (others : ℕ) (canceled called : Bool) (r : W) (w : World W)
      → Holds platform op (suc (holders_of others false called)) true canceled called r w
      → Returns
          (Timeout.cancel w.timeouts op.key >>= λ out. some (record w { timeouts = out.0 }))
          (Holds platform op (holders_of others true called) false canceled called r)
  expired others canceled called r w h =
      let (out, ran, (valid, gone, found)) = cancelled platform op.key w.timeouts h.valid in
      rw ran (
        subst
          (λ n.
            Returns (some (record w { timeouts = out.0 }))
              (Holds platform op n false canceled called r))
          (holders_of_running others called)
          (_, refl, record { here = h.here; rest_is = h.rest_is; valid = valid; armed_is = gone }))
