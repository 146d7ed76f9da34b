-- ===== src/Net/Started.antt =====
-- src/win32/tcp_socket.c: what a call that starts I/O makes of an operation.
use xrossfire.Base.{
  ℕ, suc, ◌≡◌, ◌≢◌, zero, refl, ap, ◌∙◌, Bool, true, false, some, ◌==◌, if◌then◌else◌, Returns,
  Bool-cases, inl, inr, arith,
}
use xrossfire.Base.Int.{pos, ◌+ℤ◌}
use xrossfire.Async.{IoAsync, World}
use xrossfire.Async.Notify.{Platform, notify, error_cancel}
use xrossfire.Async.Create.{add_ref, enter, leave}
use xrossfire.Async.Counts.{Operation, stored, Holds, here_after, release-Holds}
use xrossfire.Async.Once.{notify_completes}
use xrossfire.Object.{xf_error}
use xrossfire.Net.{set_io, start_io}

-- The operation with another I/O record.
abbrev pub with_io : (IoAsync → IoAsync) → Operation → Operation
with_io f op = record op { io = f op.io }

one_more : (n : ℕ) → pos (suc n) +ℤ pos 1 ≡ pos (suc (suc n))
unfolding ◌+ℤ◌
one_more n = ground arith

module _ {ℓ} {W : Type ℓ} (platform : Platform W) (op : Operation) where
  pub add_ref-Holds :
      (n : ℕ) (armed canceled called : Bool) (r : W) (w : World W)
      → Holds platform op (suc n) armed canceled called r w
      → Returns
          (add_ref (some op.address) w)
          (Holds platform op (suc (suc n)) armed canceled called r)
  unfolding add_ref
  add_ref-Holds n armed canceled called r w h =
      rw (h.here, one_more n)
        (
          _,
          refl,
          record {
            here =
                here_after platform op.address (stored op (suc (suc n)) canceled called) w.asyncs;
            rest_is = h.rest_is;
            valid = h.valid;
            armed_is = h.armed_is;
          },
        )

  pub set_io-Holds :
      (f : IoAsync → IoAsync) (n : ℕ) (armed canceled called : Bool) (r : W) (w : World W)
      → Holds platform op (suc n) armed canceled called r w
      → Returns
          (set_io op.address f w)
          (Holds platform (with_io f op) (suc n) armed canceled called r)
  unfolding set_io
  set_io-Holds f n armed canceled called r w h = rw h.here (
    _,
    refl,
    record {
      here =
          here_after platform op.address (stored (with_io f op) (suc n) canceled called) w.asyncs;
      rest_is = h.rest_is;
      valid = h.valid;
      armed_is = h.armed_is;
    },
  )

  pub leave-Holds :
      (n : ℕ) (armed canceled called : Bool) (r : W) (w : World W)
      → Holds platform op (suc (suc n)) armed canceled called r w
      → Returns (leave platform op.address w) (Holds platform op (suc n) armed canceled called r)
  unfolding leave
  leave-Holds n armed canceled called r w h =
      release-Holds platform op (suc n) armed canceled called r w h

module _ {ℓ} {W : Type ℓ} (platform : Platform W) (op : Operation) where
  -- The bracket round a call that starts I/O, for an operation that is not cancelled.
  pub record Bracket (f : IoAsync → IoAsync) (n : ℕ) (armed : Bool) (r : W) (fuel : ℕ) (w : World W)
      : Type ℓ where
    pub inside : World W
    pub written : World W
    pub after : World W
    pub enters : enter platform fuel op.address w ≡ some (inside, true)
    pub writes : set_io op.address f inside ≡ some written
    pub leaves : leave platform op.address written ≡ some after
    pub holds : Holds platform (with_io f op) (suc n) armed false false r after

  enter-Holds :
      (fuel n : ℕ) (armed : Bool) (r : W) (w : World W)
      → Holds platform op (suc n) armed false false r w
      → Returns
          (enter platform fuel op.address w)
          λ out. (out.1 ≡ true) × Holds platform op (suc (suc n)) armed false false r out.0
  unfolding enter
  enter-Holds fuel n armed r w h =
      let (w', ran, h') = add_ref-Holds platform op n armed false false r w h in
      rw h.here (rw ran ((w', true), refl, (refl, h')))

  pub bracket :
      (f : IoAsync → IoAsync) (fuel n : ℕ) (armed : Bool) (r : W) (w : World W)
      → Holds platform op (suc n) armed false false r w
      → Bracket f n armed r fuel w
  bracket f fuel n armed r w h =
      let (out, ran, (e, h')) = enter-Holds fuel n armed r w h in
      let (w', ran', h'') = set_io-Holds platform op f (suc n) armed false false r out.0 h' in
      let (w'', ran'', i) = leave-Holds platform (with_io f op) n armed false false r w' h'' in
      record {
        inside = out.0;
        written = w';
        after = w'';
        enters = ran ∙ ap (λ b. some (out.0, b)) e;
        writes = ran';
        leaves = ran'';
        holds = i;
      }

module _ {ℓ} {W : Type ℓ} (platform : Platform W) (op : Operation) (act : ℕ → W → W) where
  -- The operation is notified at once with XF_ERROR_CANCEL if it has been cancelled, and with
  -- XF_ERROR if its I/O has not started; otherwise its I/O is pending, for its holders of before.
  abbrev pub Started : (IoAsync → IoAsync) → ℕ → Bool → Bool → ℕ → W → World W → Type ℓ
  Started f n armed true answer r w = Holds platform op n false true true (act error_cancel r) w
  Started f n armed false answer r w =
      if answer == 0
      then Holds platform (with_io f op) (suc (if armed then suc n else n)) armed false false r w
      else Holds platform (with_io f op) n false false true (act xf_error r) w

module _ {ℓ} {W : Type ℓ} (platform : Platform W) (op : Operation) (act : ℕ → W → W)
    (calm : (error : ℕ) (w : World W)
      → platform.completed op.completed error op.context w
        ≡ some (record w { rest = act error w.rest })) where
  after_start :
      (f : IoAsync → IoAsync) (fuel n answer : ℕ) (armed : Bool) (r : W) (w : World W)
      → Holds platform (with_io f op) (suc (if armed then suc n else n)) armed false false r w
      → Returns
          (if answer == 0 then some w else notify platform (suc fuel) op.address xf_error w)
          (Started platform op act f n armed false answer r)
  after_start f fuel n answer armed r w h = elim (Bool-cases (answer == 0)) [
    | inl e ↦ rw e (w, refl, h)
    | inr e ↦
        rw e (notify_completes platform (with_io f op) act calm fuel n xf_error armed false r w h)
  ]

  start_canceled :
      (f : IoAsync → IoAsync) (fuel n answer : ℕ) (armed : Bool) (r : W) (w : World W)
      → n ≢ 0
      → Holds platform op (suc (if armed then suc n else n)) armed true false r w
      → Returns
          (start_io platform (suc fuel) op.address f answer w)
          (Started platform op act f n armed true answer r)
  unfolding start_io enter
  start_canceled f fuel zero answer armed r w stays h = absurd (stays refl)
  start_canceled f fuel (suc n) answer armed r w stays h =
      let (w', ran, h') =
        notify_completes platform op act calm fuel (suc n) error_cancel armed true r w h in
      rw h.here (rw ran (rw h'.here (w', refl, h')))

  pub start_io-Starts :
      (f : IoAsync → IoAsync) (fuel n answer : ℕ) (armed canceled : Bool) (r : W) (w : World W)
      → (canceled ≡ true → n ≢ 0)
      → Holds platform op (suc (if armed then suc n else n)) armed canceled false r w
      → Returns
          (start_io platform (suc fuel) op.address f answer w)
          (Started platform op act f n armed canceled answer r)
  unfolding start_io
  start_io-Starts f fuel n answer armed true r w stays h =
      start_canceled f fuel n answer armed r w (stays refl) h
  start_io-Starts f fuel n answer armed false r w stays h =
      let b = bracket platform op f (suc fuel) (if armed then suc n else n) armed r w h in
      rw b.enters (rw (b.writes, b.leaves) (after_start f fuel n answer armed r b.after b.holds))
