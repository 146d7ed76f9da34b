-- ===== src/Port/Drain.antt =====
-- src/win32/io_completion_port.c: the pool comes to its maximum when its threads enter the loop and its
-- packets are served.
use xrossfire.Base.{
  ℕ, zero, suc, ◌+◌, ◌-◌, ◌≡◌, refl, sym, subst, Bool-cases, inl, inr, true, false, List, [], ◌∷◌,
  max, min, arith,
}
use xrossfire.Base.Int.{pos, ◌+ℤ◌, ◌-ℤ◌, ltb_ℤ}
use xrossfire.Port.{Packet, exit, handle, System, enter_loop, serve, derr}
use xrossfire.Port.Workers.{PoolStep, enters, serves, PoolSteps, rests, goes_on}

minus_one : (n : ℕ) → pos (suc n) -ℤ pos 1 ≡ pos n
unfolding ◌-ℤ◌
minus_one n = ground arith

suc_sub_one : (n : ℕ) → suc n - 1 ≡ n
suc_sub_one n = omega arith

plus_one : (n : ℕ) → pos n +ℤ pos 1 ≡ pos (suc n)
unfolding ◌+ℤ◌
plus_one n = ground arith

add_suc : (a b : ℕ) → a + suc b ≡ suc a + b
add_suc a b = omega arith

add_zero : (a : ℕ) → a + 0 ≡ a
add_zero a = omega arith

abbrev pub count_exits : List Packet → ℕ
count_exits [] = 0
count_exits (exit ∷ queue) = suc (count_exits queue)
count_exits (handle failed transfered command ∷ queue) = count_exits queue

-- So many workers are left of `running` after so many packets.
abbrev pub left : ℕ → ℕ → ℕ → ℕ
left max_workers running exits = max (min running max_workers) (running - exits)

left_none : (m running : ℕ) → left m (suc running) 0 ≡ suc running
left_none m running = omega arith

left_one_above :
    (m running : ℕ) → ltb_ℤ (pos m) (pos (suc running)) ≡ true → left m (suc running) 1 ≡ running
left_one_above m running h = ground arith

left_one_below :
    (m running : ℕ)
    → ltb_ℤ (pos m) (pos (suc running)) ≡ false
    → left m (suc running) 1 ≡ suc running
left_one_below m running h = ground arith

left_next :
    (m running e e' total : ℕ)
    → e + e' ≡ total
    → left (suc m) (suc (left (suc m) (suc running) e - 1)) e' ≡ left (suc m) (suc running) total
left_next m running e e' total h = omega arith

left_suc : (m running e : ℕ) → left (suc m) (suc running) e ≡ suc (left (suc m) (suc running) e - 1)
left_suc m running e = omega arith

count_exits-cons :
    (p : Packet) (queue : List Packet)
    → count_exits (p ∷ []) + count_exits queue ≡ count_exits (p ∷ queue)
count_exits-cons exit queue = omega arith
count_exits-cons (handle failed transfered command) queue = omega arith

module _ {ℓ} {W : Type ℓ} where
  -- The system with so many workers and packets.
  abbrev pub pool : ℕ → List Packet → W → System W → System W
  pool running queue rest s = record s {
    current_workers = pos running;
    running = running;
    queue = queue;
    rest = rest;
  }

  -- The system with so many threads.
  abbrev pub staffed : ℕ → ℕ → System W → System W
  staffed starting running s = record s {
    current_workers = pos running;
    running = running;
    starting = starting;
  }

module _ {ℓ} {W : Type ℓ} (complete : ℕ → ℕ → ℕ → W → W) where
  -- The operations are completed in the order of their packets.
  abbrev pub complete_all : List Packet → W → W
  complete_all [] rest = rest
  complete_all (exit ∷ queue) rest = complete_all queue rest
  complete_all (handle failed transfered command ∷ queue) rest =
      complete_all queue (complete (derr failed) transfered command rest)

  pub join :
      (s s' s'' : System W)
      → PoolSteps complete s s'
      → PoolSteps complete s' s''
      → PoolSteps complete s s''
  join s s' s'' steps (rests _) = steps
  join s s' s'' steps (goes_on _ t _ rest step) = goes_on s t s'' (join s s' t steps rest) step

  serve_step :
      (m running : ℕ) (p : Packet) (queue : List Packet) (rest : W) (s : System W)
      → s.max_workers ≡ pos m
      → s.exited ≡ false
      → serve complete p (pool (suc running) queue rest s)
        ≡ pool (left m (suc running) (count_exits (p ∷ []))) queue (complete_all (p ∷ []) rest) s
  unfolding serve ◌-ℤ◌
  serve_step m running exit queue rest s limit not_exited =
      elim (Bool-cases (ltb_ℤ (pos m) (pos (suc running)))) [
        | inl e ↦
            rw (limit, not_exited, left_one_above m running e, minus_one running)
              (rw e (rw (suc_sub_one running) refl))
        | inr e ↦ rw (limit, not_exited) (rw e (rw (left_one_below m running e) refl))
      ]
  serve_step m running (handle failed transfered command) queue rest s limit not_exited =
      rw (left_none m running) refl

  complete_all-cons :
      (p : Packet) (queue : List Packet) (rest : W)
      → complete_all queue (complete_all (p ∷ []) rest) ≡ complete_all (p ∷ queue) rest
  complete_all-cons exit queue rest = refl
  complete_all-cons (handle failed transfered command) queue rest = refl

  single : (s s' : System W) → PoolStep complete s s' → PoolSteps complete s s'
  single s s' step = goes_on s s s' (rests s) step

  -- Every packet of the queue is served.
  pub drain :
      (m running : ℕ) (queue : List Packet) (rest : W) (s : System W)
      → s.max_workers ≡ pos (suc m)
      → s.exited ≡ false
      → PoolSteps complete
          (pool (suc running) queue rest s)
          (pool (left (suc m) (suc running) (count_exits queue)) [] (complete_all queue rest) s)
  drain m running [] rest s limit not_exited = rw (left_none (suc m) running) (rests _)
  drain m running (p ∷ queue) rest s limit not_exited =
      let e = count_exits (p ∷ []) in
      let n = left (suc m) (suc running) e in
      let start = pool (suc running) (p ∷ queue) rest s in
      let next = pool n queue (complete_all (p ∷ []) rest) s in
      let first =
        subst (PoolSteps complete start)
          (serve_step (suc m) running p queue rest s limit not_exited)
          (single start _ (serves p queue start refl (omega arith))) in
      let later = drain m (n - 1) queue (complete_all (p ∷ []) rest) s limit not_exited in
      join start next _ first (
        rw (left_suc m running e) (
          rw
            (
              sym (left_next m running e _ _ (count_exits-cons p queue)),
              sym (complete_all-cons p queue rest),
            )
            later))

  enter_loop-staffed :
      (n running : ℕ) (s : System W)
      → enter_loop (staffed (suc n) running s) ≡ staffed n (suc running) s
  unfolding enter_loop
  enter_loop-staffed n running s = rw (plus_one running, suc_sub_one n) refl

  -- Every thread that has been started enters the loop.
  pub enter_all :
      (n running : ℕ) (s : System W)
      → PoolSteps complete (staffed n running s) (staffed 0 (running + n) s)
  enter_all zero running s = rw (add_zero running) (rests _)
  enter_all (suc n) running s =
      let start = staffed (suc n) running s in
      let next = staffed n (suc running) s in
      let first =
        subst (PoolSteps complete start) (enter_loop-staffed n running s)
          (single start _ (enters start (omega arith))) in
      join start next _ first (rw (add_suc running n) (enter_all n (suc running) s))
