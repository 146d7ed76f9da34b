-- ===== src/Port/Settle.antt =====
-- src/win32/io_completion_port.c: a registration brings the pool to its maximum.
use xrossfire.Base.{
  ℕ, zero, suc, ◌+◌, ◌-◌, ◌≡◌, ◌≢◌, refl, ap, subst, ◌∙◌, Bool-cases, inl, inr, true, false, Option,
  none, List, [], ◌∷◌, ◌++◌, ◌==◌, arith,
}
use xrossfire.Base.Int.{pos, pos_part, ◌-ℤ◌, ltb_ℤ}
use xrossfire.Port.{Packet, exit, System, start_threads, post_exits, prepare_thread, register}
use xrossfire.Port.Workers.{PoolSteps, rests}
use xrossfire.Port.Drain.{count_exits, left, complete_all, pool, drain, staffed, enter_all}

started_all :
    (start : ℕ → Option ℕ) (all : (n : ℕ) → start n ≡ none) (n k : ℕ)
    → start_threads start n k ≡ (k + n, 0)
unfolding start_threads
started_all start all zero k = ap (λ x. (x, 0)) (omega arith)
started_all start all (suc n) k =
    rw (start_threads, all n) (started_all start all n (suc k) ∙ ap (λ x. (x, 0)) (omega arith))

started_from_zero :
    (start : ℕ → Option ℕ) (all : (n : ℕ) → start n ≡ none) (n : ℕ)
    → start_threads start n 0 ≡ (n, 0)
started_from_zero start all n = started_all start all n 0 ∙ ap (λ x. (x, 0)) (omega arith)

abbrev exits : ℕ → List Packet
exits zero = []
exits (suc n) = exit ∷ exits n

exits-append : (n : ℕ) → exits n ++ exit ∷ [] ≡ exits (suc n)
exits-append zero = refl
exits-append (suc n) = ap (λ q. exit ∷ q) (exits-append n)

posted : (n k : ℕ) → post_exits n (exits k) ≡ exits (n + k)
unfolding post_exits
posted zero k = ap exits (omega arith)
posted (suc n) k = ap (post_exits n) (exits-append k) ∙ posted n (suc k) ∙ ap exits (omega arith)

posted_from_zero : (n : ℕ) → post_exits n [] ≡ exits n
posted_from_zero n = posted n 0 ∙ ap exits (omega arith)

count_exits-exits : (n : ℕ) → count_exits (exits n) ≡ n
count_exits-exits zero = refl
count_exits-exits (suc n) = ap suc (count_exits-exits n)

difference : (a b : ℕ) → pos_part (pos a -ℤ pos b) ≡ a - b
unfolding ◌-ℤ◌
difference a b = ground arith

not_zero : (n : ℕ) → n ≢ 0 → (n == 0) ≡ false
not_zero n h = ground arith

filled :
    (m running : ℕ) → ltb_ℤ (pos running) (pos (suc m)) ≡ true → running + (suc m - running) ≡ suc m
filled m running less = ground arith

emptied :
    (m r : ℕ)
    → ltb_ℤ (pos (suc m)) (pos (suc r)) ≡ true
    → left (suc m) (suc r) (count_exits (exits (suc r - suc m))) ≡ suc m
emptied m r surplus = rw (count_exits-exits (suc r - suc m)) (ground arith)

reached :
    (m running : ℕ)
    → ltb_ℤ (pos running) (pos (suc m)) ≡ false
    → ltb_ℤ (pos (suc m)) (pos running) ≡ false
    → running ≡ suc m
reached m running enough exact = ground arith

-- No thread is on its way into the loop, and no packet waits.
pub record IsIdle {ℓ} {W : Type ℓ} (m running : ℕ) (s : System W) : Type 0 where
  pub limit : s.max_workers ≡ pos (suc m)
  pub not_exited : s.exited ≡ false
  pub counted : s.current_workers ≡ pos running
  pub in_loop : s.running ≡ running
  pub none_starting : s.starting ≡ 0
  pub no_packet : s.queue ≡ []

module _ {ℓ} {W : Type ℓ} (complete : ℕ → ℕ → ℕ → W → W) (start : ℕ → Option ℕ)
    (all : (n : ℕ) → start n ≡ none) where
  prepare_more :
      (m running : ℕ) (s : System W)
      → IsIdle m running s
      → ltb_ℤ (pos running) (pos (suc m)) ≡ true
      → prepare_thread start s ≡ (staffed (suc m - running) running s, 0)
  unfolding prepare_thread
  prepare_more m running s h less =
      rw (h.limit, h.counted, h.none_starting, h.in_loop)
        (rw (difference (suc m) running, started_from_zero start all (suc m - running))
          (rw less refl))

  prepare_fewer :
      (m running : ℕ) (s : System W)
      → IsIdle m running s
      → ltb_ℤ (pos running) (pos (suc m)) ≡ false
      → ltb_ℤ (pos (suc m)) (pos running) ≡ true
      → prepare_thread start s ≡ (pool running (exits (running - suc m)) s.rest s, 0)
  unfolding prepare_thread
  prepare_fewer m running s h enough surplus =
      rw (h.limit, h.counted, h.in_loop, h.no_packet)
        (rw (difference running (suc m), posted_from_zero (running - suc m))
          (rw (enough, surplus) refl))

  prepare_none :
      (m running : ℕ) (s : System W)
      → IsIdle m running s
      → ltb_ℤ (pos running) (pos (suc m)) ≡ false
      → ltb_ℤ (pos (suc m)) (pos running) ≡ false
      → prepare_thread start s ≡ (s, 0)
  unfolding prepare_thread
  prepare_none m running s h enough exact = rw (h.limit, h.counted) (rw (enough, exact) refl)

  complete_all-exits : (n : ℕ) (rest : W) → complete_all complete (exits n) rest ≡ rest
  complete_all-exits zero rest = refl
  complete_all-exits (suc n) rest = complete_all-exits n rest

  -- The threads of the pool get from there to its maximum, with no thread on its way and no packet
  -- waiting, and nothing else takes a step.
  abbrev pub Settles : ℕ → W → System W → Type ℓ
  Settles m rest s =
      (s' : System W) × PoolSteps complete s s' × IsIdle m (suc m) s' × (s'.rest ≡ rest)

  prepare_more-Settles :
      (m running : ℕ) (s : System W)
      → IsIdle m running s
      → ltb_ℤ (pos running) (pos (suc m)) ≡ true
      → Settles m s.rest (staffed (suc m - running) running s)
  prepare_more-Settles m running s h less = (
    _,
    enter_all complete (suc m - running) running s,
    record {
      limit = h.limit;
      not_exited = h.not_exited;
      counted = ap pos (filled m running less);
      in_loop = filled m running less;
      none_starting = refl;
      no_packet = h.no_packet;
    },
    refl,
  )

  prepare_fewer-Settles :
      (m running : ℕ) (s : System W)
      → IsIdle m running s
      → ltb_ℤ (pos (suc m)) (pos running) ≡ true
      → Settles m s.rest (pool running (exits (running - suc m)) s.rest s)
  prepare_fewer-Settles m zero s h surplus = absurd (ground arith)
  prepare_fewer-Settles m (suc r) s h surplus = (
    _,
    drain complete m r (exits (suc r - suc m)) s.rest s h.limit h.not_exited,
    record {
      limit = h.limit;
      not_exited = h.not_exited;
      counted = ap pos (emptied m r surplus);
      in_loop = emptied m r surplus;
      none_starting = h.none_starting;
      no_packet = refl;
    },
    complete_all-exits (suc r - suc m) s.rest,
  )

  prepare_none-Settles :
      (m running : ℕ) (s : System W) → IsIdle m running s → running ≡ suc m → Settles m s.rest s
  prepare_none-Settles m running s h e = (s, rests s, subst (λ n. IsIdle m n s) e h, refl)

  prepare_thread-Settles :
      (m running : ℕ) (s : System W)
      → IsIdle m running s
      → ((prepare_thread start s).1 ≡ 0) × Settles m s.rest ((prepare_thread start s).0)
  prepare_thread-Settles m running s h = elim (Bool-cases (ltb_ℤ (pos running) (pos (suc m)))) [
    | inl less ↦
        rw (prepare_more m running s h less) (refl, prepare_more-Settles m running s h less)
    | inr enough ↦ elim (Bool-cases (ltb_ℤ (pos (suc m)) (pos running))) [
      | inl surplus ↦
          rw (prepare_fewer m running s h enough surplus)
            (refl, prepare_fewer-Settles m running s h surplus)
      | inr exact ↦
          rw (prepare_none m running s h enough exact)
            (refl, prepare_none-Settles m running s h (reached m running enough exact))
    ]
  ]

  -- Let every thread start, let the maximum be positive, and let no thread be on its way into the
  -- loop and no packet wait, with any number of workers. A registration that the operating system
  -- accepts returns 0, and from there some steps of the pool alone, threads that enter the loop
  -- and workers that serve packets, without another registration, lead to as many workers as the
  -- maximum, with no thread on its way and no packet waiting, and the rest of the state as it
  -- was.
  pub register-Settles :
      (m running answer error : ℕ) (s : System W)
      → answer ≢ 0
      → IsIdle m running s
      → ((register answer error start s).1 ≡ 0)
        × Settles m s.rest ((register answer error start s).0)
  unfolding register
  register-Settles m running answer error s opened h = rw (not_zero answer opened) (
      prepare_thread-Settles m running (record s { port = answer })
        (record {
          limit = h.limit;
          not_exited = h.not_exited;
          counted = h.counted;
          in_loop = h.in_loop;
          none_starting = h.none_starting;
          no_packet = h.no_packet;
        }))
