-- ===== src/Tls/Phase.antt =====
-- src/win32/ssl_socket.c: what each phase of the handshake leaves.
use xrossfire.Base.{
  ℕ, suc, ◌≡◌, ◌⊎◌, inl, inr, refl, ap, sym, subst, ◌∙◌, none, some, ◌==◌, Returns, Bool-cases,
  Option-cases, ◌-◌,
}
use xrossfire.Base.Int.{pos}
use xrossfire.Async.Notify.{phase_exit}
use xrossfire.Object.{xf_error}
use xrossfire.Tls.Handshake.{
  continue_needed, Context, Handshake, PhaseAnswers, handshake_context_free, finish_handshake,
  phase1, send_token, phase2, phase3, handshake_procedure,
}
use xrossfire.Tls.Outcome.{IsGood, IsExpected, Ready, Done, After, good_cases, expected_cases}

module _ (answers : PhaseAnswers) (base : ℕ) where
  fail-After :
      (context : Context) (s : Handshake)
      → context.base_socket ≡ some base
      → s.references ≡ 2
      → s.object ≡ none
      → After base (handshake_context_free context s, xf_error, none)
  unfolding handshake_context_free
  fail-After context s based counted not_given =
      inr (inr (refl, refl, refl, rw based (ap (λ n. n - 1) counted), not_given))

  finished :
      (context : Context) (s : Handshake) (object : ℕ)
      → context.base_socket ≡ some base
      → s.references ≡ 2
      → Done base (
        handshake_context_free
            (record context { base_socket = none })
            (record s { object = some (object, context.base_socket) }),
        0,
        some phase_exit,
      )
  unfolding handshake_context_free
  finished context s object based counted =
      (refl, refl, refl, counted, (object, ap (λ b. some (object, b)) based))

  finish-After :
      (context : Context) (s : Handshake)
      → context.base_socket ≡ some base
      → s.references ≡ 2
      → s.object ≡ none
      → After base (finish_handshake answers context s)
  unfolding finish_handshake
  finish-After context s based counted not_given = elim (Option-cases answers.object) [
    | inl e ↦ rw (finish_handshake, e) (fail-After context s based counted not_given)
    | inr (object, e) ↦
        rw (finish_handshake, e) (inr (inl (finished context s object based counted)))
  ]

  waits :
      (n : ℕ) (context : Context) (s s' : Handshake)
      (good : (n ≡ 4) ⊎ (n ≡ 3) × IsGood context.status)
      → context.base_socket ≡ some base
      → s.references ≡ 2
      → s.object ≡ none
      → s'.context ≡ some context
      → s'.references ≡ s.references
      → s'.object ≡ s.object
      → After base (s', 0, some (pos n))
  waits n context s s' good based counted not_given live same same' = inl (
    refl,
    (
      n,
      refl,
      record {
        context = context;
        live = live;
        based = based;
        counted = same ∙ counted;
        fits = good;
        not_given = same' ∙ not_given;
      },
    ),
  )

  module _ (context : Context) (s : Handshake) (based : context.base_socket ≡ some base)
      (counted : s.references ≡ 2) (not_given : s.object ≡ none) where
    phase3-continues :
        context.status ≡ continue_needed → Returns (phase3 answers context s) (After base)
    unfolding phase3
    phase3-continues e = elim (Bool-cases context.in_buffer) [
      | inl e' ↦
          rw (phase3, e, e')
            (_, refl, waits 4 _ s _ (inl refl) based counted not_given refl refl refl)
      | inr e' ↦ elim (Bool-cases answers.malloc) [
        | inl e'' ↦
            rw (phase3, e, e', e'')
              (_, refl, waits 4 _ s _ (inl refl) based counted not_given refl refl refl)
        | inr e'' ↦ rw (phase3, e, e', e'') (_, refl, fail-After _ _ based counted not_given)
      ]
    ]

    phase3-After : IsGood context.status → Returns (phase3 answers context s) (After base)
    unfolding phase3
    phase3-After good = elim (good_cases context.status good) [
      | inl e ↦ phase3-continues e
      | inr e ↦ rw (phase3, e) (_, refl, finish-After _ _ based counted not_given)
    ]

  send_token-After :
      (context : Context) (s : Handshake)
      → context.base_socket ≡ some base
      → s.references ≡ 2
      → s.object ≡ none
      → IsGood context.status
      → Returns (send_token answers context s) (After base)
  unfolding send_token
  send_token-After context s based counted not_given good = elim (Option-cases answers.token) [
    | inl e ↦ rw (send_token, e) (phase3-After context s based counted not_given good)
    | inr (size, e) ↦ elim (Bool-cases (size == 0)) [
      | inl e' ↦ rw (send_token, e, e') (phase3-After context s based counted not_given good)
      | inr e' ↦
          rw (send_token, e, e')
            (_, refl, waits 3 context s _ (inr (refl, good)) based counted not_given refl refl refl)
    ]
  ]

  phase2-After :
      (context : Context) (s : Handshake)
      → IsExpected answers
      → context.base_socket ≡ some base
      → s.references ≡ 2
      → s.object ≡ none
      → Returns (phase2 answers context s) (After base)
  unfolding phase2
  phase2-After context s expected based counted not_given =
      elim (expected_cases answers.status expected) [
        | inl e ↦ rw (phase2, e) (_, refl, fail-After _ s based counted not_given)
        | inr (inl e) ↦
            rw (phase2, e)
              (send_token-After
                (record context { status = answers.status; out_buffer = answers.token }) s based
                counted not_given (subst IsGood (sym e) tt))
        | inr (inr e) ↦
            rw (phase2, e)
              (send_token-After
                (record context { status = answers.status; out_buffer = answers.token }) s based
                counted not_given (subst IsGood (sym e) tt))
      ]

  pub procedure-After :
      (n : ℕ) (s : Handshake)
      → IsExpected answers
      → Ready base n s
      → Returns (handshake_procedure answers (pos n) 0 s) (After base)
  unfolding handshake_procedure
  procedure-After n s expected i = elim (i.fits) [
    | inl e ↦
        simp (handshake_procedure, i.live, e)
          (phase2-After i.context s expected i.based i.counted i.not_given)
    | inr (e, good) ↦
        simp (handshake_procedure, i.live, e)
          (phase3-After i.context s i.based i.counted i.not_given good)
  ]

  -- The second phase, of a context with one reference of the base socket.
  pub phase1-After :
      (context : Context) (s : Handshake)
      → IsExpected answers
      → s.references ≡ 1
      → s.object ≡ none
      → Returns (phase1 answers (record context { base_socket = some base }) s) (After base)
  unfolding phase1
  phase1-After context s expected counted not_given = elim (Bool-cases answers.acquired) [
    | inl e ↦ simp e (
        phase2-After (record context { base_socket = some base; status = continue_needed })
          (record s { references = suc s.references }) expected refl (ap suc counted) not_given)
    | inr e ↦ rw e (
      _,
      refl,
      fail-After (record context { base_socket = some base })
          (record s { references = suc s.references }) refl (ap suc counted) not_given,
    )
  ]
