-- ===== src/Errors/Current.antt =====
-- src/error.c: setting the current error.
use xrossfire.Base.{
  ℕ, ◌<◌, ◌≡◌, ◌≢◌, refl, sym, ◌∙◌, Option, none, some, List, [], ◌∷◌, length, All, Returns,
}
use xrossfire.Base.Int.{ℤ, pos, ◌+ℤ◌}
use xrossfire.Text.{Text}
use xrossfire.Errors.{
  Pointer, out_of_memory, at, ErrorInfo, Errors, update, error_info_add_ref, error_info_get,
  error_set_info, error_set, xf_error,
}
use xrossfire.Errors.Chain.{
  IsChain, free_all, release_chain, update_here, update_other, free_all_other,
}

-- A record that is not met in a chain may be written without changing it.
IsChain-update :
    (infos : ℕ → Option ErrorInfo) (strings : ℕ → Option Text) (self : Pointer) (ps : List ℕ)
    (p : ℕ) (v : Option ErrorInfo)
    → All (λ q. p ≢ q) ps
    → IsChain infos strings self ps
    → IsChain (update p v infos) strings self ps
IsChain-update infos strings self [] p v n c = c
IsChain-update infos strings self (q ∷ qs) p v n (e, apart, info, here, kind, message, rest) = (
  e,
  apart,
  info,
  update_other p q v infos (λ h. n.0 (sym h)) ∙ here,
  kind,
  message,
  IsChain-update infos strings info.cause qs p v n.1 rest,
)

-- What the current error is after `error_set`.
abbrev pub Reports : Option ℕ → Option ℕ → ℤ → Option ℕ → Pointer → ℕ → ℕ × Errors → Type 0
Reports none kind code message cause content out =
    (out.0 ≡ xf_error) × (error_info_get out.1 ≡ out_of_memory)
Reports (some p) kind code message cause content out =
    (out.0 ≡ xf_error)
    × (error_info_get out.1 ≡ at p)
    × (out.1.infos p
        ≡ some (record {
          ref = pos 1;
          code = code;
          kind = kind;
          message = message;
          content = content;
          cause = cause;
        }))

abbrev pub Fresh : Option ℕ → List ℕ → Type 0
Fresh none ps = Unit
Fresh (some p) ps = All (λ q. p ≢ q) ps

-- Let the records from the current error along the causes be distinct, have static strings, or
-- none, and be fewer than the fuel. Setting an error at a new address never faults and answers
-- XF_ERROR: the current error is then the record with the given fields and one holder, and
-- &OUT_OF_MEMORY without memory.
pub error_set-Reports :
    (fuel : ℕ) (malloc : Option ℕ) (kind : Option ℕ) (code : ℤ) (message : Option ℕ)
    (cause : Pointer) (content : ℕ) (s : Errors) (ps : List ℕ)
    → IsChain s.infos s.strings s.current ps
    → Fresh malloc ps
    → length ps < fuel
    → Returns
        (error_set fuel malloc kind code message cause content s)
        (Reports malloc kind code message cause content)
unfolding error_set error_set_info error_info_add_ref error_info_get ◌+ℤ◌
error_set-Reports fuel none kind code message cause content s ps c n h =
    rw (release_chain fuel s.current s ps c h) (_, refl, (refl, refl))
error_set-Reports fuel (some p) kind code message cause content s ps c n h =
    rw
      (release_chain fuel s.current (record s { infos = update p (some self) s.infos }) ps
        (IsChain-update s.infos s.strings s.current ps p (some self) n c) h)
      (rw (free_all_other p ps (update p (some self) s.infos) n ∙ update_here p (some self) s.infos)
        (_, refl, (refl, refl, update_here p _ (free_all ps (update p (some self) s.infos)))))
  where
    self : ErrorInfo
    self = record {
      ref = pos 0;
      code = code;
      kind = kind;
      message = message;
      content = content;
      cause = cause;
    }

-- Let the current error be a record, with distinct records along its causes, all with static
-- strings or none, and fewer than the fuel. Setting it again as the current one is a fault, since
-- its release frees it.
pub error_set_info_current :
    (fuel : ℕ) (s : Errors) (p : ℕ) (ps : List ℕ)
    → IsChain s.infos s.strings s.current (p ∷ ps)
    → length (p ∷ ps) < fuel
    → error_set_info fuel (error_info_get s) s ≡ none
unfolding error_set_info error_info_get error_info_add_ref
error_set_info_current fuel s p ps c h =
    rw (release_chain fuel s.current s (p ∷ ps) c h)
      (rw (c.0, error_info_add_ref) (rw (update_here p none (free_all ps s.infos)) refl))
