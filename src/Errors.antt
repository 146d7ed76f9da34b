-- ===== src/Errors.antt =====
-- src/error.c: the records of errors, and the current one of a thread.
--
-- The records and the strings stand in stores, from an address to what is live there; a read of
-- anything else is a fault, and so is freeing it. The release of a record releases its cause, on
-- fuel: a step for each cause and one more.
pub mod Chain
pub mod Current
pub mod Tests
use xrossfire.Base.{ℕ, zero, suc, ◌+◌, Option, none, some, ◌==◌, if◌then◌else◌, ◌>>=◌}
use xrossfire.Base.Int.{ℤ, pos, negsuc, ◌+ℤ◌}
use xrossfire.Text.{Text, live, freed}
use xrossfire.Text

-- `out_of_memory` is &OUT_OF_MEMORY.
pub data Pointer : Type 0 where
  null out_of_memory : Pointer
  at : ℕ → Pointer

-- `kind` is the field `type`.
pub record ErrorInfo : Type 0 where
  pub ref : ℤ
  pub code : ℤ
  pub kind : Option ℕ
  pub message : Option ℕ
  pub content : ℕ
  pub cause : Pointer

pub record Errors : Type 0 where
  pub infos : ℕ → Option ErrorInfo
  pub strings : ℕ → Option Text
  pub current : Pointer

abbrev pub update {ℓ} : {A : Type ℓ} → ℕ → Option A → (ℕ → Option A) → ℕ → Option A
update p v store k = if k == p then v else store k

-- The addresses of TYPE_XROSSFIRE, TYPE_WIN32, TYPE_C and MESSAGE_OUT_OF_MEMORY.
pub record Statics : Type 0 where
  pub type_xrossfire : ℕ
  pub type_win32 : ℕ
  pub type_c : ℕ
  pub message_out_of_memory : ℕ

unfoldable pub error_type_xrossfire : Statics → ℕ
error_type_xrossfire statics = statics.type_xrossfire

unfoldable pub error_type_win32 : Statics → ℕ
error_type_win32 statics = statics.type_win32

unfoldable pub error_type_c : Statics → ℕ
error_type_c statics = statics.type_c

unfoldable pub out_of_memory_info : Statics → ErrorInfo
out_of_memory_info statics = record {
  ref = negsuc 0;
  code = pos 1;
  kind = some statics.type_xrossfire;
  message = some statics.message_out_of_memory;
  content = 0;
  cause = null;
}

unfoldable pub deref : Statics → Errors → Pointer → Option ErrorInfo
unfolding out_of_memory_info
deref statics s null = none
deref statics s out_of_memory = some (out_of_memory_info statics)
deref statics s (at p) = s.infos p

unfoldable pub error_info_add_ref : Pointer → Errors → Option (Pointer × Errors)
unfolding ◌+ℤ◌
error_info_add_ref null s = some (null, s)
error_info_add_ref out_of_memory s = some (out_of_memory, s)
error_info_add_ref (at p) s = do
  info ← s.infos p
  some
      (at p, record s { infos = update p (some (record info { ref = info.ref +ℤ pos 1 })) s.infos })

-- `xf_string_release` on the string at an address.
unfoldable pub string_release : Option ℕ → (ℕ → Option Text) → Option (ℕ → Option Text)
string_release none strings = some strings
string_release (some p) strings = do
  self ← strings p
  cell ← Text.release (some self)
  some (update p (elim cell [ live t ↦ some t | freed ↦ none ]) strings)

unfoldable pub error_info_release : ℕ → Pointer → Errors → Option Errors
unfolding string_release
error_info_release zero self s = none
error_info_release (suc fuel) null s = some s
error_info_release (suc fuel) out_of_memory s = some s
error_info_release (suc fuel) (at p) s = do
  self ← s.infos p
  strings ← string_release self.kind s.strings
  strings' ← string_release self.message strings
  s' ← error_info_release fuel self.cause (record s { strings = strings' })
  last ← s'.infos p
  some (record s' { infos = update p none s'.infos })

unfoldable pub error_info_get : Errors → Pointer
error_info_get s = s.current

abbrev pub xf_error : ℕ
xf_error = 1

unfoldable pub error_set_info : ℕ → Pointer → Errors → Option (ℕ × Errors)
unfolding error_info_release error_info_add_ref
error_set_info fuel info s = do
  s' ← error_info_release fuel s.current s
  (p, s'') ← error_info_add_ref info s'
  some (xf_error, record s'' { current = p })

unfoldable pub error_set :
    ℕ → Option ℕ → Option ℕ → ℤ → Option ℕ → Pointer → ℕ → Errors → Option (ℕ × Errors)
unfolding error_set_info
error_set fuel none kind code message cause content s = error_set_info fuel out_of_memory s
error_set fuel (some p) kind code message cause content s =
    let self : ErrorInfo = record {
      ref = pos 0;
      code = code;
      kind = kind;
      message = message;
      content = content;
      cause = cause;
    } in
    error_set_info fuel (at p) (record s { infos = update p (some self) s.infos })

unfoldable pub error_info_get_type : Statics → Pointer → Errors → Option (Option ℕ)
unfolding deref
error_info_get_type statics self s = deref statics s self >>= λ info. some info.kind

unfoldable pub error_info_get_code : Statics → Pointer → Errors → Option ℤ
unfolding deref
error_info_get_code statics self s = deref statics s self >>= λ info. some info.code

unfoldable pub error_info_get_message : Statics → Pointer → Errors → Option (Option ℕ)
unfolding deref
error_info_get_message statics self s = deref statics s self >>= λ info. some info.message

unfoldable pub error_info_get_content : Statics → Pointer → Errors → Option ℕ
unfolding deref
error_info_get_content statics self s = deref statics s self >>= λ info. some info.content

unfoldable pub error_info_get_cause : Statics → Pointer → Errors → Option Pointer
unfolding deref
error_info_get_cause statics self s = deref statics s self >>= λ info. some info.cause

unfoldable pub error_libc : ℤ → ℕ
error_libc error_num = xf_error

unfoldable pub error_windows : ℕ → ℕ
error_windows error_num = xf_error
