-- ===== src/Object.antt =====
-- src/object.c and include/xrossfire/object.h: reference counted objects that answer messages.
--
-- An object's procedure is its address; what it answers and does is the argument `respond`, which
-- acts on the rest of the program, the object's body included. It is not handed the record, whose
-- count no procedure of the library touches while it answers. An error is a number, 0 if there is none.
pub mod Lifetime
pub mod Tests
use xrossfire.Base.{ℕ, ◌+◌, ◌*◌, ◌^◌, Option, none, some, if◌then◌else◌}
use xrossfire.Base.Int.{ℤ, pos, ◌+ℤ◌, ◌-ℤ◌, ltb_ℤ}

pub record Object : Type 0 where
  pub procedure : ℕ
  pub ref : ℤ
  pub user_data : ℕ

-- `interface_type << 8 | message_id`, for identifiers below 256.
abbrev pub message : ℕ → ℕ → ℕ
message interface_type message_id = interface_type * 2 ^ 8 + message_id

abbrev pub interface_unknown : ℕ
interface_unknown = 0

unfoldable pub object_query_interface : ℕ
object_query_interface = message interface_unknown 1

unfoldable pub object_get_class_id : ℕ
object_get_class_id = message interface_unknown 2

unfoldable pub object_destroy : ℕ
object_destroy = message interface_unknown 3

-- The argument records of the messages; where the answer is written is part of the program's state.
pub data Args : Type 0 where
  no_args : Args
  query_interface_args : ℕ → Args
  get_class_id_args : Args

pub data Created : Type 0 where
  created : Object → Created
  out_of_memory : Created

unfoldable pub new : ℕ → Option ℕ → Created
new procedure none = out_of_memory
new procedure (some p) = created (record { procedure = procedure; ref = pos 1; user_data = 0 })

-- What a release leaves: the object, or freed memory.
pub data Cell : Type 0 where
  live : Object → Cell
  freed : Cell

unfoldable pub add_ref : Option Object → Option Object
unfolding ◌+ℤ◌
add_ref none = none
add_ref (some self) = some (record self { ref = self.ref +ℤ pos 1 })

abbrev pub xf_error : ℕ
xf_error = 1

unfoldable pub default_procedure : ℕ → Args → ℕ
default_procedure message_id args = xf_error

unfoldable pub set_data : Object → ℕ → Object
set_data self user_data = record self { user_data = user_data }

unfoldable pub get_data : Object → ℕ
get_data self = self.user_data

module _ {ℓ} {W : Type ℓ} (respond : ℕ → ℕ → Args → W → ℕ × W) where
  unfoldable pub call : Object → ℕ → Args → W → ℕ × W
  call self message_id args w = respond self.procedure message_id args w

  unfoldable pub query_interface : Object → ℕ → W → ℕ × W
  unfolding call object_query_interface
  query_interface self interface_type w =
      call self object_query_interface (query_interface_args interface_type) w

  unfoldable pub get_class_id : Object → W → ℕ × W
  unfolding call object_get_class_id
  get_class_id self w = call self object_get_class_id get_class_id_args w

  unfoldable pub release : Option Object → W → Option Cell × W
  unfolding ◌-ℤ◌ call object_destroy
  release none w = (none, w)
  release (some self) w =
      let ref = self.ref -ℤ pos 1 in
      if ltb_ℤ (pos 0) ref
      then (some (live (record self { ref = ref })), w)
      else (some freed, (call (record self { ref = ref }) object_destroy no_args w).1)
