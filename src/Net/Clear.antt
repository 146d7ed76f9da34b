-- ===== src/Net/Clear.antt =====
-- src/win32/io_completion_port.c: `xf_io_async_clear`, which gives back what an operation still has.
use xrossfire.Base.{ℕ, Option, none, ◌==◌, if◌then◌else◌}
use xrossfire.Async.{IoContext, connect, accept, IoAsync}
use xrossfire.Net.{
  Net, closesocket, free_addrs, free_buffer, io_connect_phase1, io_connect_phase2, io_accept,
}

abbrev pub get_addrs : IoContext → Option ℕ
get_addrs (connect addrs out) = addrs
get_addrs _ = none

abbrev pub without_addrs : IoContext → IoContext
without_addrs (connect addrs out) = connect none out
without_addrs other = other

abbrev pub get_accepted_socket : IoContext → Option ℕ
get_accepted_socket (accept out server accepted_socket buf) = accepted_socket
get_accepted_socket _ = none

abbrev pub get_buf : IoContext → Option ℕ
get_buf (accept out server accepted_socket buf) = buf
get_buf _ = none

abbrev pub without_buf : IoContext → IoContext
without_buf (accept out server accepted_socket buf) = accept out server none none
without_buf other = other

-- Its caller passes the address of a member, which is not NULL. A freed record has no handle, no
-- list and no buffer: those calls do nothing.
unfoldable pub io_async_clear : IoAsync → Net → IoAsync × Net
io_async_clear self net =
    if self.io_type == io_connect_phase1
    then (
      record self { handle = none; context = without_addrs self.context },
      closesocket self.handle (free_addrs (get_addrs self.context) net),
    )
    else (if self.io_type == io_connect_phase2
        then (
          record self { context = without_addrs self.context },
          closesocket self.handle (free_addrs (get_addrs self.context) net),
        )
        else (if self.io_type == io_accept
            then (
              record self { context = without_buf self.context },
              closesocket (get_accepted_socket self.context)
                  (free_buffer (get_buf self.context) net),
            )
            else (self, net)))
