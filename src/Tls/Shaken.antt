-- ===== src/Tls/Shaken.antt =====
-- src/win32/ssl_socket.c: what the phases of the handshake lead to.
use xrossfire.Tls.Handshake.{Handshake}
