-- ===== src/Storage/Network.antt =====
-- The first half of src/storage.c: a storage at the other end of a socket, with the messages of
-- src/protocol.h. What `socket_send` and `socket_recv` of src/socket.c do, which hand the call to the
-- kernel's socket, is an interface. A message is a header, or a page of 4096 bytes.
pub mod Server
pub mod Remote
pub mod Init
pub mod Stack
pub mod Stream
use netmalloc.Common.{ℕ, Bool, false, ◌==◌, if◌then◌else◌, ℤ, pos, negsuc}

-- `enum protocol_command`.
abbrev pub protocol_put : ℕ
protocol_put = 1

abbrev pub protocol_get : ℕ
protocol_get = 2

abbrev pub protocol_rm : ℕ
protocol_rm = 3

abbrev pub protocol_release : ℕ
protocol_release = 4

pub record ProtocolHeader : Type 0 where
  pub command : ℕ
  pub pid : ℕ
  pub address : ℕ

-- The size of a header: two ints and an unsigned long.
abbrev pub header_size : ℕ
header_size = 16

-- Each call returns the socket afterwards and what the call returns; `socket_recv` also returns
-- what the buffer holds, of which the last argument is what it held.
pub record SocketOps (Page Socket : Type 0) : Type 0 where
  pub send_header : Socket → ProtocolHeader → Socket × ℤ
  pub send_page : Socket → Page → Socket × ℤ
  pub recv_page : Socket → Page → Socket × Page × ℤ

-- `size == sizeof(protocol_header)`.
abbrev pub is_header_size : ℤ → Bool
is_header_size (pos n) = n == header_size
is_header_size (negsuc n) = false

module _ {Page Socket : Type 0} (sockets : SocketOps Page Socket) where
  abbrev pub message : ℕ → ℕ → ℕ → ProtocolHeader
  message command pid address = record { command = command; pid = pid; address = address }

  unfoldable pub network_load : Socket → ℕ → ℕ → Page → Socket × Page × ℤ
  network_load socket pid address old =
      let (sent, size) = sockets.send_header socket (message protocol_get pid address) in
      if is_header_size size then sockets.recv_page sent old else (sent, old, size)

  unfoldable pub network_save : Socket → ℕ → ℕ → Page → Socket × ℤ
  network_save socket pid address page =
      let (sent, size) = sockets.send_header socket (message protocol_put pid address) in
      if is_header_size size then sockets.send_page sent page else (sent, size)

  unfoldable pub network_remove : Socket → ℕ → ℕ → Socket
  network_remove socket pid address =
      (sockets.send_header socket (message protocol_rm pid address)).0

  -- The last message; `socket_release` then closes the socket.
  unfoldable pub network_release : Socket → Socket
  network_release socket = (sockets.send_header socket (message protocol_release 0 0)).0
