-- ===== src/Socket.antt =====
-- src/socket.c: a connection over the kernel's sockets. A string is the list of its characters'
-- codes without the final NUL, and a pointer to a socket is a number with NULL 0. The kernel's
-- socket calls are an interface over what the kernel keeps; a buffer is its content. `get_fs` and
-- `set_fs` read and write the address limit of the task.
pub mod Address
pub mod Init
use netmalloc.Common.{
  ℕ, zero, suc, ◌+◌, ◌-◌, ◌*◌, ◌/◌, ◌%◌, Bool, true, false, ◌&&◌, Option, none, some, List, [], ◌∷◌,
  ◌==◌, leb, if◌then◌else◌, ℤ, minus_one, is_nonzero,
}

-- `KERNEL_DS` and `USER_DS`.
pub data Segment : Type 0 where
  kernel_ds user_ds : Segment

pub record Iovec (Buffer : Type 0) : Type 0 where
  pub iov_base : Buffer
  pub iov_len : ℕ

-- `struct msghdr`, with the one `struct iovec` that `msg_iov` points to.
pub record Msghdr (Buffer : Type 0) : Type 0 where
  pub msg_control : ℕ
  pub msg_controllen : ℕ
  pub msg_flags : ℕ
  pub msg_name : ℕ
  pub msg_namelen : ℕ
  pub msg_iov : Iovec Buffer
  pub msg_iovlen : ℕ

-- `struct sockaddr_in`: the port and the address as the numbers that stand in memory.
pub record SockaddrIn : Type 0 where
  pub sin_family : ℕ
  pub sin_port : ℕ
  pub s_addr : ℕ

-- The kernel's calls. `sock_create` takes what the pointer to the socket holds before and returns
-- what it holds then; a message is copied from or to
-- the buffer under the address limit of the caller.
pub record SocketKernel (Buffer World : Type 0) : Type 0 where
  pub sock_create : World → ℕ → World × ℕ × ℤ
  pub connect : World → ℕ → SockaddrIn → World × ℤ
  pub release : World → ℕ → World
  pub sock_sendmsg : World → Segment → ℕ → Msghdr Buffer → ℕ → World × ℤ
  pub sock_recvmsg : World → Segment → ℕ → Msghdr Buffer → ℕ → ℕ → World × Buffer × ℤ

-- The caller's address limit beside what the kernel keeps.
pub record Task (World : Type 0) : Type 0 where
  pub segment : Segment
  pub world : World

abbrev pub dot : ℕ
dot = 46

abbrev pub minus : ℕ
minus = 45

abbrev pub is_space : ℕ → Bool
is_space c = if c == 32 then true else leb 9 c && leb c 13

abbrev pub is_digit : ℕ → Bool
is_digit c = leb 48 c && leb c 57

unfoldable pub skip_spaces : List ℕ → List ℕ
skip_spaces [] = []
skip_spaces (c ∷ s) = let rest = skip_spaces s in if is_space c then rest else c ∷ s

-- The value of the digits at the front, behind digits of value `n`, and the rest of the string.
unfoldable pub scan_digits : ℕ → List ℕ → ℕ × List ℕ
scan_digits n [] = (n, [])
scan_digits n (c ∷ s) =
    let rest = scan_digits (10 * n + (c - 48)) s in if is_digit c then rest else (n, c ∷ s)

-- A number that begins here: `none` where no digit stands.
unfoldable pub scan_number : List ℕ → Option (ℕ × List ℕ)
unfolding scan_digits
scan_number [] = none
scan_number (c ∷ s) = if is_digit c then some (scan_digits 0 (c ∷ s)) else none

-- The char that an int of this sign and value is cut to.
abbrev pub signed_char : (negative : Bool) → ℕ → ℕ
signed_char negative n = if negative then (256 - n % 256) % 256 else n % 256

abbrev pub with_sign : (negative : Bool) → Option (ℕ × List ℕ) → Option (ℕ × List ℕ)
with_sign negative none = none
with_sign negative (some (n, rest)) = some (signed_char negative n, rest)

-- `%d` of sscanf behind its white space.
unfoldable pub scan_signed : List ℕ → Option (ℕ × List ℕ)
unfolding scan_number
scan_signed [] = none
scan_signed (c ∷ s) =
    if c == minus then with_sign true (scan_number s) else with_sign false (scan_number (c ∷ s))

unfoldable pub scan_int : List ℕ → Option (ℕ × List ℕ)
unfolding scan_signed skip_spaces
scan_int s = scan_signed (skip_spaces s)

-- `.` in the format.
unfoldable pub scan_dot : List ℕ → Option (List ℕ)
scan_dot [] = none
scan_dot (c ∷ s) = if c == dot then some s else none

-- The rest of sscanf's format for `chars`, each a `%d` with a `.` in front: a char keeps its value
-- when no number is found for it or for one before it.
unfoldable pub scan_chars : List ℕ → List ℕ → List ℕ
unfolding scan_dot scan_int
scan_chars s [] = []
scan_chars s (old ∷ chars) = elim (scan_dot s) [
  | none ↦ old ∷ chars
  | some t ↦ elim (scan_int t) [
    | none ↦ old ∷ chars
    | some found ↦ found.0 ∷ scan_chars found.1 chars
  ]
]

-- The unsigned int in which these bytes stand, the first one in the lowest address.
unfoldable pub little_endian : List ℕ → ℕ
little_endian [] = 0
little_endian (b ∷ bs) = b + 256 * little_endian bs

-- The last four arguments are what the locals `a` to `d` hold before, cut to a char.
unfoldable pub inet_addr : List ℕ → ℕ → ℕ → ℕ → ℕ → ℕ
unfolding little_endian scan_chars
inet_addr str a b c d = little_endian (scan_chars (dot ∷ str) (a ∷ b ∷ c ∷ d ∷ []))

-- The low 16 bits with their two bytes exchanged.
abbrev pub htons : ℕ → ℕ
htons port = port % 256 * 256 + port / 256 % 256

module _ {Buffer World : Type 0} (kernel : SocketKernel Buffer World) where
  abbrev pub socket_prepare : Buffer → ℕ → Msghdr Buffer
  socket_prepare buf len = record {
    msg_control = 0;
    msg_controllen = 0;
    msg_flags = 0;
    msg_name = 0;
    msg_namelen = 0;
    msg_iov = record { iov_base = buf; iov_len = len };
    msg_iovlen = 1;
  }

  abbrev pub set_fs : Segment → Task World → Task World
  set_fs segment task = record task { segment = segment }

  unfoldable pub socket_send : Task World → ℕ → Buffer → ℕ → Task World × ℤ
  socket_send task socket buf len =
      if socket == 0
      then (task, minus_one)
      else (let limited = set_fs kernel_ds task in
          let (world, size) =
            kernel.sock_sendmsg limited.world limited.segment socket (socket_prepare buf len) len in
          (set_fs task.segment (record limited { world = world }), size))

  unfoldable pub socket_recv : Task World → ℕ → Buffer → ℕ → Task World × Buffer × ℤ
  socket_recv task socket buf len =
      if socket == 0
      then (task, buf, minus_one)
      else (let limited = set_fs kernel_ds task in
          let msg = socket_prepare buf len in
          let (world, received, size) =
            kernel.sock_recvmsg limited.world limited.segment socket msg len msg.msg_flags in
          (set_fs task.segment (record limited { world = world }), received, size))

  -- `server` in `socket_init`; the locals of `inet_addr` are as `inet_addr` takes them.
  unfoldable pub server_address : List ℕ → ℕ → ℕ × ℕ × ℕ × ℕ → SockaddrIn
  unfolding inet_addr
  server_address host port (a, b, c, d) = record {
    sin_family = 2;
    sin_port = htons port;
    s_addr = inet_addr host a b c d;
  }

  unfoldable pub connect_socket : World × ℕ × ℤ → SockaddrIn → World × ℕ × ℤ
  connect_socket (world, socket, error) server =
      if is_nonzero error
      then (world, socket, error)
      else (let (connected, failed) = kernel.connect world socket server in
          if is_nonzero failed
          then (kernel.release connected socket, socket, failed)
          else (connected, socket, failed))

  -- What the kernel keeps, the pointer `*socket`, and the result.
  unfoldable pub socket_init : World → ℕ → List ℕ → ℕ → ℕ × ℕ × ℕ × ℕ → World × ℕ × ℤ
  unfolding connect_socket server_address
  socket_init world socket host port locals =
      connect_socket (kernel.sock_create world socket) (server_address host port locals)

  unfoldable pub socket_release : World → ℕ → World
  socket_release world socket = if socket == 0 then world else kernel.release world socket
