-- ===== src/Socket/Init.antt =====
-- What `socket_init` leaves of the sockets that it opens.
use netmalloc.Common.{
  ℕ, ◌≡◌, ◌≢◌, Bool, true, false, Option, some, List, arith, ◌==◌, if◌then◌else◌, ℤ, is_nonzero,
  Bool-cases, inl, inr,
}
use netmalloc.Socket.{SockaddrIn, SocketKernel, server_address, connect_socket, socket_init}

-- What the kernel's sockets promise: `sock_create` opens a new socket or changes nothing, a connection
-- opens and closes nothing and has its peer when it succeeds, and `release` closes its socket alone.
pub record IsSocketKernel {Buffer World : Type 0} (kernel : SocketKernel Buffer World)
    : Type 0 where
  pub is_open : World → ℕ → Bool
  pub peer : World → ℕ → Option SockaddrIn
  pub create_new :
      (w : World) (p : ℕ)
      → let r = kernel.sock_create w p in
        is_nonzero r.2 ≡ false
        → (r.1 ≢ 0)
          × (is_open w r.1 ≡ false)
          × ((q : ℕ) → is_open r.0 q ≡ (if r.1 == q then true else is_open w q))
  pub create_error :
      (w : World) (p q : ℕ)
      → let r = kernel.sock_create w p in is_nonzero r.2 ≡ true → is_open r.0 q ≡ is_open w q
  pub connect_open :
      (w : World) (p q : ℕ) (a : SockaddrIn) → is_open (kernel.connect w p a).0 q ≡ is_open w q
  pub connect_peer :
      (w : World) (p : ℕ) (a : SockaddrIn)
      → is_nonzero (kernel.connect w p a).1 ≡ false
      → peer (kernel.connect w p a).0 p ≡ some a
  pub release_open :
      (w : World) (p q : ℕ)
      → is_open (kernel.release w p) q ≡ (if p == q then false else is_open w q)

-- What a socket's opening for a server leaves: on success one more socket, connected to the server,
-- and on an error no socket that was not open before.
abbrev pub Connected :
    {Buffer World : Type 0} {kernel : SocketKernel Buffer World}
    → IsSocketKernel kernel
    → World
    → SockaddrIn
    → World × ℕ × ℤ
    → Type 0
Connected laws w server (w', socket, error) =
    (is_nonzero error ≡ true → (q : ℕ) → laws.is_open w' q ≡ laws.is_open w q)
    × (is_nonzero error ≡ false
        → (socket ≢ 0)
          × (laws.is_open w socket ≡ false)
          × (laws.peer w' socket ≡ some server)
          × ((q : ℕ) → laws.is_open w' q ≡ (if socket == q then true else laws.is_open w q)))

module _ {Buffer World : Type 0} {kernel : SocketKernel Buffer World}
    (laws : IsSocketKernel kernel) where
  -- The kernel has made the socket.
  connect_socket-Connected :
      (w : World) (p : ℕ) (server : SockaddrIn)
      → is_nonzero (kernel.sock_create w p).2 ≡ false
      → Connected laws w server (connect_socket kernel (kernel.sock_create w p) server)
  unfolding connect_socket
  connect_socket-Connected w p server e =
      let made = kernel.sock_create w p in
      let new = laws.create_new w p e in
      let stays = laws.connect_open made.0 made.1 in
      elim (Bool-cases (is_nonzero (kernel.connect made.0 made.1 server).1)) [
        | inl f ↦
            rw (e, f)
              (
                λ h q. ground (
                  arith,
                  laws.release_open (kernel.connect made.0 made.1 server).0 made.1 q,
                  stays q server,
                  new.2 q,
                  new.1,
                ),
                λ h. ground arith,
              )
        | inr f ↦
            rw (e, f)
              (
                λ h. ground arith,
                λ h. (
                  new.0,
                  new.1,
                  laws.connect_peer made.0 made.1 server f,
                  λ q. rw (stays q server) (new.2 q),
                ),
              )
      ]

  -- `socket_init` opens one socket, connected to the address of `host` and `port`, or returns an
  -- error, and then no socket is open that was not open before: the one it made is released.
  pub socket_init-Connected :
      (w : World) (p : ℕ) (host : List ℕ) (port : ℕ) (locals : ℕ × ℕ × ℕ × ℕ)
      → Connected laws w
          (server_address kernel host port locals)
          (socket_init kernel w p host port locals)
  unfolding socket_init connect_socket
  socket_init-Connected w p host port locals =
      let server = server_address kernel host port locals in
      elim (Bool-cases (is_nonzero (kernel.sock_create w p).2)) [
        | inl e ↦ rw e (λ h q. laws.create_error w p q e, λ h. ground arith)
        | inr e ↦ connect_socket-Connected w p server e
      ]
