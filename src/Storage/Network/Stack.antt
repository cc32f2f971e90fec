-- ===== src/Storage/Network/Stack.antt =====
-- The network storage over `socket_send` and `socket_recv` of src/socket.c, and these over a kernel
-- whose socket is the connection to the server of `Server`.
use netmalloc.Common.{
  Bool, ◌&&◌, if◌then◌else◌, ℕ, ◌≡◌, ◌≢◌, refl, Option, none, some, List, arith, ◌==◌, ◌∷◌, [], ℤ,
  pos, negsuc, minus_one, false,
}
use netmalloc.Socket.{
  Iovec, Segment, kernel_ds, user_ds, SocketKernel, Task, socket_send, socket_recv, socket_release,
}
use netmalloc.Storage.Network.{
  ProtocolHeader, SocketOps, header_size, network_load, network_save, network_remove,
  network_release,
}
use netmalloc.Storage.Network.Server.{Pages, Link, handle, link}
use netmalloc.Vma.{page_size, listed}

-- What a pointer handed to a socket points to.
pub data Packet (Page : Type 0) : Type 0 where
  header : ProtocolHeader → Packet Page
  page : Page → Packet Page

module _ {Page World : Type 0} (kernel : SocketKernel (Packet Page) World) where
  -- The page in the buffer, which held a page before.
  abbrev pub page_of : Page → Packet Page → Page
  page_of old (header h) = old
  page_of old (page p) = p

  -- The static `socket` is the first argument.
  unfoldable pub socket_ops : ℕ → SocketOps Page (Task World)
  unfolding socket_send socket_recv
  socket_ops socket = record {
    send_header = λ task h. socket_send kernel task socket (header h) header_size;
    send_page = λ task p. socket_send kernel task socket (page p) page_size;
    recv_page = λ task old.
        let (task', received, size) = socket_recv kernel task socket (page old) page_size in
        (task', page_of old received, size);
  }

  -- `network_release` with its last call.
  unfoldable pub release_network : ℕ → Task World → Task World
  unfolding socket_ops network_release socket_release
  release_network socket task =
      let sent = network_release (socket_ops socket) task in
      record sent { world = socket_release kernel sent.world socket }

-- The bytes that a packet stands for.
abbrev pub packet_size : {Page : Type 0} → Packet Page → ℕ
packet_size (header h) = header_size
packet_size (page p) = page_size

module _ {Page : Type 0} (zero_page : Page) where
  -- The connection to the server, and the sockets that were released, the last one first.
  pub record Wire : Type 0 where
    pub connection : Link zero_page
    pub released : List ℕ

  abbrev send_packet : Wire → Packet Page → Wire × ℤ
  send_packet w (header h) =
      let (l, size) = (link zero_page).send_header w.connection h in
      (record w { connection = l }, size)
  send_packet w (page p) =
      let (l, size) = (link zero_page).send_page w.connection p in
      (record w { connection = l }, size)

  abbrev recv_packet : Wire → Packet Page → Wire × Packet Page × ℤ
  recv_packet w (header h) = (w, header h, minus_one)
  recv_packet w (page old) =
      let (l, p, size) = (link zero_page).recv_page w.connection old in
      (record w { connection = l }, page p, size)

  -- -EFAULT and -EINVAL.
  abbrev efault : ℤ
  efault = negsuc 13

  abbrev einval : ℤ
  einval = negsuc 21

  -- Under the user's address limit a kernel's buffer is a bad address. A length that is not that of
  -- the packet, in the message or in the call, is no message of the protocol.
  abbrev fits : Packet Page → Iovec (Packet Page) → ℕ → Bool
  fits p iov len = packet_size p == len && iov.iov_len == len

  abbrev send_under : Segment → Wire → Iovec (Packet Page) → ℕ → Wire × ℤ
  send_under kernel_ds w iov len =
      if fits iov.iov_base iov len then send_packet w iov.iov_base else (w, einval)
  send_under user_ds w iov len = (w, efault)

  abbrev recv_under : Segment → Wire → Iovec (Packet Page) → ℕ → Wire × Packet Page × ℤ
  recv_under kernel_ds w iov len =
      if fits iov.iov_base iov len then recv_packet w iov.iov_base else (w, iov.iov_base, einval)
  recv_under user_ds w iov len = (w, iov.iov_base, efault)

  -- A kernel whose sockets all lead to the server, until they are released.
  abbrev pub link_kernel : SocketKernel (Packet Page) Wire
  link_kernel = record {
    sock_create = λ w p. (w, 1, pos 0);
    connect = λ w s a. (w, pos 0);
    release = λ w s. record w { released = s ∷ w.released };
    sock_sendmsg = λ w segment s msg len.
        if listed s w.released then (w, einval) else send_under segment w msg.msg_iov len;
    sock_recvmsg = λ w segment s msg len flags.
        if listed s w.released
        then (w, msg.msg_iov.iov_base, einval)
        else recv_under segment w msg.msg_iov len;
  }

  abbrev pub over : Task Wire → Link zero_page → Task Wire
  over task l = record task { world = record task.world { connection = l } }

  abbrev pub closed : ℕ → Task Wire → Task Wire
  closed socket task = record task {
    world = record task.world { released = socket ∷ task.world.released };
  }

  -- The operations over the socket do what they do over the connection, and the release also gives
  -- the socket back.
  abbrev pub SameAsLink : ℕ → Task Wire → ℕ → ℕ → Page → Type 0
  SameAsLink socket task pid address p =
      let s = socket_ops link_kernel socket in
      let s' = link zero_page in
      let l = task.world.connection in
      let saved = network_save s' l pid address p in
      let loaded = network_load s' l pid address p in
      (network_save s task pid address p ≡ (over task saved.0, saved.1))
      × (network_load s task pid address p ≡ (over task loaded.0, loaded.1, loaded.2))
      × (network_remove s task pid address ≡ over task (network_remove s' l pid address))
      × (release_network link_kernel socket task ≡ closed socket (over task (network_release s' l)))

  SameAsLink-fields :
      (socket : ℕ) (segment : Segment) (pages : Pages zero_page) (waiting : Option ProtocolHeader)
      (sent : List Page) (released : List ℕ) (pid address : ℕ) (p : Page)
      → socket ≢ 0
      → listed socket released ≡ false
      → let l : Link zero_page = record { pages = pages; waiting = waiting; sent = sent } in
        SameAsLink socket
          (record { segment = segment; world = record { connection = l; released = released } })
          pid
          address
          p
  unfolding socket_ops socket_send socket_recv release_network socket_release network_save
      network_load network_remove network_release handle
  SameAsLink-fields socket segment pages (some w) sent released pid address p h k =
      let e : (socket == 0) ≡ false = ground arith in rw (e, k) (refl, refl, refl, refl)
  SameAsLink-fields socket segment pages none [] released pid address p h k =
      let e : (socket == 0) ≡ false = ground arith in
      (rw (e, k, k) refl, rw (e, k, k) refl, rw (e, k) refl, rw (e, k) refl)
  SameAsLink-fields socket segment pages none (q ∷ sent) released pid address p h k =
      let e : (socket == 0) ≡ false = ground arith in
      (rw (e, k, k) refl, rw (e, k, k) refl, rw (e, k) refl, rw (e, k) refl)

  -- Over an open socket that has not been released, in a kernel that takes a header or a page only at
  -- its full length and under the kernel's address limit: each operation of the network storage
  -- does what it does over the connection itself, the release also gives exactly this socket back,
  -- and the caller keeps its address limit.
  pub socket_ops-link :
      (socket : ℕ) (task : Task Wire) (pid address : ℕ) (p : Page)
      → socket ≢ 0
      → listed socket task.world.released ≡ false
      → SameAsLink socket task pid address p
  socket_ops-link socket task pid address p h k =
      let w = task.world in
      let l = w.connection in
      SameAsLink-fields socket task.segment l.pages l.waiting l.sent w.released pid address p h k
