-- ===== src/Storage/Network/Server.antt =====
-- server/server.py: the pages that the server holds, and what it does with a message. The dictionary of
-- dictionaries is a function; threads, printing and lost connections are left out.
use netmalloc.Common.{
  ℕ, ◌&&◌, Option, none, some, List, [], ◌∷◌, ◌++◌, ◌==◌, if◌then◌else◌, pos, minus_one,
}
use netmalloc.Storage.Network.{
  protocol_put, protocol_get, protocol_rm, protocol_release, ProtocolHeader, SocketOps, header_size,
}
use netmalloc.Vma.{page_size}

module _ {Page : Type 0} (zero_page : Page) where
  abbrev pub Pages : Type 0
  Pages = ℕ → ℕ → Option Page

  abbrev pub set_page : ProtocolHeader → Option Page → Pages → Pages
  set_page h page pages pid address =
      if h.pid == pid && h.address == address then page else pages pid address

  abbrev pub or_zeros : Option Page → Page
  or_zeros o = elim o [ none ↦ zero_page | some page ↦ page ]

  -- One turn of the loop of `handle`: with the page that follows a PUT, and the page that it sends.
  unfoldable pub handle : Pages → ProtocolHeader → Option Page → Pages × Option Page
  handle pages h body =
      if h.command == protocol_put
      then (elim body [ none ↦ pages | some page ↦ set_page h (some page) pages ], none)
      else if h.command == protocol_get
      then (pages, some (or_zeros (pages h.pid h.address)))
      else if h.command == protocol_rm
      then (set_page h none pages, none)
      else if h.command == protocol_release
      then (λ pid address. none, none)
      else (pages, none)

  -- A connection to the server: a PUT header that waits for its page, and the pages on their way back.
  pub record Link : Type 0 where
    pub pages : Pages
    pub waiting : Option ProtocolHeader
    pub sent : List Page

  abbrev pub answered : Link → Pages × Option Page → Link
  answered l (pages, reply) = record l {
    pages = pages;
    waiting = none;
    sent = elim reply [ none ↦ l.sent | some page ↦ l.sent ++ page ∷ [] ];
  }

  -- Sockets over such a connection, which loses nothing and sends and receives each message whole.
  abbrev pub link : SocketOps Page Link
  link = record {
    send_header = λ l h. elim l.waiting [
      | some w ↦ (l, minus_one)
      | none ↦
          if h.command == protocol_put
          then (record l { waiting = some h }, pos header_size)
          else (answered l (handle l.pages h none), pos header_size)
    ];
    send_page = λ l page. elim l.waiting [
      | none ↦ (l, minus_one)
      | some h ↦ (answered l (handle l.pages h (some page)), pos page_size)
    ];
    recv_page = λ l old. elim l.sent [
      | [] ↦ (l, old, minus_one)
      | page ∷ rest ↦ (record l { sent = rest }, page, pos page_size)
    ];
  }

  -- A connection with nothing under way.
  abbrev pub idle : Pages → Link
  idle pages = record { pages = pages; waiting = none; sent = [] }
