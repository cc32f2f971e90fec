-- ===== src/Storage/Network/Stream.antt =====
-- The network storage of src/storage.c over a stream socket, whose receive gives as many bytes as it
-- has and is asked for, or fewer. A page is its bytes, by their offset.
use netmalloc.Common.{
  ℕ, ◌+◌, ◌-◌, ◌≤◌, ◌<◌, ◌≡◌, Option, none, some, List, [], ◌∷◌, ◌++◌, ◌==◌, ltb, if◌then◌else◌, ℤ,
  pos, minus_one,
}
use netmalloc.Storage.Network.{protocol_put, ProtocolHeader, SocketOps, header_size}
use netmalloc.Storage.Network.Server.{Pages, handle}
use netmalloc.Vma.{page_size}

abbrev pub Bytes : Type 0
Bytes = ℕ → ℕ

abbrev pub zeros : Bytes
zeros i = 0

-- Bytes that are under way to the client: how many, and which.
pub record Segment : Type 0 where
  pub length : ℕ
  pub bytes : Bytes

-- A connection to the server: a PUT header that waits for its page, and what is on its way back.
pub record Stream : Type 0 where
  pub pages : Pages zeros
  pub waiting : Option ProtocolHeader
  pub pending : List Segment

abbrev pub whole_page : Bytes → Segment
whole_page page = record { length = page_size; bytes = page }

abbrev answered : Stream → Pages zeros × Option Bytes → Stream
answered l (pages, reply) = record {
  pages = pages;
  waiting = none;
  pending = elim reply [ none ↦ l.pending | some page ↦ l.pending ++ whole_page page ∷ [] ];
}

-- The number of bytes that a receive gives which has `available` bytes at hand.
abbrev pub received : (available : ℕ) → Segment → ℕ
received available s = if ltb available s.length then available else s.length

-- The first `n` bytes are new.
abbrev pub overwrite : ℕ → Bytes → Bytes → Bytes
overwrite n new old i = if ltb i n then new i else old i

-- What a receive leaves of a segment.
abbrev pub rest_of : ℕ → Segment → List Segment
rest_of n s =
    if ltb n s.length
    then record { length = s.length - n; bytes = λ i. s.bytes (n + i) } ∷ []
    else []

-- Sends are whole, since the socket blocks; a receive finds `available` bytes.
abbrev pub stream : (available : ℕ) → SocketOps Bytes Stream
stream available = record {
  send_header = λ l h. elim l.waiting [
    | some w ↦ (l, minus_one)
    | none ↦
        if h.command == protocol_put
        then (record l { waiting = some h }, pos header_size)
        else (answered l (handle zeros l.pages h none), pos header_size)
  ];
  send_page = λ l page. elim l.waiting [
    | none ↦ (l, minus_one)
    | some h ↦ (answered l (handle zeros l.pages h (some page)), pos page_size)
  ];
  recv_page = λ l old. elim l.pending [
    | [] ↦ (l, old, minus_one)
    | s ∷ rest ↦
        let n = received available s in
        (record l { pending = rest_of n s ++ rest }, overwrite n s.bytes old, pos n)
  ];
}

-- A connection with nothing under way.
abbrev pub quiet : Pages zeros → Stream
quiet pages = record { pages = pages; waiting = none; pending = [] }

abbrev at : ℕ → ℕ → ProtocolHeader
at pid address = record { command = protocol_put; pid = pid; address = address }

-- What a receive of a page leaves in the buffer and in the connection, with what it reports.
abbrev pub Receives : (available : ℕ) → (held old buffer : Bytes) → ℤ → List Segment → Type 0
Receives available held old buffer result pending =
    (page_size ≤ available
      → (result ≡ pos page_size) × ((i : ℕ) → i < page_size → buffer i ≡ held i) × (pending ≡ []))
    × (available < page_size
        → (result ≡ pos available)
          × ((i : ℕ) → i < available → buffer i ≡ held i)
          × ((i : ℕ) → available ≤ i → buffer i ≡ old i)
          × (s : Segment) × (pending ≡ s ∷ [])
          × (s.length + available ≡ page_size)
          × ((i : ℕ) → s.bytes i ≡ held (available + i)))
