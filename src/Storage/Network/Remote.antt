-- ===== src/Storage/Network/Remote.antt =====
-- The network storage, with the server at the other end of a connection that loses nothing.
use netmalloc.Common.{ℕ, ◌≡◌, refl, inl, inr, ◌&&◌, none, some, ◌==◌, pos, Bool-cases}
use netmalloc.Storage.{StorageOps, IsReliable}
use netmalloc.Storage.Network.{
  ProtocolHeader, protocol_put, network_load, network_save, network_remove, network_release,
}
use netmalloc.Storage.Network.Server.{Pages, set_page, or_zeros, handle, link, idle}
use netmalloc.Vma.{page_size}

module _ {Page : Type 0} (zero_page : Page) where
  abbrev at : ℕ → ℕ → ProtocolHeader
  at pid address = record { command = protocol_put; pid = pid; address = address }

  -- Each operation of the network storage leaves the connection with nothing under way. A save and a
  -- load transfer a whole page and say so; the server then holds the saved page, a load gets the page
  -- that it holds, or zeros, a removal drops that page, a release all pages, and nothing else changes.
  pub network-idle :
      (c : Pages zero_page) (pid address : ℕ) (page : Page)
      → let s = link zero_page in
        (network_save s (idle zero_page c) pid address page
          ≡ (idle zero_page (set_page zero_page (at pid address) (some page) c), pos page_size))
        × (network_load s (idle zero_page c) pid address page
            ≡ (idle zero_page c, or_zeros zero_page (c pid address), pos page_size))
        × (network_remove s (idle zero_page c) pid address
            ≡ idle zero_page (set_page zero_page (at pid address) none c))
        × (network_release s (idle zero_page c) ≡ idle zero_page (λ p a. none))
  unfolding network_save network_load network_remove network_release handle
  network-idle c pid address page = (refl, refl, refl, refl)

  -- The network storage as the pager uses it. Its state is what the server holds.
  unfoldable pub remote_ops : StorageOps Page
  unfolding network_save network_load network_remove handle
  remote_ops = record {
    Contents = Pages zero_page;
    save = λ c pid address page.
        let (l, size) = network_save (link zero_page) (idle zero_page c) pid address page in
        (l.pages, size);
    load = λ c pid address old.
        let (l, page, size) = network_load (link zero_page) (idle zero_page c) pid address old in
        (page, size);
    remove =
        λ c pid address. (network_remove (link zero_page) (idle zero_page c) pid address).pages;
  }

  -- Over a connection that delivers every message whole and in order, which a stream socket does
  -- not promise, and with the server behind it, the network storage is reliable: every call
  -- succeeds, a page is found as it was saved last, or as zeros if it was not, and a removal leaves
  -- all other pages as they are.
  pub remote_ops-IsReliable : IsReliable remote_ops
  unfolding remote_ops
  remote_ops-IsReliable = record {
    held = λ c pid a. or_zeros zero_page (c pid a);
    load_held = λ c pid a old. refl;
    load_ok = λ c pid a old. refl;
    save_ok = λ c pid a page. refl;
    save_held = λ c pid a page p b. elim (Bool-cases (pid == p && a == b)) [
      | inl e ↦ rw e refl
      | inr e ↦ rw e refl
    ];
    remove_held = λ c pid a p b h. rw h refl;
  }
