-- ===== src/Tests/Sockets.antt =====
-- Runs on src/socket.c, on the start of the network storage, and on the start and the end of the module.
use netmalloc.Common.{
  ℕ, suc, ◌≡◌, ◌≢◌, refl, Bool, true, false, not, ◌&&◌, Option, none, some, List, [], ◌∷◌, arith,
  ◌==◌, leb, if◌then◌else◌, pos, negsuc, Returns,
}
use netmalloc.Socket.{SockaddrIn, SocketKernel, Task, user_ds, inet_addr}
use netmalloc.Socket.Address.{dotted, inet_addr-dotted}
use netmalloc.Socket.Init.{IsSocketKernel, Connected}
use netmalloc.Storage.Network.Init.{Strings, colon, network_init, network_init-Connected}
use netmalloc.Storage.Network.Server.{idle}
use netmalloc.Storage.Network.Stack.{Wire, SameAsLink, socket_ops-link}
use netmalloc.Syscall.{Syscalls}
use netmalloc.Vma.{listed}
use netmalloc.Module.{StorageControl, netmalloc_init_module, netmalloc_exit_module}
use netmalloc.Module.Load.{Loaded, netmalloc_init_module-Loaded}
use netmalloc.Module.Unload.{frees, held, netmalloc_exit_module-frees}
use netmalloc.Tests.Paging.{table}
use netmalloc.Tests.Reach.{faulted, run}

-- Sockets are numbered from 1 on; `made` is the last one.
record World : Type 0 where
  made : ℕ
  closed : ℕ → Bool
  peers : ℕ → Option SockaddrIn

-- A kernel that refuses connections, but for one port.
abbrev kernel : SocketKernel ℕ World
kernel = record {
  sock_create = λ w p.
      let q = suc w.made in
      (record w { made = q; closed = λ n. if q == n then false else w.closed n }, q, pos 0);
  connect = λ w p a.
      if a.sin_port == 14640
      then (record w { peers = λ n. if p == n then some a else w.peers n }, pos 0)
      else (w, negsuc 110);
  release = λ w p. record w { closed = λ n. if p == n then true else w.closed n };
  sock_sendmsg = λ w s p m len. (w, pos len);
  sock_recvmsg = λ w s p m len flags. (w, m.msg_iov.iov_base, pos len);
}

kernel-laws : IsSocketKernel kernel
kernel-laws = record {
  is_open = λ w q. (leb 1 q && leb q w.made) && not (w.closed q);
  peer = λ w q. w.peers q;
  create_new = λ w p h. (omega arith, ground arith, λ q. ground arith);
  create_error = λ w p q h. absurd (ground arith);
  connect_open = λ w p q a. ground arith;
  connect_peer = λ w p a h. ground arith;
  release_open = λ w p q. ground arith;
}

abbrev world : World
world = record { made = 0; closed = λ n. false; peers = λ n. none }

-- kstrtol on the text `12345`.
abbrev strings : Strings
strings = record { kstrdup = true; kstrtol = λ s old. (pos 0, 12345) }

abbrev text : List ℕ
text = 49 ∷ 50 ∷ 51 ∷ 52 ∷ 53 ∷ []

network_init-Connected_example :
    Connected kernel-laws world
      (record { sin_family = 2; sin_port = 14640; s_addr = 16777343 })
      (network_init kernel strings world 0 (dotted 127 0 0 1 (colon ∷ text)) 0 (9, 9, 9, 9))
network_init-Connected_example =
    network_init-Connected kernel-laws strings world 0 127 0 0 1 text 0 12345 (9, 9, 9, 9)
      (omega arith) (omega arith) (omega arith) (omega arith) refl refl

inet_addr-dotted_example : inet_addr (dotted 192 168 1 10 []) 9 9 9 9 ≡ 167880896
inet_addr-dotted_example =
    inet_addr-dotted 192 168 1 10 9 9 9 9 (omega arith) (omega arith) (omega arith) (omega arith)

abbrev task : Task (Wire {Page = ℕ} 0)
task = record {
  segment = user_ds;
  world = record { connection = idle 0 (λ p a. none); released = [] };
}

socket_ops-link_example : SameAsLink {Page = ℕ} 0 1 task 1 4096 6
socket_ops-link_example = socket_ops-link 0 1 task 1 4096 6 (omega arith) (unfold listed in refl)

-- A storage that does not start for the parameter 1.
abbrev control : StorageControl table 0 ℕ
control = record {
  init = λ param c. if param == 1 then (c, negsuc 0) else (c, pos 0);
  release = λ c p b. 0;
}

-- `close` is entry 3, and the page of the table is present and writable.
abbrev calls : Syscalls
calls = record {
  table = λ n. if n == 3 then 300 else 998;
  pte = 3;
  original_syscall = 0;
  syscall_table = true;
}

netmalloc_init_module-Loaded_example :
    Returns
      (Loaded table 0 control 3 300 184 185 8192 1000 2000 1
        (record { syscalls = calls; state = faulted }))
      (netmalloc_init_module table 0 control 3 300 184 185 true 1000 2000 1
        (record { syscalls = calls; state = faulted }))
netmalloc_init_module-Loaded_example =
    netmalloc_init_module-Loaded table 0 control 3 300 184 185 8192 1000 2000 1
      (record { syscalls = calls; state = faulted }) refl (omega arith) (omega arith) (omega arith)
      (omega arith)

netmalloc_exit_module-frees_example :
    Returns
      (λ out.
        let t = out.0.state in
        (t.areas.area_list ≡ [])
        × (t.buffers ≡ [])
        × (t.stored_pages ≡ [])
        × (t.contents ≡ (λ p b. 0))
        × ((p : ℕ) → p ≢ 0 → frees p out.1 ≡ (if held p faulted.buffers then 1 else 0)))
      (netmalloc_exit_module table 0 control 3 300 184 185
        (record { syscalls = calls; state = faulted }))
netmalloc_exit_module-frees_example =
    netmalloc_exit_module-frees table 0 control 3 300 184 185 13192
      (record { syscalls = calls; state = faulted }) run refl (omega arith)
