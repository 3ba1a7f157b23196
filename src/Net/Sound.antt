-- ===== src/Net/Sound.antt =====
-- The calls of net/netdev.c keep the reference counts of bos/fs.c sound.
pub mod Setup
pub mod Driven
use esp_hostdriver.Prelude.{
  ℕ, zero, suc, ◌+◌, ◌≡◌, refl, Bool, true, false, Option, none, some, List, [], ◌∷◌, ◌==◌, ltb,
  if◌then◌else◌, length,
}
use esp_hostdriver.Inet.{InetDevCfg}
use esp_hostdriver.Host.{
  Ptr, ft_reg, Filed, SockAddr, SockType, stream, dgram, Socket, World, Cmd, pure, ◌>>=◌, ◌>>◌, get,
  put, expect, update, load_sock, store_sock, load_dev, list_first, list_rm,
}
use esp_hostdriver.Host.Partial.{
  IfDone, if_done, if_fault, IfDone-and_then, Keeps, Keeps-pure, Keeps-fault, Keeps-expect,
  Keeps-if, Keeps-bind, Keeps-then, Keeps-option, Keeps-list, Keeps-ty,
}
use esp_hostdriver.Host.Ret.{Ret, ret, fail, is_zero}
use esp_hostdriver.Host.Stable.{
  IsStable, Keeps-load_node, Keeps-load_sock, Keeps-load_dev, Keeps-store_sock,
}
use esp_hostdriver.Bos.{
  o_rdwr, depth, fd_alloc, fd_free, fd_acquire, find_fd, node_create, node_destroy,
}
use esp_hostdriver.Bos.Sound.{Sound, Sound-IsStable, Sound-setup}
use esp_hostdriver.Bos.Sound.Nodes.{Sound-known, Keeps-node_create, Keeps-node_destroy}
use esp_hostdriver.Bos.Sound.Fds.{Any, any, Held, held, Keeps-fd_alloc, fd_free-Sound}
use esp_hostdriver.Net.Itoa.{itoa}
use esp_hostdriver.Net.Device.{NetdevOps, domain_cfg, netdev_sock_alloc, assign_netdev}
use esp_hostdriver.Net.Calls.{
  sock_name, sock_of, open_sock, bos_socket, bos_net_configure, bos_connect, bos_listen, bos_close,
  netfs_close, bos_bind, bos_accept,
}
use esp_hostdriver.Net.Transfer.{send_op, bos_sendto, bos_recvfrom, dgram_count, consume}
use esp_hostdriver.Net.Frame.{
  DriverKeeps, Keeps-domain_cfg, Keeps-sock_of, Keeps-op, Keeps-expect_op, Keeps-netdev_sock_alloc,
  Keeps-assign_netdev,
}

-- Whatever tables of operations there are, the operations keep every invariant that does not depend
-- on what a driver writes.
pub record Respect (drivers : ℕ → NetdevOps) : Type 1 where
  pub respect : {I : World → Type 0} → IsStable I → (number : ℕ) → DriverKeeps I (drivers number)

pub Keeps-fd_acquire : {I : World → Type 0} (id : ℕ) → Keeps I (fd_acquire id)
unfolding fd_acquire
Keeps-fd_acquire id = record { keeps = λ w h. if_done h }

Keeps-sock_name : {I : World → Type 0} (id : ℕ) → Keeps I (sock_name id)
unfolding sock_name
Keeps-sock_name id =
    Keeps-option (itoa id 10 8) Keeps-fault
      (λ name. Keeps-if (ltb (length name) 8) (Keeps-pure name) Keeps-fault)

Keeps-open_sock : (number : ℕ) (sock : Ptr) → Keeps (Sound Any) (open_sock number sock)
unfolding open_sock
Keeps-open_sock number sock = Keeps-bind (Keeps-sock_name number) (λ name. record {
  keeps = λ w s.
      (Keeps-bind (Keeps-node_create w.net_root name (length name) ft_reg sock w.netfs_id) (λ node.
          Keeps-bind (Keeps-fd_alloc node o_rdwr 0)
            (λ made. Keeps-bind (Keeps-expect made) (λ fd. Keeps-pure (ret fd.id))))).keeps
        w s;
})

pub Keeps-bos_socket :
    (junk : SockAddr) (domain : ℕ) (ty : SockType) → Keeps (Sound Any) (bos_socket junk domain ty)
unfolding bos_socket
Keeps-bos_socket junk domain ty = Keeps-bind (Keeps-domain_cfg domain) (λ _.
    Keeps-bind (Keeps-netdev_sock_alloc Sound-IsStable junk ty) (λ sock.
      Keeps-bind (Keeps-load_sock sock) (λ s.
        Keeps-then (Keeps-store_sock Sound-IsStable sock _) (record {
          keeps = λ w h. (Keeps-open_sock (w.sock_count + 1) sock).keeps _ (
              Sound-setup w.fs_lst w.netfs_id w.net_root w.devs w.dev_lst w.esps (w.sock_count + 1)
                h);
        }))))

pub Keeps-bos_bind :
    (fd_id : ℕ) (addr : SockAddr) (addr_len : ℕ) → Keeps (Sound Any) (bos_bind fd_id addr addr_len)
unfolding bos_bind
Keeps-bos_bind fd_id addr addr_len = Keeps-bind (Keeps-fd_acquire fd_id) (λ found.
    Keeps-bind (Keeps-sock_of found)
      (λ sock. Keeps-assign_netdev Sound-IsStable sock addr addr_len))

pub Keeps-bos_accept :
    (fd_id : ℕ) (wants_addr : Bool) → Keeps (Sound Any) (bos_accept fd_id wants_addr)
unfolding bos_accept
Keeps-bos_accept fd_id wants_addr = Keeps-bind (Keeps-fd_acquire fd_id) (λ found.
    Keeps-bind (Keeps-sock_of found) (λ sock. Keeps-bind (Keeps-load_sock sock) (λ s.
      Keeps-ty s.ty
        (Keeps-if (s.dev == 0) (Keeps-pure (fail, none))
          (Keeps-if (list_first s.clients == 0) (Keeps-pure (fail, none)) (taken sock s)))
        (Keeps-pure (fail, none)))))
  where
    taken :
        (sock : Ptr) (s : Socket)
        → let cl = list_first s.clients in
          Keeps {A = Ret × Option SockAddr} (Sound Any) (do
            c ← load_sock cl
            if wants_addr then (do _ ← domain_cfg c.addr.domain; pure tt) else pure tt
            store_sock cl (record c { dev = s.dev })
            s ← load_sock sock
            store_sock sock (record s { clients = list_rm cl s.clients })
            r ← open_sock (fd_id + 1) cl
            pure (r, if wants_addr then some c.addr else none))
    taken sock s = Keeps-bind (Keeps-load_sock _) (λ c.
        Keeps-then
          (Keeps-if wants_addr (Keeps-then (Keeps-domain_cfg c.addr.domain) (Keeps-pure tt))
            (Keeps-pure tt))
          (Keeps-then (Keeps-store_sock Sound-IsStable _ _) (
            Keeps-bind (Keeps-load_sock sock) (λ s.
              Keeps-then (Keeps-store_sock Sound-IsStable sock _)
                (Keeps-bind (Keeps-open_sock (fd_id + 1) _) (λ r. Keeps-pure _))))))

pub Keeps-bos_recvfrom :
    (fd_id len : ℕ) (wants_addr : Bool) → Keeps (Sound Any) (bos_recvfrom fd_id len wants_addr)
unfolding bos_recvfrom
Keeps-bos_recvfrom fd_id len wants_addr = Keeps-bind (Keeps-fd_acquire fd_id) (λ found.
    Keeps-bind (Keeps-sock_of found) (λ sock. Keeps-if (sock == 0) (Keeps-pure _) (
      Keeps-bind (Keeps-load_sock sock) (λ s.
        Keeps-ty s.ty (Keeps-then (Keeps-store_sock Sound-IsStable sock _) (Keeps-pure _)) (
          Keeps-list s.dgrams (Keeps-pure _) (λ d rest.
            Keeps-then
              (Keeps-if wants_addr (Keeps-then (Keeps-domain_cfg s.addr.domain) (Keeps-pure tt))
                (Keeps-pure tt))
              (Keeps-then (Keeps-store_sock Sound-IsStable sock _) (Keeps-pure _))))))))
