-- ===== src/Net/Sound/Driven.antt =====
-- The calls of net/netdev.c that use the driver keep the reference counts of bos/fs.c sound.
use esp_hostdriver.Prelude.{ℕ, Option, some, List, ◌==◌, if◌then◌else◌}
use esp_hostdriver.Inet.{InetDevCfg}
use esp_hostdriver.Host.{
  Ptr, Filed, SockAddr, Netdev, World, pure, ◌>>=◌, ◌>>◌, put, expect, update, load_node, load_sock,
  load_dev, list_first,
}
use esp_hostdriver.Host.Partial.{
  IfDone, if_done, IfDone-and_then, Keeps, Keeps-pure, Keeps-if, Keeps-bind, Keeps-then,
  Keeps-option, Keeps-ty,
}
use esp_hostdriver.Host.Ret.{ret, fail, is_zero}
use esp_hostdriver.Host.Stable.{Keeps-load_node, Keeps-load_sock, Keeps-load_dev}
use esp_hostdriver.Bos.{depth, node_destroy}
use esp_hostdriver.Bos.Sound.{Sound, Sound-IsStable, Sound-setup}
use esp_hostdriver.Bos.Sound.Nodes.{Keeps-node_destroy}
use esp_hostdriver.Bos.Sound.Fds.{Any, Held, fd_free-Sound}
use esp_hostdriver.Net.Device.{NetdevOps}
use esp_hostdriver.Net.Calls.{bos_net_configure, bos_connect, bos_listen, bos_close, netfs_close}
use esp_hostdriver.Net.Transfer.{send_op, bos_sendto}
use esp_hostdriver.Net.Frame.{
  DriverKeeps, Keeps-domain_cfg, Keeps-sock_of, Keeps-op, Keeps-expect_op, Keeps-assign_netdev,
}
use esp_hostdriver.Net.Sound.{Respect, Keeps-fd_acquire}

module _ {drivers : ℕ → NetdevOps} (dr : Respect drivers) where
  module _ {P : List Filed → Type 0} where
    ops : (number : ℕ) → DriverKeeps (Sound P) (drivers number)
    ops number = dr.respect Sound-IsStable number

    Keeps-send_op :
        (dev sock : Ptr) (payload : List ℕ) (len : ℕ)
        → Keeps (Sound P) (send_op drivers dev sock payload len)
    unfolding send_op
    Keeps-send_op dev sock payload len =
        Keeps-bind (Keeps-load_dev dev)
          (λ d. Keeps-op (ops d.ops).send_keeps (Keeps-pure fail) (λ op k. k sock payload len))

  pub Keeps-bos_net_configure :
      (cfg : InetDevCfg) (cfg_size : ℕ) → Keeps (Sound Any) (bos_net_configure drivers cfg cfg_size)
  unfolding bos_net_configure
  Keeps-bos_net_configure cfg cfg_size = record {
    keeps = λ w h.
        (Keeps-bind (Keeps-load_dev (list_first w.dev_lst)) (λ d.
            Keeps-bind (Keeps-domain_cfg d.domain) (λ sizes.
              Keeps-if _
                (Keeps-then (set_dev w h d) (
                  Keeps-expect_op (ops d.ops).configure_keeps
                    (λ op k. k (list_first w.dev_lst) cfg)))
                (Keeps-pure fail)))).keeps
          w h;
  }
    where
      set_dev :
          (w : World)
          → Sound Any w
          → (d : Netdev)
          → Keeps (Sound Any) (
              put (record w {
                devs = update w.devs (list_first w.dev_lst) (some (record d { cfg = cfg }));
              }))
      set_dev w h d = record {
        keeps = λ v i.
            if_done (Sound-setup w.fs_lst w.netfs_id w.net_root _ w.dev_lst w.esps w.sock_count h);
      }

  pub Keeps-bos_connect :
      (fd_id : ℕ) (addr : SockAddr) (addr_len : ℕ)
      → Keeps (Sound Any) (bos_connect drivers fd_id addr addr_len)
  unfolding bos_connect
  Keeps-bos_connect fd_id addr addr_len = Keeps-bind (Keeps-fd_acquire fd_id) (λ found.
      Keeps-option found (Keeps-pure fail) (λ fd. Keeps-bind (Keeps-sock_of (some fd)) (λ sock.
        Keeps-bind (Keeps-load_sock sock) (λ s.
          Keeps-if (s.dev == 0)
            (Keeps-bind (Keeps-assign_netdev Sound-IsStable sock addr addr_len) (λ r.
              Keeps-if (is_zero r)
                (Keeps-bind (Keeps-load_sock sock) (λ s.
                  Keeps-bind (Keeps-load_dev s.dev)
                    (λ d. Keeps-op (ops d.ops).connect_keeps (Keeps-pure fail) (λ op k. k sock))))
                (Keeps-pure fail)))
            (Keeps-pure fail)))))

  pub Keeps-bos_listen : (fd_id backlog : ℕ) → Keeps (Sound Any) (bos_listen drivers fd_id backlog)
  unfolding bos_listen
  Keeps-bos_listen fd_id backlog = Keeps-bind (Keeps-fd_acquire fd_id) (λ found.
      Keeps-bind (Keeps-sock_of found) (λ sock. Keeps-bind (Keeps-load_sock sock) (λ s.
        Keeps-ty s.ty
          (Keeps-if (s.dev == 0) (Keeps-pure fail) (
            Keeps-bind (Keeps-load_dev s.dev)
              (λ d. Keeps-op (ops d.ops).listen_keeps (Keeps-pure fail) (λ op k. k sock backlog))))
          (Keeps-pure fail))))

  pub Keeps-bos_close : (fd_id : ℕ) → Keeps (Sound Any) (bos_close drivers fd_id)
  unfolding bos_close
  Keeps-bos_close fd_id = Keeps-bind (Keeps-fd_acquire fd_id) (λ found.
      Keeps-option found (Keeps-pure fail) (λ fd. Keeps-bind (Keeps-load_node fd.node) (λ n.
        Keeps-if (n.data' == 0) (Keeps-pure (ret 0)) (
          Keeps-bind (Keeps-load_sock n.data') (λ s. Keeps-if (s.dev == 0) (Keeps-pure (ret 0)) (
            Keeps-bind (Keeps-load_dev s.dev) (λ d.
              Keeps-bind (Keeps-op (ops d.ops).close_keeps (Keeps-pure fail) (λ op k. k n.data'))
                (λ r.
                  Keeps-if (is_zero r)
                    (Keeps-then (Keeps-node_destroy depth Any fd.node) (Keeps-pure r))
                    (Keeps-pure r)))))))))

  pub Keeps-bos_sendto :
      (fd_id : ℕ) (payload : List ℕ) (len : ℕ) (addr : Option SockAddr) (addr_len : ℕ)
      → Keeps (Sound Any) (bos_sendto drivers fd_id payload len addr addr_len)
  unfolding bos_sendto
  Keeps-bos_sendto fd_id payload len addr addr_len = Keeps-bind (Keeps-fd_acquire fd_id) (λ found.
      Keeps-bind (Keeps-sock_of found) (λ sock. Keeps-if (sock == 0) (Keeps-pure fail) (
        Keeps-bind (Keeps-load_sock sock) (λ s.
          Keeps-ty s.ty
            (Keeps-if (s.dev == 0) (Keeps-pure fail)
              (Keeps-option addr (Keeps-send_op s.dev sock payload len) (λ a. Keeps-pure fail)))
            (Keeps-option addr
              (Keeps-if (s.dev == 0) (Keeps-pure fail) (Keeps-send_op s.dev sock payload len))
              (λ a. Keeps-bind (Keeps-domain_cfg s.addr.domain) (λ sizes.
                Keeps-if _
                  (Keeps-bind (Keeps-assign_netdev Sound-IsStable sock a addr_len) (λ r.
                    Keeps-if (is_zero r)
                      (Keeps-bind (Keeps-load_sock sock)
                        (λ s. Keeps-send_op s.dev sock payload len))
                      (Keeps-pure fail)))
                  (Keeps-pure fail))))))))

  -- The close of the driver keeps the descriptor in the list; then it is freed.
  pub netfs_close-Sound :
      (fd : Filed) (w : World)
      → Sound (Held fd) w
      → IfDone (λ _ v. Sound Any v) (netfs_close drivers fd w)
  unfolding netfs_close
  netfs_close-Sound fd w h = IfDone-and_then ((Keeps-sock_of (some fd)).keeps w h) (λ sock v i.
      IfDone-and_then ((close_op sock).keeps v i)
        (λ _ u j. IfDone-and_then (fd_free-Sound fd u j) (λ _ t k. rest.keeps t k)))
    where
      close_op :
          (sock : Ptr)
          → Keeps (Sound (Held fd)) (
              if sock == 0 then pure tt else (do
                s ← load_sock sock
                if s.dev == 0 then pure tt else (do
                  d ← load_dev s.dev
                  op ← expect (drivers d.ops).close
                  _ ← op sock
                  pure tt)))
      close_op sock = Keeps-if (sock == 0) (Keeps-pure tt) (
          Keeps-bind (Keeps-load_sock sock) (λ s. Keeps-if (s.dev == 0) (Keeps-pure tt) (
            Keeps-bind (Keeps-load_dev s.dev) (λ d.
              Keeps-expect_op (ops d.ops).close_keeps
                (λ op k. Keeps-then (k sock) (Keeps-pure tt))))))

      rest : Keeps (Sound Any) (do
        n ← load_node fd.node
        if n.ref_cnt == 0 then node_destroy depth fd.node >> pure (ret 0) else pure (ret 0))
      rest = Keeps-bind (Keeps-load_node fd.node) (λ n.
          Keeps-if (n.ref_cnt == 0)
            (Keeps-then (Keeps-node_destroy depth Any fd.node) (Keeps-pure (ret 0)))
            (Keeps-pure (ret 0)))
