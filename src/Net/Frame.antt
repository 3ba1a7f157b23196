-- ===== src/Net/Frame.antt =====
-- What the first part of net/netdev.c leaves alone, and what a driver has to.
use esp_hostdriver.Prelude.{ℕ, Option, none, some, List, [], ◌∷◌, ◌==◌, if◌then◌else◌}
use esp_hostdriver.Inet.{InetDevCfg}
use esp_hostdriver.Host.{
  Ptr, Filed, Socket, get, store_sock, SockAddr, SockType, World, Cmd, pure, ◌>>=◌, ◌>>◌, expect,
}
use esp_hostdriver.Host.Partial.{
  Keeps, Keeps-pure, Keeps-fault, Keeps-expect, Keeps-if, Keeps-bind, Keeps-then, Keeps-ty,
}
use esp_hostdriver.Host.Ret.{ret, fail}
use esp_hostdriver.Host.Stable.{
  IsStable, Keeps-load_node, Keeps-load_sock, Keeps-load_dev, Keeps-store_sock, Keeps-malloc,
  Keeps-set_data,
}
use esp_hostdriver.Net.Device.{
  NetdevOps, domain_cfg, netdev_sock_alloc, netdev_sock_disconnect, find_by_data, find_dev,
  assign_netdev,
}
use esp_hostdriver.Net.Calls.{sock_of}

-- Of an operation that may not be set: it keeps the invariant.
pub data IfSet {A : Type 0} (P : A → Type 0) : Option A → Type 0 where
  unset : IfSet P none
  if_set : {a : A} → P a → IfSet P (some a)

-- A driver whose operations keep an invariant.
pub record DriverKeeps (I : World → Type 0) (ops : NetdevOps) : Type 0 where
  pub configure_keeps :
      IfSet (λ op. (dev : Ptr) (cfg : InetDevCfg) → Keeps I (op dev cfg)) ops.configure
  pub connect_keeps : IfSet (λ op. (sock : Ptr) → Keeps I (op sock)) ops.connect
  pub listen_keeps : IfSet (λ op. (sock : Ptr) (backlog : ℕ) → Keeps I (op sock backlog)) ops.listen
  pub close_keeps : IfSet (λ op. (sock : Ptr) → Keeps I (op sock)) ops.close
  pub send_keeps :
      IfSet
        (λ op. (sock : Ptr) (payload : List ℕ) (len : ℕ) → Keeps I (op sock payload len))
        ops.send

module _ {I : World → Type 0} where
  pub Keeps-domain_cfg : (domain : ℕ) → Keeps I (domain_cfg domain)
  unfolding domain_cfg
  Keeps-domain_cfg domain = Keeps-if _ (Keeps-pure _) Keeps-fault

  pub Keeps-sock_of : (found : Option Filed) → Keeps I (sock_of found)
  unfolding sock_of
  Keeps-sock_of found =
      Keeps-bind (Keeps-expect found)
        (λ fd. Keeps-bind (Keeps-load_node fd.node) (λ n. Keeps-pure n.data'))

  Keeps-find_dev : (addr : SockAddr) (len : ℕ) (devs : List Ptr) → Keeps I (find_dev addr len devs)
  unfolding find_dev
  Keeps-find_dev addr len [] = Keeps-pure 0
  Keeps-find_dev addr len (dev ∷ devs) = Keeps-bind (Keeps-load_dev dev) (λ d.
      Keeps-if _
        (Keeps-bind (Keeps-domain_cfg addr.domain)
          (λ _. Keeps-if _ (Keeps-pure dev) (Keeps-find_dev addr len devs)))
        (Keeps-find_dev addr len devs))

  -- A call of an operation that may not be set.
  pub Keeps-op :
      {A B : Type 0} {P : A → Type 0} {o : Option A} {m : Cmd B} {f : A → Cmd B}
      → IfSet P o
      → Keeps I m
      → ((a : A) → P a → Keeps I (f a))
      → Keeps I (elim o [ none ↦ m | some a ↦ f a ])
  Keeps-op unset hm hf = hm
  Keeps-op (if_set p) hm hf = hf _ p

  pub Keeps-expect_op :
      {A B : Type 0} {P : A → Type 0} {o : Option A} {f : A → Cmd B}
      → IfSet P o
      → ((a : A) → P a → Keeps I (f a))
      → Keeps I (expect o >>= f)
  Keeps-expect_op unset hf = Keeps-fault
  Keeps-expect_op (if_set p) hf = hf _ p

module _ {I : World → Type 0} (st : IsStable I) where
  pub Keeps-netdev_sock_alloc :
      (junk : SockAddr) (ty : SockType) → Keeps I (netdev_sock_alloc junk ty)
  unfolding netdev_sock_alloc
  Keeps-netdev_sock_alloc junk ty = Keeps-bind (Keeps-malloc st) (λ sock. Keeps-if _ Keeps-fault (
      Keeps-ty ty
        (Keeps-bind (Keeps-malloc st)
          (λ rx. Keeps-then (Keeps-store_sock st sock _) (Keeps-pure sock)))
        (Keeps-then (Keeps-store_sock st sock _) (Keeps-pure sock))))

  Keeps-find_by_data : (sock : Ptr) (childs : List Ptr) → Keeps I (find_by_data sock childs)
  unfolding find_by_data
  Keeps-find_by_data sock [] = Keeps-pure 0
  Keeps-find_by_data sock (c ∷ cs) =
      Keeps-bind (Keeps-load_node c) (λ n. Keeps-if _ (Keeps-pure c) (Keeps-find_by_data sock cs))

  pub Keeps-netdev_sock_disconnect : (sock : Ptr) → Keeps I (netdev_sock_disconnect sock)
  unfolding netdev_sock_disconnect
  Keeps-netdev_sock_disconnect sock = record {
    keeps = λ w h.
        (Keeps-bind (Keeps-load_node w.net_root) (λ root.
            Keeps-bind (Keeps-find_by_data sock root.childs)
              (λ node. Keeps-if (node == 0) (Keeps-pure tt) (Keeps-set_data st node 0)))).keeps
          w h;
  }

  pub Keeps-assign_netdev :
      (sock : Ptr) (addr : SockAddr) (len : ℕ) → Keeps I (assign_netdev sock addr len)
  unfolding assign_netdev
  Keeps-assign_netdev sock addr len = Keeps-bind (Keeps-load_sock sock) (λ s.
      Keeps-bind (Keeps-domain_cfg s.addr.domain)
        (λ sizes. Keeps-if _ (Keeps-found s) (Keeps-pure fail)))
    where
      Keeps-found :
          (s : Socket)
          → Keeps I (do
            w ← get
            dev ← find_dev addr len w.dev_lst
            if dev == 0
                then pure fail
                else (do store_sock sock (record s { dev = dev; addr = addr }); pure (ret 0)))
      Keeps-found s = record {
        keeps = λ w h.
            (Keeps-bind (Keeps-find_dev addr len w.dev_lst) (λ dev.
                Keeps-if (dev == 0) (Keeps-pure fail)
                  (Keeps-then (Keeps-store_sock st sock _) (Keeps-pure (ret 0))))).keeps
              w h;
      }
