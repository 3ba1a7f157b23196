-- ===== src/Esp/Frame.antt =====
-- What esp01/esp01.c leaves alone: every invariant that looks at no more of a socket, a driver's
-- state or the serial line than that they are there.
use esp_hostdriver.Prelude.{ℕ, List, get_elem?, [], ◌∷◌}
use esp_hostdriver.Host.{Ptr, SockAddr, stream, Esp, World}
use esp_hostdriver.Host.Partial.{
  Keeps, Keeps-pure, Keeps-fault, Keeps-expect, Keeps-if, Keeps-bind, Keeps-then, Keeps-ty,
}
use esp_hostdriver.Host.Stable.{
  IsStable, Keeps-load_sock, Keeps-load_dev, Keeps-load_esp, Keeps-store_sock, Keeps-store_esp,
  Keeps-malloc,
}
use esp_hostdriver.Net.Frame.{Keeps-netdev_sock_alloc, Keeps-netdev_sock_disconnect}
use esp_hostdriver.Serial.Frame.{ClientKeeps}
use esp_hostdriver.Esp.Notice.{link_of, deliver, esp_recv, esp_accept, esp_closed, esp_client}

module _ {I : World → Type 0} (st : IsStable I) where
  Keeps-link_of : (esp : Esp) (link_id : ℕ) → Keeps I (link_of esp link_id)
  unfolding link_of
  Keeps-link_of esp link_id = Keeps-expect (get_elem? esp.links link_id)

  Keeps-deliver :
      (idx : ℕ) (sock : Ptr) (payload : List ℕ) (remote : SockAddr)
      → Keeps I (deliver idx sock payload remote)
  unfolding deliver
  Keeps-deliver idx sock [] remote = Keeps-bind (Keeps-load_sock sock) (λ s.
      Keeps-ty s.ty (Keeps-store_sock st sock _)
        (Keeps-bind (Keeps-malloc st) (λ p. Keeps-if _ Keeps-fault (Keeps-store_sock st sock _))))
  Keeps-deliver idx sock (b ∷ bs) remote = Keeps-bind (Keeps-load_sock sock) (λ s.
      Keeps-ty s.ty (Keeps-store_sock st sock _)
        (Keeps-bind (Keeps-malloc st) (λ p. Keeps-if _ Keeps-fault Keeps-fault)))

  Keeps-esp_recv :
      (idx : ℕ) (dev : Ptr) (link_id : ℕ) (payload : List ℕ) (remote : SockAddr)
      → Keeps I (esp_recv idx dev link_id payload remote)
  unfolding esp_recv
  Keeps-esp_recv idx dev link_id payload remote = Keeps-bind (Keeps-load_dev dev) (λ d.
      Keeps-bind (Keeps-load_esp d.data') (λ esp.
        Keeps-bind (Keeps-link_of esp link_id) (λ sock. Keeps-deliver idx sock payload remote)))

  Keeps-esp_accept :
      (junk : SockAddr) (dev : Ptr) (link_id : ℕ) (remote : SockAddr)
      → Keeps I (esp_accept junk dev link_id remote)
  unfolding esp_accept
  Keeps-esp_accept junk dev link_id remote = Keeps-bind (Keeps-load_dev dev) (λ d.
      Keeps-bind (Keeps-load_esp d.data') (λ esp. Keeps-if _ (Keeps-pure tt) (
        Keeps-bind (Keeps-netdev_sock_alloc st junk stream) (λ sock.
          Keeps-bind (Keeps-load_sock sock) (λ s. Keeps-then (Keeps-store_sock st sock _) (
            Keeps-bind (Keeps-link_of esp link_id) (λ _. Keeps-then (Keeps-store_esp st d.data' _) (
              Keeps-bind (Keeps-load_sock esp.tcp_server)
                (λ server. Keeps-store_sock st esp.tcp_server _)))))))))

  Keeps-esp_closed : (dev : Ptr) (link_id : ℕ) → Keeps I (esp_closed dev link_id)
  unfolding esp_closed
  Keeps-esp_closed dev link_id = Keeps-bind (Keeps-load_dev dev) (λ d.
      Keeps-bind (Keeps-load_esp d.data') (λ esp.
        Keeps-bind (Keeps-link_of esp link_id) (λ sock.
          Keeps-then (Keeps-store_esp st d.data' _) (Keeps-netdev_sock_disconnect st sock))))

  pub Keeps-esp_client :
      (idx : ℕ) (junk : SockAddr) (dev : Ptr) → ClientKeeps I (esp_client idx junk dev)
  Keeps-esp_client idx junk dev = record {
    recv_keeps = Keeps-esp_recv idx dev;
    accept_keeps = Keeps-esp_accept junk dev;
    closed_keeps = Keeps-esp_closed dev;
  }
