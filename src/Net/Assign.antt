-- ===== src/Net/Assign.antt =====
-- `assign_netdev` of net/netdev.c: which device a socket gets.
use esp_hostdriver.Prelude.{
  ℕ, ◌≡◌, refl, sym, subst, inl, inr, Bool-cases, ◌&&◌, some, List, [], ◌∷◌, map, All, ◌==◌,
  if◌then◌else◌,
}
use esp_hostdriver.Inet.{inet_match_addr, sizeof_sock_addr_inet}
use esp_hostdriver.Host.{
  Ptr, SockAddr, Socket, Netdev, World, done, load_dev, load_sock, store_sock, pure, ◌>>◌,
}
use esp_hostdriver.Host.Ret.{ret, fail}
use esp_hostdriver.Net.Device.{sizeof_inet_dev_cfg, find_dev, assign_netdev, domain_cfg}
use esp_hostdriver.Net.Recv.{with_sock}

-- The devices of a list, each with what lies at its address.
abbrev pub Devices : World → List (Ptr × Netdev) → Type 0
Devices w = All (λ d. w.devs d.0 ≡ some d.1)

-- The first device of the address's domain whose configuration it matches, or 0.
abbrev pub first_device : SockAddr → ℕ → List (Ptr × Netdev) → Ptr
first_device addr addr_len [] = 0
first_device addr addr_len ((p, d) ∷ ds) =
    if d.domain == addr.domain && inet_match_addr d.cfg addr.inet addr_len
    then p
    else first_device addr addr_len ds

domain_cfg-inet :
    (w : World) (domain : ℕ)
    → domain ≡ 0
    → domain_cfg domain w ≡ done (sizeof_inet_dev_cfg, sizeof_sock_addr_inet) w
unfolding domain_cfg
domain_cfg-inet w domain e = rw e refl

module _ (w : World) (addr : SockAddr) (addr_len : ℕ) (inet : addr.domain ≡ 0) where
  find_dev-first_device :
      (ds : List (Ptr × Netdev))
      → Devices w ds
      → find_dev addr addr_len (map (λ d. d.0) ds) w ≡ done (first_device addr addr_len ds) w
  unfolding find_dev load_dev
  find_dev-first_device [] at = refl
  find_dev-first_device ((p, d) ∷ ds) at = elim (Bool-cases (d.domain == addr.domain)) [
    | inl same ↦ elim (Bool-cases (inet_match_addr d.cfg addr.inet addr_len)) [
      | inl match ↦ rw at.0 (rw same (rw (domain_cfg-inet w addr.domain inet) (rw match refl)))
      | inr differs ↦ rw at.0 (
          rw same
            (rw (domain_cfg-inet w addr.domain inet) (rw differs (find_dev-first_device ds at.1))))
    ]
    | inr apart ↦ rw at.0 (rw apart (find_dev-first_device ds at.1))
  ]

  -- `assign_netdev` with the length of an address gives the socket the first device of the list that
  -- is of the address's domain and matches it, together with the address. With another length, or
  -- without such a device, it fails and changes nothing. The socket's domain and the address's are
  -- `AF_INET`.
  pub assign_netdev-first_device :
      (sock : Ptr) (s : Socket) (ds : List (Ptr × Netdev))
      → Devices w ds
      → w.dev_lst ≡ map (λ d. d.0) ds
      → w.socks sock ≡ some s
      → s.addr.domain ≡ 0
      → let dev = first_device addr addr_len ds in
        assign_netdev sock addr addr_len w ≡ (
          if addr_len == sizeof_sock_addr_inet
          then (if dev == 0
              then done fail w
              else done (ret 0) (with_sock w sock (record s { dev = dev; addr = addr })))
          else done fail w)
  unfolding assign_netdev load_sock store_sock
  assign_netdev-first_device sock s ds at lst there domain =
      elim (Bool-cases (addr_len == sizeof_sock_addr_inet)) [
        | inl e ↦ rw there (
            rw (domain_cfg-inet w s.addr.domain domain)
              (rw e (rw found (chosen (first_device addr addr_len ds)))))
        | inr e ↦ rw there (rw (domain_cfg-inet w s.addr.domain domain) (rw e refl))
      ]
    where
      found : find_dev addr addr_len w.dev_lst w ≡ done (first_device addr addr_len ds) w
      found =
          subst (λ l. find_dev addr addr_len l w ≡ done (first_device addr addr_len ds) w) (sym lst)
            (find_dev-first_device ds at)

      chosen :
          (dev : Ptr)
          → (if dev == 0
                then pure fail
                else (store_sock sock (record s { dev = dev; addr = addr }) >> pure (ret 0)))
              w
            ≡ (if dev == 0
                then done fail w
                else done (ret 0) (with_sock w sock (record s { dev = dev; addr = addr })))
      chosen dev = elim (Bool-cases (dev == 0)) [ inl z ↦ rw z refl | inr z ↦ rw z refl ]
