-- ===== src/Program/Counts.antt =====
-- The descriptors and the reference counts in every state that a program reaches.
use esp_hostdriver.Prelude.{
  ℕ, ◌^◌, ◌<◌, ◌≡◌, refl, sym, ap, ◌∙◌, subst, inl, inr, Bool-cases, Option, none, some, List, [],
  ◌∷◌, arith, ◌==◌, eq_of_==,
}
use esp_hostdriver.Host.{Filed, SerialLine, World, Run, done, Cmd, pure, ◌>>=◌, ◌>>◌}
use esp_hostdriver.Host.Partial.{IfDone, if_done, IfDone-and_then, Keeps, Keeps-pure, Keeps-then}
use esp_hostdriver.Bos.{find_fd, fd_acquire}
use esp_hostdriver.Bos.Sound.{uses, no_node, Sound, Sound-IsStable}
use esp_hostdriver.Bos.Sound.Nodes.{Sound-known}
use esp_hostdriver.Bos.Sound.Fds.{Any, any, Held, held}
use esp_hostdriver.Net.Calls.{netfs_close}
use esp_hostdriver.Net.Sound.{
  Respect, Keeps-bos_socket, Keeps-bos_bind, Keeps-bos_accept, Keeps-bos_recvfrom,
}
use esp_hostdriver.Net.Sound.Setup.{Keeps-netdev_init}
use esp_hostdriver.Net.Sound.Driven.{
  Keeps-bos_net_configure, Keeps-bos_connect, Keeps-bos_listen, Keeps-bos_close, Keeps-bos_sendto,
  netfs_close-Sound,
}
use esp_hostdriver.Serial.Frame.{Keeps-serial_idle}
use esp_hostdriver.Esp.Frame.{Keeps-esp_client}
use esp_hostdriver.Esp.Driver.Frame.{Keeps-esp_ops}
use esp_hostdriver.Esp.Init.Frame.{Keeps-esp01_init}
use esp_hostdriver.Program.{
  Setting, drivers_of, Call, close_by_id, perform, boot, Reaches, at_start, after_call,
}

module _ {A : Type 0} {P : A → World → Type 0} {a : A} {w : World} where
  IfDone-out : IfDone P (done a w) → P a w
  IfDone-out (if_done p) = p

  pub IfDone-done : {r : Run A} → r ≡ done a w → IfDone P r → P a w
  IfDone-done e h = IfDone-out (subst (λ r. IfDone P r) e h)

find_fd-Held : (id : ℕ) (fds : List Filed) (fd : Filed) → find_fd id fds ≡ some fd → Held fd fds
unfolding find_fd
find_fd-Held id fds fd e = held (subst (λ i. find_fd i fds ≡ some fd) (sym (from fds e)) e)
  where
    from : (l : List Filed) → find_fd id l ≡ some fd → fd.id ≡ id
    from [] e = absurd cc
    from (x ∷ l) e = elim (Bool-cases (x.id == id)) [
      | inl y ↦
          (let q = rw y at e in
            let same : x ≡ fd = cc in sym (ap (λ f. f.id) same) ∙ eq_of_== x.id id y)
      | inr y ↦ from l (rw y at e)
    ]

module _ (s : Setting) where
  pub esp-Respect : Respect (drivers_of s)
  esp-Respect = record {
    respect = λ st number. Keeps-esp_ops st (Keeps-esp_client st s.idx s.junk s.dev) s.before;
  }

  Keeps-close_by_id : (fd_id : ℕ) → Keeps (Sound Any) (close_by_id (drivers_of s) fd_id)
  unfolding close_by_id fd_acquire
  Keeps-close_by_id fd_id = record { keeps = λ w h. from w h (find_fd fd_id w.fd_lst) refl }
    where
      from :
          (w : World)
          → Sound Any w
          → (o : Option Filed) → find_fd fd_id w.fd_lst ≡ o
          → IfDone
              (λ _ v. Sound Any v)
              ((elim o as (λ _. Cmd (Unit {0})) [
                | none ↦ pure tt
                | some fd ↦ (do _ ← netfs_close (drivers_of s) fd; pure tt)
              ])
                w)
      from w h none e = if_done h
      from w h (some fd) e =
          IfDone-and_then
            (netfs_close-Sound esp-Respect fd w (Sound-known (find_fd-Held fd_id w.fd_lst fd e) h))
            (λ _ v i. if_done i)

  ended : {A : Type 0} {m : Cmd A} → Keeps (Sound Any) m → Keeps (Sound Any) (m >> pure tt)
  ended h = Keeps-then h (Keeps-pure tt)

  Keeps-perform : (c : Call) → Keeps (Sound Any) (perform s c)
  unfolding perform
  Keeps-perform Call.init = ended Keeps-netdev_init
  Keeps-perform (Call.init_esp opened ops) = ended (Keeps-esp01_init opened s.zeroed ops s.before)
  Keeps-perform (Call.configure cfg cfg_size) =
      ended (Keeps-bos_net_configure esp-Respect cfg cfg_size)
  Keeps-perform (Call.socket domain ty) = ended (Keeps-bos_socket s.junk domain ty)
  Keeps-perform (Call.connect fd_id addr addr_len) =
      ended (Keeps-bos_connect esp-Respect fd_id addr addr_len)
  Keeps-perform (Call.bind fd_id addr addr_len) = ended (Keeps-bos_bind fd_id addr addr_len)
  Keeps-perform (Call.listen fd_id backlog) = ended (Keeps-bos_listen esp-Respect fd_id backlog)
  Keeps-perform (Call.accept fd_id wants_addr) = ended (Keeps-bos_accept fd_id wants_addr)
  Keeps-perform (Call.close fd_id) = ended (Keeps-bos_close esp-Respect fd_id)
  Keeps-perform (Call.sendto fd_id payload len addr addr_len) =
      ended (Keeps-bos_sendto esp-Respect fd_id payload len addr addr_len)
  Keeps-perform (Call.recvfrom fd_id len wants_addr) =
      ended (Keeps-bos_recvfrom fd_id len wants_addr)
  Keeps-perform (Call.close_file fd_id) = Keeps-close_by_id fd_id
  Keeps-perform (Call.idle k) =
      Keeps-serial_idle Sound-IsStable (Keeps-esp_client Sound-IsStable s.idx s.junk s.dev) k
        s.before

  Reaches-kept : (w v : World) → Sound Any w → Reaches s w v → Sound Any v
  Reaches-kept w v h at_start = h
  Reaches-kept w v h (after_call c r e) =
      IfDone-done e ((Keeps-perform c).keeps _ (Reaches-kept w _ h r))

pub boot-Sound : (b : ℕ) (line : SerialLine) → b < 2 ^ 32 → Sound Any (boot b line)
unfolding uses
boot-Sound b line h = record {
  ids = omega arith;
  refs = λ p. no_node;
  unused = λ p l. refl;
  room = omega arith;
  known = any;
}

-- In every state that a program over the ESP8266 driver reaches from boot, by whatever calls in
-- whatever order, with whatever bytes on the serial line and with every allocation free to fail, the
-- descriptors have ids in order below the counter, the reference count of each node is the number of
-- the descriptors that are of it, no descriptor is of a node that is not there, and `malloc` will
-- return no node's address: if there is memory for fewer than 2 ^ 32 objects.
pub Reaches-Sound :
    (s : Setting) (budget : ℕ) (line : SerialLine) (w : World)
    → budget < 2 ^ 32
    → Reaches s (boot budget line) w
    → Sound Any w
Reaches-Sound s budget line w h r = Reaches-kept s (boot budget line) w (boot-Sound budget line h) r
