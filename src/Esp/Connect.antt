-- ===== src/Esp/Connect.antt =====
-- `bos_connect` of net/netdev.c on the devices that esp01/esp01.c drives: from the choice of the device
-- to the command that `connect` sends.
use esp_hostdriver.Prelude.{ℕ, ◌≡◌, ◌≢◌, refl, none, some, List, map, ==_ne, ==_self, set}
use esp_hostdriver.Inet.{sizeof_sock_addr_inet}
use esp_hostdriver.Host.{
  Ptr, CmdResult, SockAddr, SockType, Socket, Netdev, Esp, World, done, load_node, load_sock,
  load_dev,
}
use esp_hostdriver.Host.Ret.{fail}
use esp_hostdriver.Bos.{fd_acquire}
use esp_hostdriver.Serial.Reader.{SerialClient}
use esp_hostdriver.Net.Device.{NetdevOps}
use esp_hostdriver.Net.Calls.{sock_of, bos_connect}
use esp_hostdriver.Net.Recv.{IsSock, with_sock}
use esp_hostdriver.Net.Refuse.{unassigned}
use esp_hostdriver.Net.Assign.{Devices, first_device, assign_netdev-first_device}
use esp_hostdriver.Esp.Links.{get_link_id}
use esp_hostdriver.Esp.Driver.{esp_connect}
use esp_hostdriver.Esp.Driver.Answer.{answered, IsComing}
use esp_hostdriver.Esp.Driver.Operations.{settle, connect_text, esp_connect_lem}

-- The device that `bos_connect` chooses for an address is driven by `esp_connect`, and `e` is the
-- driver's state.
pub record IsDriven (client : SerialClient) (before : List ℕ) (drivers : ℕ → NetdevOps) (w : World)
    (dev : Ptr) (e : Esp) : Type 0 where
  pub device : Netdev
  pub is_there : dev ≢ 0
  pub device_at : w.devs dev ≡ some device
  pub driver_at : w.esps device.data' ≡ some e
  pub connects : (drivers device.ops).connect ≡ some (esp_connect client before)

-- A socket with the device that is chosen for an address.
abbrev pub assigned : Socket → SockType → SockAddr → List (Ptr × Netdev) → Socket
assigned s ty addr ds = record s {
  dev = first_device addr sizeof_sock_addr_inet ds;
  ty = ty;
  addr = addr;
}

module _ (client : SerialClient) (before : List ℕ) (drivers : ℕ → NetdevOps) {w : World} {fd_id : ℕ}
    {sock : Ptr} (s : Socket) (ty : SockType) (addr : SockAddr) (ds : List (Ptr × Netdev)) where
  module _ (i : IsSock w fd_id sock (unassigned s ty)) (at : Devices w ds)
      (lst : w.dev_lst ≡ map (λ d. d.0) ds) (inet : addr.domain ≡ 0)
      (domain : s.addr.domain ≡ 0) where
    connect_of :
        {e : Esp} {r : CmdResult} {rest : List ℕ}
        (v : IsDriven client before drivers w (first_device addr sizeof_sock_addr_inet ds) e)
        → IsComing client before w none r rest
        → esp_connect client before sock (with_sock w sock (assigned s ty addr ds))
          ≡ elim (get_link_id e 0) [
            | none ↦ done fail (with_sock w sock (assigned s ty addr ds))
            | some k ↦
                settle r v.device.data'
                  (record e { links = set e.links k sock })
                  (answered
                    (with_sock w sock (assigned s ty addr ds))
                    none
                    (connect_text k ty addr)
                    r
                    rest)
          ]
    connect_of v c =
        esp_connect_lem client before {s = assigned s ty addr ds}
          (record {
            device = v.device;
            socket_at = rw (==_self sock) refl;
            device_at = v.device_at;
            driver_at = v.driver_at;
            data_of = refl;
          })
          (record {
            skipped = c.skipped;
            answer = c.answer;
            ignored = c.ignored;
            answers = c.answers;
            start = c.start;
            coming = c.coming;
          })

    -- `bos_connect` of a socket without a device, with an address that the device `v` is the first to
    -- match and whose command will be answered: the socket gets the device and the address, and keeps
    -- them whatever comes. Without a free link the call fails and sends nothing; else `AT+CIPSTART` is
    -- sent with the first free link, the socket's protocol, the port that was given and what `inet_ntoa`
    -- prints of the address that was given with a length of 15, which loses the last digit of an address
    -- of 15 characters; and exactly if the answer is `OK` the link is the socket's and the call returns 0.
    pub bos_connect-esp_connect :
        {e : Esp} {r : CmdResult} {rest : List ℕ}
        (v : IsDriven client before drivers w (first_device addr sizeof_sock_addr_inet ds) e)
        → IsComing client before w none r rest
        → bos_connect drivers fd_id addr sizeof_sock_addr_inet w ≡ elim (get_link_id e 0) [
          | none ↦ done fail (with_sock w sock (assigned s ty addr ds))
          | some k ↦
              settle r v.device.data'
                (record e { links = set e.links k sock })
                (answered
                  (with_sock w sock (assigned s ty addr ds))
                  none
                  (connect_text k ty addr)
                  r
                  rest)
        ]
    unfolding bos_connect fd_acquire sock_of load_node load_sock load_dev
    bos_connect-esp_connect v c = rw i.fd_at (
        rw i.node_at (
          rw i.sock_at (
            rw
              (assign_netdev-first_device w addr sizeof_sock_addr_inet inet sock (unassigned s ty)
                ds at lst i.sock_at domain)
              (rw (==_ne _ 0 v.is_there)
                (rw (==_self sock) (rw v.device_at (rw v.connects (connect_of v c))))))))
