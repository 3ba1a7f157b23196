-- ===== src/Net/Refuse.antt =====
-- Sockets without a device, and what `bos_close` of net/netdev.c leaves of one with a device.
use esp_hostdriver.Prelude.{
  ℕ, suc, inl, inr, Bool-cases, ◌<◌, ◌≡◌, ◌≢◌, refl, true, some, arith, ltb, ==_ne, if◌then◌else◌,
}
use esp_hostdriver.Host.{
  Ptr, FsNode, SockType, Socket, Netdev, World, done, Cmd, pure, ◌>>◌, load_node, load_sock,
  load_dev,
}
use esp_hostdriver.Host.Ret.{Ret, fail, is_zero}
use esp_hostdriver.Bos.{fd_acquire, depth, node_destroy}
use esp_hostdriver.Net.Device.{NetdevOps}
use esp_hostdriver.Net.Calls.{bos_close}
use esp_hostdriver.Net.Recv.{IsSock}

-- A socket without a device.
abbrev pub unassigned : Socket → SockType → Socket
unassigned s ty = record s { dev = 0; ty = ty }

-- A node with users is not destroyed.
node_destroy-used :
    {v : World} {n : FsNode} (node k : ℕ)
    → v.nodes node ≡ some n
    → 0 < n.ref_cnt
    → node_destroy (suc k) node v ≡ done fail v
unfolding node_destroy load_node
node_destroy-used {n = n} node k at used =
    let test : ltb 0 n.ref_cnt ≡ true = ground arith in rw at (rw test refl)

module _ (drivers : ℕ → NetdevOps) {w : World} {fd_id : ℕ} {sock : Ptr} (s : Socket) where
  -- `bos_close` of a socket with a device returns what the driver's `close` returns, and leaves the
  -- state as the driver left it, if the driver leaves the socket's node with a user: also if it closes
  -- the socket, the node and the descriptor stay.
  pub bos_close-keeps :
      {d : Netdev} {op : Ptr → Cmd Ret} {r : Ret} {v : World} {n : FsNode}
      (i : IsSock w fd_id sock s)
      → s.dev ≢ 0
      → w.devs s.dev ≡ some d
      → (drivers d.ops).close ≡ some op
      → op sock w ≡ done r v
      → v.nodes i.fd.node ≡ some n
      → 0 < n.ref_cnt
      → bos_close drivers fd_id w ≡ done r v
  unfolding bos_close fd_acquire load_node load_sock load_dev
  bos_close-keeps {d} {op} {r} {v} {n} i dev dev_at op_at ran node_at used = rw i.fd_at (
      rw i.node_at (
        rw (==_ne sock 0 i.some_sock)
          (rw i.sock_at (rw (==_ne s.dev 0 dev) (rw dev_at (rw op_at (rw ran (ending r))))))))
    where
      ending :
          (q : Ret)
          → (if is_zero q then node_destroy depth i.fd.node >> pure r else pure r) v ≡ done r v
      ending q = elim (Bool-cases (is_zero q)) [
        | inl e ↦ rw e (rw (node_destroy-used {v = v} {n = n} i.fd.node 3 node_at used) refl)
        | inr e ↦ rw e refl
      ]
