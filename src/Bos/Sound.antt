-- ===== src/Bos/Sound.antt =====
-- The reference counts of bos/fs.c: `ref_cnt` of a node is the number of its descriptors.
pub mod Nodes
pub mod Fds
use esp_hostdriver.Prelude.{
  ℕ, zero, suc, ◌+◌, ◌^◌, ◌≤◌, ◌<◌, ◌≡◌, refl, sym, ap, ◌∙◌, inl, inr, Bool-cases, Bool, true,
  false, Option, none, some, List, [], ◌∷◌, ◌++◌, arith, ◌==◌, ==_ne, ==_self, eq_of_==,
  if◌then◌else◌, length,
}
use esp_hostdriver.Host.{Ptr, Fs, FsNode, Netdev, Esp, Filed, World, update}
use esp_hostdriver.Host.Stable.{IsStable}
use esp_hostdriver.Bos.Descriptors.{Ascending}

-- How many of the descriptors are of the node `p`.
unfoldable pub uses : Ptr → List Filed → ℕ
uses p [] = 0
uses p (fd ∷ fds) = (if fd.node == p then 1 else 0) + uses p fds

-- The node's count is `k`, and one that is not there has no descriptor.
pub data Counted : Option FsNode → ℕ → Type 0 where
  no_node : Counted none 0
  counted : {n : FsNode} {k : ℕ} → n.ref_cnt ≡ k → Counted (some n) k

-- The ids of the descriptors are in order, each node counts its descriptors, what `malloc` will return
-- is not in use, and there is memory for fewer descriptors than a count can hold. `P` is what else is
-- known of the list of descriptors.
pub record Sound (P : List Filed → Type 0) (w : World) : Type 0 where
  pub ids : Ascending 0 w.fd_lst w.fd_count
  pub refs : (p : Ptr) → Counted (w.nodes p) (uses p w.fd_lst)
  pub unused : (p : Ptr) → w.fresh ≤ p → w.nodes p ≡ none
  pub room : length w.fd_lst + w.budget < 2 ^ 32
  pub known : P w.fd_lst

pub Counted-same :
    {o : Option FsNode} {n m : FsNode} {k : ℕ}
    → o ≡ some n
    → m.ref_cnt ≡ n.ref_cnt
    → Counted o k
    → Counted (some m) k
Counted-same e same no_node = absurd cc
Counted-same e same (counted c) = counted cc

pub uses-Counted :
    {o : Option FsNode} {n : FsNode} {k : ℕ} → o ≡ some n → Counted o k → n.ref_cnt ≡ k
uses-Counted e no_node = absurd cc
uses-Counted e (counted c) = cc

module _ {P : List Filed → Type 0} (w : World) where
  Counted-node :
      {n : FsNode} (m : FsNode) (p : Ptr)
      → w.nodes p ≡ some n
      → m.ref_cnt ≡ n.ref_cnt
      → Sound P w
      → (q : Ptr) → Counted (update w.nodes p (some m) q) (uses q w.fd_lst)
  Counted-node {n} m p e same s q = elim (Bool-cases (p == q)) [
    | inl y ↦ rw y (Counted-same (sym (ap w.nodes (eq_of_== p q y)) ∙ e) same (s.refs q))
    | inr y ↦ rw y (s.refs q)
  ]

  unused-node :
      {n : FsNode} (m : FsNode) (p : Ptr)
      → w.nodes p ≡ some n
      → Sound P w
      → (q : Ptr) → w.fresh ≤ q
      → update w.nodes p (some m) q ≡ none
  unused-node {n} m p e s q h = elim (Bool-cases (p == q)) [
    | inl y ↦
        (let absent : some n ≡ none = sym e ∙ (ap w.nodes (eq_of_== p q y) ∙ s.unused q h) in
          absurd cc)
    | inr y ↦ rw y (s.unused q h)
  ]

  -- A new value of a node that is there, with the same count.
  pub Sound-node :
      {n : FsNode} (m : FsNode) (p : Ptr)
      → w.nodes p ≡ some n
      → m.ref_cnt ≡ n.ref_cnt
      → Sound P w
      → Sound P (record w { nodes = update w.nodes p (some m) })
  Sound-node m p e same s = record {
    ids = s.ids;
    refs = Counted-node m p e same s;
    unused = unused-node m p e s;
    room = s.room;
    known = s.known;
  }

  Sound-alloc :
      (b : ℕ)
      → w.budget ≡ suc b
      → Sound P w
      → Sound P (record w { fresh = w.fresh + 1; budget = b })
  Sound-alloc b e s = record {
    ids = s.ids;
    refs = s.refs;
    unused = λ q h. s.unused q (omega arith);
    room = (let r = s.room in omega arith);
    known = s.known;
  }

pub Sound-IsStable : {P : List Filed → Type 0} → IsStable (Sound P)
Sound-IsStable = record {
  on_serial = λ line no_more s. record {
    ids = s.ids;
    refs = s.refs;
    unused = s.unused;
    room = s.room;
    known = s.known;
  };
  on_socks = λ f s. record {
    ids = s.ids;
    refs = s.refs;
    unused = s.unused;
    room = s.room;
    known = s.known;
  };
  on_esps = λ f s. record {
    ids = s.ids;
    refs = s.refs;
    unused = s.unused;
    room = s.room;
    known = s.known;
  };
  on_alloc = λ b e s. Sound-alloc _ b e s;
  on_data = λ p d e s. Sound-node _ _ p e refl s;
}

-- What set-up writes.
pub Sound-setup :
    {P : List Filed → Type 0} {w : World} (fs : List Fs) (id : ℕ) (root : Ptr)
    (devs : Ptr → Option Netdev) (lst : List Ptr) (esps : Ptr → Option Esp) (count : ℕ)
    → Sound P w
    → Sound P (record w {
      fs_lst = fs;
      netfs_id = id;
      net_root = root;
      devs = devs;
      dev_lst = lst;
      esps = esps;
      sock_count = count;
    })
Sound-setup fs id root devs lst esps count s = record {
  ids = s.ids;
  refs = s.refs;
  unused = s.unused;
  room = s.room;
  known = s.known;
}
