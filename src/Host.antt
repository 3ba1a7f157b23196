-- ===== src/Host.antt =====
-- The state that the components share: file system, sockets, devices, driver and serial line, each
-- object at its address, and the commands that read and write it.
pub mod Ret
pub mod Partial
pub mod Stable
use esp_hostdriver.Prelude.{
  ℕ, zero, suc, ◌+◌, Bool, true, false, Option, none, some, List, [], ◌∷◌, ◌==◌, if◌then◌else◌,
}
use esp_hostdriver.Inet.{InetData, InetDevCfg}
use esp_hostdriver.Sys.Ringbuf.{Ringbuf}

-- An address of an object; 0 is the null pointer. What `malloc` returns was never in use before.
abbrev pub Ptr : Type 0
Ptr = ℕ

-- `file_type_t`, of which the program uses three.
pub data FileType : Type 0 where
  ft_dir ft_reg ft_lnk : FileType

-- `fs_ops_t`: which of the callbacks are set. bos/fs.c looks at no more of them.
pub record FsOps : Type 0 where
  pub has_open : Bool
  pub has_close : Bool

-- `fs_t`
pub record Fs : Type 0 where
  pub id : ℕ
  pub ops : FsOps

-- `fs_node_t`. `data` points to a socket in a socket's node, and to a node in a link.
pub record FsNode : Type 0 where
  pub fs_id : ℕ
  pub data' : Ptr
  pub ref_cnt : ℕ
  pub ty : FileType
  pub childs : List Ptr
  pub parent : Ptr
  pub name : List ℕ

-- `fs_filed_t`
pub record Filed : Type 0 where
  pub id : ℕ
  pub fp : ℕ
  pub node : Ptr
  pub mode : ℕ
  pub mode_mask : ℕ

-- `sock_addr_inet_t`, the one kind of `sock_addr_t` that there is
pub record SockAddr : Type 0 where
  pub domain : ℕ
  pub inet : InetData

-- `datagram_t`
pub record Datagram : Type 0 where
  pub idx : ℕ
  pub payload : List ℕ
  pub addr : SockAddr

-- `sock_type_t`
pub data SockType : Type 0 where
  stream dgram : SockType

-- `socket_t`
pub record Socket : Type 0 where
  pub dev : Ptr
  pub ring : Ringbuf
  pub dgrams : List Datagram
  pub clients : List Ptr
  pub ty : SockType
  pub addr : SockAddr

-- `netdev_t`; `ops` names the driver's table of operations, `data` is the driver's own.
pub record Netdev : Type 0 where
  pub domain : ℕ
  pub ops : ℕ
  pub data' : Ptr
  pub cfg : InetDevCfg

-- `esp_t`; the serial line is the one of the state below.
pub record Esp : Type 0 where
  pub links : List Ptr
  pub tcp_server : Ptr

-- `result_t`
pub data CmdResult : Type 0 where
  inval ok err busy : CmdResult

-- The variables of esp01/serial.c and the two directions of the line: `input` is what the device
-- will still send, behind which a read fails if `hangup`, and else waits for ever; `output` is what
-- was written to it. `line` is the line that the reader has in part.
pub record SerialLine : Type 0 where
  pub response : Option (List ℕ)
  pub cmd_result : CmdResult
  pub line : List ℕ
  pub input : List ℕ
  pub hangup : Bool
  pub output : List ℕ

pub record World : Type 0 where
  pub fresh : Ptr
  -- how many more calls of `malloc` succeed
  pub budget : ℕ
  pub fs_lst : List Fs
  pub fd_lst : List Filed
  pub fd_count : ℕ
  pub nodes : Ptr → Option FsNode
  pub socks : Ptr → Option Socket
  pub devs : Ptr → Option Netdev
  pub dev_lst : List Ptr
  pub esps : Ptr → Option Esp
  pub netfs_id : ℕ
  pub net_root : Ptr
  pub sock_count : ℕ
  pub serial : SerialLine

-- How a call ends. A fault is undefined behaviour, such as a read through a null or dangling pointer;
-- `blocked` is a wait for input that never comes.
pub data Run (A : Type 0) : Type 0 where
  done : A → World → Run A
  fault : Run A
  blocked : Run A

abbrev pub Cmd : Type 0 → Type 0
Cmd A = World → Run A

abbrev pub pure : {A : Type 0} → A → Cmd A
pure = done

abbrev pub and_then : {A B : Type 0} → Run A → (A → Cmd B) → Run B
and_then (done a w) f = f a w
and_then fault f = fault
and_then blocked f = blocked

infixl 5 ◌>>=◌ ◌>>◌
abbrev pub ◌>>=◌ : {A B : Type 0} → Cmd A → (A → Cmd B) → Cmd B
m >>= f = λ w. and_then (m w) f

abbrev pub ◌>>◌ : {A B : Type 0} → Cmd A → Cmd B → Cmd B
m >> k = m >>= λ _. k

abbrev pub get : Cmd World
get w = done w w

abbrev pub put : World → Cmd (Unit {0})
put w' w = done tt w'

abbrev pub expect : {A : Type 0} → Option A → Cmd A
expect none = λ _. fault
expect (some a) = done a

-- `f` but for `c` at `p`.
abbrev pub update : {A : Type 0} → (Ptr → Option A) → Ptr → Option A → Ptr → Option A
update f p c q = if p == q then c else f q

-- A list without the pointer: `list_rm`.
abbrev pub list_rm : Ptr → List Ptr → List Ptr
list_rm p [] = []
list_rm p (x ∷ xs) = if x == p then xs else x ∷ list_rm p xs

-- `list_first`
abbrev pub list_first : List Ptr → Ptr
list_first [] = 0
list_first (x ∷ xs) = x

-- `malloc`: a new address, or null.
unfoldable pub malloc : Cmd Ptr
malloc w = elim w.budget [
  | zero ↦ done 0 w
  | suc n ↦ done w.fresh (record w { fresh = w.fresh + 1; budget = n })
]

-- `*p` of each kind of object, and its new value.
unfoldable pub load_node : Ptr → Cmd FsNode
load_node p = do w ← get; expect (w.nodes p)

unfoldable pub store_node : Ptr → FsNode → Cmd (Unit {0})
store_node p n w = done tt (record w { nodes = update w.nodes p (some n) })

unfoldable pub free_node : Ptr → Cmd (Unit {0})
free_node p w = done tt (record w { nodes = update w.nodes p none })

unfoldable pub load_sock : Ptr → Cmd Socket
load_sock p = do w ← get; expect (w.socks p)

unfoldable pub store_sock : Ptr → Socket → Cmd (Unit {0})
store_sock p s w = done tt (record w { socks = update w.socks p (some s) })

unfoldable pub load_dev : Ptr → Cmd Netdev
load_dev p = do w ← get; expect (w.devs p)

unfoldable pub load_esp : Ptr → Cmd Esp
load_esp p = do w ← get; expect (w.esps p)

unfoldable pub store_esp : Ptr → Esp → Cmd (Unit {0})
store_esp p e w = done tt (record w { esps = update w.esps p (some e) })

-- The run ends, and its result and final state satisfy the postcondition.
pub data Ends {A : Type 0} (P : A → World → Type 0) : Run A → Type 0 where
  ends : {a : A} {w : World} → P a w → Ends P (done a w)

module _ {A : Type 0} {P : A → World → Type 0} where
  pub bind :
      {B : Type 0} {Q : B → World → Type 0} {r : Run A} {f : A → Cmd B}
      → Ends P r
      → ((a : A) (w : World) → P a w → Ends Q (f a w))
      → Ends Q (and_then r f)
  bind (ends p) next = next _ _ p

  pub mono :
      {Q : A → World → Type 0} {r : Run A}
      → Ends P r
      → ((a : A) (w : World) → P a w → Q a w)
      → Ends Q r
  mono (ends p) weaken = ends (weaken _ _ p)
