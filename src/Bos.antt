-- ===== src/Bos.antt =====
-- bos/fs.c: file systems, descriptors and the node tree.
pub mod Descriptors
pub mod Sound
mod Tests
use Prim.Native.Nat.{bit_and, bit_or}
use esp_hostdriver.Prelude.{
  ℕ, zero, suc, ◌+◌, ◌-◌, ◌%◌, ◌^◌, ◌≡◌, Bool, true, false, not, ◌||◌, Option, none, some, List, [],
  ◌∷◌, ◌++◌, ◌==◌, ltb, leb, if◌then◌else◌, take,
}
use esp_hostdriver.Prelude.Codes.{codes}
use esp_hostdriver.Host.{
  Ptr, FileType, ft_dir, ft_lnk, FsOps, Fs, FsNode, Filed, World, Cmd, pure, fault, ◌>>=◌, ◌>>◌,
  get, put, expect, malloc, load_node, store_node, free_node, list_rm,
}
use esp_hostdriver.Host.Ret.{Ret, ret, fail, is_zero}

-- `FMODE_DEFAULT`, which is `O_NONBLOCK`, and `O_RDWR`
abbrev pub fmode_default : ℕ
fmode_default = 0x10

abbrev pub o_rdwr : ℕ
o_rdwr = 0xc

-- `list_last(fs_lst)->id + 1`, or 0 for the first file system.
unfoldable pub next_fs_id : List Fs → ℕ
next_fs_id [] = 0
next_fs_id (f ∷ []) = (f.id + 1) % 2 ^ 32
next_fs_id (f ∷ g ∷ fs) = next_fs_id (g ∷ fs)

-- `fs_register`. An id of 2 ^ 31 or more is a negative `int`. The null pointer for `ops` is `none`.
unfoldable pub register : Option FsOps → Cmd Ret
unfolding next_fs_id
register ops = do
  w ← get
  let id = next_fs_id w.fs_lst
  if leb (2 ^ 31) id then pure fail else elim ops [
    | none ↦ pure fail
    | some o ↦ if not o.has_open || not o.has_close then pure fail else (do
      fs ← malloc
      if fs == 0 then pure fail else (do
        w ← get
        put (record w { fs_lst = w.fs_lst ++ record { id = id; ops = o } ∷ [] })
        pure (ret id)))
  ]

-- `fs_fd_alloc`: the descriptor, or none. `mode & ~mode_mask` of words is taken bit by bit. The counter
-- is an int, and one more than the largest int is undefined.
unfoldable pub fd_alloc : Ptr → ℕ → ℕ → Cmd (Option Filed)
fd_alloc node mode mode_mask = do
  w ← get
  if leb (2 ^ 31 - 1) w.fd_count then (λ _. fault) else (do
    let id = w.fd_count + 1
    put (record w { fd_count = id })
    p ← malloc
    if p == 0 then pure none else (do
      let fd : Filed = record {
        id = id;
        fp = 0;
        node = node;
        mode = bit_or (mode - bit_and mode mode_mask) (bit_and fmode_default mode_mask);
        mode_mask = mode_mask;
      }
      w ← get
      put (record w { fd_lst = w.fd_lst ++ fd ∷ [] })
      n ← load_node node
      store_node node (record n { ref_cnt = (n.ref_cnt + 1) % 2 ^ 32 })
      pure (some fd)))

-- `list_rm(fd_lst, fd)`: a descriptor is told from the others by its id.
unfoldable pub rm_fd : ℕ → List Filed → List Filed
rm_fd id [] = []
rm_fd id (fd ∷ fds) = if fd.id == id then fds else fd ∷ rm_fd id fds

-- `fs_fd_free`
unfoldable pub fd_free : Filed → Cmd (Unit {0})
unfolding rm_fd
fd_free fd = do
  w ← get
  put (record w { fd_lst = rm_fd fd.id w.fd_lst })
  n ← load_node fd.node
  store_node fd.node (record n { ref_cnt = (n.ref_cnt + 2 ^ 32 - 1) % 2 ^ 32 })

-- `list_find(fd_lst, id, id)`
unfoldable pub find_fd : ℕ → List Filed → Option Filed
find_fd id [] = none
find_fd id (fd ∷ fds) = if fd.id == id then some fd else find_fd id fds

-- `fs_fd_acquire`
unfoldable pub fd_acquire : ℕ → Cmd (Option Filed)
unfolding find_fd
fd_acquire id = do w ← get; pure (find_fd id w.fd_lst)

-- `fs_fd_release`
unfoldable pub fd_release : Filed → Cmd (Unit {0})
fd_release fd = pure tt

-- The search of `fs_lst` in `fs_node_create`.
unfoldable pub has_fs : ℕ → List Fs → Bool
has_fs id [] = false
has_fs id (f ∷ fs) = if f.id == id then true else has_fs id fs

-- `list_add_tail(parent->childs, node)`
unfoldable pub add_child : Ptr → Ptr → Cmd (Unit {0})
add_child parent node =
    if parent == 0
    then pure tt
    else (do p ← load_node parent; store_node parent (record p { childs = p.childs ++ node ∷ [] }))

-- `fs_node_create` but for the nodes `.` and `..` that a directory gets; of a node that is no
-- directory this is all.
unfoldable pub node_create_plain : Ptr → List ℕ → ℕ → FileType → Ptr → ℕ → Cmd Ptr
unfolding has_fs add_child
node_create_plain parent name name_len ty data' fs_id =
    if ltb 32 (name_len + 1) then pure 0 else (do
      w ← get
      if not (has_fs fs_id w.fs_lst) then pure 0 else (do
        node ← malloc
        if node == 0 then pure 0 else (do
          store_node node (record {
            fs_id = fs_id;
            data' = data';
            ref_cnt = 0;
            ty = ty;
            childs = [];
            parent = parent;
            name = take name_len name;
          })
          add_child parent node
          pure node)))

-- The loop of `fs_node_destroy` over the children, `destroy` being its recursive call. The list macro
-- reads `next` ahead of the body, so the children are those that there were at the start.
unfoldable pub destroy_childs : (Ptr → Cmd Ret) → List Ptr → Cmd Ret
destroy_childs destroy [] = pure (ret 0)
destroy_childs destroy (c ∷ cs) = do
  r ← destroy c
  if is_zero r then destroy_childs destroy cs else pure fail

-- `fs_node_destroy` behind its test of the count, `destroy` being its recursive call.
unfoldable pub destroy_rest : (Ptr → Cmd Ret) → Ptr → FsNode → Cmd Ret
unfolding destroy_childs
destroy_rest destroy node n = do
  r ← destroy_childs destroy n.childs
  if is_zero r
      then (do
        p ← load_node n.parent
        store_node n.parent (record p { childs = list_rm node p.childs })
        free_node node
        pure (ret 0))
      else pure fail

-- `fs_node_destroy`, with fuel for the depth of the tree; a lack of fuel is a fault of the model.
unfoldable pub node_destroy : ℕ → Ptr → Cmd Ret
unfolding destroy_rest
node_destroy zero node = λ _. fault
node_destroy (suc k) node = do
  n ← load_node node
  if ltb 0 n.ref_cnt then pure fail else destroy_rest (node_destroy k) node n

-- Deeper than the tree of this program: the root, its sockets and links.
abbrev pub depth : ℕ
depth = 4

-- `fs_node_create`
unfoldable pub node_create : Ptr → List ℕ → ℕ → FileType → Ptr → ℕ → Cmd Ptr
unfolding node_create_plain node_destroy
node_create parent name name_len ft_dir data' fs_id = do
  node ← node_create_plain parent name name_len ft_dir data' fs_id
  if node == 0 then pure 0 else (do
    dot ← node_create_plain node (codes ".") 1 ft_lnk node fs_id
    if dot == 0
        then (do node_destroy depth node; pure 0)
        else if parent == 0
        then pure node
        else (do
          p ← load_node parent
          dots ← node_create_plain node (codes "..") 2 ft_lnk parent p.fs_id
          if dots == 0 then (do node_destroy depth node; pure 0) else pure node))
node_create parent name name_len ty data' fs_id =
    node_create_plain parent name name_len ty data' fs_id
