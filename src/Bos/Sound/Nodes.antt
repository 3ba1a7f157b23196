-- ===== src/Bos/Sound/Nodes.antt =====
-- Making and destroying nodes, as bos/fs.c does it, keeps the reference counts sound.
use esp_hostdriver.Prelude.{
  ℕ, zero, suc, ◌+◌, ◌≤◌, ◌≡◌, refl, sym, ◌∙◌, inl, inr, Bool-cases, false, not, Option, none, some,
  List, [], ◌∷◌, ◌++◌, arith, ◌==◌, ltb, ==_ne, eq_of_==, if◌then◌else◌,
}
use esp_hostdriver.Prelude.Codes.{codes}
use esp_hostdriver.Host.{
  Ptr, FileType, ft_dir, ft_reg, ft_lnk, FsNode, Filed, World, Run, done, Cmd, pure, ◌>>=◌, ◌>>◌,
  and_then, expect, malloc, update, load_node, store_node, free_node, list_rm,
}
use esp_hostdriver.Host.Partial.{
  IfDone, if_done, if_fault, IfDone-mono, Keeps-regroup, Keeps, Keeps-pure, Keeps-fault, Keeps-if,
  Keeps-bind, Keeps-then,
}
use esp_hostdriver.Host.Ret.{Ret, ret, fail, is_zero}
use esp_hostdriver.Host.Stable.{Keeps-load_node}
use esp_hostdriver.Bos.{
  has_fs, add_child, node_create_plain, node_create, destroy_childs, destroy_rest, node_destroy,
  depth,
}
use esp_hostdriver.Bos.Sound.{
  uses, Counted, no_node, counted, Sound, Sound-node, Sound-IsStable, uses-Counted,
}

-- The address of a node that was not there.
Counted-new :
    {o : Option FsNode} {n : FsNode} {k : ℕ}
    → o ≡ none
    → n.ref_cnt ≡ 0
    → Counted o k
    → Counted (some n) k
Counted-new e z no_node = counted z
Counted-new e z (counted c) = absurd cc

Counted-free : {o : Option FsNode} {k : ℕ} → k ≡ 0 → Counted o k → Counted none k
Counted-free z no_node = no_node
Counted-free z (counted c) = rw z no_node

module _ {P : List Filed → Type 0} where
  -- `p` with other children.
  Keeps-childs :
      (p : Ptr) (f : List Ptr → List Ptr)
      → Keeps (Sound P) (load_node p >>= λ n. store_node p (record n { childs = f n.childs }))
  unfolding load_node store_node
  Keeps-childs p f = record { keeps = λ w s. from w s (w.nodes p) refl }
    where
      from :
          (w : World)
          → Sound P w
          → (o : Option FsNode) → w.nodes p ≡ o
          → IfDone
              (λ _ v. Sound P v)
              (and_then (expect o w) (λ n. store_node p (record n { childs = f n.childs })))
      from w s none e = if_fault
      from w s (some n) e = if_done (Sound-node w (record n { childs = f n.childs }) p e refl s)

  Keeps-add_child : (parent node : Ptr) → Keeps (Sound P) (add_child parent node)
  unfolding add_child
  Keeps-add_child parent node =
      Keeps-if (parent == 0) (Keeps-pure tt) (Keeps-childs parent (λ l. l ++ node ∷ []))

  Sound-malloc_node :
      (w : World) (b : ℕ) (n : FsNode)
      → w.budget ≡ suc b
      → n.ref_cnt ≡ 0
      → Sound P w
      → Sound P
          (record w { fresh = w.fresh + 1; budget = b; nodes = update w.nodes w.fresh (some n) })
  Sound-malloc_node w b n e z s = record {
    ids = s.ids;
    refs = refs;
    unused = unused;
    room = (let r = s.room in omega arith);
    known = s.known;
  }
    where
      refs : (q : Ptr) → Counted (update w.nodes w.fresh (some n) q) (uses q w.fd_lst)
      refs q = elim (Bool-cases (w.fresh == q)) [
        | inl y ↦ rw y (Counted-new (s.unused q (omega (arith, eq_of_== w.fresh q y))) z (s.refs q))
        | inr y ↦ rw y (s.refs q)
      ]

      unused : (q : Ptr) → w.fresh + 1 ≤ q → update w.nodes w.fresh (some n) q ≡ none
      unused q h = rw (==_ne w.fresh q (omega arith)) (s.unused q (omega arith))

  -- The node that `fs_node_create` makes, once there is an address for it.
  Keeps-new_node :
      (n : FsNode) (parent : Ptr)
      → n.ref_cnt ≡ 0
      → Keeps (Sound P) (do
        node ← malloc
        if node == 0 then pure 0 else (do store_node node n; add_child parent node; pure node))
  unfolding malloc store_node
  Keeps-new_node n parent z = record { keeps = λ w s. from w w.budget refl s }
    where
      from :
          (w : World) (b : ℕ)
          → w.budget ≡ b
          → Sound P w
          → IfDone
              (λ _ v. Sound P v)
              (and_then
                (elim b as (λ _. Run Ptr) [
                  | zero ↦ done 0 w
                  | suc k ↦ done w.fresh (record w { fresh = w.fresh + 1; budget = k })
                ])
                (λ node.
                  if node == 0
                  then pure 0
                  else (do store_node node n; add_child parent node; pure node)))
      from w zero e s = if_done s
      from w (suc k) e s = elim (Bool-cases (w.fresh == 0)) [
        | inl y ↦ rw y (if_done ((Sound-IsStable {P = P}).on_alloc k e s))
        | inr y ↦ rw y (
            (Keeps-then (Keeps-add_child parent w.fresh) (Keeps-pure w.fresh)).keeps _
              (Sound-malloc_node w k n e z s))
      ]

  Keeps-create_plain :
      (parent : Ptr) (name : List ℕ) (name_len : ℕ) (ty : FileType) (data' : Ptr) (fs_id : ℕ)
      → Keeps (Sound P) (node_create_plain parent name name_len ty data' fs_id)
  unfolding node_create_plain
  Keeps-create_plain parent name name_len ty data' fs_id =
      Keeps-if (ltb 32 (name_len + 1)) (Keeps-pure 0) (record {
        keeps = λ w s.
            (Keeps-if (not (has_fs fs_id w.fs_lst)) (Keeps-pure 0)
                (Keeps-new_node _ parent refl)).keeps
              w s;
      })

-- What is known besides may be forgotten, and learned.
pub Sound-known : {P Q : List Filed → Type 0} {w : World} → Q w.fd_lst → Sound P w → Sound Q w
Sound-known q s = record { ids = s.ids; refs = s.refs; unused = s.unused; room = s.room; known = q }

no_ref : (n : ℕ) → ltb 0 n ≡ false → n ≡ 0
no_ref n h = ground arith

-- No descriptor is of the node.
record Unused (P : List Filed → Type 0) (node : Ptr) (fds : List Filed) : Type 0 where
  besides : P fds
  no_use : uses node fds ≡ 0

module _ {P : List Filed → Type 0} where
  Keeps-free_node : (node : Ptr) → Keeps (Sound (Unused P node)) (free_node node)
  unfolding free_node
  Keeps-free_node node = record {
    keeps = λ w s. if_done (record {
      ids = s.ids;
      refs = refs w s;
      unused = unused w s;
      room = s.room;
      known = s.known;
    });
  }
    where
      refs :
          (w : World)
          → Sound (Unused P node) w
          → (q : Ptr) → Counted (update w.nodes node none q) (uses q w.fd_lst)
      refs w s q = elim (Bool-cases (node == q)) [
        | inl y ↦ rw y (Counted-free (rw (sym (eq_of_== node q y)) s.known.no_use) (s.refs q))
        | inr y ↦ rw y (s.refs q)
      ]

      unused :
          (w : World)
          → Sound (Unused P node) w
          → (q : Ptr) → w.fresh ≤ q
          → update w.nodes node none q ≡ none
      unused w s q h = elim (Bool-cases (node == q)) [
        | inl y ↦ rw y refl
        | inr y ↦ rw y (s.unused q h)
      ]

  Keeps-destroy_childs :
      (destroy : Ptr → Cmd Ret) (childs : List Ptr)
      → ((c : Ptr) → Keeps (Sound P) (destroy c))
      → Keeps (Sound P) (destroy_childs destroy childs)
  unfolding destroy_childs
  Keeps-destroy_childs destroy [] h = Keeps-pure (ret 0)
  Keeps-destroy_childs destroy (c ∷ cs) h =
      Keeps-bind (h c)
        (λ r. Keeps-if (is_zero r) (Keeps-destroy_childs destroy cs h) (Keeps-pure fail))

module _ {P : List Filed → Type 0} (destroy : Ptr → Cmd Ret) (node : Ptr)
    (h : (c : Ptr) → Keeps (Sound (Unused P node)) (destroy c)) where
  Keeps-destroy_rest : (n : FsNode) → Keeps (Sound (Unused P node)) (destroy_rest destroy node n)
  unfolding destroy_rest
  Keeps-destroy_rest n = Keeps-bind (Keeps-destroy_childs destroy n.childs h) (λ r.
      Keeps-if (is_zero r)
        (Keeps-regroup (load_node n.parent)
          (λ p. store_node n.parent (record p { childs = list_rm node p.childs }))
          (λ _. free_node node >> pure (ret 0))
          (Keeps-then (Keeps-childs n.parent (λ l. list_rm node l))
            (Keeps-then (Keeps-free_node node) (Keeps-pure (ret 0)))))
        (Keeps-pure fail))

  destroy_step :
      (w : World)
      → Sound P w
      → (o : Option FsNode) → w.nodes node ≡ o
      → IfDone
          (λ _ v. Sound P v)
          (and_then
            (expect o w)
            (λ n. if ltb 0 n.ref_cnt then pure fail else destroy_rest destroy node n))
  destroy_step w s none e = if_fault
  destroy_step w s (some n) e = elim (Bool-cases (ltb 0 n.ref_cnt)) [
    | inl y ↦ rw y (if_done s)
    | inr y ↦ rw y (
        IfDone-mono
          ((Keeps-destroy_rest n).keeps w (
            Sound-known
              (record {
                besides = s.known;
                no_use = sym (uses-Counted e (s.refs node)) ∙ no_ref n.ref_cnt y;
              })
              s))
          (λ _ v i. Sound-known i.known.besides i))
  ]

-- `fs_node_destroy` of a node that no descriptor is of, and of one that has some.
pub Keeps-node_destroy :
    (k : ℕ) (P : List Filed → Type 0) (node : Ptr) → Keeps (Sound P) (node_destroy k node)
unfolding node_destroy load_node
Keeps-node_destroy zero P node = Keeps-fault
Keeps-node_destroy (suc k) P node = record {
  keeps = λ w s.
      destroy_step (node_destroy k) node (λ c. Keeps-node_destroy k (Unused P node) c) w s
        (w.nodes node) refl;
}

module _ {P : List Filed → Type 0} where
  pub Keeps-node_create :
      (parent : Ptr) (name : List ℕ) (name_len : ℕ) (ty : FileType) (data' : Ptr) (fs_id : ℕ)
      → Keeps (Sound P) (node_create parent name name_len ty data' fs_id)
  unfolding node_create
  Keeps-node_create parent name name_len ft_dir data' fs_id =
      Keeps-bind (Keeps-create_plain parent name name_len ft_dir data' fs_id) (λ node.
        Keeps-if (node == 0) (Keeps-pure 0) (
          Keeps-bind (Keeps-create_plain node (codes ".") 1 ft_lnk node fs_id) (λ dot.
            Keeps-if (dot == 0) (undo node) (
              Keeps-if (parent == 0) (Keeps-pure node) (
                Keeps-bind (Keeps-load_node parent) (λ p.
                  Keeps-bind (Keeps-create_plain node (codes "..") 2 ft_lnk parent p.fs_id)
                    (λ dots. Keeps-if (dots == 0) (undo node) (Keeps-pure node))))))))
    where
      undo : (node : Ptr) → Keeps {A = Ptr} (Sound P) (node_destroy depth node >> pure 0)
      undo node = Keeps-then (Keeps-node_destroy depth P node) (Keeps-pure 0)
  Keeps-node_create parent name name_len ft_reg data' fs_id =
      Keeps-create_plain parent name name_len ft_reg data' fs_id
  Keeps-node_create parent name name_len ft_lnk data' fs_id =
      Keeps-create_plain parent name name_len ft_lnk data' fs_id
