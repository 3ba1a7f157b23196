-- ===== src/Bos/Sound/Fds.antt =====
-- Opening and freeing descriptors, as bos/fs.c does it, keeps the reference counts sound.
use esp_hostdriver.Prelude.{
  ℕ, suc, ◌+◌, ◌-◌, ◌%◌, ◌^◌, ◌≤◌, ◌≡◌, refl, ap, inl, inr, Bool-cases, Option-cases, some, List,
  [], ◌∷◌, ◌++◌, arith, ◌==◌, eq_of_==, if◌then◌else◌, length, length-append, leb,
}
use esp_hostdriver.Host.{Ptr, FsNode, Filed, World, malloc, update, load_node, store_node}
use esp_hostdriver.Host.Partial.{IfDone, if_done, if_fault, Keeps}
use esp_hostdriver.Bos.{fd_alloc, fd_free, rm_fd, find_fd}
use esp_hostdriver.Bos.Descriptors.{Ascending-raise, Ascending-snoc, rm_fd-Ascending, ℕ-cases}
use esp_hostdriver.Bos.Sound.{
  uses, Counted, counted, uses-Counted, unused-node, Sound, Sound-IsStable,
}

-- Nothing is known besides.
pub data Any (fds : List Filed) : Type 0 where
  any : Any fds

-- The descriptor is in the list, under its id.
pub data Held (fd : Filed) (fds : List Filed) : Type 0 where
  held : find_fd fd.id fds ≡ some fd → Held fd fds

one : Ptr → Ptr → ℕ
one a p = if a == p then 1 else 0

module _ (p : Ptr) where
  uses-append :
      (fds : List Filed) (fd : Filed) → uses p (fds ++ fd ∷ []) ≡ uses p fds + one fd.node p
  unfolding uses one
  uses-append [] fd = omega arith
  uses-append (x ∷ fds) fd = omega (arith, uses-append fds fd)

  uses-length : (fds : List Filed) → uses p fds ≤ length fds
  unfolding uses
  uses-length [] = omega arith
  uses-length (x ∷ fds) = elim (Bool-cases (x.node == p)) [
    | inl e ↦ rw e (omega (arith, uses-length fds))
    | inr e ↦ rw e (omega (arith, uses-length fds))
  ]

  uses-rm_fd :
      (fds : List Filed) (fd : Filed)
      → find_fd fd.id fds ≡ some fd
      → uses p (rm_fd fd.id fds) + one fd.node p ≡ uses p fds
  unfolding uses one rm_fd find_fd
  uses-rm_fd [] fd e = absurd cc
  uses-rm_fd (x ∷ fds) fd e = elim (Bool-cases (x.id == fd.id)) [
    | inl y ↦
        (let q = rw y at e in let same : x ≡ fd = cc in rw (y, ap (λ f. f.node) same) (omega arith))
    | inr y ↦ (let q = rw y at e in rw y (omega (arith, uses-rm_fd fds fd q)))
  ]

length-rm_fd : (id : ℕ) (fds : List Filed) → length (rm_fd id fds) ≤ length fds
unfolding rm_fd
length-rm_fd id [] = omega arith
length-rm_fd id (x ∷ fds) = elim (Bool-cases (x.id == id)) [
  | inl e ↦ rw e (omega arith)
  | inr e ↦ rw e (omega (arith, length-rm_fd id fds))
]

module _ (w : World) where
  -- The state with a descriptor more, which took memory from a budget of `b + 1`.
  opened : Filed → FsNode → ℕ → World
  opened fd n b = record w {
    fresh = w.fresh + 1;
    budget = b;
    fd_count = w.fd_count + 1;
    fd_lst = w.fd_lst ++ fd ∷ [];
    nodes = update w.nodes fd.node (some (record n { ref_cnt = (n.ref_cnt + 1) % 2 ^ 32 }));
  }

  module _ (fd : Filed) (n : FsNode) (b : ℕ) (there : w.nodes fd.node ≡ some n)
      (room : w.budget ≡ suc b) (s : Sound Any w) where
    Counted-opened :
        (q : Ptr)
        → Counted
            (update w.nodes fd.node (some (record n { ref_cnt = (n.ref_cnt + 1) % 2 ^ 32 })) q)
            (uses q (w.fd_lst ++ fd ∷ []))
    unfolding one
    Counted-opened q = elim (Bool-cases (fd.node == q)) [
      | inl y ↦
          (let number : n.ref_cnt ≡ uses q w.fd_lst =
              uses-Counted there (rw (eq_of_== fd.node q y) (s.refs q)) in
            let more : uses q (w.fd_lst ++ fd ∷ []) ≡ uses q w.fd_lst + 1 =
              rw y at (uses-append q w.fd_lst fd) in
            let few = uses-length q w.fd_lst in
            let r = s.room in rw (y, more) (counted (omega arith)))
      | inr y ↦
          (let more : uses q (w.fd_lst ++ fd ∷ []) ≡ uses q w.fd_lst + 0 =
              rw y at (uses-append q w.fd_lst fd) in
            let same : uses q (w.fd_lst ++ fd ∷ []) ≡ uses q w.fd_lst = omega arith in
            rw (y, same) (s.refs q))
    ]

    Sound-opened : fd.id ≡ w.fd_count + 1 → Sound Any (opened fd n b)
    unfolding opened
    Sound-opened e = record {
      ids = Ascending-snoc w.fd_count 0 w.fd_lst fd s.ids e;
      refs = Counted-opened;
      unused = λ q h. unused-node w _ fd.node there s q (omega arith);
      room = (let r = s.room in omega (arith, length-append w.fd_lst (fd ∷ [])));
      known = any;
    }

  -- The state with an id spent.
  Sound-counter : Sound Any w → Sound Any (record w { fd_count = w.fd_count + 1 })
  Sound-counter s = record {
    ids = Ascending-raise w.fd_count 0 w.fd_lst s.ids;
    refs = s.refs;
    unused = s.unused;
    room = s.room;
    known = any;
  }

pub Keeps-fd_alloc :
    (node : Ptr) (mode mode_mask : ℕ) → Keeps (Sound Any) (fd_alloc node mode mode_mask)
unfolding fd_alloc malloc load_node store_node opened
Keeps-fd_alloc node mode mode_mask = record {
  keeps = λ w s. elim (Bool-cases (leb (2 ^ 31 - 1) w.fd_count)) [
    | inl over ↦ rw over if_fault
    | inr below ↦ rw below (elim (ℕ-cases w.budget) [
      | inl out ↦ rw out (if_done (Sound-counter w s))
      | inr (b, room) ↦ rw room (elim (Bool-cases (w.fresh == 0)) [
        | inl e ↦ rw e (if_done (Sound-IsStable.on_alloc b room (Sound-counter w s)))
        | inr e ↦ rw e (elim (Option-cases (w.nodes node)) [
          | inl absent ↦ rw absent if_fault
          | inr (n, there) ↦ rw there (if_done (Sound-opened w _ n b there room s refl))
        ])
      ])
    ])
  ];
}

module _ (w : World) (fd : Filed) (n : FsNode) (there : w.nodes fd.node ≡ some n)
    (s : Sound (Held fd) w) where
  found : find_fd fd.id w.fd_lst ≡ some fd
  found = elim s.known [ held e ↦ e ]

  Counted-freed :
      (q : Ptr)
      → Counted
          (update w.nodes fd.node
            (some (record n { ref_cnt = (n.ref_cnt + 2 ^ 32 - 1) % 2 ^ 32 }))
            q)
          (uses q (rm_fd fd.id w.fd_lst))
  unfolding one
  Counted-freed q = elim (Bool-cases (fd.node == q)) [
    | inl y ↦
        (let number : n.ref_cnt ≡ uses q w.fd_lst =
            uses-Counted there (rw (eq_of_== fd.node q y) (s.refs q)) in
          let more : uses q (rm_fd fd.id w.fd_lst) + 1 ≡ uses q w.fd_lst =
            rw y at (uses-rm_fd q w.fd_lst fd found) in
          let few = uses-length q w.fd_lst in let r = s.room in rw y (counted (omega arith)))
    | inr y ↦
        (let more : uses q (rm_fd fd.id w.fd_lst) + 0 ≡ uses q w.fd_lst =
            rw y at (uses-rm_fd q w.fd_lst fd found) in
          let same : uses q (rm_fd fd.id w.fd_lst) ≡ uses q w.fd_lst = omega arith in
          rw (y, same) (s.refs q))
  ]

  Sound-freed : Sound Any (record w {
    fd_lst = rm_fd fd.id w.fd_lst;
    nodes =
        update w.nodes fd.node (some (record n { ref_cnt = (n.ref_cnt + 2 ^ 32 - 1) % 2 ^ 32 }));
  })
  Sound-freed = record {
    ids = rm_fd-Ascending w.fd_count 0 fd.id w.fd_lst s.ids;
    refs = Counted-freed;
    unused = λ q h. unused-node w _ fd.node there s q h;
    room = (let r = s.room in omega (arith, length-rm_fd fd.id w.fd_lst));
    known = any;
  }

pub fd_free-Sound :
    (fd : Filed) (w : World) → Sound (Held fd) w → IfDone (λ _ v. Sound Any v) (fd_free fd w)
unfolding fd_free load_node store_node
fd_free-Sound fd w s = elim (Option-cases (w.nodes fd.node)) [
  | inl absent ↦ rw absent if_fault
  | inr (n, there) ↦ rw there (if_done (Sound-freed w fd n there s))
]
