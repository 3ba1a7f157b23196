-- ===== src/Bos/Descriptors.antt =====
-- The list of descriptors of bos/fs.c: `fs_fd_alloc`, `fs_fd_acquire` and `fs_fd_free`.
use esp_hostdriver.Prelude.{
  ℕ, zero, suc, ◌+◌, ◌≤◌, ◌<◌, ◌≡◌, ◌≢◌, ◌⊎◌, refl, sym, ◌∙◌, inl, inr, Bool-cases, Option, none,
  some, List, [], ◌∷◌, ◌++◌, arith, ◌==◌, ==_ne, ==_self, eq_of_==, ◌^◌, ◌-◌, leb, false,
}
use esp_hostdriver.Host.{Ptr, FsNode, Filed, World, Ends, ends, load_node, store_node, malloc}
use esp_hostdriver.Bos.{fd_alloc, fd_free, rm_fd, find_fd}

-- The ids ascend from above `lo` and do not pass `hi`.
abbrev pub Ascending : ℕ → List Filed → ℕ → Type 0
Ascending lo [] hi = lo ≤ hi
Ascending lo (fd ∷ fds) hi = (lo < fd.id) × Ascending fd.id fds hi

-- The invariant of the descriptors: no two have the same id, and none has one above the counter.
abbrev pub IsFds : World → Type 0
IsFds w = Ascending 0 w.fd_lst w.fd_count

module _ (hi : ℕ) where
  Ascending-bounds : (lo : ℕ) (fds : List Filed) → Ascending lo fds hi → lo ≤ hi
  Ascending-bounds lo [] a = a
  Ascending-bounds lo (fd ∷ fds) a = omega (arith, Ascending-bounds fd.id fds a.1)

  pub Ascending-snoc :
      (lo : ℕ) (fds : List Filed) (fd : Filed)
      → Ascending lo fds hi
      → fd.id ≡ hi + 1
      → Ascending lo (fds ++ fd ∷ []) (hi + 1)
  Ascending-snoc lo [] fd a e = (omega arith, omega arith)
  Ascending-snoc lo (x ∷ fds) fd a e = (a.0, Ascending-snoc x.id fds fd a.1 e)

  Ascending-weaken :
      (lo lo' : ℕ) (fds : List Filed) → lo' ≤ lo → Ascending lo fds hi → Ascending lo' fds hi
  Ascending-weaken lo lo' [] h a = omega arith
  Ascending-weaken lo lo' (x ∷ fds) h a = (omega arith, a.1)

  find_fd-below :
      (lo id : ℕ) (fds : List Filed) → Ascending lo fds hi → id ≤ lo → find_fd id fds ≡ none
  unfolding find_fd
  find_fd-below lo id [] a h = refl
  find_fd-below lo id (x ∷ fds) a h =
      rw (==_ne x.id id (omega arith)) (find_fd-below x.id id fds a.1 (omega arith))

  pub Ascending-raise :
      (lo : ℕ) (fds : List Filed) → Ascending lo fds hi → Ascending lo fds (hi + 1)
  Ascending-raise lo [] a = omega arith
  Ascending-raise lo (x ∷ fds) a = (a.0, Ascending-raise x.id fds a.1)

  pub find_fd_above :
      (lo : ℕ) (fds : List Filed) → Ascending lo fds hi → find_fd (hi + 1) fds ≡ none
  unfolding find_fd
  find_fd_above lo [] a = refl
  find_fd_above lo (x ∷ fds) a =
      rw (==_ne x.id (hi + 1) (omega (arith, Ascending-bounds x.id fds a.1)))
        (find_fd_above x.id fds a.1)

  pub find_fd-new :
      (lo : ℕ) (fds : List Filed) (fd : Filed)
      → Ascending lo fds hi
      → fd.id ≡ hi + 1
      → find_fd fd.id (fds ++ fd ∷ []) ≡ some fd
  unfolding find_fd
  find_fd-new lo [] fd a e = rw (==_self fd.id) refl
  find_fd-new lo (x ∷ fds) fd a e =
      let small = Ascending-bounds x.id fds a.1 in
      rw (==_ne x.id fd.id (omega arith)) (find_fd-new x.id fds fd a.1 e)

  pub rm_fd-Ascending :
      (lo id : ℕ) (fds : List Filed) → Ascending lo fds hi → Ascending lo (rm_fd id fds) hi
  unfolding rm_fd
  rm_fd-Ascending lo id [] a = a
  rm_fd-Ascending lo id (x ∷ fds) a = elim (Bool-cases (x.id == id)) [
    | inl e ↦ rw e (Ascending-weaken x.id lo fds (omega arith) a.1)
    | inr e ↦ rw e (a.0, rm_fd-Ascending x.id id fds a.1)
  ]

  find_fd-rm_fd :
      (lo id : ℕ) (fds : List Filed) → Ascending lo fds hi → find_fd id (rm_fd id fds) ≡ none
  unfolding find_fd rm_fd
  find_fd-rm_fd lo id [] a = refl
  find_fd-rm_fd lo id (x ∷ fds) a = elim (Bool-cases (x.id == id)) [
    | inl e ↦ rw e (find_fd-below x.id id fds a.1 (omega (arith, eq_of_== x.id id e)))
    | inr e ↦ rw e (rw e (find_fd-rm_fd x.id id fds a.1))
  ]

pub ℕ-cases : (n : ℕ) → (n ≡ 0) ⊎ ((k : ℕ) × (n ≡ suc k))
ℕ-cases zero = inl refl
ℕ-cases (suc k) = inr (k, refl)

pub find_fd-snoc :
    (id : ℕ) (fds : List Filed) (fd : Filed)
    → id ≢ fd.id
    → find_fd id (fds ++ fd ∷ []) ≡ find_fd id fds
unfolding find_fd
find_fd-snoc id [] fd ne = rw (==_ne fd.id id (λ e. ne (sym e))) refl
find_fd-snoc id (x ∷ fds) fd ne = elim (Bool-cases (x.id == id)) [
  | inl e ↦ rw e refl
  | inr e ↦ rw e (find_fd-snoc id fds fd ne)
]

find_fd-rm_fd_ne :
    (other id : ℕ) (fds : List Filed)
    → other ≢ id
    → find_fd other (rm_fd id fds) ≡ find_fd other fds
unfolding find_fd rm_fd
find_fd-rm_fd_ne other id [] ne = refl
find_fd-rm_fd_ne other id (x ∷ fds) ne = elim (Bool-cases (x.id == id)) [
  | inl e ↦ rw (e, ==_ne x.id other (λ h. ne (sym h ∙ eq_of_== x.id id e))) refl
  | inr e ↦ elim (Bool-cases (x.id == other)) [
    | inl o ↦ rw (e, o) refl
    | inr o ↦ rw (e, o) ((find_fd-rm_fd_ne other id fds ne))
  ]
]

-- What `fs_fd_alloc` may do to the descriptors.
abbrev pub Allocated : World → Ptr → Option Filed → World → Type 0
Allocated w node none v = (v.fd_lst ≡ w.fd_lst) × IsFds v
Allocated w node (some fd) v =
    (fd.node ≡ node)
    × (find_fd fd.id w.fd_lst ≡ none)
    × (find_fd fd.id v.fd_lst ≡ some fd)
    × ((id : ℕ) → id ≢ fd.id → find_fd id v.fd_lst ≡ find_fd id w.fd_lst)
    × IsFds v

-- `fs_fd_alloc` of a node that there is, after fewer than 2 ^ 31 - 1 calls, returns a descriptor of this node with an id that no
-- descriptor had, under which it is found from then on; what is found under other ids is what was. If
-- it returns null, the list is what it was. The invariant of the descriptors is kept.
pub fd_alloc-Allocated :
    (w : World) {n : FsNode} (node : Ptr) (mode mode_mask : ℕ)
    → IsFds w
    → w.nodes node ≡ some n
    → w.fd_count < 2 ^ 31 - 1
    → Ends (Allocated w node) (fd_alloc node mode mode_mask w)
unfolding fd_alloc malloc load_node store_node
fd_alloc-Allocated w node mode mode_mask inv there few =
    let in_range : leb (2 ^ 31 - 1) w.fd_count ≡ false = ground arith in
    rw in_range (elim (ℕ-cases w.budget) [
      | inl out ↦ rw out (ends (refl, raised))
      | inr (b, room) ↦ rw room (elim (Bool-cases (w.fresh == 0)) [
        | inl e ↦ rw e (ends (refl, raised))
        | inr e ↦ rw e (
            rw there (
              ends (
                refl,
                find_fd_above w.fd_count 0 w.fd_lst inv,
                find_fd-new w.fd_count 0 w.fd_lst _ inv refl,
                λ id ne. find_fd-snoc id w.fd_lst _ ne,
                Ascending-snoc w.fd_count 0 w.fd_lst _ inv refl,
              )))
      ])
    ])
  where
    raised : Ascending 0 w.fd_lst (w.fd_count + 1)
    raised = Ascending-raise w.fd_count 0 w.fd_lst inv

-- `fs_fd_free` of a descriptor whose node there is takes its id out of the list: nothing is found
-- under it, and under the other ids is found what was. The invariant of the descriptors is kept.
fd_free-find_fd :
    (w : World) {n : FsNode} (fd : Filed)
    → IsFds w
    → w.nodes fd.node ≡ some n
    → Ends
        (λ _ v.
          (find_fd fd.id v.fd_lst ≡ none)
          × ((id : ℕ) → id ≢ fd.id → find_fd id v.fd_lst ≡ find_fd id w.fd_lst)
          × IsFds v)
        (fd_free fd w)
unfolding fd_free load_node store_node
fd_free-find_fd w fd inv there = rw there (
    ends (
      find_fd-rm_fd w.fd_count 0 fd.id w.fd_lst inv,
      λ id ne. find_fd-rm_fd_ne id fd.id w.fd_lst ne,
      rm_fd-Ascending w.fd_count 0 fd.id w.fd_lst inv,
    ))
