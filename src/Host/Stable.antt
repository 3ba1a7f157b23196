-- ===== src/Host/Stable.antt =====
-- Invariants that do not depend on the parts of the state that a driver and the serial line write.
use esp_hostdriver.Prelude.{length, ◌≤◌, ℕ, zero, suc, ◌+◌, Option, none, some, ◌≡◌, refl}
use esp_hostdriver.Host.{
  Ptr, FsNode, Socket, Esp, SerialLine, World, done, and_then, ◌>>=◌, expect, update, malloc,
  load_node, store_node, load_sock, store_sock, load_dev, load_esp, store_esp,
}
use esp_hostdriver.Host.Partial.{IfDone, if_done, if_fault, Keeps, Keeps-expect}

-- The invariant outlives every change of the serial line that adds nothing to what is still to be read,
-- every change of the sockets and the drivers' states, every
-- allocation, and every change of what a node's `data` points to.
pub record IsStable (I : World → Type 0) : Type 0 where
  pub on_serial :
      {w : World} (line : SerialLine)
      → length line.input ≤ length w.serial.input
      → I w
      → I (record w { serial = line })
  pub on_socks : {w : World} (f : Ptr → Option Socket) → I w → I (record w { socks = f })
  pub on_esps : {w : World} (f : Ptr → Option Esp) → I w → I (record w { esps = f })
  pub on_alloc :
      {w : World} (b : ℕ)
      → w.budget ≡ suc b
      → I w
      → I (record w { fresh = w.fresh + 1; budget = b })
  pub on_data :
      {w : World} {n : FsNode} (p d : Ptr)
      → w.nodes p ≡ some n
      → I w
      → I (record w { nodes = update w.nodes p (some (record n { data' = d })) })

module _ {I : World → Type 0} where
  pub Keeps-load_node : (p : Ptr) → Keeps I (load_node p)
  unfolding load_node
  Keeps-load_node p = record { keeps = λ w h. (Keeps-expect (w.nodes p)).keeps w h }

  pub Keeps-load_sock : (p : Ptr) → Keeps I (load_sock p)
  unfolding load_sock
  Keeps-load_sock p = record { keeps = λ w h. (Keeps-expect (w.socks p)).keeps w h }

  pub Keeps-load_dev : (p : Ptr) → Keeps I (load_dev p)
  unfolding load_dev
  Keeps-load_dev p = record { keeps = λ w h. (Keeps-expect (w.devs p)).keeps w h }

  pub Keeps-load_esp : (p : Ptr) → Keeps I (load_esp p)
  unfolding load_esp
  Keeps-load_esp p = record { keeps = λ w h. (Keeps-expect (w.esps p)).keeps w h }

module _ {I : World → Type 0} (st : IsStable I) where
  pub Keeps-store_sock : (p : Ptr) (s : Socket) → Keeps I (store_sock p s)
  unfolding store_sock
  Keeps-store_sock p s = record {
    keeps = λ w h. if_done (st.on_socks (update w.socks p (some s)) h);
  }

  pub Keeps-store_esp : (p : Ptr) (e : Esp) → Keeps I (store_esp p e)
  unfolding store_esp
  Keeps-store_esp p e = record { keeps = λ w h. if_done (st.on_esps (update w.esps p (some e)) h) }

  pub Keeps-malloc : Keeps I malloc
  unfolding malloc
  Keeps-malloc = record { keeps = λ w h. from w w.budget refl h }
    where
      from :
          (w : World) (b : ℕ)
          → w.budget ≡ b
          → I w
          → IfDone {A = Ptr}
              (λ _ v. I v)
              (elim b [
                | zero ↦ done 0 w
                | suc n ↦ done w.fresh (record w { fresh = w.fresh + 1; budget = n })
              ])
      from w zero e h = if_done h
      from w (suc n) e h = if_done (st.on_alloc n e h)

  -- `node->data = d`
  pub Keeps-set_data :
      (p d : Ptr) → Keeps I (load_node p >>= λ n. store_node p (record n { data' = d }))
  unfolding load_node store_node
  Keeps-set_data p d = record { keeps = λ w h. from w h (w.nodes p) refl }
    where
      from :
          (w : World)
          → I w
          → (o : Option FsNode) → w.nodes p ≡ o
          → IfDone (λ _ v. I v) (and_then (expect o w) (λ n. store_node p (record n { data' = d })))
      from w h none e = if_fault
      from w h (some n) e = if_done (st.on_data p d e h)
