-- ===== src/Sys/Ringbuf/Tests.antt =====
-- Tests of sys/ringbuf.c, and its theorems at a ring that has wrapped round.
use esp_hostdriver.Prelude.{◌≡◌, refl, List, [], ◌∷◌, arith}
use esp_hostdriver.Sys.Ringbuf.{Ringbuf, Op, get, put_all, read, write, ring_run, contains}
use esp_hostdriver.Sys.Ringbuf.Inv.{IsValid}
use esp_hostdriver.Sys.Ringbuf.Refine.{contents}
use esp_hostdriver.Sys.Ringbuf.Queue.{queue_run, ring_run_refines}

-- 7 and 8 are unread, and one more byte fits.
abbrev wrapped : Ringbuf
wrapped = record { rd = 2; wr = 1; size = 4; buf = 8 ∷ 5 ∷ 6 ∷ 7 ∷ [] }

abbrev script : List Op
script = put_all (1 ∷ 2 ∷ []) ∷ get 2 ∷ put_all (3 ∷ 4 ∷ 5 ∷ []) ∷ get 9 ∷ get 1 ∷ []

contents-wrapped : contents wrapped ≡ 7 ∷ 8 ∷ []
unfolding contents contains
contents-wrapped = refl

script-wrapped :
    ring_run wrapped script
    ≡ (1, []) ∷ (2, 7 ∷ 8 ∷ []) ∷ (2, []) ∷ (3, 1 ∷ 3 ∷ 4 ∷ []) ∷ (0, []) ∷ []
unfolding ring_run read write
script-wrapped = refl

wrapped-IsValid : IsValid wrapped
wrapped-IsValid = omega arith

ring_run_refines_example : ring_run wrapped script ≡ queue_run 3 (contents wrapped) script
ring_run_refines_example = ring_run_refines script wrapped-IsValid
