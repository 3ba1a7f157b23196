-- ===== src/Bos/Tests.antt =====
-- Theorems on the descriptors of bos/fs.c at the test data.
use esp_hostdriver.Prelude.{refl, arith, []}
use esp_hostdriver.Host.{Ends}
use esp_hostdriver.Bos.{fd_alloc}
use esp_hostdriver.Bos.Descriptors.{IsFds, Allocated, fd_alloc-Allocated}
use esp_hostdriver.Samples.{program}

program-IsFds : IsFds (program [])
program-IsFds = omega arith

fd_alloc-Allocated_example : Ends (Allocated (program []) 3) (fd_alloc 3 12 0 (program []))
fd_alloc-Allocated_example = fd_alloc-Allocated (program []) 3 12 0 program-IsFds refl (omega arith)
