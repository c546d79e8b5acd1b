-- ===== src/Enclave/Batch/Fire/Plan.antt =====
-- enclave/src/batch.rs: which chunks an automatic batch consists of.
use a.Prelude.{ℕ, ◌≡◌, List}
use a.Prelude.Int.{ℤ}
use a.Enclave.Crypto.{Crypto}
use a.Enclave.Batch.{PreparedSettlement}
use a.Enclave.Batch.Chunks.{BatchChunk}
use a.Enclave.Batch.Chunks.Cut.{flatten, AreChunks}
use a.Enclave.Batch.Chunks.Filter.{ArePrivate}

-- The chunks of a plan are those of a cut of the entries that are let through at the time `at`.
abbrev pub IsPrivatePlan : ℤ → ℕ → List PreparedSettlement → List BatchChunk → Type 0
IsPrivatePlan at min_batch_providers entries planned =
    (chunks : List BatchChunk) × (flatten chunks ≡ entries)
    × AreChunks 0 chunks
    × ArePrivate at min_batch_providers chunks planned
