-- ===== src/Kernel/Gpu/Decode.antt =====
-- What the kernel reads back of the beats that the profiler wrote.
use cl_mem_regulation.Common.{
  ℕ, ◌+◌, ◌-◌, ◌/◌, ◌%◌, ◌^◌, ◌<◌, ◌≤◌, ◌≡◌, refl, arith, true, List, [], ◌∷◌, ◌++◌, drop, u32,
  two32,
}
use cl_mem_regulation.Kernel.State.{System, ClusterId, gpu, cluster}
use cl_mem_regulation.Kernel.Gpu.{
  UserCopy, WriteResult, profiling_write, gpu_beats, beats_to_events, account_gpu,
}

-- An `int` as the four bytes that the profiler's `write` hands over.
abbrev pub le_bytes : ℕ → List ℕ
le_bytes n = n % 256 ∷ (n / 256 % 256) ∷ (n / 65536 % 256) ∷ (n / 16777216 % 256) ∷ []

-- Below 2 ^ 27 beats the sum of bytes fits an `int`, and a beat of 16 bytes is a quarter of a line.
pub beats_to_events_exact : (rd wr : ℕ) → rd + wr < 2 ^ 27 → beats_to_events rd wr ≡ (rd + wr) / 4
unfolding beats_to_events
beats_to_events_exact rd wr h = ground arith

gpu_beats-le_bytes :
    (rd wr : ℕ) (rest : List ℕ)
    → rd < two32
    → wr < two32
    → (gpu_beats (le_bytes rd ++ le_bytes wr ++ rest) 0 ≡ rd)
      × (gpu_beats (le_bytes rd ++ le_bytes wr ++ rest) 1 ≡ wr)
unfolding gpu_beats
gpu_beats-le_bytes rd wr rest hr hw = (omega arith, omega arith)

-- From 2 ^ 27 beats on the sum of bytes is negative as an `int`, and the events come out short by
-- 2 ^ 26: the usage goes down, although the GPU has moved 2 GiB or more.
beats_to_events_overflow :
    (rd wr : ℕ)
    → 2 ^ 27 ≤ rd + wr
    → rd + wr < 2 ^ 28
    → beats_to_events rd wr ≡ (rd + wr) / 4 + two32 - 2 ^ 26
unfolding beats_to_events
beats_to_events_overflow rd wr h h' = ground arith

-- The cleared beats, which a receiver reads if it is woken only to stop, count as -1 event.
pub beats_to_events_cleaned : beats_to_events (two32 - 1) (two32 - 1) ≡ two32 - 1
unfolding beats_to_events
beats_to_events_cleaned = refl

-- When the two beats that the profiler writes to the device are below 2 ^ 27 together, the write succeeds and
-- makes the receiver ready, and the usage of its cluster grows by a quarter of their sum, which is their
-- bytes in cache lines, with the wrap of 32 bits.
pub write-account :
    (k : ClusterId) (rd wr : ℕ) (s : System)
    → rd + wr < 2 ^ 27
    → let (r, s1) = profiling_write k 8 (UserCopy.copied (le_bytes rd ++ le_bytes wr)) s in
      let s2 = account_gpu k s1 in
      (r ≡ WriteResult.written 8)
      × ((gpu s1 k).beats_ready ≡ true)
      × ((cluster s2 k).bandwidth_usage ≡ u32 ((cluster s k).bandwidth_usage + (rd + wr) / 4))
unfolding profiling_write account_gpu
write-account k rd wr s h = ground (
  arith,
  beats_to_events_exact rd wr h,
  gpu_beats-le_bytes rd wr (drop 8 (gpu s k).beats_memory) (omega arith) (omega arith),
)
