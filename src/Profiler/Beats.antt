-- ===== src/Profiler/Beats.antt =====
-- gpu_profiler.c: from the counters of the GPU to the usage of a cluster.
use cl_mem_regulation.Common.{
  ℕ, ◌+◌, ◌*◌, ◌/◌, ◌^◌, ◌<◌, ◌≤◌, ◌≡◌, ◌≢◌, refl, sym, ap, ◌∙◌, ==_ne, true, some, List, [], ◌∷◌,
  ◌++◌, get_or, length, u32, u64, two31, two32, finished-injective, arith,
}
use cl_mem_regulation.Counters.{RegisteredCounter}
use cl_mem_regulation.Kernel.State.{System, ClusterId, cluster}
use cl_mem_regulation.Kernel.Gpu.{UserCopy, profiling_write, account_gpu}
use cl_mem_regulation.Kernel.Gpu.Decode.{le_bytes, write-account}
use cl_mem_regulation.Sampler.Backend.{Backend, VinstrSample, backend__request_sample, sample__init}
use cl_mem_regulation.Sampler.Config.{definition_of}
use cl_mem_regulation.Sampler.Values.{Values, sampler__sample_now}
use cl_mem_regulation.Sampler.Values.Sum.{Fits, IsReadable}
use cl_mem_regulation.Sampler.Values.Places.{AllIn, Placed}
use cl_mem_regulation.Sampler.Values.Reading.{counter_sum, ReadsAs, Sampled, sample_now-Reads}
use cl_mem_regulation.Profiler.{
  Profiler, World, Effect, beats_written, Handled, sigusr1, counter1, counter2, not_started,
  terminated, send_beats, take_beats, profile_gpu_bandwidth,
}

abbrev pub registered : ℕ → RegisteredCounter
registered counter = record { counter = counter; definition = definition_of counter }

-- The sampler is started, its places are in order, and the driver answers; there are as many rounds as
-- blocks.
pub record IsReady (w : World) (s : Profiler) (p1 p2 : ℕ) : Type 0 where
  pub readable : IsReadable w.reader
  pub rounds : w.fuel ≡ length w.reader.sample_layout_.layout_
  pub all_in : AllIn s.values
  pub fits : Fits s.values.sample_buffer_
  pub short : length s.values.sample_buffer_ ≤ two31
  pub first : Placed s.values (registered counter1) p1
  pub second : Placed s.values (registered counter2) p2
  pub started : s.values.sampling_in_progress_ ≡ true
  pub put_back : w.answers.put_back ≡ true
  pub asked : Backend
  pub asking : backend__request_sample w.answers.dump 0 s.backend ≡ some asked
  pub sample : VinstrSample
  pub sampling : sample__init w.answers.taken asked ≡ some sample

-- A counter's sum over the blocks of the sample.
abbrev pub sum_of : World → ℕ → ℕ
sum_of w counter =
    counter_sum w.word w.reader w.answers.buffer_idx (registered counter)
      w.reader.sample_layout_.layout_

-- The high half of a place does not reach an `int`.
low_half : (old sum : ℕ) → u32 (u64 (old / two32 * two32 + sum)) ≡ u32 sum
low_half old sum = omega arith

-- The bytes that the handler sends: the sum of the second counter, and that of the first one.
abbrev pub sent : World → List ℕ
sent w = le_bytes (u32 (sum_of w counter2)) ++ le_bytes (u32 (sum_of w counter1))

send_beats-sent :
    (s : Profiler) (effects : List Effect) (t x1 x2 : ℕ)
    → ReadsAs s.values counter1 t x1
    → ReadsAs s.values counter2 t x2
    → send_beats s effects
      ≡ Handled.returned s
          (effects ++ (beats_written (le_bytes (u32 x2) ++ le_bytes (u32 x1)) ∷ []))
unfolding send_beats
send_beats-sent s effects t x1 x2 r1 r2 = rw (r1, r2, send_beats) refl

-- From the sample on, the handler sends the sums of both counters.
pub take_beats-sent :
    (w : World) (s : Profiler) (p1 p2 : ℕ) (effects : List Effect) (h : IsReady w s p1 p2)
    → (v : Values) × (take_beats w s effects
        ≡ Handled.returned
            (record s { backend = h.asked; values = v })
            (effects ++ (beats_written (sent w) ∷ [])))
      × Sampled s.values v
unfolding take_beats
take_beats-sent w s p1 p2 effects h =
    let idx = w.answers.buffer_idx in
    let (v, e, r1, kept) =
      sample_now-Reads w.word w.reader idx s.values (registered counter1) p1 h.first w.answers
        s.backend h.asked h.sample h.readable h.all_in h.fits h.short h.started h.asking h.sampling
        h.put_back refl in
    let (v', e', r2, kept') =
      sample_now-Reads w.word w.reader idx s.values (registered counter2) p2 h.second w.answers
        s.backend h.asked h.sample h.readable h.all_in h.fits h.short h.started h.asking h.sampling
        h.put_back refl in
    let same : v' ≡ v = ap (λ (x : Backend × Values). x.1) (finished-injective (sym e' ∙ e)) in
    let now =
      ap (λ f. sampler__sample_now f w.word w.reader w.answers s.backend s.values) h.rounds ∙ e in
    let low1 = low_half (get_or s.values.sample_buffer_ p1 0) (sum_of w counter1) in
    let low2 = low_half (get_or s.values.sample_buffer_ p2 0) (sum_of w counter2) in
    let s' : Profiler = record s { backend = h.asked; values = v } in
    let both =
      send_beats-sent s' effects h.sample.metadata_.timestamp_ns_begin _ _ r1 (rw same at r2) in
    (
      v,
      rw (now, take_beats)
          (both
            ∙ ap (λ bytes. Handled.returned s' (effects ++ (beats_written bytes ∷ [])))
                (rw (low1, low2) refl)),
      kept,
    )

-- While the device is open, SIGUSR1 sends the sums of both counters, the second one first. What the
-- buffer held above 32 bits, which a sample does not clear, does not reach them.
pub sigusr1-sent :
    (w : World) (s : Profiler) (p1 p2 : ℕ)
    → s.fd ≢ not_started
    → s.fd ≢ terminated
    → (h : IsReady w s p1 p2)
    → (v : Values) × (profile_gpu_bandwidth w sigusr1 s
        ≡ Handled.returned
            (record s { backend = h.asked; values = v })
            (beats_written (sent w) ∷ []))
      × Sampled s.values v
unfolding profile_gpu_bandwidth
sigusr1-sent w s p1 p2 ne ne' h =
    let (v, e, kept) = take_beats-sent w s p1 p2 [] h in
    (v, rw (==_ne s.fd not_started ne, ==_ne s.fd terminated ne') e, kept)

-- From the counters to the regulation: when the device is open, the sampler is ready and the beats of
-- both counters are below 2 ^ 27 together, SIGUSR1 writes them to the device and returns, and what the
-- kernel then adds to the usage of its cluster is a quarter of the sum of the two counters.
pub sigusr1-account :
    (w : World) (s : Profiler) (p1 p2 : ℕ) (k : ClusterId) (sys : System)
    → s.fd ≢ not_started
    → s.fd ≢ terminated
    → IsReady w s p1 p2
    → sum_of w counter1 + sum_of w counter2 < 2 ^ 27
    → (s' : Profiler) × (bytes : List ℕ) × (profile_gpu_bandwidth w sigusr1 s
        ≡ Handled.returned s' (beats_written bytes ∷ []))
      × (let sys1 = (profiling_write k (length bytes) (UserCopy.copied bytes) sys).1 in
          (cluster (account_gpu k sys1) k).bandwidth_usage
          ≡ u32 ((cluster sys k).bandwidth_usage + (sum_of w counter1 + sum_of w counter2) / 4))
sigusr1-account w s p1 p2 k sys ne ne' h small =
    let (v, e, kept) = sigusr1-sent w s p1 p2 ne ne' h in
    let c1 = sum_of w counter1 in
    let c2 = sum_of w counter2 in
    let usage = (cluster sys k).bandwidth_usage in
    let swapped : u32 (usage + (u32 c2 + u32 c1) / 4) ≡ u32 (usage + (c1 + c2) / 4) = omega arith in
    (
      record s { backend = h.asked; values = v },
      sent w,
      e,
      (write-account k (u32 c2) (u32 c1) sys (omega arith)).2 ∙ swapped,
    )
