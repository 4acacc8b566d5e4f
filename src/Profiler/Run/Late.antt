-- ===== src/Profiler/Run/Late.antt =====
-- gpu_profiler.c with include/session.h: samples that end after the sampling began.
use cl_mem_regulation.Common.{
  ℕ, ◌+◌, ◌<◌, ◌≡◌, refl, Bool, ap, ◌∙◌, true, none, some, exits, List, [], ◌∷◌, ◌++◌, u32, two32,
  arith,
}
use cl_mem_regulation.Kernel.State.{ClusterId, cluster}
use cl_mem_regulation.Structures.SessionQueue.{session_queue__front}
use cl_mem_regulation.Sampler.Backend.{Backend, blank, backend__request_sample, sample__init}
use cl_mem_regulation.Sampler.Blocks.{Reader}
use cl_mem_regulation.Sampler.Values.{Values, SampleAnswers, sampler__sample_now}
use cl_mem_regulation.Profiler.{
  Profiler, World, Effect, Handled, sigusr1, take_beats, profile_gpu_bandwidth,
}
use cl_mem_regulation.Profiler.Run.{
  deliver, Machine, Meets, Rounds, rounds, IsConnected, IsStarted, Answered,
}
use cl_mem_regulation.Profiler.Run.Ready.{
  opened_by, opening, profile-takes, opened_by-IsStarted, opening-system, request, sample-none,
}
use cl_mem_regulation.Profiler.Run.Account.{
  AllInTime, all_events, sigusr1-Accounted, rounds-returned,
}

sample_now-exits :
    (fuel : ℕ) (word : ℕ → ℕ) (r : Reader) (a : SampleAnswers) (b b' : Backend) (v : Values)
    → v.sampling_in_progress_ ≡ true
    → backend__request_sample a.dump 0 b ≡ some b'
    → sample__init a.taken b' ≡ none
    → sampler__sample_now fuel word r a b v ≡ exits
unfolding sampler__sample_now
sample_now-exits fuel word r a b b' v on asked none_taken = rw (on, asked, none_taken) refl

take_beats-exits :
    (w : World) (s : Profiler) (effects : List Effect)
    → sampler__sample_now w.fuel w.word w.reader w.answers s.backend s.values ≡ exits
    → take_beats w s effects ≡ Handled.ended true effects
unfolding take_beats
take_beats-exits w s effects e = rw (e, take_beats) refl

-- The sampler ends the program.
take_beats-late :
    (r : Reader) (begun time : ℕ) (w : World) (s : Profiler) (effects : List Effect)
    → IsStarted r begun s
    → Answered r time w
    → begun < time
    → take_beats w s effects ≡ Handled.ended true effects
take_beats-late r begun time w s effects h a lt =
    let (b, e, p, f, on, q) = request r begun time w s h a in
    let front = ap (session_queue__front blank) q ∙ h.front in
    let late = sample-none b h.session time (f ∙ h.features) front (omega (arith, h.since)) in
    take_beats-exits w s effects (
      sample_now-exits w.fuel w.word w.reader w.answers s.backend b s.values h.started e
        (ap (λ t. sample__init t b) a.taken ∙ late))

rounds-ended :
    (cpu : ℕ) (x : Meets) (xs : List Meets) (s : Profiler) (success : Bool) (effects : List Effect)
    (m : Machine)
    → profile_gpu_bandwidth x.world sigusr1 s ≡ Handled.ended success effects
    → rounds cpu (x ∷ xs) s m ≡ Rounds.over success (deliver x.env x.kmalloc cpu effects m)
unfolding rounds
rounds-ended cpu x xs s success effects m e = rw (e, rounds) refl

module _ (r : Reader) (begun : ℕ) (k : ClusterId) (cpu : ℕ) where
  rounds-late :
      (time : ℕ) (x : Meets) (ys : List Meets) (s : Profiler) (m : Machine)
      → IsStarted r begun s
      → Answered r time x.world
      → begun < time
      → rounds cpu (x ∷ ys) s m ≡ Rounds.over true (deliver x.env x.kmalloc cpu (opening s) m)
  rounds-late time x ys s m h a lt =
      let h1 = opened_by-IsStarted r begun x.world s a.opens h in
      rounds-ended cpu x ys s true (opening s) m (
        profile-takes x.world s h.alive a.opens
        ∙ take_beats-late r begun time x.world (opened_by x.world s) (opening s) h1 a lt)

  -- However many signals follow, the first sample that ends after the sampling began ends the program, by
  -- a success: the usage of the cluster has grown by the rounds before it, and by nothing else.
  pub run-late :
      (xs ys : List Meets) (x : Meets) (time : ℕ) (s : Profiler) (m : Machine)
      → IsStarted r begun s
      → IsConnected k s m
      → (cluster m.system k).bandwidth_usage < two32
      → AllInTime r begun xs
      → Answered r time x.world
      → begun < time
      → (m' : Machine) × (rounds cpu (xs ++ (x ∷ ys)) s m ≡ Rounds.over true m')
        × ((cluster m'.system k).bandwidth_usage
            ≡ u32 ((cluster m.system k).bandwidth_usage + all_events xs))
  unfolding all_events
  run-late [] ys x time s m h conn lt all a late = (
    deliver x.env x.kmalloc cpu (opening s) m,
    rounds-late time x ys s m h a late,
    rw (opening-system x.env x.kmalloc cpu s m) (omega arith),
  )
  run-late (x1 ∷ xs) ys x time s m h conn lt (AllInTime.next_round time1 a1 le small memory all) a
        late =
      let (s1, effects, e, h1, (conn1, c)) =
        sigusr1-Accounted r begun time1 k cpu x1.world x1.env s m h conn a1 le small in
      let m1 = deliver x1.env true cpu effects m in
      let (m', e', u) = run-late xs ys x time s1 m1 h1 conn1 (omega (arith, c.usage)) all a late in
      (
        m',
        rounds-returned cpu x1 (xs ++ (x ∷ ys)) s s1 effects m e memory ∙ e',
        omega (arith, u, c.usage),
      )
