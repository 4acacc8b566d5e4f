-- ===== src/Profiler/Boot/Started.antt =====
-- gpu_profiler.c: the sampler of `main` when it comes to wait for signals.
use cl_mem_regulation.Common.{
  ℕ, ◌≡◌, refl, sym, ap, ◌∙◌, Bool, Option, some, if_rule, finished, ◌>=>◌, Yields, finished_Yields,
  exits_Yields, pass_Yields, then_Yields, defined, defined-Yields, or_exit,
}
use mathlib.Core.Path.{subst}
use cl_mem_regulation.Structures.SessionQueue.{session_queue__push}
use cl_mem_regulation.Device.Instance.{gpu__init}
use cl_mem_regulation.Device.Properties.{Locals, PropReader}
use cl_mem_regulation.Sampler.Session.{session__init, session__init_with_args, timespec_to_uint64}
use cl_mem_regulation.Sampler.Backend.{Backend, blank}
use cl_mem_regulation.Sampler.Blocks.{Reader}
use cl_mem_regulation.Sampler.Config.{SamplerConfig}
use cl_mem_regulation.Sampler.Setup.{Sampler, sampler__init}
use cl_mem_regulation.Sampler.Setup.Started.{IsMapped, IsSetUp, sampler__init-IsSetUp}
use cl_mem_regulation.Sampler.Values.{Values, sampler__start_sampling}
use cl_mem_regulation.Profiler.{Profiler, not_started, main_config, check_arguments}
use cl_mem_regulation.Profiler.Boot.{Startup, can_wait, main}
use cl_mem_regulation.Profiler.Run.{IsStarted}
use cl_mem_regulation.Profiler.Boot.Going.{
  first_session, IsConfig, main_config-IsConfig, going-IsStarted, going, start_sampling-Yields,
}

-- A reader with a profiler that waits, for the cluster `target`, with its device not opened yet.
abbrev pub Waits : (target begun : ℕ) → Profiler × Reader → Type 0
Waits target begun x =
    IsStarted x.1 begun x.0 × (x.0.target_cluster ≡ target) × (x.0.fd ≡ not_started)

-- The last steps of `main`.
abbrev waiting_with : (target : ℕ) → Sampler → Backend × Values → Profiler × Reader
waiting_with target smp started = (
  record { fd = not_started; target_cluster = target; backend = started.0; values = started.1 },
  smp.reader,
)

last_steps-Waits :
    (data1 data2 target sec nsec features : ℕ) (clear : Bool) (now : Option (ℕ × ℕ))
    (sc : SamplerConfig) (smp : Sampler)
    → now ≡ some (sec, nsec)
    → features ≡ 0
    → IsConfig data1 data2 sc
    → IsSetUp features sc.counters_ smp
    → Yields (Waits target (timespec_to_uint64 sec nsec)) (
        or_exit (sampler__start_sampling clear now smp.backend smp.values) >=> λ started.
        finished (waiting_with target smp started))
unfolding session__init_with_args session__init
last_steps-Waits data1 data2 target sec nsec features clear now sc smp clock plain c s =
    let begun = timespec_to_uint64 sec nsec in
    let x = session__init_with_args begun 0 in
    let (q, pushed, front) = first_session x in
    let goes =
      start_sampling-Yields sec nsec clear smp q s.made.stopped
        (ap (λ l. session_queue__push blank l x) s.made.sessions ∙ pushed) in
    let ends =
      going-IsStarted data1 data2 target begun sc smp x q c
        (subst (λ f. IsSetUp f sc.counters_ smp) plain s) refl front in
    then_Yields (λ started. started ≡ going smp q) (Waits target begun)
      (or_exit (sampler__start_sampling clear now smp.backend smp.values))
      (λ started. finished (waiting_with target smp started))
      (subst
        (λ n.
          Yields (λ started. started ≡ going smp q)
            (or_exit (sampler__start_sampling clear n smp.backend smp.values)))
        (sym clock) goes)
      (λ started same.
        finished_Yields (Waits target begun) (waiting_with target smp started) (
          subst (λ t. Waits target begun (waiting_with target smp t)) (sym same)
            (ends, refl, refl)))

-- The clock answers, and so does the driver: the reader has no features, and its memory is mapped.
pub record IsServed (m : Startup) (sec nsec : ℕ) : Type 0 where
  pub clock : m.now ≡ some (sec, nsec)
  pub plain : m.reader_answers.features ≡ 0
  pub mapped : IsMapped m.reader_answers

module _ (garbage : PropReader → ℕ) (stack : Locals) (fuel : ℕ) where
  main-Waits :
      (m : Startup) (sec nsec : ℕ)
      → IsServed m sec nsec
      → Yields (Waits m.target_cluster (timespec_to_uint64 sec nsec)) (main garbage stack fuel m)
  unfolding main
  main-Waits m sec nsec h =
      let P = Waits m.target_cluster (timespec_to_uint64 sec nsec) in
      let ra = m.reader_answers in
      if_rule (Yields P) (check_arguments m.argc m.target_cluster m.gpu_type)
        (λ e.
          if_rule (Yields P) (can_wait m)
            (λ ready.
              pass_Yields P (gpu__init garbage stack fuel m.heap1 m.opened1 m.gpu_type m.answers1) _
                (λ gpu.
                  let config = main_config m.data1 m.data2 gpu in
                  then_Yields (IsConfig m.data1 m.data2) P (defined config) _
                    (defined-Yields (IsConfig m.data1 m.data2) config
                      (main_config-IsConfig m.data1 m.data2 gpu))
                    (λ sc c.
                      then_Yields (IsSetUp ra.features sc.counters_) P
                        (sampler__init garbage stack fuel m.heap2 m.opened2 m.answers2 ra sc) _
                        (sampler__init-IsSetUp garbage stack fuel m.heap2 m.opened2 m.answers2 ra sc
                          h.mapped)
                        (λ smp.
                          last_steps-Waits m.data1 m.data2 m.target_cluster sec nsec ra.features
                            m.clear m.now sc smp h.clock h.plain c))))
            (λ e. exits_Yields P))
        (λ e. exits_Yields P)

  -- When `main` comes to wait for signals, the clock answered, the reader has no features and its memory is
  -- mapped, the profiler that it waits with is for the cluster of its argument, has its device not opened yet,
  -- and is a started one: its session began at the clock's time, it is at the front of the sessions,
  -- both counters have a place of their own in the buffer, and the layout counts its entries.
  pub main-IsStarted :
      (m : Startup) (sec nsec : ℕ) (s : Profiler) (r : Reader)
      → IsServed m sec nsec
      → main garbage stack fuel m ≡ finished (s, r)
      → Waits m.target_cluster (timespec_to_uint64 sec nsec) (s, r)
  main-IsStarted m sec nsec s r h e = (main-Waits m sec nsec h).yield (s, r) e
