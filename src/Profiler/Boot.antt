-- ===== src/Profiler/Boot.antt =====
-- gpu_profiler.c: what `main` does before it waits for signals, and the sampler that it ends with.
pub mod Going
pub mod Started
pub mod Runs
mod Tests
use cl_mem_regulation.Common.{
  ℕ, ◌+◌, ◌≡◌, refl, sym, ap, ◌∙◌, if◌then◌else◌, Bool, ◌&&◌, Option, none, some, List, [], ◌∷◌,
  arith, Outcome, finished, exits, undefined, out_of_fuel, ◌>=>◌, defined, or_exit,
}
use cl_mem_regulation.Device.Properties.{Locals, PropReader}
use cl_mem_regulation.Device.Instance.{Instance, Answers, Gpu, gpu__init}
use cl_mem_regulation.Sampler.Backend.{Backend}
use cl_mem_regulation.Sampler.Blocks.{Reader}
use cl_mem_regulation.Sampler.Config.{SamplerConfig}
use cl_mem_regulation.Sampler.Setup.{ReaderAnswers, Sampler, sampler__init}
use cl_mem_regulation.Sampler.Values.{Values, sampler__start_sampling}
use cl_mem_regulation.Profiler.{Profiler, not_started, check_arguments, main_config}

-- What `main` meets: its arguments, whether the priority is set, the file for the number of the process
-- opens, and the handler of each signal is taken, what the device answers to `gpu__init` and to `sampler__init`, which
-- open it both, where the set of counters puts its two copies, and what the start of the sampling is
-- answered: that of KBASE_HWCNT_READER_CLEAR, and the clock.
pub record Startup : Type 0 where
  pub argc : ℕ
  pub target_cluster : ℕ
  pub gpu_type : ℕ
  pub priority_set : Bool
  pub pid_file_opened : Bool
  pub sigusr1_taken : Bool
  pub sigint_taken : Bool
  pub sigterm_taken : Bool
  pub heap1 : Instance
  pub opened1 : ℕ
  pub answers1 : Answers
  pub heap2 : Instance
  pub opened2 : ℕ
  pub answers2 : Answers
  pub reader_answers : ReaderAnswers
  pub data1 : ℕ
  pub data2 : ℕ
  pub clear : Bool
  pub now : Option (ℕ × ℕ)

-- `main` ends where the system refuses a step before the device is opened.
abbrev pub can_wait : Startup → Bool
can_wait m =
    m.priority_set && m.pid_file_opened && m.sigusr1_taken && m.sigint_taken && m.sigterm_taken

module _ (garbage : PropReader → ℕ) (stack : Locals) (fuel : ℕ) where
  -- The profiler that waits for signals, and the reader of its sampler.
  unfoldable pub main : Startup → Outcome (Profiler × Reader)
  unfolding check_arguments gpu__init main_config sampler__init sampler__start_sampling
  main m =
      let body : Outcome (Profiler × Reader) =
        (gpu__init garbage stack fuel m.heap1 m.opened1 m.gpu_type m.answers1 >=> λ gpu.
        defined (main_config m.data1 m.data2 gpu) >=> λ sc.
        sampler__init garbage stack fuel m.heap2 m.opened2 m.answers2 m.reader_answers sc >=> λ smp.
        or_exit (sampler__start_sampling m.clear m.now smp.backend smp.values) >=> λ started.
        finished (
          record {
            fd = not_started;
            target_cluster = m.target_cluster;
            backend = started.0;
            values = started.1;
          },
          smp.reader,
        )) in
      if check_arguments m.argc m.target_cluster m.gpu_type
      then (if can_wait m then body else exits)
      else exits
