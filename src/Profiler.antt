-- ===== src/Profiler.antt =====
-- gpu_profiler.c: the signal handler that samples the GPU and sends its beats to the kernel, and the
-- checks and the configuration of `main`. What the system calls answer is an argument.
pub mod Beats
pub mod Boot
pub mod Run
pub mod Signals
mod Tests
use cl_mem_regulation.Common.{
  ℕ, ◌==◌, if◌then◌else◌, Bool, true, false, not, ◌&&◌, ◌||◌, Option, none, some, List, [], ◌∷◌,
  ◌++◌, u32, is_neg32, minus_one32, ltb, ◌>>=◌, Outcome, finished, undefined, out_of_fuel, exits,
}
use cl_mem_regulation.Device.Instance.{Gpu}
use cl_mem_regulation.Kernel.Gpu.Decode.{le_bytes}
use cl_mem_regulation.Sampler.Backend.{Backend}
use cl_mem_regulation.Sampler.Blocks.{Reader}
use cl_mem_regulation.Sampler.Config.{
  SamplerConfig, sampler_config__init, sampler_config__add_counter, mali_ext_bus_rd_bt,
  mali_ext_bus_wr_bt,
}
use cl_mem_regulation.Sampler.Values.{
  Values, CounterSample, SampleAnswers, sampler__sample_now, sampler__get_counter_value,
}

-- The descriptor is an `int`.
abbrev pub not_started : ℕ
not_started = minus_one32

abbrev pub terminated : ℕ
terminated = 0xffff_fffe

abbrev pub counter1 : ℕ
counter1 = mali_ext_bus_rd_bt

abbrev pub counter2 : ℕ
counter2 = mali_ext_bus_wr_bt

pub data Signal : Type 0 where
  sigusr1 sigint sigterm other_signal : Signal

pub record Profiler : Type 0 where
  pub fd : ℕ
  pub target_cluster : ℕ
  pub backend : Backend
  pub values : Values

-- What the handler does to the world.
pub data Effect : Type 0 where
  device_opened : (cluster : ℕ) → Effect
  beats_written : (bytes : List ℕ) → Effect
  device_closed : (fd : ℕ) → Effect
  stop_written : (cluster : ℕ) → Effect

-- The handler returns, or ends the program with a status; `lost` where C gives no meaning.
pub data Handled : Type 0 where
  returned : Profiler → List Effect → Handled
  ended : (success : Bool) → List Effect → Handled
  lost : Handled

pub record World : Type 0 where
  pub opened : ℕ
  pub sysfs_opened : Bool
  pub fuel : ℕ
  pub word : ℕ → ℕ
  pub reader : Reader
  pub answers : SampleAnswers

-- The beats go into the buffer in the order `rd_beats`, `wr_beats`; `wr_beats` is the value of
-- `counter1`. A failing `write` is reported, and nothing else.
unfoldable pub send_beats : Profiler → List Effect → Handled
send_beats s effects = elim (sampler__get_counter_value s.values counter1) [
  | finished first ↦ elim (sampler__get_counter_value s.values counter2) [
    | finished second ↦
        let wr_beats = u32 first.value in
        let rd_beats = u32 second.value in
        Handled.returned s
          (effects ++ (Effect.beats_written (le_bytes rd_beats ++ le_bytes wr_beats) ∷ []))
    | exits ↦ Handled.ended true effects
    | _ ↦ Handled.lost
  ]
  | exits ↦ Handled.ended true effects
  | _ ↦ Handled.lost
]

-- From the sample on; the sampler ends the program by `exit(0)`.
unfoldable pub take_beats : World → Profiler → List Effect → Handled
unfolding send_beats
take_beats w s effects =
    elim (sampler__sample_now w.fuel w.word w.reader w.answers s.backend s.values) [
      | finished (b, v) ↦ send_beats (record s { backend = b; values = v }) effects
      | exits ↦ Handled.ended true effects
      | _ ↦ Handled.lost
    ]

-- The descriptor is closed when it is open: the effects, and the state.
unfoldable pub cleanup : Profiler → List Effect × Profiler
cleanup s =
    if not (is_neg32 s.fd) && not (s.fd == terminated)
    then (Effect.device_closed s.fd ∷ [], record s { fd = terminated })
    else ([], s)

-- The end of the program, by SIGINT or SIGTERM.
unfoldable pub stop_profiling : World → Profiler → Handled
unfolding cleanup
stop_profiling w s =
    let (closing, s1) = cleanup s in
    let (again, s2) = cleanup s1 in
    let stopping = if w.sysfs_opened then Effect.stop_written s1.target_cluster ∷ [] else [] in
    if s1.target_cluster == 1 || s1.target_cluster == 2
    then Handled.ended true (closing ++ stopping ++ again)
    else Handled.ended false (closing ++ again)

unfoldable pub profile_gpu_bandwidth : World → Signal → Profiler → Handled
unfolding take_beats stop_profiling
profile_gpu_bandwidth w sigusr1 s =
    let s' = record s { fd = w.opened } in
    if s.fd == not_started
    then (if is_neg32 w.opened
        then Handled.returned s' []
        else take_beats w s' (Effect.device_opened s.target_cluster ∷ []))
    else if s.fd == terminated
    then Handled.returned s []
    else take_beats w s []
profile_gpu_bandwidth w sigint s = stop_profiling w s
profile_gpu_bandwidth w sigterm s = stop_profiling w s
profile_gpu_bandwidth w other_signal s = Handled.returned s []

-- The checks of `main`: `target_cluster` and `gpu_type` are `int`s.
unfoldable pub check_arguments : (argc target_cluster gpu_type : ℕ) → Bool
check_arguments argc target_cluster gpu_type =
    if ltb argc 3
    then false
    else if not (target_cluster == 1) && not (target_cluster == 2)
    then false
    else if not (gpu_type == minus_one32)
        && not (gpu_type == 0)
        && not (gpu_type == 1)
        && not (gpu_type == 2)
    then false
    else true

-- The configuration that `main` makes; the addresses are those of the set's copies.
unfoldable pub main_config : (data1 data2 : ℕ) → Gpu → Option SamplerConfig
unfolding sampler_config__init sampler_config__add_counter
main_config data1 data2 gpu = do
  sc ← sampler_config__add_counter data1 (sampler_config__init gpu) counter1
  sampler_config__add_counter data2 sc counter2
