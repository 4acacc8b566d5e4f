-- ===== src/Profiler/Boot/Tests.antt =====
-- `main` on a G710 with two slices, and the rounds that follow.
use cl_mem_regulation.Common.{
  ℕ, ◌+◌, ◌<◌, ◌≤◌, ◌^◌, ◌++◌, u32, ◌≡◌, refl, ap, none, some, true, [], ◌∷◌, List, finished,
  replicate, length, arith,
}
use cl_mem_regulation.Device.ProductId.{product_id__from_raw_gpu_id}
use cl_mem_regulation.Structures.SessionQueue.{session_queue__push, session_queue__init}
use cl_mem_regulation.Device.Version.{jm_post_r21}
use cl_mem_regulation.Device.Properties.{no_constants, Locals, PropReader}
use cl_mem_regulation.Device.Instance.{Instance, Answers, backend_error, no_extents}
use cl_mem_regulation.Sampler.Blocks.{Reader}
use cl_mem_regulation.Sampler.Setup.{ReaderAnswers}
use cl_mem_regulation.Sampler.Config.{definition_of}
use cl_mem_regulation.Sampler.Values.Reading.{counter_sum}
use cl_mem_regulation.Sampler.Session.{timespec_to_uint64}
use cl_mem_regulation.Kernel.State.{cl1, cluster}
use cl_mem_regulation.Kernel.Tests.{boot, env}
use cl_mem_regulation.Profiler.{
  Profiler, World, Effect, Handled, sigusr1, counter1, counter2, profile_gpu_bandwidth,
}
use cl_mem_regulation.Profiler.Beats.{sum_of}
use cl_mem_regulation.Profiler.Boot.Started.{IsServed, Waits, main-IsStarted}
use cl_mem_regulation.Profiler.Boot.Runs.{main-run, main-late}
use cl_mem_regulation.Profiler.Run.{
  deliver, device_of, Machine, Meets, Rounds, rounds, IsConnected, IsStarted, Answered,
}
use cl_mem_regulation.Profiler.Run.Account.{
  Accounted, AllInTime, events_of, all_events, sigusr1-Accounted,
}
use cl_mem_regulation.Profiler.Boot.{Startup, main}

abbrev blank_instance : Instance
blank_instance = record {
  constants_ = no_constants;
  block_extents_ = no_extents;
  kbase_version_ = record { major_ = 7; minor_ = 7; type_ = jm_post_r21 };
  backend_type_ = backend_error;
  fd_ = 0;
}

-- The properties say the number of the GPU, and 2 slices.
abbrev answers : Answers
answers = record {
  version_ret = 0;
  major = 11;
  minor = 20;
  flags_ret = 0;
  size_ret = 13;
  props_ret = 0;
  buffer = 222 ∷ 0 ∷ 0 ∷ 0 ∷ 16 ∷ 0 ∷ 114 ∷ 168 ∷ 60 ∷ 0 ∷ 0 ∷ 0 ∷ 2 ∷ [];
}

abbrev reader_answers : ReaderAnswers
reader_answers = record {
  setup_ret = 5;
  version_ret = 0;
  features = 0;
  size_ret = 0;
  buffer_size = 1024;
  mapped = some 65536;
  queue = replicate 33 9;
  end_type = 3;
}

abbrev start : Startup
start = record {
  argc = 3;
  target_cluster = 1;
  gpu_type = 0;
  priority_set = true;
  pid_file_opened = true;
  sigusr1_taken = true;
  sigint_taken = true;
  sigterm_taken = true;
  heap1 = blank_instance;
  opened1 = 3;
  answers1 = answers;
  heap2 = blank_instance;
  opened2 = 4;
  answers2 = answers;
  reader_answers = reader_answers;
  data1 = 4096;
  data2 = 8192;
  clear = true;
  now = some (100, 5);
}

abbrev clean : PropReader → ℕ
clean r = 0

abbrev stack : Locals
stack = record {
  consts = no_constants;
  num_core_groups = 0;
  core_mask = [];
  raw_core_features_v = 0;
  raw_thread_features_v = 0;
}

booted : (x : Profiler × Reader) × (main clean stack 13 start ≡ finished x)
unfolding main product_id__from_raw_gpu_id session_queue__push session_queue__init
booted = (_, refl)

-- Every word of the counter memory is 25.
abbrev answered_at : ℕ → World
answered_at time = record {
  opened = 7;
  sysfs_opened = true;
  fuel = 2;
  word = λ a. 25;
  reader = booted.0.1;
  answers = record { dump = true; taken = some time; buffer_idx = 1; put_back = true };
}

reader_run : length booted.0.1.sample_layout_.layout_ ≡ 2
unfolding booted product_id__from_raw_gpu_id session_queue__push session_queue__init
reader_run = refl

answered_at-Answered : (time : ℕ) → Answered booted.0.1 time (answered_at time)
answered_at-Answered time = record {
  reader = refl;
  rounds = omega (arith, reader_run);
  opens = refl;
  dump = refl;
  put_back = refl;
  taken = refl;
}

sums_run : (sum_of (answered_at 5000) counter1 ≡ 50) × (sum_of (answered_at 5000) counter2 ≡ 50)
unfolding booted counter_sum definition_of product_id__from_raw_gpu_id session_queue__push
    session_queue__init
sums_run = (refl, refl)

small_run : sum_of (answered_at 5000) counter1 + sum_of (answered_at 5000) counter2 < 2 ^ 27
small_run = omega (arith, sums_run)

-- The kernel before the profiler opens its device.
abbrev machine : Machine
machine = record { device = none; receiving = true; system = boot }

abbrev meets_at : ℕ → Meets
meets_at time = record { world = answered_at time; env = env; kmalloc = true }

-- Two samples in time, and one that is late.
abbrev two_rounds : List Meets
two_rounds = meets_at 5000 ∷ meets_at 5000 ∷ []

two_rounds-AllInTime : AllInTime booted.0.1 (timespec_to_uint64 100 5) two_rounds
unfolding timespec_to_uint64
two_rounds-AllInTime =
    let one = answered_at-Answered 5000 in
    AllInTime.next_round 5000 one (omega arith) small_run refl
      (AllInTime.next_round 5000 one (omega arith) small_run refl AllInTime.no_round)

events_run : all_events two_rounds ≡ 50
unfolding all_events
events_run = omega (arith, sums_run)

start-IsServed : IsServed start 100 5
start-IsServed = record {
  clock = refl;
  plain = refl;
  mapped = record { address = 65536; mapped = refl; not_null = refl };
}

main-IsStarted_example : Waits 1 (timespec_to_uint64 100 5) booted.0
main-IsStarted_example =
    main-IsStarted clean stack 13 start 100 5 booted.0.0 booted.0.1 start-IsServed booted.1

booted-IsConnected : IsConnected cl1 booted.0.0 machine
booted-IsConnected =
    let (h, target, closed) =
      main-IsStarted clean stack 13 start 100 5 booted.0.0 booted.0.1 start-IsServed booted.1 in
    record { target = ap device_of target; linked = λ e. absurd (e closed); receiving = refl }

early : 5000 ≤ timespec_to_uint64 100 5
unfolding timespec_to_uint64
early = omega arith

late : timespec_to_uint64 100 5 < 200000000000
unfolding timespec_to_uint64
late = omega arith

sigusr1-Accounted_example :
    (s' : Profiler) × (effects : List Effect) × (profile_gpu_bandwidth
        (answered_at 5000)
        sigusr1
        booted.0.0
      ≡ Handled.returned s' effects)
    × IsStarted booted.0.1 (timespec_to_uint64 100 5) s'
    × (let m' = deliver env true 9 effects machine in
        IsConnected cl1 s' m' × Accounted env cl1 (events_of (answered_at 5000)) boot m'.system)
sigusr1-Accounted_example =
    sigusr1-Accounted booted.0.1 (timespec_to_uint64 100 5) 5000 cl1 9 (answered_at 5000) env
      booted.0.0 machine
      (main-IsStarted clean stack 13 start 100 5 booted.0.0 booted.0.1 start-IsServed booted.1).0
      booted-IsConnected (answered_at-Answered 5000) early small_run

main-run_example :
    (s' : Profiler) × (machine' : Machine) × (rounds 9 two_rounds booted.0.0 machine
      ≡ Rounds.waiting s' machine')
    × IsStarted booted.0.1 (timespec_to_uint64 100 5) s'
    × IsConnected cl1 s' machine'
    × ((cluster machine'.system cl1).bandwidth_usage
        ≡ u32 ((cluster boot cl1).bandwidth_usage + all_events two_rounds))
main-run_example =
    main-run clean stack 13 start 100 5 booted.0.0 booted.0.1 start-IsServed booted.1 cl1 9
      two_rounds machine refl refl (omega arith) two_rounds-AllInTime

main-late_example :
    (machine' : Machine) × (rounds 9 (two_rounds ++ (meets_at 200000000000 ∷ [])) booted.0.0 machine
      ≡ Rounds.over true machine')
    × ((cluster machine'.system cl1).bandwidth_usage
        ≡ u32 ((cluster boot cl1).bandwidth_usage + all_events two_rounds))
main-late_example =
    main-late clean stack 13 start 100 5 booted.0.0 booted.0.1 start-IsServed booted.1 cl1 9
      two_rounds [] (meets_at 200000000000) 200000000000 machine refl refl (omega arith)
      two_rounds-AllInTime (answered_at-Answered 200000000000) late
