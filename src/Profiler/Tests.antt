-- ===== src/Profiler/Tests.antt =====
-- A profiler that is started, on two memory blocks, and the theorems there.
use cl_mem_regulation.Common.{
  ℕ, ◌≡◌, refl, arith, some, none, true, false, if◌then◌else◌, [], ◌∷◌, ◌++◌, get_elem?, replicate,
  finished, is_neg32,
}
use mathlib.Core.Path.{subst, sym}
use cl_mem_regulation.Counters.{memory}
use cl_mem_regulation.Structures.Queue.{
  uint64_queue__push, uint64_queue__pop, uint64_queue__pop_count,
}
use cl_mem_regulation.Structures.SessionQueue.{
  session_queue__front, session_queue__is_empty, session_queue__pop,
}
use cl_mem_regulation.Structures.Set.{SetNode, CounterSet}
use cl_mem_regulation.Device.Properties.{no_constants}
use cl_mem_regulation.Device.Instance.{Gpu}
use cl_mem_regulation.Sampler.Session.{
  session__init_with_args, session__init, session__update_ts, session__can_erase,
}
use cl_mem_regulation.Sampler.Backend.{
  Backend, VinstrSample, blank, backend__request_sample, backend__request_sample_no_lock,
  backend__get_sample, sample__init,
}
use cl_mem_regulation.Sampler.Layout.{SampleLayout, non_v4}
use cl_mem_regulation.Sampler.Blocks.{Reader}
use cl_mem_regulation.Sampler.Config.{definition_of}
use cl_mem_regulation.Sampler.Values.{
  Values, build_sample_buffer_mappings, add_places, add_place, sampler__sample_now,
}
use cl_mem_regulation.Sampler.Values.Sum.{Fits, IsReadable}
use cl_mem_regulation.Sampler.Values.Places.{AllIn, PlacedSomewhere, build-Placed}
use cl_mem_regulation.Sampler.Values.Reading.{
  counter_sum, value_after, ReadsAs, Sampled, sample_now-Reads,
}
use cl_mem_regulation.Profiler.{
  Profiler, World, device_closed, stop_written, Handled, sigint, sigterm, counter1, counter2,
  profile_gpu_bandwidth, check_arguments,
}
use cl_mem_regulation.Profiler.Beats.{registered, IsReady, sum_of}
use cl_mem_regulation.Profiler.Boot.Going.{two_zeros-Fits}
use cl_mem_regulation.Profiler.Signals.{both, both-AllHardware, both-Distinct, terminate-closes}

abbrev slices : SampleLayout
slices = record {
  max_blocks = 82;
  counters_per_block = 64;
  block_size = 256;
  layout_ =
      record { type_ = memory; index = 0; offset = 512 }
      ∷ record { type_ = memory; index = 1; offset = 768 }
      ∷ [];
  num_blocks_ = 2;
  sample_layout_type_ = non_v4;
}

abbrev reader : Reader
reader = record { memory_ = 65536; buffer_size_ = 1024; sample_layout_ = slices }

abbrev counters : CounterSet
counters = record { head = both 4096 8192; size = 2 }

abbrev empty : Values
empty = record {
  counter_to_buffer_pos_ = λ c. none;
  counters_by_block_map_ = λ t. [];
  sample_buffer_ = [];
  valid_sample_buffer_ = false;
  last_collection_timestamp_ = 0;
  sampling_in_progress_ = true;
}

abbrev started : Values
started = build_sample_buffer_mappings empty counters

started_run : (started.sample_buffer_ ≡ 0 ∷ 0 ∷ []) × (started.sampling_in_progress_ ≡ true)
unfolding build_sample_buffer_mappings add_places add_place definition_of
started_run = (refl, refl)

places :
    AllIn started
    × ((i : ℕ) (n : SetNode)
        → get_elem? counters.head i ≡ some n
        → PlacedSomewhere started n.registered)
places = build-Placed empty counters (both-AllHardware 4096 8192) (both-Distinct 4096 8192)

build-Placed_example :
    AllIn started
    × ((i : ℕ) (n : SetNode)
        → get_elem? counters.head i ≡ some n
        → PlacedSomewhere started n.registered)
build-Placed_example =
    build-Placed empty counters (both-AllHardware 4096 8192) (both-Distinct 4096 8192)

abbrev running : Backend
running = record {
  period_ns_ = 0;
  reader_features_ = 0;
  active_ = true;
  user_data_manual_ = record { push_idx = 0; pop_idx = 0; max_size = 3; elements = replicate 3 9 };
  sessions_ = record {
    push_idx = 1;
    pop_idx = 0;
    elements = session__init_with_args 100000000005 0 ∷ replicate 3 blank;
    max_size = 4;
  };
  sample_nr_alloc_ = 0;
}

asked_run : (b : Backend) × (backend__request_sample true 0 running ≡ some b)
unfolding backend__request_sample backend__request_sample_no_lock uint64_queue__push
asked_run = (_, refl)

sample_run : (sample : VinstrSample) × (sample__init (some 5000) asked_run.0 ≡ some sample)
unfolding asked_run backend__request_sample backend__request_sample_no_lock uint64_queue__push
    sample__init backend__get_sample session_queue__front session_queue__is_empty session__update_ts
    uint64_queue__pop uint64_queue__pop_count session_queue__pop session__can_erase
    session__init_with_args session__init
sample_run = (_, refl)

-- Every word of the counter memory is 25.
abbrev world : World
world = record {
  opened = 7;
  sysfs_opened = true;
  fuel = 2;
  word = λ a. 25;
  reader = reader;
  answers = record { dump = true; taken = some 5000; buffer_idx = 1; put_back = true };
}

abbrev profiler : Profiler
profiler = record { fd = 7; target_cluster = 1; backend = running; values = started }

sums_run : (sum_of world counter1 ≡ 50) × (sum_of world counter2 ≡ 50)
unfolding counter_sum definition_of
sums_run = (refl, refl)

reader-IsReadable : IsReadable reader
reader-IsReadable = record {
  counted = record { counted = refl; fits = omega arith };
  mapped = refl;
}

started-Fits : Fits started.sample_buffer_
started-Fits = subst Fits (sym started_run.0) two_zeros-Fits

second_place : PlacedSomewhere started (registered counter2)
second_place = places.1 0 (record { data_ = 8192; registered = registered counter2 }) refl

first_place : PlacedSomewhere started (registered counter1)
first_place = places.1 1 (record { data_ = 4096; registered = registered counter1 }) refl

profiler-IsReady : IsReady world profiler first_place.0 second_place.0
profiler-IsReady = record {
  readable = reader-IsReadable;
  rounds = refl;
  all_in = places.0;
  fits = started-Fits;
  short = rw (started_run.0) (omega arith);
  first = first_place.1;
  second = second_place.1;
  started = started_run.1;
  put_back = refl;
  asked = asked_run.0;
  asking = asked_run.1;
  sample = sample_run.0;
  sampling = sample_run.1;
}

sample_now-Reads_example :
    (v' : Values) × (sampler__sample_now 2 (λ a. 25) reader world.answers running started
      ≡ finished (asked_run.0, v'))
    × ReadsAs v' counter1 sample_run.0.metadata_.timestamp_ns_begin
        (value_after (λ a. 25) reader 1 started (registered counter1) first_place.0)
    × Sampled started v'
sample_now-Reads_example =
    sample_now-Reads (λ a. 25) reader 1 started (registered counter1) first_place.0 first_place.1
      world.answers running asked_run.0 sample_run.0 reader-IsReadable places.0 started-Fits
      (rw (started_run.0) (omega arith)) started_run.1 asked_run.1 sample_run.1 refl refl

abbrev g710_gpu : Gpu
g710_gpu = record {
  device_number_ = 0;
  valid_ = true;
  constants_ = record no_constants { gpu_id = 0xa8720010 };
}

terminate-closes_example :
    let end =
      Handled.ended true
        ((if is_neg32 7 then [] else (device_closed 7 ∷ [])) ++ (stop_written 1 ∷ [])) in
    (profile_gpu_bandwidth world sigint profiler ≡ end)
    × (profile_gpu_bandwidth world sigterm profiler ≡ end)
terminate-closes_example = terminate-closes world profiler refl

-- `main` takes cluster 1 or 2, and the GPU types -1 to 2.
arguments_run :
    (check_arguments 3 1 0 ≡ true)
    × (check_arguments 3 2 0xffff_ffff ≡ true)
    × (check_arguments 2 1 0 ≡ false)
    × (check_arguments 3 3 0 ≡ false)
    × (check_arguments 3 1 3 ≡ false)
unfolding check_arguments
arguments_run = (refl, refl, refl, refl, refl)
