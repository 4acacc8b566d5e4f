-- ===== src/Sampler/Tests.antt =====
-- A back end that is started and asked for a sample, and the theorem there.
use cl_mem_regulation.Common.{◌≤◌, ◌≡◌, refl, true, some, [], ◌∷◌, get_or, replicate}
use cl_mem_regulation.Sampler.Session.{
  session__init_with_args, session__init, session__update_ts, session__can_erase,
  timespec_to_uint64,
}
use cl_mem_regulation.Sampler.Backend.{
  Backend, VinstrSample, blank, backend__init, backend__start, backend__request_sample,
  backend__request_sample_no_lock, backend__get_sample, sample__init,
}
use cl_mem_regulation.Sampler.Backend.Reach.{Reach, here, start, request, sample-stuck}
use cl_mem_regulation.Structures.Queue.{
  uint64_queue__init, uint64_queue__push, uint64_queue__pop, uint64_queue__pop_count,
}
use cl_mem_regulation.Structures.SessionQueue.{
  session_queue__init, session_queue__push, session_queue__is_full, session_queue__front,
  session_queue__is_empty, session_queue__pop,
}

abbrev made : Backend
made = backend__init (replicate 3 9) 0 0 2

-- Started at 100 s and 5 ns; the request has the user data 7.
abbrev running : Backend
running = record {
  period_ns_ = 0;
  reader_features_ = 0;
  active_ = true;
  user_data_manual_ = record { push_idx = 0; pop_idx = 0; max_size = 3; elements = replicate 3 9 };
  sessions_ = record {
    push_idx = 1;
    pop_idx = 0;
    elements = session__init_with_args 100000000005 0 ∷ replicate 3 blank;
    max_size = 4;
  };
  sample_nr_alloc_ = 0;
}

abbrev asked : Backend
asked = record running {
  user_data_manual_ = record { push_idx = 1; pop_idx = 0; max_size = 3; elements = 7 ∷ 9 ∷ 9 ∷ [] };
}

running_run :
    (backend__start true (some (100, 5)) 0 made ≡ some running)
    × (backend__request_sample true 7 running ≡ some asked)
unfolding backend__start backend__init uint64_queue__init session_queue__init session_queue__push
    session_queue__is_full timespec_to_uint64 session__init_with_args session__init
    backend__request_sample backend__request_sample_no_lock uint64_queue__push
running_run = (refl, refl)

asked-Reach : Reach made asked
asked-Reach = request true 7 (start true (some (100, 5)) 0 here running_run.0) running_run.1

abbrev first_sample : VinstrSample
first_sample = record {
  reader_ = record asked {
    user_data_manual_ = record {
      push_idx = 1;
      pop_idx = 1;
      max_size = 3;
      elements = 7 ∷ 9 ∷ 9 ∷ [];
    };
    sample_nr_alloc_ = 1;
  };
  metadata_ = record {
    user_data = 7;
    sample_nr = 0;
    timestamp_ns_begin = 100000000005;
    timestamp_ns_end = 5000;
  };
}

first_sample_run : sample__init (some 5000) asked ≡ some first_sample
unfolding sample__init backend__get_sample session_queue__front session_queue__is_empty
    session__update_ts uint64_queue__pop uint64_queue__pop_count session_queue__pop
    session__can_erase session__init_with_args session__init
first_sample_run = refl

sample-stuck_example :
    let m = first_sample.metadata_ in
    (m.sample_nr ≡ 0)
    × (m.user_data ≡ get_or asked.user_data_manual_.elements 0 0)
    × (m.timestamp_ns_begin ≡ (get_or asked.sessions_.elements 0 blank).last_ts_ns_)
    × (m.timestamp_ns_end ≤ m.timestamp_ns_begin)
sample-stuck_example =
    sample-stuck (replicate 3 9) 0 0 2 asked (some 5000) first_sample asked-Reach first_sample_run
