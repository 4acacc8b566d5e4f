-- ===== src/Sampler/Backend.antt =====
-- The vinstr back end: include/backend.h, and the samples of include/vinstr_sample.h. What the ioctl
-- calls and the clock return is an argument; `none` is the end of the program.
pub mod Reach
use cl_mem_regulation.Common.{
  ℕ, ◌+◌, ◌==◌, if◌then◌else◌, Bool, true, false, Option, none, some, List, u32, u64,
}
use cl_mem_regulation.Sampler.Session.{
  Session, session__init_with_args, session__update_ts, session__can_erase, timespec_to_uint64,
}
use cl_mem_regulation.Structures.Queue.{
  Uint64Queue, uint64_queue__init, uint64_queue__push, uint64_queue__pop, uint64_queue__pop_count,
}
use cl_mem_regulation.Structures.SessionQueue.{
  SessionQueue, session_queue__init, session_queue__push, session_queue__pop, session_queue__front,
}

-- What the sampling reads and writes of `struct vinstr_backend`.
pub record Backend : Type 0 where
  pub period_ns_ : ℕ
  pub reader_features_ : ℕ
  pub active_ : Bool
  pub user_data_manual_ : Uint64Queue
  pub sessions_ : SessionQueue Session
  pub sample_nr_alloc_ : ℕ

pub record SampleMetadata : Type 0 where
  pub user_data : ℕ
  pub sample_nr : ℕ
  pub timestamp_ns_begin : ℕ
  pub timestamp_ns_end : ℕ

-- A sample has a copy of the back end, which it reads from.
pub record VinstrSample : Type 0 where
  pub reader_ : Backend
  pub metadata_ : SampleMetadata

abbrev pub blank : Session
unfolding session__init_with_args
blank = session__init_with_args 0 0

-- `vinstr_backend__init`, with the memory of its queue.
unfoldable pub backend__init : (memory : List ℕ) (period features max_buffer_count : ℕ) → Backend
backend__init memory period features max_buffer_count = record {
  period_ns_ = period;
  reader_features_ = features;
  active_ = false;
  user_data_manual_ = uint64_queue__init memory max_buffer_count;
  sessions_ = session_queue__init blank (u32 (max_buffer_count + max_buffer_count));
  sample_nr_alloc_ = 0;
}

unfoldable pub backend__start :
    (clear : Bool) → (now : Option (ℕ × ℕ)) → ℕ → Backend → Option Backend
backend__start clear now user_data b =
    let started : Option Backend = elim now [
      | none ↦ some b
      | some (sec, nsec) ↦
          elim (session_queue__push blank b.sessions_
            (session__init_with_args (timespec_to_uint64 sec nsec) user_data)) [
              | none ↦ none
              | some q ↦ some (record b { sessions_ = q; active_ = true })
            ]
    ] in
    if clear then (if b.active_ then some b else started) else none

unfoldable pub backend__request_sample_no_lock : (dump : Bool) → ℕ → Backend → Option Backend
backend__request_sample_no_lock dump user_data b =
    let pushed = record b {
      user_data_manual_ = uint64_queue__push b.user_data_manual_ user_data;
    } in
    if b.active_ then (if dump then some pushed else none) else none

unfoldable pub backend__request_sample : (dump : Bool) → ℕ → Backend → Option Backend
unfolding backend__request_sample_no_lock
backend__request_sample dump user_data b =
    let requested = backend__request_sample_no_lock dump user_data b in
    if b.period_ns_ == 0 then requested else none

unfoldable pub backend__stop : (dump : Bool) → ℕ → Backend → Option Backend
unfolding backend__request_sample_no_lock
backend__stop dump user_data b =
    let requested = backend__request_sample_no_lock dump user_data b in
    if b.active_ then requested else some b

-- `timestamp` is that of the buffer that the ioctl gives. The session is a copy, too: its new time
-- stamp is lost.
unfoldable pub backend__get_sample : (timestamp : Option ℕ) → Backend → Option VinstrSample
backend__get_sample timestamp b =
    let result : Option VinstrSample = elim timestamp [
      | none ↦ none
      | some ts ↦ elim (session_queue__front blank b.sessions_) [
        | none ↦ none
        | some session ↦ elim (session__update_ts session ts) [
          | none ↦ none
          | some (begin, session') ↦
              let (user_data, q) = uint64_queue__pop b.user_data_manual_ in
              let rest : SessionQueue Session = elim (session_queue__pop blank b.sessions_) [
                | none ↦ b.sessions_
                | some (s, left) ↦ left
              ] in
              some (record {
                reader_ = record b {
                  user_data_manual_ = q;
                  sessions_ =
                      if session__can_erase session' (uint64_queue__pop_count q)
                      then rest
                      else b.sessions_;
                  sample_nr_alloc_ = u64 (b.sample_nr_alloc_ + 1);
                };
                metadata_ = record {
                  user_data = user_data;
                  sample_nr = b.sample_nr_alloc_;
                  timestamp_ns_begin = begin;
                  timestamp_ns_end = ts;
                };
              })
        ]
      ]
    ] in
    if b.reader_features_ == 0 then result else none

-- `vinstr_sample__init`: the sample is taken on a copy of the back end, which itself does not change.
unfoldable pub sample__init : (timestamp : Option ℕ) → Backend → Option VinstrSample
unfolding backend__get_sample
sample__init timestamp reader = backend__get_sample timestamp reader
