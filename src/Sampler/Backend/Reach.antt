-- ===== src/Sampler/Backend/Reach.antt =====
-- What the back end can come to, and the samples that are taken there.
use cl_mem_regulation.Common.{
  ℕ, ◌≤◌, ◌≡◌, refl, arith, Bool, some, Option, List, get_or, ◌%◌, sext64, if◌then◌else◌, ◌⊎◌, inl,
  inr,
}
use mathlib.Core.Path.{subst}
use native.Mathlib.Nat.{zero-mod}
use cl_mem_regulation.Sampler.Session.{session__update_ts}
use cl_mem_regulation.Sampler.Backend.{
  Backend, VinstrSample, blank, backend__init, backend__start, backend__request_sample_no_lock,
  backend__request_sample, backend__stop, backend__get_sample, sample__init,
}
use cl_mem_regulation.Structures.Queue.{uint64_queue__init, uint64_queue__push, uint64_queue__pop}
use cl_mem_regulation.Structures.SessionQueue.{
  session_queue__init, session_queue__push, session_queue__front,
}

-- The operations on a back end, one after the other.
pub data Reach : Backend → Backend → Type 0 where
  here : {b : Backend} → Reach b b
  start :
      {b c d : Backend} (clear : Bool) (now : Option (ℕ × ℕ)) (user_data : ℕ)
      → Reach b c
      → backend__start clear now user_data c ≡ some d
      → Reach b d
  request :
      {b c d : Backend} (dump : Bool) (user_data : ℕ)
      → Reach b c
      → backend__request_sample dump user_data c ≡ some d
      → Reach b d
  stop :
      {b c d : Backend} (dump : Bool) (user_data : ℕ)
      → Reach b c
      → backend__stop dump user_data c ≡ some d
      → Reach b d

-- The number of the next sample, the place of the next user data, and the sessions that were erased
-- are still those of the beginning; there is no session before the start and one after it.
pub record IsStuck (b : Backend) : Type 0 where
  pub number : b.sample_nr_alloc_ ≡ 0
  pub place : b.user_data_manual_.pop_idx ≡ 0
  pub erased : b.sessions_.pop_idx ≡ 0
  pub sessions : b.sessions_.push_idx ≡ (if b.active_ then 1 else 0)

start-IsStuck :
    (clear : Bool) (now : Option (ℕ × ℕ)) (user_data : ℕ) (b c : Backend)
    → backend__start clear now user_data b ≡ some c
    → IsStuck b
    → IsStuck c
unfolding backend__start session_queue__push
start-IsStuck clear now user_data b c ok stuck = record {
  number = ground (arith, stuck.number);
  place = ground (arith, stuck.place);
  erased = ground (arith, stuck.erased);
  sessions = ground (arith, stuck.sessions);
}

request-IsStuck :
    (dump : Bool) (user_data : ℕ) (b c : Backend)
    → backend__request_sample_no_lock dump user_data b ≡ some c
    → IsStuck b
    → IsStuck c
unfolding backend__request_sample_no_lock uint64_queue__push
request-IsStuck dump user_data b c ok stuck = record {
  number = ground (arith, stuck.number);
  place = ground (arith, stuck.place);
  erased = ground (arith, stuck.erased);
  sessions = ground (arith, stuck.sessions);
}

-- A request is one without the lock, and a stop is one or nothing.
request-no_lock :
    (dump : Bool) (user_data : ℕ) (b c : Backend)
    → backend__request_sample dump user_data b ≡ some c
    → backend__request_sample_no_lock dump user_data b ≡ some c
unfolding backend__request_sample
request-no_lock dump user_data b c ok = ground arith

stop-no_lock :
    (dump : Bool) (user_data : ℕ) (b c : Backend)
    → backend__stop dump user_data b ≡ some c
    → (backend__request_sample_no_lock dump user_data b ≡ some c) ⊎ (b ≡ c)
unfolding backend__stop
stop-no_lock dump user_data b c ok = ground arith

Reach-IsStuck : {b c : Backend} → Reach b c → IsStuck b → IsStuck c
Reach-IsStuck here stuck = stuck
Reach-IsStuck (start {c = c} {d = d} clear now user_data r ok) stuck =
    start-IsStuck clear now user_data c d ok (Reach-IsStuck r stuck)
Reach-IsStuck (request {c = c} {d = d} dump user_data r ok) stuck =
    request-IsStuck dump user_data c d (request-no_lock dump user_data c d ok)
      (Reach-IsStuck r stuck)
Reach-IsStuck (stop {c = c} {d = d} dump user_data r ok) stuck =
    elim (stop-no_lock dump user_data c d ok) [
      | inl requested ↦ request-IsStuck dump user_data c d requested (Reach-IsStuck r stuck)
      | inr same ↦ subst IsStuck same (Reach-IsStuck r stuck)
    ]

init-IsStuck :
    (memory : List ℕ) (period features n : ℕ) → IsStuck (backend__init memory period features n)
unfolding backend__init uint64_queue__init session_queue__init
init-IsStuck memory period features n = record {
  number = refl;
  place = refl;
  erased = refl;
  sessions = refl;
}

sample_lem :
    (b : Backend) (timestamp : Option ℕ) (sample : VinstrSample)
    → IsStuck b
    → sample__init timestamp b ≡ some sample
    → let m = sample.metadata_ in
      (m.sample_nr ≡ 0)
      × (m.user_data ≡ get_or b.user_data_manual_.elements 0 0)
      × (m.timestamp_ns_begin ≡ (get_or b.sessions_.elements 0 blank).last_ts_ns_)
      × (m.timestamp_ns_end ≤ m.timestamp_ns_begin)
unfolding sample__init backend__get_sample session_queue__front session__update_ts uint64_queue__pop
sample_lem b timestamp sample stuck ok =
    ground (arith, stuck.number, stuck.place, stuck.erased, zero_slot b)
  where
    zero_slot : (b : Backend) → 0 % sext64 b.sessions_.max_size ≡ 0
    zero_slot b = zero-mod _

-- Every sample of a back end that was started, stopped and asked for samples in any order has the
-- number 0 and the user data of the first place of the queue, it begins with the start of the first
-- session, and it ends no later than that: a later time stamp ends the program.
pub sample-stuck :
    (memory : List ℕ) (period features n : ℕ) (b : Backend) (timestamp : Option ℕ)
    (sample : VinstrSample)
    → Reach (backend__init memory period features n) b
    → sample__init timestamp b ≡ some sample
    → let m = sample.metadata_ in
      (m.sample_nr ≡ 0)
      × (m.user_data ≡ get_or b.user_data_manual_.elements 0 0)
      × (m.timestamp_ns_begin ≡ (get_or b.sessions_.elements 0 blank).last_ts_ns_)
      × (m.timestamp_ns_end ≤ m.timestamp_ns_begin)
sample-stuck memory period features n b timestamp sample r ok =
    sample_lem b timestamp sample (Reach-IsStuck r (init-IsStuck memory period features n)) ok
