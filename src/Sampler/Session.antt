-- ===== src/Sampler/Session.antt =====
-- include/session.h, with `timespec_to_uint64` of include/tools.h.
use cl_mem_regulation.Common.{
  ℕ, ◌+◌, ◌*◌, ◌==◌, ltb, if◌then◌else◌, Bool, true, false, Option, none, some, u64,
}

pub record Session : Type 0 where
  pub last_ts_ns_ : ℕ
  pub user_data_periodic_ : ℕ
  pub pending_stop_ : Bool
  pub stop_sample_nr_ : ℕ

unfoldable pub session__init : Session
session__init = record {
  last_ts_ns_ = 0;
  user_data_periodic_ = 0;
  pending_stop_ = false;
  stop_sample_nr_ = 0;
}

unfoldable pub session__init_with_args : ℕ → ℕ → Session
unfolding session__init
session__init_with_args start_ts_ns user_data_periodic = record session__init {
  last_ts_ns_ = start_ts_ns;
  user_data_periodic_ = user_data_periodic;
}

unfoldable pub session__copy : (src : Session) → Session
session__copy src = record {
  last_ts_ns_ = src.last_ts_ns_;
  user_data_periodic_ = src.user_data_periodic_;
  pending_stop_ = src.pending_stop_;
  stop_sample_nr_ = src.stop_sample_nr_;
}

-- The last time stamp, and the session with the new one; `none` when the program exits.
unfoldable pub session__update_ts : Session → ℕ → Option (ℕ × Session)
session__update_ts s ts =
    if ltb s.last_ts_ns_ ts then none else some (s.last_ts_ns_, record s { last_ts_ns_ = ts })

unfoldable pub session__stop : Session → ℕ → Session
session__stop s stop_sample_nr = record s { pending_stop_ = true; stop_sample_nr_ = stop_sample_nr }

unfoldable pub session__can_erase : Session → ℕ → Bool
session__can_erase s manual_sample_nr =
    if s.pending_stop_ then manual_sample_nr == s.stop_sample_nr_ else false

unfoldable pub timespec_to_uint64 : (tv_sec tv_nsec : ℕ) → ℕ
timespec_to_uint64 tv_sec tv_nsec = u64 (tv_sec * 1000000000 + tv_nsec)
