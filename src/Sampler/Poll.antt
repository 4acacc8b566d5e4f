-- ===== src/Sampler/Poll.antt =====
-- include/sample_poll.h: waiting for a sample. What `poll` answers is an argument.
use cl_mem_regulation.Common.{ℕ, ◌==◌, if◌then◌else◌, Bool, false}

-- `poll` fails with an error, or counts the descriptors that are ready.
pub data Polled : Type 0 where
  failed : (errno : ℕ) → Polled
  counted : (result : ℕ) → Polled

abbrev pub etimedout : ℕ
etimedout = 110

-- The result, and what `*is_ready` is then.
unfoldable pub poll_fd : Polled → (is_ready : Bool) → ℕ × Bool
poll_fd (failed errno) is_ready = (errno, is_ready)
poll_fd (counted result) is_ready = (0, result == 1)

unfoldable pub wait_for_sample : Polled → ℕ
unfolding poll_fd
wait_for_sample polled =
    let (err, ready) = poll_fd polled false in
    if err == 0 then (if ready then 0 else etimedout) else err

unfoldable pub check_ready_read : Polled → (is_ready : Bool) → ℕ × Bool
unfolding poll_fd
check_ready_read = poll_fd
