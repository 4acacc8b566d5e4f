-- ===== src/Kernel/Timer/Same.antt =====
-- What an aggregation period leaves alone before its budget check: calls, budgets, throttled tasks.
use cl_mem_regulation.Common.{ℕ, ◌≡◌, ◌∙◌, arith, some}
use cl_mem_regulation.Kernel.State.{System, ClusterId, cluster}
use cl_mem_regulation.Kernel.Timer.{
  Tick, account_cpu, request_gpu_beats, log_cpu, get_read_event_used,
}
use cl_mem_regulation.Kernel.Timer.Rules.{profiled}

-- What an aggregation period leaves alone before its budget check.
pub record SameThrottle (s s' : System) : Type 0 where
  pub calls : s'.calls ≡ s.calls
  pub files : (s'.logging ≡ s.logging) × (s'.cpu_log_file ≡ s.cpu_log_file)
  pub clusters :
      (k : ClusterId)
      → ((cluster s' k).cur_bandwidth_budget ≡ (cluster s k).cur_bandwidth_budget)
        × ((cluster s' k).cpu_mask ≡ (cluster s k).cpu_mask)
        × ((cluster s' k).leader_core ≡ (cluster s k).leader_core)
  pub cores :
      (i : ℕ)
      → ((s'.core i).throttled_task ≡ (s.core i).throttled_task)
        × ((s'.core i).cluster_info ≡ (s.core i).cluster_info)
        × ((s'.core i).cpu ≡ (s.core i).cpu)

pub SameThrottle-trans : {s t u : System} → SameThrottle s t → SameThrottle t u → SameThrottle s u
SameThrottle-trans a b = record {
  calls = b.calls ∙ a.calls;
  files = (b.files.0 ∙ a.files.0, b.files.1 ∙ a.files.1);
  clusters = λ k. ground (arith, a.clusters k, b.clusters k);
  cores = λ i. ground (arith, a.cores i, b.cores i);
}

pub account_cpu-SameThrottle : (cpu : ℕ) (s : System) → SameThrottle s (account_cpu cpu s)
unfolding account_cpu
account_cpu-SameThrottle cpu s = record {
  calls = ground arith;
  files = ground arith;
  clusters = λ k. ground arith;
  cores = λ i. ground arith;
}

pub request-SameThrottle :
    (t : Tick) (cpu : ℕ) (s : System) → SameThrottle s (request_gpu_beats t cpu s)
unfolding request_gpu_beats
request-SameThrottle t cpu s = record {
  calls = ground arith;
  files = ground arith;
  clusters = λ k. ground arith;
  cores = λ i. ground arith;
}

pub log_cpu-SameThrottle :
    (t : Tick) (used cpu : ℕ) (s : System) {s' : System}
    → log_cpu t used cpu s ≡ some s'
    → SameThrottle s s'
unfolding log_cpu
log_cpu-SameThrottle t used cpu s e = record {
  calls = ground arith;
  files = ground arith;
  clusters = λ k. ground arith;
  cores = λ i. ground arith;
}

pub logged-SameThrottle :
    (t : Tick) (cpu : ℕ) (s : System) {s' : System}
    → log_cpu t (get_read_event_used (s.core cpu)) cpu (profiled t cpu s) ≡ some s'
    → SameThrottle s s'
logged-SameThrottle t cpu s f =
    SameThrottle-trans
      (SameThrottle-trans (account_cpu-SameThrottle cpu s)
        (request-SameThrottle t cpu (account_cpu cpu s)))
      (log_cpu-SameThrottle t (get_read_event_used (s.core cpu)) cpu (profiled t cpu s) f)

pub profiled-SameThrottle : (t : Tick) (cpu : ℕ) (s : System) → SameThrottle s (profiled t cpu s)
profiled-SameThrottle t cpu s =
    SameThrottle-trans (account_cpu-SameThrottle cpu s)
      (request-SameThrottle t cpu (account_cpu cpu s))
