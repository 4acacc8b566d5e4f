-- ===== src/Kernel/Start/All.antt =====
-- The leaders after all cores have started.
use cl_mem_regulation.Common.{ℕ, ◌<◌, ◌≡◌, arith, true, List, [], ◌∷◌, update}
use cl_mem_regulation.Kernel.State.{System, ClusterId, cluster, cluster_of_cpu}
use cl_mem_regulation.Kernel.Start.{Boot, ktime_max, start_counter, start_all}
use cl_mem_regulation.Kernel.Start.Leader.{IsElected, start_counter-IsElected}

-- Each of the eight cores knows its number and its cluster, and is in the mask of its cluster.
pub record IsWired (s : System) : Type 0 where
  pub own : (i : ℕ) → i < 8 → (s.core i).cpu ≡ i
  pub place : (i : ℕ) → i < 8 → (s.core i).cluster_info ≡ cluster_of_cpu i
  pub in_mask : (i : ℕ) → i < 8 → (cluster s (cluster_of_cpu i)).cpu_mask i ≡ true

-- Each of these runs is of one of the eight cores, which has not started, at a time below `KTIME_MAX`.
pub data Fresh : (ℕ → ℕ) → List (ℕ × ℕ) → Type 0 where
  fresh_nil : {start : ℕ → ℕ} → Fresh start []
  fresh_cons :
      {start : ℕ → ℕ} {cpu now : ℕ} {runs : List (ℕ × ℕ)}
      → cpu < 8
      → now < ktime_max
      → start cpu ≡ ktime_max
      → Fresh (update start cpu now) runs
      → Fresh start ((cpu, now) ∷ runs)

pub start_counter-IsWired :
    (now cpu : ℕ) (b : Boot) → IsWired b.system → IsWired (start_counter now cpu b).system
unfolding start_counter
start_counter-IsWired now cpu b wired = record {
  own = λ i lt. ground (arith, wired.own i lt);
  place = λ i lt. ground (arith, wired.place i lt);
  in_mask = λ i lt. ground (arith, wired.in_mask i lt);
}

started_times :
    (now cpu : ℕ) (b : Boot)
    → IsWired b.system
    → cpu < 8
    → (start_counter now cpu b).hrtimer_start ≡ update b.hrtimer_start cpu now
unfolding start_counter
started_times now cpu b wired lt = ground (arith, wired.place cpu lt, wired.in_mask cpu lt)

-- However the cores' runs of `__start_counter` follow each other, both leaders stay elected: in the
-- end the leader of a cluster is one of its cores that started no later than any other, unless none
-- has started. The eight cores are wired to their clusters, and each starts at most once.
pub start_all-IsElected :
    (runs : List (ℕ × ℕ)) (b : Boot) (k : ClusterId)
    → IsWired b.system
    → Fresh b.hrtimer_start runs
    → IsElected b k
    → IsElected (start_all runs b) k
unfolding start_all
start_all-IsElected [] b k wired fresh elected = elected
start_all-IsElected ((cpu, now) ∷ runs) b k wired (fresh_cons lt small not_started fresh) elected =
    start_all-IsElected runs (start_counter now cpu b) k (start_counter-IsWired now cpu b wired)
      (rw (started_times now cpu b wired lt) fresh)
      (start_counter-IsElected now cpu b k (wired.own cpu lt) (wired.place cpu lt)
        (wired.in_mask cpu lt) small not_started elected)
