-- ===== src/Kernel/Timer/Rules.antt =====
-- The branches of the timer's handlers, as rules: to show a property of the state after, show it of
-- each branch.
use cl_mem_regulation.Common.{
  ℕ, ◌%◌, ◌≡◌, ◌≢◌, ◌==◌, ==_ne, some-unless, refl, if_rule, true, false, inl, inr, none, some,
  Option-cases, abs32, Bool, slt32, is_some, u32, ◌+◌, if◌then◌else◌,
}
use cl_mem_regulation.Kernel.State.{System, Params, cluster, put_cluster}
use cl_mem_regulation.Kernel.Throttle.{Env, on_each_cpu_mask}
use cl_mem_regulation.Kernel.Timer.{
  Tick, count_period, timer_callback, timer_callback_master, regulation_period_func,
  aggregation_period_func, account_cpu, request_gpu_beats, log_cpu, check_budget,
  get_read_event_used,
}

-- The state when an aggregation period comes to its log line.
abbrev pub profiled : Tick → ℕ → System → System
profiled t cpu s = request_gpu_beats t cpu (account_cpu cpu s)

-- Whether a tick that has come to this count starts a regulation period.
abbrev pub StartsRegulation : Params → ℕ → Type 0
StartsRegulation p count = (count % abs32 p.manage_period_interval == 1) ≡ true

-- A property that holds of a state holds after its budget check, if no part of the check breaks it.
pub check_budget_rule {ℓ} :
    (P : System → Type ℓ) (env : Env) (cpu : ℕ) (s : System)
    → P s
    → (let k = cluster s (s.core cpu).cluster_info in
        P (put_cluster s (s.core cpu).cluster_info (record k { is_throttled = true })))
    → ((mask : ℕ → Bool) (s' : System) → P s' → P (on_each_cpu_mask env mask cpu s'))
    → ((n : ℕ) (s' : System) → P s' → P (record s' { debug_cnt = n }))
    → P (check_budget env cpu s)
unfolding check_budget
check_budget_rule P env cpu s start mark call count =
    let k = cluster s (s.core cpu).cluster_info in
    let marked =
      if (s.core cpu).cpu == k.leader_core
      then put_cluster s (s.core cpu).cluster_info (record k { is_throttled = true })
      else s in
    let checked =
      if slt32 k.cur_bandwidth_budget k.bandwidth_usage
      then on_each_cpu_mask env k.cpu_mask cpu marked
      else s in
    if_rule P (is_some (s.core cpu).throttled_task) (λ _. start)
      λ _. count (u32 (s.debug_cnt + 1)) checked (
        if_rule P (slt32 k.cur_bandwidth_budget k.bandwidth_usage)
          (λ _.
            call k.cpu_mask marked
              (if_rule P ((s.core cpu).cpu == k.leader_core) (λ _. mark) (λ _. start)))
          (λ _. start))

module _ {ℓ} (P : System → Type ℓ) (env : Env) (t : Tick) (cpu : ℕ) where
  pub aggregation_rule :
      (s : System)
      → (s.module_unloading ≡ true → P s)
      → (s.module_unloading ≡ false
          → log_cpu t (get_read_event_used (s.core cpu)) cpu (profiled t cpu s) ≡ none
          → P (profiled t cpu s))
      → ((s' : System)
          → s.module_unloading ≡ false
          → log_cpu t (get_read_event_used (s.core cpu)) cpu (profiled t cpu s) ≡ some s'
          → P (check_budget env cpu s'))
      → P (aggregation_period_func env t cpu s)
  unfolding aggregation_period_func
  aggregation_rule s unloading no_memory checked = if_rule P s.module_unloading unloading λ e.
      elim (Option-cases (log_cpu t used cpu (profiled t cpu s))) [
        | inl f ↦ rw f (no_memory e f)
        | inr (s', f) ↦ rw f (checked s' e f)
      ]
    where
      used : ℕ
      used = get_read_event_used (s.core cpu)

  pub timer_rule :
      (p : Params) (s : System)
      → (StartsRegulation p (count_period p t cpu s).count
          → P (regulation_period_func cpu (count_period p t cpu s)))
      → (((count_period p t cpu s).count % abs32 p.manage_period_interval == 1) ≡ false
          → P (aggregation_period_func env t cpu (count_period p t cpu s)))
      → P (timer_callback p env t cpu s)
  unfolding timer_callback
  timer_rule p s regulation aggregation =
      if_rule P ((count_period p t cpu s).count % abs32 p.manage_period_interval == 1) regulation
        aggregation

-- The callback has a result unless the interval is 0, and it is that of `timer_callback`.
module _ (p : Params) (env : Env) (t : Tick) (cpu : ℕ) (s : System) where
  pub callback-some :
      abs32 p.manage_period_interval ≢ 0
      → timer_callback_master p env t cpu s ≡ some (timer_callback p env t cpu s)
  unfolding timer_callback_master
  callback-some ne = rw (==_ne (abs32 p.manage_period_interval) 0 ne) refl

  pub callback-made :
      {u : System} → timer_callback_master p env t cpu s ≡ some u → timer_callback p env t cpu s ≡ u
  unfolding timer_callback_master
  callback-made {u} e = let made = some-unless (abs32 p.manage_period_interval == 0) _ u e in cc
