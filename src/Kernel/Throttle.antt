-- ===== src/Kernel/Throttle.antt =====
-- Throttling (cl_mem_reg.c): `__throttle_core` and `cl_mem_reg_on_each_cpu_mask`.
-- The call of the other CPUs does not wait (`wait` is 0 in each use): it leaves a pending call on
-- each, which that CPU runs later as an interrupt.
pub mod Calls
use cl_mem_regulation.Common.{
  ℕ, ◌+◌, ◌-◌, ==_self, ◌≡◌, refl, arith, ◌==◌, if◌then◌else◌, Bool, true, false, not, ◌&&◌, some,
  List, [], ◌∷◌, update,
}
use cl_mem_regulation.Kernel.State.{System, CoreInfo, put_core, cluster, ClusterId}

-- What the kernel tells a handler on the CPU that runs it.
pub record Env : Type 0 where
  pub now : ℕ
  pub current : ℕ
  pub online : List ℕ

-- `__throttle_core` on `cpu`
unfoldable pub throttle_core : Env → ℕ → System → System
throttle_core env cpu s =
    let c = s.core cpu in
    put_core s cpu (record c {
      throttled_task = some env.current;
      throttled_time = env.now;
      wake_ups = c.wake_ups + 1;
    })

-- `smp_call_function_many`: a call for every online CPU of the mask but this one.
unfoldable pub smp_call_function_many : (ℕ → Bool) → ℕ → List ℕ → (ℕ → ℕ) → ℕ → ℕ
smp_call_function_many mask cpu [] calls = calls
smp_call_function_many mask cpu (i ∷ online) calls =
    let rest = smp_call_function_many mask cpu online calls in
    if mask i && not (i == cpu) then update rest i (rest i + 1) else rest

unfoldable pub on_each_cpu_mask : Env → (ℕ → Bool) → ℕ → System → System
on_each_cpu_mask env mask cpu s =
    let s' = record s { calls = smp_call_function_many mask cpu env.online s.calls } in
    if mask cpu then throttle_core env cpu s' else s'

-- A CPU runs one pending call of `__throttle_core`.
unfoldable pub run_call : Env → ℕ → System → System
run_call env cpu s =
    throttle_core env cpu (record s { calls = update s.calls cpu (s.calls cpu - 1) })
