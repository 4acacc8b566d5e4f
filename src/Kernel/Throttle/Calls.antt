-- ===== src/Kernel/Throttle/Calls.antt =====
-- Which CPUs a call over a mask reaches (cl_mem_reg.c, `cl_mem_reg_on_each_cpu_mask`).
use cl_mem_regulation.Common.{
  ℕ, ◌<◌, ◌≤◌, ◌≡◌, ◌≢◌, refl, arith, Bool, true, false, none, List, [], ◌∷◌, mem,
}
use cl_mem_regulation.Kernel.State.{System}
use cl_mem_regulation.Kernel.Throttle.{Env, throttle_core, on_each_cpu_mask, smp_call_function_many}

module _ (mask : ℕ → Bool) (cpu : ℕ) (calls : ℕ → ℕ) where
  calls-le-smp :
      (online : List ℕ) (i : ℕ) → calls i ≤ smp_call_function_many mask cpu online calls i
  unfolding smp_call_function_many
  calls-le-smp [] i = omega arith
  calls-le-smp (j ∷ online) i = ground (arith, calls-le-smp online i)

  -- Every online CPU of the mask, but the one that calls, is sent a call.
  calls-lt-smp :
      (online : List ℕ) (i : ℕ)
      → mem i online ≡ true
      → mask i ≡ true
      → i ≢ cpu
      → calls i < smp_call_function_many mask cpu online calls i
  unfolding smp_call_function_many
  calls-lt-smp [] i h m ne = cc
  calls-lt-smp (j ∷ online) i h m ne = ground (arith, calls-lt-smp online i, calls-le-smp online i)

  -- A CPU outside the mask is not.
  smp_outside :
      (online : List ℕ) (i : ℕ)
      → mask i ≡ false
      → smp_call_function_many mask cpu online calls i ≡ calls i
  unfolding smp_call_function_many
  smp_outside [] i m = refl
  smp_outside (j ∷ online) i m = ground (arith, smp_outside online i m)

-- CPU `i` is throttled, or will be as soon as it takes its interrupt.
abbrev pub WillThrottle : System → ℕ → Type 0
WillThrottle s i = (s.calls i ≡ 0) → (s.core i).throttled_task ≢ none

pub on_each_cpu_mask-WillThrottle :
    (env : Env) (mask : ℕ → Bool) (cpu : ℕ) (s : System) (i : ℕ)
    → mem i env.online ≡ true
    → mask i ≡ true
    → WillThrottle (on_each_cpu_mask env mask cpu s) i
unfolding on_each_cpu_mask throttle_core
on_each_cpu_mask-WillThrottle env mask cpu s i on m =
    ground (arith, calls-lt-smp mask cpu s.calls env.online i on m)

-- It does not take back the throttling of a CPU.
pub on_each_cpu_mask-keeps :
    (env : Env) (mask : ℕ → Bool) (cpu : ℕ) (s : System) (i : ℕ)
    → WillThrottle s i
    → WillThrottle (on_each_cpu_mask env mask cpu s) i
unfolding on_each_cpu_mask throttle_core
on_each_cpu_mask-keeps env mask cpu s i will =
    λ z n. ground (arith, will, calls-le-smp mask cpu s.calls env.online i, z, n)
