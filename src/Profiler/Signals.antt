-- ===== src/Profiler/Signals.antt =====
-- gpu_profiler.c: the configuration that `main` makes, and the signals that do not sample.
use cl_mem_regulation.Common.{
  ℕ, zero, suc, ◌≡◌, refl, ◌==◌, ◌||◌, if◌then◌else◌, true, some, List, [], ◌∷◌, ◌++◌, get_elem?,
  is_neg32, arith, sym, ap,
}
use mathlib.Core.Path.{subst}
use cl_mem_regulation.Structures.Bitset.{bitset__init, bitset__set_bit}
use cl_mem_regulation.Structures.Set.{
  SetNode, has_counter, set__init, set__insert_registered_counter, set_contains_counter,
}
use cl_mem_regulation.Structures.Set.Members.{Distinct, distinct_nil, distinct_cons}
use cl_mem_regulation.Device.Instance.{Gpu}
use cl_mem_regulation.Sampler.Config.{
  SamplerConfig, definition_of, sampler_config__init, sampler_config__init_with_args,
  sampler_config__add_counter,
}
use cl_mem_regulation.Sampler.Values.{Values, build_sample_buffer_mappings}
use cl_mem_regulation.Sampler.Values.Places.{IsHardware, AllHardware, AllIn, Placed, build-Placed}
use cl_mem_regulation.Profiler.{
  Profiler, World, device_closed, stop_written, Handled, sigint, sigterm, counter1, counter2,
  cleanup, stop_profiling, profile_gpu_bandwidth, main_config,
}
use cl_mem_regulation.Profiler.Beats.{registered}

-- The two nodes of the set, the later counter in front.
abbrev pub both : (data1 data2 : ℕ) → List SetNode
both data1 data2 =
    record { data_ = data2; registered = registered counter2 }
    ∷ record { data_ = data1; registered = registered counter1 }
    ∷ []

pub main_config-both :
    (data1 data2 : ℕ) (gpu : Gpu)
    → (sc : SamplerConfig) × (main_config data1 data2 gpu ≡ some sc)
      × (sc.counters_.head ≡ both data1 data2)
unfolding main_config sampler_config__init sampler_config__init_with_args
    sampler_config__add_counter set__init set_contains_counter set__insert_registered_counter
    definition_of bitset__set_bit bitset__init
main_config-both data1 data2 gpu = (_, refl, refl)

first-IsHardware : IsHardware (registered counter1)
unfolding definition_of
first-IsHardware = record { tagged = refl; shifted = omega arith }

second-IsHardware : IsHardware (registered counter2)
unfolding definition_of
second-IsHardware = record { tagged = refl; shifted = omega arith }

pub both-AllHardware : (data1 data2 : ℕ) → AllHardware (both data1 data2)
both-AllHardware data1 data2 zero n e =
    let q : registered counter2 ≡ n.registered = cc in rw q at second-IsHardware
both-AllHardware data1 data2 (suc zero) n e =
    let q : registered counter1 ≡ n.registered = cc in rw q at first-IsHardware
both-AllHardware data1 data2 (suc (suc i)) n e = absurd cc

pub both-Distinct : (data1 data2 : ℕ) → Distinct (both data1 data2)
unfolding has_counter
both-Distinct data1 data2 = distinct_cons refl (distinct_cons refl distinct_nil)

-- The configuration of `main` gives both counters a place of their own in the buffer of the sampler.
pub main_config-Placed :
    (data1 data2 : ℕ) (gpu : Gpu) (v : Values)
    → (sc : SamplerConfig) × (main_config data1 data2 gpu ≡ some sc)
      × (let v' = build_sample_buffer_mappings v sc.counters_ in
          AllIn v'
          × ((p : ℕ) × Placed v' (registered counter1) p)
          × ((p : ℕ) × Placed v' (registered counter2) p))
main_config-Placed data1 data2 gpu v =
    let (sc, e, h) = main_config-both data1 data2 gpu in
    let (all, places) =
      build-Placed v sc.counters_ (subst AllHardware (sym h) (both-AllHardware data1 data2))
        (subst Distinct (sym h) (both-Distinct data1 data2)) in
    (
      sc,
      e,
      (
        all,
        places 1 (record { data_ = data1; registered = registered counter1 })
            (ap (λ ns. get_elem? ns 1) h),
        places 0 (record { data_ = data2; registered = registered counter2 })
            (ap (λ ns. get_elem? ns 0) h),
      ),
    )

-- For a profiler of cluster 1 or 2, both SIGINT and SIGTERM close an open device once, write to the switch of
-- its cluster where that can be opened, and end the program with success.
pub terminate-closes :
    (w : World) (s : Profiler)
    → (s.target_cluster == 1 || s.target_cluster == 2) ≡ true
    → let end = Handled.ended true (
        (if is_neg32 s.fd then [] else (device_closed s.fd ∷ []))
        ++ (if w.sysfs_opened then stop_written s.target_cluster ∷ [] else [])) in
      (profile_gpu_bandwidth w sigint s ≡ end) × (profile_gpu_bandwidth w sigterm s ≡ end)
unfolding profile_gpu_bandwidth stop_profiling cleanup
terminate-closes w s h = (ground arith, ground arith)
