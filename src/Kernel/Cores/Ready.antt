-- ===== src/Kernel/Cores/Ready.antt =====
-- What the set-up of the cores leaves for `__start_counter`, and for the handlers after it.
use cl_mem_regulation.Common.{
  ℕ, ◌<◌, ◌≡◌, ◌≢◌, ◌⊎◌, inl, inr, refl, sym, ap, ◌∙◌, arith, mem, Bool, true, false, none, some,
  Option-cases, bind_some, some-unless, ◌&&◌, not, ℕ_discrete, List, [], ◌∷◌, update, update_self,
  update_ne, u32,
}
use mathlib.Core.Path.{subst}
use cl_mem_regulation.Kernel.State.{
  CoreInfo, System, ClusterId, cl1, cl2, cluster, cluster_of_cpu, Gpu,
}
use cl_mem_regulation.Kernel.Units.{convert_mb_to_events}
use cl_mem_regulation.Kernel.Start.{Boot, start_counter, start_all}
use cl_mem_regulation.Kernel.Start.Leader.{IsElected}
use cl_mem_regulation.Kernel.Start.All.{IsWired, Fresh, start_counter-IsWired, start_all-IsElected}
use cl_mem_regulation.Kernel.Cores.{
  Args, CpuCalls, init_cluster, receiver_of, init_counter, int_max, init_core, init_cores, booted,
  init_boot,
}

-- A core that is set up is one of the eight, in its cluster, and not throttled.
record IsMade (i : ℕ) (c : CoreInfo) : Type 0 where
  pub small : i < 8
  pub own : c.cpu ≡ i
  pub place : c.cluster_info ≡ cluster_of_cpu i
  pub free : c.throttled_task ≡ none

init_core-IsMade :
    (a : Args) (i : ℕ) (calls : CpuCalls) (c : CoreInfo) → init_core a i calls ≡ some c → IsMade i c
unfolding init_core
init_core-IsMade a i calls c e =
    elim (Option-cases (init_counter calls.create i int_max a.read_counter_id)) [
      | inl n ↦ absurd (ground (arith, n))
      | inr (ev, n) ↦ record {
        small = ground (arith, n);
        own = ground (arith, n);
        place = ground (arith, n);
        free = ground (arith, n);
      }
    ]

-- After the loop an online CPU is set up, and any other is what it was.
init_cores-IsMade :
    (a : Args) (calls : ℕ → CpuCalls) (online : List ℕ) (m core : ℕ → CoreInfo) (i : ℕ)
    → init_cores a calls online m ≡ some core
    → IsMade i (core i) ⊎ ((core i ≡ m i) × (mem i online ≡ false))
unfolding init_cores
init_cores-IsMade a calls [] m core i e =
    let same : m ≡ core = cc in inr (ap (λ f. f i) (sym same), refl)
init_cores-IsMade a calls (j ∷ online) m core i e = elim (Option-cases (init_core a j (calls j))) [
  | inl n ↦ absurd (let q : none ≡ some core = rw (n, init_cores) at e in cc)
  | inr (c, n) ↦
      elim (init_cores-IsMade a calls online (update m j c) core i (rw (n, init_cores) at e)) [
        | inl set ↦ inl set
        | inr (old, out) ↦ elim (ℕ_discrete i j) [
          | yes same ↦
              let here : core i ≡ c = old ∙ (ap (update m j c) same ∙ update_self m j c) in
              inl (rw (here, same) (init_core-IsMade a j (calls j) c n))
          | no differ ↦ inr (old ∙ update_ne m j i c differ, ground (arith, out))
        ]
      ]
]

-- The budget of a cluster, in events.
abbrev pub budget : Args → ClusterId → ℕ
budget a cl1 = u32 (convert_mb_to_events a.regulation_period_us a.bandwidth_budget_cl1)
budget a cl2 = u32 (convert_mb_to_events a.regulation_period_us a.bandwidth_budget_cl2)

-- The eight cores are wired and none is throttled, and both clusters have their budget and no usage.
pub record IsReady (a : Args) (s : System) : Type 0 where
  pub wired : IsWired s
  pub free : (i : ℕ) → i < 8 → (s.core i).throttled_task ≡ none
  pub budgets : (k : ClusterId) → (cluster s k).cur_bandwidth_budget ≡ budget a k
  pub unused : (k : ClusterId) → (cluster s k).bandwidth_usage ≡ 0

booted-IsReady :
    (a : Args) (core : ℕ → CoreInfo) (gpu1 gpu2 : Gpu) (files : ℕ → Bool) (now : ℕ)
    → ((i : ℕ) → i < 8 → IsMade i (core i))
    → IsReady a (booted a core gpu1 gpu2 files now).system
unfolding booted init_cluster
booted-IsReady a core gpu1 gpu2 files now set = record {
  wired = record {
    own = λ i lt. (set i lt).own;
    place = λ i lt. (set i lt).place;
    in_mask = λ i lt. ground arith;
  };
  free = λ i lt. (set i lt).free;
  budgets = λ k. ground arith;
  unused = λ k. ground arith;
}

booted-IsElected :
    (a : Args) (core : ℕ → CoreInfo) (gpu1 gpu2 : Gpu) (files : ℕ → Bool) (now : ℕ) (k : ClusterId)
    → IsElected (booted a core gpu1 gpu2 files now) k
unfolding booted
booted-IsElected a core gpu1 gpu2 files now cl1 = record {
  least = λ c m. omega arith;
  chosen = inl refl;
}
booted-IsElected a core gpu1 gpu2 files now cl2 = record {
  least = λ c m. omega arith;
  chosen = inl refl;
}

start_counter-IsReady :
    (a : Args) (now cpu : ℕ) (b : Boot)
    → IsReady a b.system
    → IsReady a (start_counter now cpu b).system
unfolding start_counter
start_counter-IsReady a now cpu b h = record {
  wired = start_counter-IsWired now cpu b h.wired;
  free = λ i lt. ground (arith, h.free i lt);
  budgets = λ k. ground (arith, h.budgets k);
  unused = λ k. ground (arith, h.unused k);
}

start_all-IsReady :
    (a : Args) (runs : List (ℕ × ℕ)) (b : Boot)
    → IsReady a b.system
    → IsReady a (start_all runs b).system
unfolding start_all
start_all-IsReady a [] b h = h
start_all-IsReady a ((cpu, now) ∷ runs) b h =
    start_all-IsReady a runs (start_counter now cpu b) (start_counter-IsReady a now cpu b h)

-- A set-up that succeeds has set up its cores.
init_boot-booted :
    (a : Args) (calls : ℕ → CpuCalls) (online : List ℕ) (memory : ℕ → CoreInfo) (gpu1 gpu2 : Gpu)
    (files : ℕ → Bool) (workqueue : Bool) (now : ℕ) (b : Boot)
    → init_boot a calls online memory gpu1 gpu2 files workqueue now ≡ some b
    → (core : ℕ → CoreInfo) × (init_cores a calls online memory ≡ some core)
      × (booted a core gpu1 gpu2 files now ≡ b)
unfolding init_boot
init_boot-booted a calls online memory gpu1 gpu2 files workqueue now b e =
    let (core, n, tail) = bind_some (init_cores a calls online memory) _ b e in
    let made = some-unless (a.logging && not workqueue) _ b tail in (core, n, cc)

-- When the set-up of the cores succeeds and all eight are online, `__start_counter` elects the leaders
-- whatever the order of its runs is, each core starting at most once; no core is throttled then, and
-- both clusters have the budget of their parameter and no usage.
pub init_boot-start :
    (a : Args) (calls : ℕ → CpuCalls) (online : List ℕ) (memory : ℕ → CoreInfo) (gpu1 gpu2 : Gpu)
    (files : ℕ → Bool) (workqueue : Bool) (now : ℕ) (b : Boot) (runs : List (ℕ × ℕ))
    → init_boot a calls online memory gpu1 gpu2 files workqueue now ≡ some b
    → ((i : ℕ) → i < 8 → mem i online ≡ true)
    → Fresh b.hrtimer_start runs
    → IsReady a (start_all runs b).system × ((k : ClusterId) → IsElected (start_all runs b) k)
init_boot-start a calls online memory gpu1 gpu2 files workqueue now b runs e all fresh =
    let (core, n, made) =
      init_boot-booted a calls online memory gpu1 gpu2 files workqueue now b e in
    let ready : IsReady a b.system =
      subst (λ b'. IsReady a b'.system) made
        (booted-IsReady a core gpu1 gpu2 files now (all_set core n)) in
    (
      start_all-IsReady a runs b ready,
      λ k.
          start_all-IsElected runs b k ready.wired fresh
            (subst (λ b'. IsElected b' k) made (booted-IsElected a core gpu1 gpu2 files now k)),
    )
  where
    all_set :
        (core : ℕ → CoreInfo)
        → init_cores a calls online memory ≡ some core
        → (i : ℕ) → i < 8
        → IsMade i (core i)
    all_set core n i lt = elim (init_cores-IsMade a calls online memory core i n) [
      | inl s ↦ s
      | inr (old, out) ↦ absurd (ground (arith, all i lt))
    ]

-- Where both clusters name one core for their profiling and profile, no core gets the receiver of the
-- second cluster.
receiver_of-shared :
    (a : Args) (i : ℕ)
    → a.profiling_core_cl1 ≡ a.profiling_core_cl2
    → a.profiling_cl1 ≡ true
    → receiver_of a i ≢ some cl2
unfolding receiver_of
receiver_of-shared a i same on = ground arith
