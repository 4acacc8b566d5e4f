-- ===== src/Kernel/Start/Leader.antt =====
-- The leader of a cluster is the core that started first.
use cl_mem_regulation.Common.{
  ℕ, ◌≤◌, ◌<◌, ◌≡◌, ◌≢◌, ◌⊎◌, inl, inr, refl, sym, ap, ◌∙◌, arith, true, mem, ltb, ◌==◌,
  if◌then◌else◌, List, [], ◌∷◌, update, update_ne, Bool-cases, ℕ_discrete, if_rule, ==_self,
}
use cl_mem_regulation.Kernel.State.{ClusterId, cluster, cluster_of_cpu}
use cl_mem_regulation.Kernel.Start.{Boot, leader_start, cpus_of, elect, start_counter, ktime_max}

-- The election ends with the least start time, of the old leader and these CPUs.
elect_least :
    (start : ℕ → ℕ) (cpus : List ℕ) (leader : ℕ × ℕ)
    → ((elect start cpus leader).0 ≤ leader.0)
      × ((c : ℕ) → mem c cpus ≡ true → (elect start cpus leader).0 ≤ start c)
unfolding elect
elect_least start [] leader = (omega arith, λ c h. ground arith)
elect_least start (cpu ∷ cpus) leader =
    let next : ℕ × ℕ = if ltb (start cpu) leader.0 then (start cpu, cpu) else leader in
    let rest = elect_least start cpus next in
    (
      ground (arith, rest.0),
      λ c h. elim (Bool-cases (c == cpu)) [
        | inl same ↦ ground (arith, rest.0)
        | inr differ ↦ rest.1 c (ground arith)
      ],
    )

-- It ends with the old leader, or with one of these CPUs and its start time.
abbrev Chosen : (ℕ → ℕ) → List ℕ → ℕ × ℕ → ℕ × ℕ → Type 0
Chosen start cpus leader r = (r ≡ leader) ⊎ ((mem r.1 cpus ≡ true) × (r.0 ≡ start r.1))

elect-Chosen :
    (start : ℕ → ℕ) (cpus : List ℕ) (leader : ℕ × ℕ)
    → Chosen start cpus leader (elect start cpus leader)
unfolding elect
elect-Chosen start [] leader = inl refl
elect-Chosen start (cpu ∷ cpus) leader =
    if_rule (λ l. Chosen start (cpu ∷ cpus) leader (elect start cpus l)) (ltb (start cpu) leader.0)
      (λ _. first (elect start cpus (start cpu, cpu)) (elect-Chosen start cpus (start cpu, cpu)))
      (λ _. later (elect start cpus leader) (elect-Chosen start cpus leader))
  where
    first : (r : ℕ × ℕ) → Chosen start cpus (start cpu, cpu) r → Chosen start (cpu ∷ cpus) leader r
    first r (inl e) = inr (rw e (rw (==_self cpu) refl), rw e refl)
    first r (inr (m, e)) = inr (ground arith, e)

    later : (r : ℕ × ℕ) → Chosen start cpus leader r → Chosen start (cpu ∷ cpus) leader r
    later r (inl e) = inl e
    later r (inr (m, e)) = inr (ground arith, e)

-- The leader of a cluster: it started no later than any core of the cluster, and it is one of them
-- with the start time that is remembered, unless none has started.
pub record IsElected (b : Boot) (k : ClusterId) : Type 0 where
  pub least : (c : ℕ) → mem c (cpus_of k) ≡ true → leader_start b k ≤ b.hrtimer_start c
  pub chosen :
      (leader_start b k ≡ ktime_max)
      ⊎ ((mem (cluster b.system k).leader_core (cpus_of k) ≡ true)
          × (leader_start b k ≡ b.hrtimer_start (cluster b.system k).leader_core))

cluster_of_member : (k : ClusterId) (c : ℕ) → mem c (cpus_of k) ≡ true → cluster_of_cpu c ≡ k
cluster_of_member k c m = ground arith

cluster_dec : (j k : ClusterId) → (j ≡ k) ⊎ (j ≢ k)
cluster_dec j k = ground arith

-- What starting a core does to the times and the leaders, when the core is in the mask of its cluster.
module _ (now cpu : ℕ) (b : Boot) (own : (b.system.core cpu).cpu ≡ cpu)
    (place : (b.system.core cpu).cluster_info ≡ cluster_of_cpu cpu)
    (in_mask : (cluster b.system (cluster_of_cpu cpu)).cpu_mask cpu ≡ true) where
  abbrev start : ℕ → ℕ
  start = update b.hrtimer_start cpu now

  abbrev old_leader : ClusterId → ℕ × ℕ
  old_leader k = (leader_start b k, (cluster b.system k).leader_core)

  abbrev new_leader : ClusterId → ℕ × ℕ
  new_leader k = elect start (cpus_of k) (old_leader k)

  started_here :
      (k : ClusterId)
      → k ≡ cluster_of_cpu cpu
      → ((start_counter now cpu b).hrtimer_start ≡ start)
        × (leader_start (start_counter now cpu b) k ≡ (new_leader k).0)
        × ((cluster (start_counter now cpu b).system k).leader_core ≡ (new_leader k).1)
  unfolding start_counter
  started_here k here = ground arith

  started_elsewhere :
      (k : ClusterId)
      → k ≢ cluster_of_cpu cpu
      → ((start_counter now cpu b).hrtimer_start ≡ start)
        × (leader_start (start_counter now cpu b) k ≡ leader_start b k)
        × ((cluster (start_counter now cpu b).system k).leader_core
            ≡ (cluster b.system k).leader_core)
  unfolding start_counter
  started_elsewhere k away = ground arith

  module _ (small : now < ktime_max) (not_started : b.hrtimer_start cpu ≡ ktime_max) where
    start_le : (c : ℕ) → start c ≤ b.hrtimer_start c
    start_le c = ground (arith, not_started)

    -- The remembered time of a leader that has started is not touched.
    old-Chosen :
        (k : ClusterId)
        → IsElected b k
        → (leader_start b k ≡ ktime_max)
          ⊎ ((mem (old_leader k).1 (cpus_of k) ≡ true)
              × (leader_start b k ≡ start (old_leader k).1))
    old-Chosen k elected = elim elected.chosen [
      | inl never ↦ inl never
      | inr (m, e) ↦ elim (ℕ_discrete (old_leader k).1 cpu) [
        | yes same ↦ inl (e ∙ (ap b.hrtimer_start same ∙ not_started))
        | no differ ↦ inr (m, e ∙ sym (update_ne b.hrtimer_start cpu (old_leader k).1 now differ))
      ]
    ]

    own_cluster-IsElected :
        (k : ClusterId)
        → k ≡ cluster_of_cpu cpu
        → IsElected b k
        → IsElected (start_counter now cpu b) k
    own_cluster-IsElected k here elected = record {
      least = λ c m. rw (effect.0, effect.1) ((elect_least start (cpus_of k) (old_leader k)).1 c m);
      chosen =
          rw (effect.0, effect.1, effect.2)
            (elim (elect-Chosen start (cpus_of k) (old_leader k)) [
              | inl e ↦ rw e (old-Chosen k elected)
              | inr (m, e) ↦ inr (m, e)
            ]);
    }
      where
        effect :
            ((start_counter now cpu b).hrtimer_start ≡ start)
            × (leader_start (start_counter now cpu b) k ≡ (new_leader k).0)
            × ((cluster (start_counter now cpu b).system k).leader_core ≡ (new_leader k).1)
        effect = started_here k here

    other_cluster-IsElected :
        (k : ClusterId)
        → k ≢ cluster_of_cpu cpu
        → IsElected b k
        → IsElected (start_counter now cpu b) k
    other_cluster-IsElected k away elected = record {
      least = λ c m.
          rw (effect.0, effect.1, update_ne b.hrtimer_start cpu c now (apart c m))
            (elected.least c m);
      chosen = rw (effect.0, effect.1, effect.2) (old-Chosen k elected);
    }
      where
        effect :
            ((start_counter now cpu b).hrtimer_start ≡ start)
            × (leader_start (start_counter now cpu b) k ≡ leader_start b k)
            × ((cluster (start_counter now cpu b).system k).leader_core
                ≡ (cluster b.system k).leader_core)
        effect = started_elsewhere k away

        apart : (c : ℕ) → mem c (cpus_of k) ≡ true → c ≢ cpu
        apart c m e = away (sym (cluster_of_member k c m) ∙ ap cluster_of_cpu e)

-- A core that has not started keeps the leaders of both clusters elected when it starts. It is in the
-- mask of its cluster, and the time is below `KTIME_MAX`.
pub start_counter-IsElected :
    (now cpu : ℕ) (b : Boot) (k : ClusterId)
    → (b.system.core cpu).cpu ≡ cpu
    → (b.system.core cpu).cluster_info ≡ cluster_of_cpu cpu
    → (cluster b.system (cluster_of_cpu cpu)).cpu_mask cpu ≡ true
    → now < ktime_max
    → b.hrtimer_start cpu ≡ ktime_max
    → IsElected b k
    → IsElected (start_counter now cpu b) k
start_counter-IsElected now cpu b k own place in_mask small not_started elected =
    elim (cluster_dec k (cluster_of_cpu cpu)) [
      | inl here ↦
          own_cluster-IsElected now cpu b own place in_mask small not_started k here elected
      | inr away ↦
          other_cluster-IsElected now cpu b own place in_mask small not_started k away elected
    ]
