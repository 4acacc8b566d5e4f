-- ===== src/Profiler/Boot/Going.antt =====
-- gpu_profiler.c with include/sampler.h: the sampling once it goes.
use cl_mem_regulation.Common.{
  ℕ, zero, suc, ◌≡◌, refl, sym, ap, ◌∙◌, Bool, true, false, Option, none, some, [], ◌∷◌, arith,
  Yields, finished_Yields, exits_Yields, or_exit,
}
use mathlib.Core.Path.{subst}
use cl_mem_regulation.Structures.SessionQueue.{
  SessionQueue, session_queue__init, session_queue__is_empty, session_queue__is_full,
  session_queue__push, session_queue__front,
}
use cl_mem_regulation.Structures.Set.{CounterSet}
use cl_mem_regulation.Device.Instance.{Gpu}
use cl_mem_regulation.Sampler.Session.{Session, session__init_with_args, timespec_to_uint64}
use cl_mem_regulation.Sampler.Backend.{Backend, blank, backend__start}
use cl_mem_regulation.Sampler.Config.{SamplerConfig, definition_of}
use cl_mem_regulation.Sampler.Setup.{Sampler, no_values}
use cl_mem_regulation.Sampler.Setup.Started.{IsSetUp}
use cl_mem_regulation.Sampler.Values.{
  Values, add_place, add_places, build_sample_buffer_mappings, sampler__start_sampling,
}
use cl_mem_regulation.Sampler.Values.Sum.{Fits}
use cl_mem_regulation.Sampler.Values.Places.{AllIn, Placed}
use cl_mem_regulation.Profiler.{counter1, counter2, not_started, main_config}
use cl_mem_regulation.Profiler.Beats.{registered}
use cl_mem_regulation.Profiler.Run.{IsStarted}
use cl_mem_regulation.Profiler.Signals.{both, main_config-both, main_config-Placed}

-- The first session stands at the front of an empty queue.
pub first_session :
    (x : Session)
    → (q : SessionQueue Session) × (session_queue__push blank (session_queue__init blank 64) x
        ≡ some q)
      × (session_queue__front blank q ≡ some x)
unfolding session_queue__init session_queue__push session_queue__is_full session_queue__front
    session_queue__is_empty
first_session x = (_, refl, refl)

start_sampling_lem :
    (sec nsec : ℕ) (b : Backend) (v : Values) (q : SessionQueue Session)
    → b.active_ ≡ false
    → session_queue__push blank b.sessions_
        (session__init_with_args (timespec_to_uint64 sec nsec) 0)
      ≡ some q
    → sampler__start_sampling true (some (sec, nsec)) b v
      ≡ some (record b { sessions_ = q; active_ = true }, record v { sampling_in_progress_ = true })
unfolding sampler__start_sampling backend__start
start_sampling_lem sec nsec b v q stopped pushed = rw (stopped, pushed) refl

start_sampling-refused :
    (now : Option (ℕ × ℕ)) (b : Backend) (v : Values) → sampler__start_sampling false now b v ≡ none
unfolding sampler__start_sampling backend__start
start_sampling-refused now b v = refl

pub two_zeros-Fits : Fits (0 ∷ 0 ∷ [])
two_zeros-Fits zero = omega arith
two_zeros-Fits (suc zero) = omega arith
two_zeros-Fits (suc (suc p)) = omega arith

-- The buffer of both counters.
both-buffer :
    (data1 data2 : ℕ) (counters : CounterSet)
    → counters.head ≡ both data1 data2
    → (build_sample_buffer_mappings no_values counters).sample_buffer_ ≡ 0 ∷ 0 ∷ []
unfolding build_sample_buffer_mappings add_places add_place definition_of
both-buffer data1 data2 counters h = rw h refl

-- The configuration of `main` gives both counters a place.
pub record IsConfig (data1 data2 : ℕ) (sc : SamplerConfig) : Type 0 where
  pub head : sc.counters_.head ≡ both data1 data2
  pub all_in : AllIn (build_sample_buffer_mappings no_values sc.counters_)
  pub p1 : ℕ
  pub first : Placed (build_sample_buffer_mappings no_values sc.counters_) (registered counter1) p1
  pub p2 : ℕ
  pub second : Placed (build_sample_buffer_mappings no_values sc.counters_) (registered counter2) p2

pub main_config-IsConfig :
    (data1 data2 : ℕ) (gpu : Gpu) (sc : SamplerConfig)
    → main_config data1 data2 gpu ≡ some sc
    → IsConfig data1 data2 sc
main_config-IsConfig data1 data2 gpu sc e =
    let (sc1, e1, h) = main_config-both data1 data2 gpu in
    let (sc2, e2, (all, first, second)) = main_config-Placed data1 data2 gpu no_values in
    let q1 : sc1 ≡ sc = cc in
    let q2 : sc2 ≡ sc = cc in
    record {
      head = rw q1 at h;
      all_in = rw q2 at all;
      p1 = first.0;
      first = rw q2 at first.1;
      p2 = second.0;
      second = rw q2 at second.1;
    }

going_place :
    (v : Values) (c : ℕ) (p : ℕ)
    → Placed v (registered c) p
    → Placed (record v { sampling_in_progress_ = true }) (registered c) p
going_place v c p h = record { found = h.found; inside = h.inside; alone = h.alone }

-- What `main` ends with, once the sampling goes.
pub going-IsStarted :
    (data1 data2 target begun : ℕ) (sc : SamplerConfig) (smp : Sampler) (x : Session)
    (q : SessionQueue Session)
    → IsConfig data1 data2 sc
    → IsSetUp 0 sc.counters_ smp
    → x.last_ts_ns_ ≡ begun
    → session_queue__front blank q ≡ some x
    → IsStarted smp.reader begun (record {
      fd = not_started;
      target_cluster = target;
      backend = record smp.backend { sessions_ = q; active_ = true };
      values = record smp.values { sampling_in_progress_ = true };
    })
going-IsStarted data1 data2 target begun sc smp x q c s since front =
    let buffer : smp.values.sample_buffer_ ≡ 0 ∷ 0 ∷ [] =
      ap (λ (v : Values). v.sample_buffer_) s.mapped
      ∙ both-buffer data1 data2 sc.counters_ c.head in
    record {
      readable = s.made.readable;
      all_in = subst AllIn (sym s.mapped) c.all_in;
      fits = subst Fits (sym buffer) two_zeros-Fits;
      short = rw buffer (omega arith);
      p1 = c.p1;
      first =
          going_place smp.values counter1 c.p1
            (subst (λ v. Placed v (registered counter1) c.p1) (sym s.mapped) c.first);
      p2 = c.p2;
      second =
          going_place smp.values counter2 c.p2
            (subst (λ v. Placed v (registered counter2) c.p2) (sym s.mapped) c.second);
      started = refl;
      alive = λ e. omega arith;
      period = s.made.period;
      features = s.made.told;
      active = refl;
      session = x;
      front = front;
      since = since;
    }

-- The back end and the values once the sampling goes.
abbrev pub going : Sampler → SessionQueue Session → Backend × Values
going smp q = (
  record smp.backend { sessions_ = q; active_ = true },
  record smp.values { sampling_in_progress_ = true },
)

-- The start of the sampling, when the clock answers.
pub start_sampling-Yields :
    (sec nsec : ℕ) (clear : Bool) (smp : Sampler) (q : SessionQueue Session)
    → smp.backend.active_ ≡ false
    → session_queue__push blank smp.backend.sessions_
        (session__init_with_args (timespec_to_uint64 sec nsec) 0)
      ≡ some q
    → Yields
        (λ started. started ≡ going smp q)
        (or_exit (sampler__start_sampling clear (some (sec, nsec)) smp.backend smp.values))
start_sampling-Yields sec nsec false smp q stopped pushed =
    rw (start_sampling-refused (some (sec, nsec)) smp.backend smp.values) (exits_Yields _)
start_sampling-Yields sec nsec true smp q stopped pushed =
    rw (start_sampling_lem sec nsec smp.backend smp.values q stopped pushed)
      (finished_Yields _ (going smp q) refl)
