-- ===== src/Profiler/Run/Ready.antt =====
-- gpu_profiler.c: the sampling of a profiler that is started.
use cl_mem_regulation.Common.{
  ℕ, ◌<◌, ◌≤◌, ◌≡◌, ◌≢◌, refl, sym, ap, ◌∙◌, ◌==◌, if◌then◌else◌, if_rule, true, false,
  Option-cases, inl, inr, Bool, none, some, List, [], ◌∷◌, ◌++◌, is_neg32, ==_ne, Bool-cases, arith,
}
use mathlib.Core.Path.{subst}
use cl_mem_regulation.Counters.{RegisteredCounter}
use cl_mem_regulation.Kernel.State.{ClusterId}
use cl_mem_regulation.Kernel.Throttle.{Env}
use cl_mem_regulation.Sampler.Session.{Session, session__update_ts}
use cl_mem_regulation.Structures.Queue.{uint64_queue__push}
use cl_mem_regulation.Structures.SessionQueue.{session_queue__front}
use cl_mem_regulation.Sampler.Backend.{
  Backend, VinstrSample, blank, backend__request_sample, backend__request_sample_no_lock,
  backend__get_sample, sample__init,
}
use cl_mem_regulation.Sampler.Blocks.{Reader}
use cl_mem_regulation.Sampler.Values.{Values}
use cl_mem_regulation.Sampler.Values.Sum.{IsReadable}
use cl_mem_regulation.Sampler.Values.Places.{Placed}
use cl_mem_regulation.Sampler.Values.Reading.{Sampled}
use cl_mem_regulation.Profiler.{
  Profiler, World, Effect, sigusr1, not_started, terminated, take_beats, profile_gpu_bandwidth,
}
use cl_mem_regulation.Profiler.Beats.{IsReady}
use cl_mem_regulation.Profiler.Run.{deliver, Machine, IsConnected, IsStarted, Answered}

request-some :
    (b : Backend)
    → b.period_ns_ ≡ 0
    → b.active_ ≡ true
    → (b' : Backend) × (backend__request_sample true 0 b ≡ some b')
      × (b'.period_ns_ ≡ b.period_ns_)
      × (b'.reader_features_ ≡ b.reader_features_)
      × (b'.active_ ≡ b.active_)
      × (b'.sessions_ ≡ b.sessions_)
unfolding backend__request_sample backend__request_sample_no_lock
request-some b p a = (
  record b { user_data_manual_ = uint64_queue__push b.user_data_manual_ 0 },
  rw (p, a) refl,
  refl,
  refl,
  refl,
  refl,
)

module _ (b : Backend) (session : Session) (time : ℕ) (features : b.reader_features_ ≡ 0)
    (front : session_queue__front blank b.sessions_ ≡ some session) where
  -- A sample that ends no later than the session began is there.
  sample-some :
      time ≤ session.last_ts_ns_
      → (sample : VinstrSample) × (sample__init (some time) b ≡ some sample)
  unfolding sample__init backend__get_sample session__update_ts
  sample-some le = elim (Option-cases (sample__init (some time) b)) [
    | inl n ↦ absurd (ground (arith, n, features, front, le))
    | inr s ↦ s
  ]

  -- A later one ends the program.
  pub sample-none : session.last_ts_ns_ < time → sample__init (some time) b ≡ none
  unfolding sample__init backend__get_sample session__update_ts
  sample-none lt = ground (arith, features, front)

keep_place :
    (v v' : Values) (rc : RegisteredCounter) (p : ℕ) → Sampled v v' → Placed v rc p → Placed v' rc p
keep_place v v' rc p c h = record {
  found = rw (c.positions) h.found;
  inside = rw (c.size) h.inside;
  alone = λ word values t. rw (c.places) (h.alone word values t);
}

-- What a started profiler needs to sample, when it is answered.
module _ (r : Reader) (begun time : ℕ) (w : World) (s : Profiler) (h : IsStarted r begun s)
    (a : Answered r time w) where
  pub request :
      (b : Backend) × (backend__request_sample w.answers.dump 0 s.backend ≡ some b)
      × (b.period_ns_ ≡ s.backend.period_ns_)
      × (b.reader_features_ ≡ s.backend.reader_features_)
      × (b.active_ ≡ s.backend.active_)
      × (b.sessions_ ≡ s.backend.sessions_)
  request = rw (a.dump) (request-some s.backend h.period h.active)

  pub ready : time ≤ begun → IsReady w s h.p1 h.p2
  ready le =
      let (b, e, p, f, on, q) = request in
      let (sample, taken) =
        sample-some b h.session time (f ∙ h.features) (ap (session_queue__front blank) q ∙ h.front)
          (omega (arith, h.since)) in
      record {
        readable = subst IsReadable (sym a.reader) h.readable;
        rounds = rw (a.reader) (a.rounds);
        all_in = h.all_in;
        fits = h.fits;
        short = h.short;
        first = h.first;
        second = h.second;
        started = h.started;
        put_back = a.put_back;
        asked = b;
        asking = e;
        sample = sample;
        sampling = rw (a.taken) taken;
      }

  -- The state after the sample is that of a started profiler, too.
  pub after_sample-IsStarted :
      (le : time ≤ begun) (v : Values)
      → Sampled s.values v
      → IsStarted r begun (record s { backend = (ready le).asked; values = v })
  unfolding ready request
  after_sample-IsStarted le v c =
      let (b, e, p, f, on, q) = request in
      record {
        readable = h.readable;
        all_in = λ t. rw (c.size, c.places) (h.all_in t);
        fits = c.words;
        short = rw (c.size) h.short;
        p1 = h.p1;
        first = keep_place s.values v _ h.p1 c h.first;
        p2 = h.p2;
        second = keep_place s.values v _ h.p2 c h.second;
        started = c.running ∙ h.started;
        alive = h.alive;
        period = p ∙ h.period;
        features = f ∙ h.features;
        active = on ∙ h.active;
        session = h.session;
        front = ap (session_queue__front blank) q ∙ h.front;
        since = h.since;
      }

-- The device is opened by the first signal.
abbrev pub opened_by : World → Profiler → Profiler
opened_by w s = if s.fd == not_started then record s { fd = w.opened } else s

abbrev pub opening : Profiler → List Effect
opening s = if s.fd == not_started then Effect.device_opened s.target_cluster ∷ [] else []

pub profile-takes :
    (w : World) (s : Profiler)
    → s.fd ≢ terminated
    → is_neg32 w.opened ≡ false
    → profile_gpu_bandwidth w sigusr1 s ≡ take_beats w (opened_by w s) (opening s)
unfolding profile_gpu_bandwidth
profile-takes w s ne pos = elim (Bool-cases (s.fd == not_started)) [
  | inl e ↦ rw (e, pos) refl
  | inr e ↦ rw (e, ==_ne s.fd terminated ne) refl
]

pub opened_by-IsStarted :
    (r : Reader) (begun : ℕ) (w : World) (s : Profiler)
    → is_neg32 w.opened ≡ false
    → IsStarted r begun s
    → IsStarted r begun (opened_by w s)
opened_by-IsStarted r begun w s pos h =
    if_rule (IsStarted r begun) (s.fd == not_started)
      (λ e. record {
        readable = h.readable;
        all_in = h.all_in;
        fits = h.fits;
        short = h.short;
        p1 = h.p1;
        first = h.first;
        p2 = h.p2;
        second = h.second;
        started = h.started;
        alive = λ q. ground (arith, q, pos);
        period = h.period;
        features = h.features;
        active = h.active;
        session = h.session;
        front = h.front;
        since = h.since;
      })
      (λ e. h)

-- The machine when the beats come: the device of `k` is open.
abbrev pub connected : ClusterId → Machine → Machine
connected k m = record m { device = some k }

pub deliver-opening :
    (env : Env) (kmalloc : Bool) (k : ClusterId) (cpu : ℕ) (s : Profiler) (es : List Effect)
    (m : Machine)
    → IsConnected k s m
    → deliver env kmalloc cpu (opening s ++ es) m ≡ deliver env kmalloc cpu es (connected k m)
unfolding deliver
deliver-opening env kmalloc k cpu s es m h = elim (Bool-cases (s.fd == not_started)) [
  | inl closed ↦ rw closed (ap (λ d. deliver env kmalloc cpu es (record m { device = d })) h.target)
  | inr open_ ↦
      let linked = h.linked (λ e. absurd (ground (arith, e, open_))) in
      rw open_ (ap (λ d. deliver env kmalloc cpu es (record m { device = d })) linked)
]

-- The opening alone leaves the kernel as it is.
pub opening-system :
    (env : Env) (kmalloc : Bool) (cpu : ℕ) (s : Profiler) (m : Machine)
    → (deliver env kmalloc cpu (opening s) m).system ≡ m.system
unfolding deliver
opening-system env kmalloc cpu s m =
    if_rule (λ o. (deliver env kmalloc cpu o m).system ≡ m.system) (s.fd == not_started) (λ e. refl)
      (λ e. refl)
