-- ===== src/Kernel/Thread/Follows.antt =====
-- The thread follows `throttled_task`.
use cl_mem_regulation.Common.{
  ◌≡◌, ◌⊎◌, inl, inr, ap, ◌∙◌, arith, if◌then◌else◌, true, false, List, [], ◌∷◌, ◌++◌,
}
use cl_mem_regulation.Kernel.Thread.{Seen, Thread, waiting, spinning, ended, look, throttle_thread}

-- The thread is not told to stop, and its CPU stays online.
pub data Runs : List Seen → Type 0 where
  runs_nil : Runs []
  runs_cons :
      {o : Seen} {os : List Seen}
      → o.should_stop ≡ false
      → o.online ≡ true
      → Runs os
      → Runs (o ∷ os)

abbrev pub place_of : Seen → Thread
place_of o = if o.throttled then spinning else waiting

look-runs :
    (o : Seen) (t : Thread)
    → o.should_stop ≡ false
    → o.online ≡ true
    → (t ≡ waiting) ⊎ (t ≡ spinning)
    → look o t ≡ place_of o
unfolding look
look-runs o waiting s on h = ground arith
look-runs o spinning s on h = ground arith
look-runs o ended s on (inl e) = absurd cc
look-runs o ended s on (inr e) = absurd cc

look-alive : (o : Seen) → (place_of o ≡ waiting) ⊎ (place_of o ≡ spinning)
look-alive o = ground arith

look-last :
    (o : Seen) (t : Thread)
    → o.online ≡ true
    → (t ≡ waiting) ⊎ (t ≡ spinning)
    → look o t ≡ (if o.should_stop then ended else place_of o)
unfolding look
look-last o waiting on h = ground arith
look-last o spinning on h = ground arith
look-last o ended on (inl e) = absurd cc
look-last o ended on (inr e) = absurd cc

-- As long as the thread is not to stop and its CPU is online, its last look decides, whatever it saw
-- before: it spins when the core was throttled at that look, and waits when it was not. When it is to
-- stop at the last look, it ends there.
pub throttle_thread-follows :
    (os : List Seen) (o : Seen) (t : Thread)
    → Runs os
    → o.online ≡ true
    → (t ≡ waiting) ⊎ (t ≡ spinning)
    → throttle_thread (os ++ (o ∷ [])) t ≡ (if o.should_stop then ended else place_of o)
unfolding throttle_thread
throttle_thread-follows [] o t r online h = look-last o t online h
throttle_thread-follows (p ∷ os) o t (runs_cons s on r) online h =
    ap (throttle_thread (os ++ (o ∷ []))) (look-runs p t s on h)
    ∙ throttle_thread-follows os o (place_of p) r online (look-alive p)
