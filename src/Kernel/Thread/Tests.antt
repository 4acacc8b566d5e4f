-- ===== src/Kernel/Thread/Tests.antt =====
-- The throttle thread on a core that is throttled, and not throttled again.
use cl_mem_regulation.Common.{◌≡◌, refl, inl, true, false, [], ◌∷◌}
use cl_mem_regulation.Kernel.Thread.{Seen, waiting, spinning, throttle_thread}
use cl_mem_regulation.Kernel.Thread.Follows.{runs_nil, runs_cons, throttle_thread-follows}

abbrev calm : Seen
calm = record { throttled = false; should_stop = false; online = true }

abbrev over : Seen
over = record { throttled = true; should_stop = false; online = true }

throttle_thread-follows_example : throttle_thread (calm ∷ over ∷ over ∷ []) waiting ≡ spinning
throttle_thread-follows_example =
    throttle_thread-follows (calm ∷ over ∷ []) over waiting
      (runs_cons refl refl (runs_cons refl refl runs_nil)) refl (inl refl)
