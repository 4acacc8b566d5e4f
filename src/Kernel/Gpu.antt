-- ===== src/Kernel/Gpu.antt =====
-- The GPU side of the kernel module (cl_mem_reg.c): the device file that the profiler writes its
-- beats to, the receiver threads, and the sysfs switch. The functions of the two clusters differ
-- only in the cluster.
pub mod Receive
pub mod Decode
use cl_mem_regulation.Common.{
  ℕ, ◌+◌, ◌*◌, ltb, if◌then◌else◌, ◌==◌, Bool, true, false, ◌&&◌, Option, none, some, List, [], ◌∷◌,
  ◌++◌, length, drop, get_or, replicate, u32, slt32, sext64,
}
use cl_mem_regulation.Kernel.Units.{convert_bytes_to_events}
use cl_mem_regulation.Kernel.State.{
  System, ClusterId, ClusterInfo, Gpu, LogLine, cluster, put_cluster, gpu, put_gpu,
}
use cl_mem_regulation.Kernel.Throttle.{Env, on_each_cpu_mask}

-- What `copy_from_user` leaves at the destination: the bytes asked for, or fewer and an error.
pub data UserCopy : Type 0 where
  copied : List ℕ → UserCopy
  faulted : List ℕ → UserCopy

pub data WriteResult : Type 0 where
  written : ℕ → WriteResult
  einval efault : WriteResult

abbrev pub beats_memory_size : ℕ
beats_memory_size = 16

-- The first bytes of the memory are overwritten.
abbrev pub overwrite : List ℕ → List ℕ → List ℕ
overwrite bytes memory = bytes ++ drop (length bytes) memory

unfoldable pub profiling_write : ClusterId → ℕ → UserCopy → System → WriteResult × System
profiling_write k count (UserCopy.copied bytes) s =
    let g = gpu s k in
    let g' = record g { beats_memory = overwrite bytes g.beats_memory; beats_ready = true } in
    if ltb beats_memory_size count
    then (WriteResult.einval, s)
    else (WriteResult.written count, put_gpu s k g')
profiling_write k count (UserCopy.faulted bytes) s =
    let g = gpu s k in
    let g' = record g { beats_memory = overwrite bytes g.beats_memory } in
    if ltb beats_memory_size count
    then (WriteResult.einval, s)
    else (WriteResult.efault, put_gpu s k g')

unfoldable pub gpu_bandwidth_profiling_write_cl1 : ℕ → UserCopy → System → WriteResult × System
unfolding profiling_write
gpu_bandwidth_profiling_write_cl1 = profiling_write ClusterId.cl1

unfoldable pub gpu_bandwidth_profiling_write_cl2 : ℕ → UserCopy → System → WriteResult × System
unfolding profiling_write
gpu_bandwidth_profiling_write_cl2 = profiling_write ClusterId.cl2

-- `gpu_beats[i]`, a little-endian `int` of the memory
unfoldable pub gpu_beats : List ℕ → ℕ → ℕ
gpu_beats memory i =
    get_or memory (4 * i) 0
    + 256 * get_or memory (4 * i + 1) 0
    + 65536 * get_or memory (4 * i + 2) 0
    + 16777216 * get_or memory (4 * i + 3) 0

-- The events that a pair of beats stands for, an `s64` that `atomic_add` cuts to an `int`. The sum
-- of bytes is an `int` too, and is widened before the division.
unfoldable pub beats_to_events : ℕ → ℕ → ℕ
unfolding convert_bytes_to_events
beats_to_events rd wr = convert_bytes_to_events (sext64 (u32 (rd * 16 + wr * 16)))

-- Both beats become GPU_BEATS_CLEANED, which is -1.
abbrev pub cleaned : List ℕ
cleaned = replicate 8 255

-- Whether a receiver goes on after a round, or has returned.
pub data Receiver : Type 0 where
  again : System → Receiver
  returned : System → Receiver

abbrev pub receiver_system : Receiver → System
receiver_system (Receiver.again s) = s
receiver_system (Receiver.returned s) = s

-- The round from the clearing of the beats on.
unfoldable pub finish_round : Env → ClusterId → ℕ → System → System
finish_round env k cpu s =
    let g = gpu s k in
    let g' = record g { beats_memory = overwrite cleaned g.beats_memory; beats_ready = false } in
    let s' = put_gpu s k g' in
    let c = cluster s' k in
    if slt32 c.cur_bandwidth_budget c.bandwidth_usage
    then on_each_cpu_mask env c.cpu_mask cpu s'
    else s'

unfoldable pub account_gpu : ClusterId → System → System
unfolding gpu_beats beats_to_events
account_gpu k s =
    let c = cluster s k in
    let m = (gpu s k).beats_memory in
    let events = beats_to_events (gpu_beats m 0) (gpu_beats m 1) in
    put_cluster s k (record c { bandwidth_usage = u32 (c.bandwidth_usage + events) })

-- One round of a receiver thread, bound to `cpu`, once the beats are ready.
unfoldable pub receive : Env → (kmalloc : Bool) → ClusterId → ℕ → System → Receiver
receive env kmalloc k cpu s =
    let s1 = account_gpu k s in
    let g = gpu s1 k in
    let c = cluster s1 k in
    let rd = gpu_beats g.beats_memory 0 in
    let wr = gpu_beats g.beats_memory 1 in
    let line =
      LogLine.gpu_line k c.regulation_period_cnt (beats_to_events rd wr) (sext64 rd) (sext64 wr)
        c.is_throttled in
    let logged = record s1 { work = line ∷ s1.work } in
    if s1.logging && g.log_file
    then (if kmalloc then Receiver.again (finish_round env k cpu logged) else Receiver.returned s1)
    else Receiver.again (finish_round env k cpu s1)

unfoldable pub gpu_beats_receiver_cl1 : Env → Bool → ℕ → System → Receiver
unfolding receive
gpu_beats_receiver_cl1 env kmalloc = receive env kmalloc ClusterId.cl1

unfoldable pub gpu_beats_receiver_cl2 : Env → Bool → ℕ → System → Receiver
unfolding receive
gpu_beats_receiver_cl2 env kmalloc = receive env kmalloc ClusterId.cl2

-- A write to `stop_gpu_bandwidth_profiling`: the text is never empty, and ends with a zero byte.
unfoldable pub sysfs_store : ClusterId → List ℕ → ℕ → System → ℕ × System
sysfs_store k buf count s =
    let g = gpu s k in
    if get_or buf 0 0 == b'0'
    then (count, put_gpu s k (record g { profiler_task = none }))
    else (count, s)

unfoldable pub cl_mem_reg_sysfs_store_cl1 : List ℕ → ℕ → System → ℕ × System
unfolding sysfs_store
cl_mem_reg_sysfs_store_cl1 = sysfs_store ClusterId.cl1

unfoldable pub cl_mem_reg_sysfs_store_cl2 : List ℕ → ℕ → System → ℕ × System
unfolding sysfs_store
cl_mem_reg_sysfs_store_cl2 = sysfs_store ClusterId.cl2
