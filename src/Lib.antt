-- ===== src/Lib.antt =====
-- Cluster-level memory access regulation: a kernel module (cl_mem_reg.c) that throttles the CPUs of a
-- cluster when CPU and GPU together use more memory bandwidth than their budget, and a GPU profiler
-- (gpu_profiler.c and include/) that reads the GPU's counters and writes them to the module.
--
-- Common: tests, lists and machine words that all parts share; Bits reads the bits of a number, and
--   Outcomes is what a run can come to: a result, an exit, no meaning in C, or rounds run out.
-- Kernel: the module.
--   Units: conversions between MB/s, bytes and LLC events (convert_mb_to_events, ceiling).
--   State: struct core_info, struct cluster_info and the shared globals, as one record System.
--   Throttle: __throttle_core and cl_mem_reg_on_each_cpu_mask. The cross calls are not waited for, so
--     the state counts the calls that each CPU has yet to take.
--   Timer: timer_callback_master with both periods. What a tick meets (new events of the hardware
--     counter, memory for a log line, whether the profiler lives) is its argument. It has no result
--     when the interval is 0, since a remainder is taken by it.
--   Gpu: the device file, the receiver threads and the sysfs switch.
--   Steps: the handlers as interleaved steps of one system, each handler atomic: the ticks, the cross calls,
--     the device file, the receivers, the switch, the starts and stops of cores, and the steps of the exit.
--   Init: the parameter checks and the set-up of the GPU devices in cl_mem_reg_init, and their release.
--   Cores: the clusters and cores in cl_mem_reg_init, up to the call of __start_counter. What the kernel
--     answers for a counter, a thread and the work queue is an argument.
--   Logging: start_logging and stop_logging.
--   Thread: throttle_thread_func, as the places where it waits.
--   Start: __start_counter with the election of the leaders, __stop_counter, and the beginning of
--     cl_mem_reg_exit.
--   Exit: the whole of cl_mem_reg_exit. A receiver may come back to its wait once before it stops.
-- Counters: the types of the profiler's counters.
-- Device: product ids (product_id.h), execution engines (num_exec_engines.h), and driver versions
--   (kbase_version.h, backend_type.h).
--   Properties: the decoding of the GPU's properties into constants (prop_reader and prop_decoder of
--     instance.h). The loop has fuel: one round for each byte is enough.
--   Extents: construct_block_extents.h, filter_block_extents.h and hwcnt/block_extents.h.
--   Instance: instance.h, gpu.h and handle.h, from the version check to the block extents. Answers
--     holds what the ioctl calls answer.
-- Structures: include/data_structure.
--   Ring: the reading of a ring buffer that both queues share.
--   Queue, SessionQueue: uint64_queue.h and session_queue.h, each as the list of what waits in it.
--   Bitset: bitset.h, as a function from indices to bits.
--   Vector, Hashmap, Set: vector.h, hashmap.h and set.h (with set_contains_counter of tools.h).
-- Sampler: sessions (session.h) and the vinstr back end (backend.h, vinstr_sample.h).
--   Backend.Reach: starts, stops and requests in any order.
--   Layout: where the blocks of a sample stand (sample_layout.h).
--   Blocks: vinstr_backend__next and the iterator over blocks (hwcnt/block_iterator.h, blocks_view.h).
--     The loop over them has one round of fuel for each block.
--   Config: the choice of counters of sampler.h, and the masks for the driver (convert.h).
--   Values: the places of counters in the sample buffer, its filling and its reading (sampler.h).
--   Poll: poll_fd and wait_for_sample (sample_poll.h).
--   Args, Setup: what the back end is made of (backend_args.h, mapped_memory.h, hwcnt/features.h), the
--     set-up of the reader (vinstr_setup.h), and sampler__init.
-- Profiler: gpu_profiler.c. A handled signal is the new state and the list of its effects on files.
--   Boot: main, up to the point where it waits for signals. Startup holds what it meets.
--   Beats, Run: SIGUSR1s one after the other, together with the kernel: what the profiler writes to the
--     device that it has opened, the receiver of that device (Kernel.Gpu) reads and accounts. Machine
--     holds the device, whether its receiver still runs, and the system.
--
-- An int is its pattern of 32 bits and an unsigned type a natural number below its power of two; each
-- wrap is written out. Memory that the code reads without having written it is an argument, named
-- garbage, memory or stack. An access out of an array has no value (none or undefined).
--
-- Not modelled: in cl_mem_reg.c debugfs and the writing of a log line;
-- the numbers and types of the ioctl calls (ioctl_commands.h, kbase_types.h, vinstr_types.h), the bytes
-- of handles (hwcnt/detail/handle.h), and the functions whose body is left to do. Printing and ioctl
-- calls are I/O and are left out; what they answer is an argument. What the counter memory holds is the
-- function word of an address, which is read only where the memory is mapped.
-- hwcpipe_counter.h is an enumeration, of which the four counters that the code knows are taken.
mod Common
pub mod Counters
pub mod Device
pub mod Sampler
pub mod Structures
pub mod Kernel
pub mod Profiler
