-- ===== src/Kernel/Logging.antt =====
-- The log files of cl_mem_reg.c: `start_logging`, which opens them, and `stop_logging`, which closes them.
pub mod Closing
mod Tests
use cl_mem_regulation.Common.{
  ℕ, if◌then◌else◌, Bool, true, false, ◌&&◌, not, Option, none, some, ◌>>=◌, List, [], ◌∷◌, ◌++◌,
  update,
}
use cl_mem_regulation.Kernel.State.{ClusterId, cl1, cl2}

-- A `struct file*`: null, an error pointer, or an open file.
pub data File : Type 0 where
  null_file error_file open_file : File

-- `g_cpu_logging_files`, `g_gpu_logging_file_cl1` and `g_gpu_logging_file_cl2`
pub record LogFiles : Type 0 where
  pub cpu_files : ℕ → File
  pub gpu_file1 : File
  pub gpu_file2 : File

-- The flags of profiling, the online CPUs and those of a cluster, and what `filp_open` answers for each file.
pub record LogArgs : Type 0 where
  pub profiling1 : Bool
  pub profiling2 : Bool
  pub online : List ℕ
  pub in_cluster : ℕ → Bool
  pub cpu_opens : ℕ → Bool
  pub gpu1_opens : Bool
  pub gpu2_opens : Bool

-- The loop over the CPUs: the files, and whether it went to its end.
unfoldable pub open_cpus : LogArgs → List ℕ → LogFiles → LogFiles × Bool
open_cpus a [] f = (f, true)
open_cpus a (i ∷ online) f =
    let opened = if a.in_cluster i then File.open_file else File.null_file in
    let rest = open_cpus a online (record f { cpu_files = update f.cpu_files i opened }) in
    if a.in_cluster i && not (a.cpu_opens i)
    then (record f { cpu_files = update f.cpu_files i File.error_file }, false)
    else rest

abbrev pub answer : Bool → File
answer opens = if opens then File.open_file else File.error_file

-- The files of the GPUs; the second is not tried when the first fails.
unfoldable pub open_gpus : LogArgs → LogFiles → LogFiles
open_gpus a f =
    let one = if a.profiling1 then record f { gpu_file1 = answer a.gpu1_opens } else f in
    let two = if a.profiling2 then record one { gpu_file2 = answer a.gpu2_opens } else one in
    if a.profiling1 && not a.gpu1_opens then one else two

unfoldable pub start_logging : (logging : Bool) → LogArgs → LogFiles → LogFiles
unfolding open_cpus open_gpus
start_logging logging a f =
    let cpus = open_cpus a a.online f in
    let gpus = open_gpus a cpus.0 in if not logging then f else if cpus.1 then gpus else cpus.0

-- A file that is closed.
pub data LogFile : Type 0 where
  cpu_file : ℕ → LogFile
  gpu_file : ClusterId → LogFile

-- A call of `filp_close`, with the file that it closes: on an error pointer and on the null pointer it
-- has no meaning.
unfoldable pub close_file : File → LogFile → Option (List LogFile)
close_file null_file name = none
close_file error_file name = none
close_file open_file name = some (name ∷ [])

-- The loop over the CPUs, which leaves out a null pointer. A CPU of no cluster has no `cluster_info`, whose
-- mask is read through the null pointer.
unfoldable pub close_cpus : LogArgs → List ℕ → (ℕ → File) → Option (List LogFile)
unfolding close_file
close_cpus a [] files = some []
close_cpus a (i ∷ online) files =
    let rest = close_cpus a online files in
    let closed : Option (List LogFile) = (do
      one ← close_file (files i) (LogFile.cpu_file i)
      others ← rest
      some (one ++ others)) in
    let own : Option (List LogFile) = elim (files i) [ null_file ↦ rest | _ ↦ closed ] in
    if a.in_cluster i then own else none

unfoldable pub close_gpu : Bool → File → ClusterId → Option (List LogFile)
unfolding close_file
close_gpu profiling f k = if profiling then close_file f (LogFile.gpu_file k) else some []

unfoldable pub close_gpus : LogArgs → LogFiles → Option (List LogFile)
unfolding close_gpu
close_gpus a f = do
  first ← close_gpu a.profiling1 f.gpu_file1 cl1
  second ← close_gpu a.profiling2 f.gpu_file2 cl2
  some (first ++ second)

-- The files that it closes, in order.
unfoldable pub stop_logging : LogArgs → LogFiles → Option (List LogFile)
unfolding close_cpus close_gpus
stop_logging a f = do
  cpus ← close_cpus a a.online f.cpu_files
  gpus ← close_gpus a f
  some (cpus ++ gpus)
