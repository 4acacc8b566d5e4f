-- ===== src/Kernel/Logging/Tests.antt =====
-- Log files at concrete answers of the file system.
use cl_mem_regulation.Common.{◌≡◌, ltb, ◌==◌, not, true, false, some, none, [], ◌∷◌}
use cl_mem_regulation.Kernel.State.{cl1}
use cl_mem_regulation.Kernel.Logging.{
  LogArgs, LogFiles, File, cpu_file, gpu_file, start_logging, stop_logging,
}
use cl_mem_regulation.Kernel.Logging.Closing.{cpus_close, cpu_names, stop_logging-start_logging}

-- Only the first GPU is profiled.
abbrev asked : LogArgs
asked = record {
  profiling1 = true;
  profiling2 = false;
  online = 0 ∷ 5 ∷ [];
  in_cluster = λ i. ltb i 8;
  cpu_opens = λ i. true;
  gpu1_opens = true;
  gpu2_opens = false;
}

abbrev no_files : LogFiles
no_files = record {
  cpu_files = λ i. File.null_file;
  gpu_file1 = File.null_file;
  gpu_file2 = File.null_file;
}

stop_logging-start_logging_example :
    stop_logging asked (start_logging true asked no_files)
    ≡ some (cpu_file 0 ∷ cpu_file 5 ∷ gpu_file cl1 ∷ [])
unfolding cpus_close cpu_names
stop_logging-start_logging_example = stop_logging-start_logging asked no_files

-- The file of CPU 5 cannot be opened.
failing_run :
    let a = record asked { cpu_opens = λ i. not (i == 5) } in
    stop_logging a (start_logging true a no_files) ≡ none
unfolding cpus_close
failing_run = stop_logging-start_logging (record asked { cpu_opens = λ i. not (i == 5) }) no_files

-- CPU 8 is of no cluster.
outside_run :
    let a = record asked { online = 0 ∷ 8 ∷ [] } in
    stop_logging a (start_logging true a no_files) ≡ none
unfolding cpus_close
outside_run = stop_logging-start_logging (record asked { online = 0 ∷ 8 ∷ [] }) no_files
