-- ===== src/Kernel/Logging/Closing.antt =====
-- What `stop_logging` closes of what `start_logging` opened.
use cl_mem_regulation.Common.{
  ℕ, ◌≡◌, refl, sym, ap, ◌∙◌, arith, if◌then◌else◌, Bool, true, false, ◌&&◌, ◌||◌, not, none, some,
  ◌>>=◌, Bool-cases, inl, inr, List, [], ◌∷◌, ◌++◌, update, update_self, update_ne, ℕ_discrete,
  if_rule,
}
use cl_mem_regulation.Kernel.State.{cl1, cl2}
use cl_mem_regulation.Kernel.Logging.{
  LogArgs, LogFiles, LogFile, cpu_file, gpu_file, File, open_file, open_cpus, start_logging,
  close_file, close_cpus, close_gpu, close_gpus, open_gpus, stop_logging,
}

-- The CPUs of the clusters have a file each, that can be opened.
unfoldable pub cpus_open : LogArgs → List ℕ → Bool
cpus_open a [] = true
cpus_open a (i ∷ online) = not (a.in_cluster i && not (a.cpu_opens i)) && cpus_open a online

unfoldable pub cpu_names : LogArgs → List ℕ → List LogFile
cpu_names a [] = []
cpu_names a (i ∷ online) =
    let rest = cpu_names a online in if a.in_cluster i then cpu_file i ∷ rest else rest

abbrev pub gpu_names : LogArgs → List LogFile
gpu_names a =
    (if a.profiling1 then gpu_file cl1 ∷ [] else [])
    ++ (if a.profiling2 then gpu_file cl2 ∷ [] else [])

abbrev pub gpus_open : LogArgs → Bool
gpus_open a = (not a.profiling1 || a.gpu1_opens) && (not a.profiling2 || a.gpu2_opens)

-- Every online CPU is of a cluster, and has a file that can be opened.
unfoldable pub cpus_close : LogArgs → List ℕ → Bool
cpus_close a [] = true
cpus_close a (i ∷ online) = a.in_cluster i && a.cpu_opens i && cpus_close a online

-- Every online CPU is of a cluster, and every file that logging needs can be opened.
abbrev pub all_open : LogArgs → Bool
all_open a = cpus_close a a.online && gpus_open a

-- The files that logging needs.
abbrev pub log_files : LogArgs → List LogFile
log_files a = cpu_names a a.online ++ gpu_names a

-- An open file stays open while others are opened.
open_cpus-keeps :
    (a : LogArgs) (online : List ℕ) (f : LogFiles) (i : ℕ)
    → a.in_cluster i ≡ true
    → a.cpu_opens i ≡ true
    → f.cpu_files i ≡ open_file
    → ((open_cpus a online f).0).cpu_files i ≡ open_file
unfolding open_cpus
open_cpus-keeps a [] f i inside opens e = e
open_cpus-keeps a (j ∷ online) f i inside opens e =
    let opened = if a.in_cluster j then open_file else File.null_file in
    let f' : LogFiles = record f { cpu_files = update f.cpu_files j opened } in
    let still : update f.cpu_files j opened i ≡ open_file = elim (ℕ_discrete j i) [
      | yes same ↦ ground (arith, same)
      | no differ ↦ ground (arith, differ)
    ] in
    let rest = open_cpus-keeps a online f' i inside opens still in
    if_rule (λ r. r.0.cpu_files i ≡ open_file) (a.in_cluster j && not (a.cpu_opens j))
      {x = (record f { cpu_files = update f.cpu_files j File.error_file }, false)}
      {y = open_cpus a online f'}
      (λ fails. elim (ℕ_discrete i j) [
        | yes same ↦ absurd (ground (arith, same))
        | no differ ↦ update_ne f.cpu_files j i File.error_file differ ∙ e
      ])
      (λ _. rest)

prefixed :
    (b : Bool) (ys names : List LogFile)
    → ((if b then some names else none) >>= λ others. some (ys ++ others))
      ≡ (if b then some (ys ++ names) else none)
prefixed true ys names = refl
prefixed false ys names = refl

-- A CPU whose file can be opened: it is opened, and closed before the others.
module _ (a : LogArgs) (i : ℕ) (online : List ℕ) (inside : a.in_cluster i ≡ true) where
  opened_one :
      (f : LogFiles)
      → a.cpu_opens i ≡ true
      → open_cpus a (i ∷ online) f
        ≡ open_cpus a online (record f { cpu_files = update f.cpu_files i open_file })
  unfolding open_cpus
  opened_one f opens = rw (inside, opens) refl

  closed_one :
      (files : ℕ → File)
      → files i ≡ open_file
      → close_cpus a (i ∷ online) files
        ≡ (close_cpus a online files >>= λ others. some (cpu_file i ∷ others))
  unfolding close_cpus close_file
  closed_one files e = rw (inside, e, e) refl

  -- A CPU whose file cannot be opened ends the loop, and has an error pointer to close.
  stopped_one :
      (f : LogFiles)
      → a.cpu_opens i ≡ false
      → ((open_cpus a (i ∷ online) f).1 ≡ false)
        × (((open_cpus a (i ∷ online) f).0).cpu_files i ≡ File.error_file)
  unfolding open_cpus
  stopped_one f fails = rw (inside, fails) (refl, update_self f.cpu_files i File.error_file)

  unclosed_one :
      (files : ℕ → File) → files i ≡ File.error_file → close_cpus a (i ∷ online) files ≡ none
  unfolding close_cpus close_file
  unclosed_one files e = rw (inside, e, e) refl

  cpus_open_none :
      a.cpu_opens i ≡ false
      → (cpus_open a (i ∷ online) ≡ false) × (cpus_close a (i ∷ online) ≡ false)
  unfolding cpus_open cpus_close
  cpus_open_none fails = rw (inside, fails) (refl, refl)

  cpus_close_one :
      a.cpu_opens i ≡ true
      → (if cpus_close a online then some (cpu_file i ∷ cpu_names a online) else none)
        ≡ (if cpus_close a (i ∷ online) then some (cpu_names a (i ∷ online)) else none)
  unfolding cpus_close cpu_names
  cpus_close_one opens = rw (inside, opens) refl

-- The loops over the CPUs: all files that were needed are closed, or one of them could not be opened.
close_cpus-open_cpus :
    (a : LogArgs) (online : List ℕ) (f : LogFiles)
    → ((open_cpus a online f).1 ≡ cpus_open a online)
      × (close_cpus a online (open_cpus a online f).0.cpu_files
          ≡ (if cpus_close a online then some (cpu_names a online) else none))
unfolding open_cpus close_cpus cpus_open cpus_close cpu_names close_file
close_cpus-open_cpus a [] f = (refl, refl)
close_cpus-open_cpus a (i ∷ online) f = elim (Bool-cases (a.in_cluster i)) [
  | inr out ↦
      let f' : LogFiles = record f { cpu_files = update f.cpu_files i File.null_file } in
      rw out ((close_cpus-open_cpus a online f').0, refl)
  | inl inside ↦ elim (Bool-cases (a.cpu_opens i)) [
    | inl opens ↦
        let f' : LogFiles = record f { cpu_files = update f.cpu_files i open_file } in
        let ih = close_cpus-open_cpus a online f' in
        let kept =
          open_cpus-keeps a online f' i inside opens (update_self f.cpu_files i open_file) in
        (
          rw (inside, opens) ih.0,
          ap (λ r. close_cpus a (i ∷ online) r.0.cpu_files) (opened_one a i online inside f opens)
              ∙ closed_one a i online inside (open_cpus a online f').0.cpu_files kept
              ∙ ap (λ o. o >>= λ others. some (cpu_file i ∷ others)) ih.1
              ∙ prefixed (cpus_close a online) (cpu_file i ∷ []) (cpu_names a online)
              ∙ cpus_close_one a i online inside opens,
        )
    | inr fails ↦
        let (none_open, none_close) = cpus_open_none a i online inside fails in
        let (went, error) = stopped_one a i online inside f fails in
        (
          went ∙ sym none_open,
          unclosed_one a i online inside (open_cpus a (i ∷ online) f).0.cpu_files error
              ∙ ap (λ b. if b then some (cpu_names a (i ∷ online)) else none) (sym none_close),
        )
  ]
]

-- The same of the files of the GPUs.
close_gpus-open_gpus :
    (a : LogArgs) (f : LogFiles)
    → ((open_gpus a f).cpu_files ≡ f.cpu_files)
      × (close_gpus a (open_gpus a f) ≡ (if gpus_open a then some (gpu_names a) else none))
unfolding open_gpus close_gpus close_gpu close_file
close_gpus-open_gpus a f = (ground arith, ground arith)

-- A file that cannot be opened cannot be closed.
cpus_close-cpus_open :
    (a : LogArgs) (online : List ℕ) → cpus_open a online ≡ false → cpus_close a online ≡ false
unfolding cpus_open cpus_close
cpus_close-cpus_open a [] e = absurd cc
cpus_close-cpus_open a (i ∷ online) e = elim (Bool-cases (a.in_cluster i && a.cpu_opens i)) [
  | inl both ↦ ground (arith, both, e, cpus_close-cpus_open a online (ground (arith, both, e)))
  | inr out ↦ ground (arith, out)
]

-- When logging is on, every online CPU is of a cluster, and every file that logging needs can be opened,
-- `stop_logging` closes each of them once; otherwise it has no meaning: it closes an error pointer or the null
-- pointer, or reads the mask of a cluster through the null pointer.
pub stop_logging-start_logging :
    (a : LogArgs) (f : LogFiles)
    → stop_logging a (start_logging true a f) ≡ (if all_open a then some (log_files a) else none)
unfolding start_logging stop_logging
stop_logging-start_logging a f =
    let cpus = close_cpus-open_cpus a a.online f in
    let gpus = close_gpus-open_gpus a (open_cpus a a.online f).0 in
    elim (Bool-cases (cpus_open a a.online)) [
      | inl all ↦ elim (Bool-cases (cpus_close a a.online)) [
        | inl close ↦
            rw (cpus.0, all, gpus.0, cpus.1, close, gpus.1)
              (prefixed (gpus_open a) (cpu_names a a.online) (gpu_names a))
        | inr outside ↦ rw (cpus.0, all, gpus.0, cpus.1, outside) refl
      ]
      | inr some_fail ↦
          let no_close = cpus_close-cpus_open a a.online some_fail in
          rw (cpus.0, some_fail) (rw (cpus.1, no_close) refl)
    ]
