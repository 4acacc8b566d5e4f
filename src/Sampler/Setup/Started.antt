-- ===== src/Sampler/Setup/Started.antt =====
-- include/vinstr_setup.h and include/sampler.h: the back end and the reader of a sampler that is set up.
use cl_mem_regulation.Common.{
  ℕ, ◌≡◌, refl, ◌==◌, some, if_rule, arith, List, false, Yields, finished_Yields, exits_Yields,
  then_Yields, pass_Yields, defined-Yields, defined, or_exit, is_neg32,
}
use cl_mem_regulation.Counters.{Configuration}
use cl_mem_regulation.Structures.Bitset.{uint64_to_bitset}
use cl_mem_regulation.Device.Extents.{filter_block_extents}
use cl_mem_regulation.Device.Instance.{Instance, Answers, instance__init}
use cl_mem_regulation.Sampler.Args.{
  VinstrBackendArgs, vinstr_backend_args__init, mapped_memory__init_with_fd, mapped_memory__move,
}
use cl_mem_regulation.Sampler.Setup.{
  ReaderAnswers, vinstr_setup, layout_type, open_reader, no_setup, vinstr_backend__create,
  vinstr_backend__init, vinstr_backend__init_with_args, Sampler, sampler__init, handle_fd,
  bucket_order, no_values,
}
use cl_mem_regulation.Sampler.Config.{
  SamplerConfig, convert, sampler_config__build_backend_config_list,
}
use cl_mem_regulation.Sampler.Backend.{Backend, blank, backend__init}
use cl_mem_regulation.Sampler.Blocks.{Reader}
use cl_mem_regulation.Sampler.Values.Sum.{IsReadable}
use cl_mem_regulation.Sampler.Values.{build_sample_buffer_mappings}
use cl_mem_regulation.Structures.SessionQueue.{session_queue__init}
use cl_mem_regulation.Structures.Set.{CounterSet}
use cl_mem_regulation.Device.Properties.{Locals, PropReader}
use cl_mem_regulation.Sampler.Layout.{sample_layout__init_with_args}
use cl_mem_regulation.Sampler.Layout.Counted.{IsShort, with_args-IsShort}

-- `mmap` answers with an address.
pub record IsMapped (a : ReaderAnswers) : Type 0 where
  pub address : ℕ
  pub mapped : a.mapped ≡ some address
  pub not_null : (address == 0) ≡ false

-- What the set-up of the reader makes of the arguments of the back end: samples on request, 32 buffers, the
-- features of the reader, and a layout that counts its entries.
pub record IsArgs (features : ℕ) (args : VinstrBackendArgs) : Type 0 where
  pub period : args.base_args.period_us ≡ 0
  pub told : args.features ≡ features
  pub buffers : args.max_buffer_count ≡ 32
  pub short : IsShort args.sample_layout_v
  pub mapped : (args.base_args.memory_.data_ == 0) ≡ false

vinstr_setup-IsArgs :
    (inst : Instance) (configs : List Configuration) (a : ReaderAnswers)
    → IsMapped a
    → Yields (IsArgs a.features) (vinstr_setup inst 0 configs a)
unfolding vinstr_setup vinstr_backend_args__init mapped_memory__init_with_fd mapped_memory__move
vinstr_setup-IsArgs inst configs a m =
    let c = inst.constants_ in
    let P = IsArgs a.features in
    let filtered = or_exit (filter_block_extents inst.block_extents_ configs a.end_type) in
    let masked = defined (convert (no_setup 0) configs) in
    let opened = open_reader inst 32 a.setup_ret in
    let cores = defined (uint64_to_bitset c.shader_core_mask) in
    pass_Yields P filtered _ (λ extents. pass_Yields P masked _ (λ masks.
      pass_Yields P opened _ (λ vinstr_fd.
        if_rule (Yields P) (is_neg32 a.version_ret) (λ e. exits_Yields P)
          (λ e.
            if_rule (Yields P) (is_neg32 a.size_ret) (λ e. exits_Yields P)
              (λ e. pass_Yields P cores _ (λ mask.
                let made =
                  sample_layout__init_with_args extents c.num_l2_slices mask (layout_type inst) in
                then_Yields IsShort P (defined made) _
                  (defined-Yields IsShort made
                    (with_args-IsShort extents c.num_l2_slices mask (layout_type inst)).keep)
                  (λ sl short. finished_Yields P _ (record {
                    period = refl;
                    told = refl;
                    buffers = refl;
                    short = short;
                    mapped = rw (m.mapped) m.not_null;
                  }))))))))

-- The back end and the blocks of a sampler that is set up.
pub record IsMade (features : ℕ) (b : Backend) (r : Reader) : Type 0 where
  pub readable : IsReadable r
  pub period : b.period_ns_ ≡ 0
  pub told : b.reader_features_ ≡ features
  pub stopped : b.active_ ≡ false
  pub sessions : b.sessions_ ≡ session_queue__init blank 64

init-IsMade :
    (queue : List ℕ) (features : ℕ) (args : VinstrBackendArgs)
    → IsArgs features args
    → let made = vinstr_backend__init queue args in IsMade features made.0 made.1
unfolding vinstr_backend__init backend__init
init-IsMade queue features args h = record {
  readable = record {
    counted = record { counted = h.short.counted; fits = omega (arith, h.short.few) };
    mapped = h.mapped;
  };
  period = h.period;
  told = h.told;
  stopped = refl;
  sessions = rw (h.buffers) refl;
}

with_args-IsMade :
    (inst : Instance) (configs : List Configuration) (a : ReaderAnswers)
    → IsMapped a
    → Yields
        (λ (made : Backend × Reader). IsMade a.features made.0 made.1)
        (vinstr_backend__init_with_args inst configs a)
unfolding vinstr_backend__init_with_args vinstr_backend__create
with_args-IsMade inst configs a m =
    then_Yields (IsArgs a.features) _ (vinstr_setup inst 0 configs a) _
      (vinstr_setup-IsArgs inst configs a m)
      (λ args h.
        finished_Yields _ (vinstr_backend__init a.queue args)
          (init-IsMade a.queue a.features args h))

-- A sampler that is set up, for the counters of a configuration.
pub record IsSetUp (features : ℕ) (counters : CounterSet) (smp : Sampler) : Type 0 where
  pub made : IsMade features smp.backend smp.reader
  pub mapped : smp.values ≡ build_sample_buffer_mappings no_values counters

module _ (garbage : PropReader → ℕ) (stack : Locals) (fuel : ℕ) where
  pub sampler__init-IsSetUp :
      (heap : Instance) (opened : ℕ) (a : Answers) (ra : ReaderAnswers) (config : SamplerConfig)
      → IsMapped ra
      → Yields
          (IsSetUp ra.features config.counters_)
          (sampler__init garbage stack fuel heap opened a ra config)
  unfolding sampler__init
  sampler__init-IsSetUp heap opened a ra config m =
      let P = IsSetUp ra.features config.counters_ in
      let listed = defined (sampler_config__build_backend_config_list bucket_order config) in
      pass_Yields P (instance__init garbage stack fuel heap (handle_fd opened) a) _ (λ inst.
        pass_Yields P listed _ (λ configs.
          then_Yields (λ (made : Backend × Reader). IsMade ra.features made.0 made.1) P
            (vinstr_backend__init_with_args inst configs ra) _ (with_args-IsMade inst configs ra m)
            (λ made h. finished_Yields P _ (record { made = h; mapped = refl }))))
