-- ===== src/Counters.antt =====
-- The counters of the profiler: include/internal_types.h, include/external_types.h and the block types of
-- include/hwcnt/block_metadata.h. A `hwcpipe_counter` is its number.
use cl_mem_regulation.Common.{ℕ, Bool, not, ◌==◌, ltb}
use cl_mem_regulation.Structures.Bitset.{Bitset, bitset__init}

pub data BlockType : Type 0 where
  fe tiler memory core : BlockType

pub record BlockOffset : Type 0 where
  pub offset : ℕ
  pub shift : ℕ
  pub block_type : BlockType

pub data CounterType : Type 0 where
  invalid hardware expression : CounterType

pub record CounterDefinition : Type 0 where
  pub address : BlockOffset
  pub tag : CounterType

pub record RegisteredCounter : Type 0 where
  pub counter : ℕ
  pub definition : CounterDefinition

unfoldable pub register_counter__init : RegisteredCounter → (counter : ℕ) → RegisteredCounter
register_counter__init rc counter = record rc { counter = counter }

unfoldable pub register_counter__init_with_definition :
    (counter : ℕ) → CounterDefinition → RegisteredCounter
register_counter__init_with_definition counter definition = record {
  counter = counter;
  definition = definition;
}

unfoldable pub registered_counter__equals : (lhs rhs : RegisteredCounter) → Bool
registered_counter__equals lhs rhs = lhs.counter == rhs.counter

unfoldable pub registered_counter__not_equals : (lhs rhs : RegisteredCounter) → Bool
registered_counter__not_equals lhs rhs = not (lhs.counter == rhs.counter)

unfoldable pub registered_counter__less_than : (lhs rhs : RegisteredCounter) → Bool
registered_counter__less_than lhs rhs = ltb lhs.counter rhs.counter

unfoldable pub config_definition__init : BlockOffset → CounterDefinition
config_definition__init address = record { address = address; tag = CounterType.hardware }

-- include/hwcnt/prfcnt_set.h and include/configuration.h
pub data PrfcntSet : Type 0 where
  primary secondary tertiary : PrfcntSet

pub record Configuration : Type 0 where
  pub max_counters_per_block : ℕ
  pub type_ : BlockType
  pub set_ : PrfcntSet
  pub enable_map : Bitset

unfoldable pub configuration__init : BlockType → PrfcntSet → Configuration
unfolding bitset__init
configuration__init type_ set_ = record {
  max_counters_per_block = 128;
  type_ = type_;
  set_ = set_;
  enable_map = bitset__init 128;
}
