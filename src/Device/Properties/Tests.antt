-- ===== src/Device/Properties/Tests.antt =====
-- The decoder at concrete buffers, and the theorems there.
use cl_mem_regulation.Common.{ℕ, ◌≡◌, refl, arith, [], ◌∷◌, List, length, replicate, out_of_fuel}
use cl_mem_regulation.Device.Properties.{no_constants, Locals, PropReader, decode_loop}
use cl_mem_regulation.Device.Properties.Reading.{IsReader}
use cl_mem_regulation.Device.Properties.Ending.{decode_loop-stuck, decode_loop-enough}
use cl_mem_regulation.Device.Properties.RoundTrip.{
  Property, AllValid, encode, encode_value, encode_all, reader_of, take_all, decode_loop-encode,
}

abbrev clean : PropReader → ℕ
clean r = 0

abbrev stack : Locals
stack = record {
  consts = no_constants;
  num_core_groups = 0;
  core_mask = replicate 16 0;
  raw_core_features_v = 0;
  raw_thread_features_v = 0;
}

-- The number of L2 slices, 2, in one byte, and the GPU id in eight.
abbrev slices : Property
slices = record { code = 15; size_code = 0; value = 2 }

abbrev gpu_id : Property
gpu_id = record { code = 55; size_code = 3; value = 0xa872_0010 }

abbrev two_properties : List Property
two_properties = slices ∷ gpu_id ∷ []

two_properties-AllValid : AllValid two_properties
two_properties-AllValid =
    AllValid.one_more slices (gpu_id ∷ [])
      (record { code_fits = omega arith; size_known = omega arith; value_fits = omega arith })
      (AllValid.one_more gpu_id []
        (record { code_fits = omega arith; size_known = omega arith; value_fits = omega arith })
        AllValid.none_left)

two_properties_bytes :
    encode_all two_properties
    ≡ 60 ∷ 0 ∷ 0 ∷ 0 ∷ 2 ∷ 223 ∷ 0 ∷ 0 ∷ 0 ∷ 16 ∷ 0 ∷ 114 ∷ 168 ∷ 0 ∷ 0 ∷ 0 ∷ 0 ∷ []
unfolding encode_all encode encode_value
two_properties_bytes = refl

two_properties_small : length (encode_all two_properties) ≡ 17
unfolding encode_all encode encode_value
two_properties_small = refl

decode_loop-encode_example :
    decode_loop clean 2 (reader_of (encode_all two_properties)) stack
    ≡ take_all two_properties stack
decode_loop-encode_example =
    decode_loop-encode clean (λ r. refl) two_properties stack two_properties-AllValid
      (omega (arith, two_properties_small))

-- Three bytes that are no property.
abbrev loose : PropReader
loose = record { data_ = 1 ∷ 2 ∷ 3 ∷ []; size_ = 3 }

loose-IsReader : IsReader loose
loose-IsReader = record { counted = refl; fits = omega arith }

decode_loop-stuck_example : decode_loop clean 1000 loose stack ≡ out_of_fuel
decode_loop-stuck_example = decode_loop-stuck clean 1000 loose stack (omega arith) (omega arith)

decode_loop-enough_example : decode_loop clean 1000 loose stack ≡ out_of_fuel
decode_loop-enough_example =
    decode_loop-enough clean 3 1000 loose stack loose-IsReader (omega arith)
      (decode_loop-stuck clean 3 loose stack (omega arith) (omega arith))
