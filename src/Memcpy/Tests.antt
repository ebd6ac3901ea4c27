-- ===== src/Memcpy/Tests.antt =====
-- Runs of the copy at concrete addresses.
use dpdk_cr.Common.{◌%◌, ◌≡◌, refl, inr, arith}
use dpdk_cr.Memcpy.Memory.{Memory, load, store_vector, move}
use dpdk_cr.Memcpy.Variant.{memcpy, repeated, copy_last}
use dpdk_cr.Memcpy.Avx2.{avx2, mov32, mov64, mov128, copy_block_128_back31, memcpy_generic}
use dpdk_cr.Memcpy.Machine.{Machine, variant}
use dpdk_cr.Memcpy.Laws.Whole.{memcpy_lem}

-- each address holds its own last byte
abbrev pattern : Memory
pattern a = a % 256

-- 600 bytes from an odd address to another: over the shifted stores without AVX2, and over a block of
-- 512 bytes with AVX512F
memcpy_lem_example :
    memcpy (variant Machine.has_avx512f) 1001 22 600 pattern ≡ (1001, move 600 1001 22 pattern)
memcpy_lem_example = memcpy_lem Machine.has_avx512f 1001 22 600 pattern (inr (omega arith))

-- the last of 100 bytes, and the byte behind it, with AVX2
last_byte : (memcpy avx2 1001 22 100 pattern).1 1100 ≡ 121
unfolding memcpy memcpy_generic copy_block_128_back31 copy_last mov128 mov64 mov32 repeated
    store_vector load
last_byte = refl

byte_behind : (memcpy avx2 1001 22 100 pattern).1 1101 ≡ 77
unfolding memcpy memcpy_generic copy_block_128_back31 copy_last mov128 mov64 mov32 repeated
    store_vector load
byte_behind = refl
