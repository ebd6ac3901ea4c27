-- ===== src/Common/Errno.antt =====
-- The error results of the C code, with the numbers of Linux: `negsuc n` is `-(n + 1)`.
use dpdk_cr.Common.Integers.{ℤ, negsuc}

abbrev pub minus_enoent : ℤ
minus_enoent = negsuc 1

abbrev pub minus_enodev : ℤ
minus_enodev = negsuc 18

abbrev pub minus_enobufs : ℤ
minus_enobufs = negsuc 104

abbrev pub minus_einval : ℤ
minus_einval = negsuc 21

abbrev pub minus_eoverflow : ℤ
minus_eoverflow = negsuc 74

abbrev pub minus_enotsup : ℤ
minus_enotsup = negsuc 94
