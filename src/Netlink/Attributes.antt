-- ===== src/Netlink/Attributes.antt =====
-- src/ext/ext_netlink.c: attributes at the end of a request.
use dpdk_cr.Common.{ℕ, ◌+◌, List, length, add32}
use dpdk_cr.Common.Bytes.{Bytes, put_bytes, put16, put32, get16, get32, le_bytes}
use dpdk_cr.Netlink.Uapi.{nlmsg_align, rta_align, rta_length}

-- NLMSG_TAIL
abbrev pub nlmsg_tail : Bytes → ℕ
nlmsg_tail nh = nlmsg_align (get32 nh 0)

-- nlattr_add: `nh` is the request's memory, `content` the bytes at `data`. `rta_len` is an
-- `unsigned short`, and `nlmsg_len` is read and written as the request's first word.
unfoldable pub nlattr_add : Bytes → ℕ → List ℕ → Bytes
nlattr_add nh type content =
    let rta = nlmsg_tail nh in
    let with_len = put16 nh rta (rta_length (length content)) in
    let with_type = put16 with_len (rta + 2) type in
    let filled = put_bytes with_type (rta + rta_length 0) content in
    put32 filled 0 (add32 (nlmsg_align (get32 filled 0)) (rta_align (get16 filled rta)))

-- nlattr_add32
unfoldable pub nlattr_add32 : Bytes → ℕ → ℕ → Bytes
unfolding nlattr_add
nlattr_add32 nh type value = nlattr_add nh type (le_bytes 4 value)
