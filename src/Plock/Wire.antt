-- ===== src/Plock/Wire.antt =====
-- The byte order of messages: group/include/linux_endian.h, and the two conversions of
-- group/dlm_controld/plock.c.
use dlm.Base.{
  ℕ, ◌+◌, ◌*◌, ◌/◌, ◌%◌, ◌<◌, ◌≡◌, refl, Bool, true, false, arith, u64_mod, if◌then◌else◌,
}
use dlm.Plock.Types.{Info}

-- `bswap_32` and `bswap_64` of byteswap.h: the bytes in reverse.
abbrev bswap_16 : ℕ → ℕ
bswap_16 x = x % 256 * 256 + x / 256 % 256

bswap_32 : ℕ → ℕ
bswap_32 x = bswap_16 (x % 65536) * 65536 + bswap_16 (x / 65536)

bswap_64 : ℕ → ℕ
bswap_64 x = bswap_32 (x % 4294967296) * 4294967296 + bswap_32 (x / 4294967296)

-- `cpu_to_le32` and `le32_to_cpu`; the first argument is the byte order of the machine.
unfoldable pub le32 : Bool → ℕ → ℕ
unfolding bswap_32
le32 big x = if big then bswap_32 x else x

unfoldable pub le64 : Bool → ℕ → ℕ
unfolding bswap_64 bswap_32
le64 big x = if big then bswap_64 x else x

bswap_32_twice : (x : ℕ) → x < 4294967296 → bswap_32 (bswap_32 x) ≡ x
unfolding bswap_32
bswap_32_twice x h = omega arith

bswap_32_bound : (x : ℕ) → bswap_32 x < 4294967296
unfolding bswap_32
bswap_32_bound x = omega arith

halves :
    (h l : ℕ)
    → l < 4294967296
    → ((h * 4294967296 + l) % 4294967296 ≡ l) × ((h * 4294967296 + l) / 4294967296 ≡ h)
halves h l k = omega arith

bswap_64_twice : (x : ℕ) → x < u64_mod → bswap_64 (bswap_64 x) ≡ x
unfolding bswap_64
bswap_64_twice x h =
    let l = x % 4294967296 in
    let k = x / 4294967296 in
    let both = halves (bswap_32 l) (bswap_32 k) (bswap_32_bound k) in
    rw (both.0, both.1)
      (omega (arith, bswap_32_twice l (omega arith), bswap_32_twice k (omega arith)))

pub le32_twice : (big : Bool) (x : ℕ) → x < 4294967296 → le32 big (le32 big x) ≡ x
unfolding le32
le32_twice false x h = refl
le32_twice true x h = bswap_32_twice x h

pub le64_twice : (big : Bool) (x : ℕ) → x < u64_mod → le64 big (le64 big x) ≡ x
unfolding le64
le64_twice false x h = refl
le64_twice true x h = bswap_64_twice x h

unfoldable pub info_bswap_out : Bool → Info → Info
info_bswap_out big i = record i {
  version0 = le32 big i.version0;
  version1 = le32 big i.version1;
  version2 = le32 big i.version2;
  pid = le32 big i.pid;
  nodeid = le32 big i.nodeid;
  rv = le32 big i.rv;
  fsid = le32 big i.fsid;
  number = le64 big i.number;
  start = le64 big i.start;
  end = le64 big i.end;
  owner = le64 big i.owner;
}

unfoldable pub info_bswap_in : Bool → Info → Info
info_bswap_in big i = record i {
  version0 = le32 big i.version0;
  version1 = le32 big i.version1;
  version2 = le32 big i.version2;
  pid = le32 big i.pid;
  nodeid = le32 big i.nodeid;
  rv = le32 big i.rv;
  fsid = le32 big i.fsid;
  number = le64 big i.number;
  start = le64 big i.start;
  end = le64 big i.end;
  owner = le64 big i.owner;
}

-- Every field fits its C type.
pub record FitsWire (i : Info) : Type 0 where
  pub version0 : i.version0 < 4294967296
  pub version1 : i.version1 < 4294967296
  pub version2 : i.version2 < 4294967296
  pub pid : i.pid < 4294967296
  pub nodeid : i.nodeid < 4294967296
  pub rv : i.rv < 4294967296
  pub fsid : i.fsid < 4294967296
  pub number : i.number < u64_mod
  pub start : i.start < u64_mod
  pub end : i.end < u64_mod
  pub owner : i.owner < u64_mod

-- A message whose fields fit their C types keeps its contents when it is converted to the wire
-- and back, on a machine of either byte order.
pub info_bswap_in-info_bswap_out :
    (big : Bool) (i : Info) → FitsWire i → info_bswap_in big (info_bswap_out big i) ≡ i
unfolding info_bswap_in info_bswap_out
info_bswap_in-info_bswap_out big i h = λ j. record i {
  version0 = le32_twice big i.version0 h.version0 j;
  version1 = le32_twice big i.version1 h.version1 j;
  version2 = le32_twice big i.version2 h.version2 j;
  pid = le32_twice big i.pid h.pid j;
  nodeid = le32_twice big i.nodeid h.nodeid j;
  rv = le32_twice big i.rv h.rv j;
  fsid = le32_twice big i.fsid h.fsid j;
  number = le64_twice big i.number h.number j;
  start = le64_twice big i.start h.start j;
  end = le64_twice big i.end h.end j;
  owner = le64_twice big i.owner h.owner j;
}
