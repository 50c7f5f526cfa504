-- ===== src/Domain/Net/Ranges.antt =====
-- The classification by octets and masks is membership in ranges of addresses.
use Prim.Native.Nat.{bit_and}
use ferum_board.Prelude.{
  ℕ, zero, suc, ◌+◌, ◌*◌, ◌/◌, ◌%◌, ◌^◌, ◌-◌, ◌<◌, ◌≡◌, refl, Bool, true, false, ◌&&◌, ◌||◌, arith,
  ◌==◌, leb, not, some, none, if◌then◌else◌, ap, ◌∙◌,
}
use ferum_board.Domain.Net.{
  Ipv4, Ipv6, v4, v6, is_private_ipv4, is_private_ipv6, is_private_ip, and_private,
}

-- An address as the number that it is on the wire.
abbrev pub to_number : Ipv4 → ℕ
to_number ip = ip.a * 16777216 + ip.b * 65536 + ip.c * 256 + ip.d

-- A block of addresses, from its first to its last.
abbrev pub within : ℕ → ℕ → ℕ → Bool
within first last n = leb first n && leb n last

-- In the order of the source: 127.0.0.0/8; 10.0.0.0/8, 172.16.0.0/12, 192.168.0.0/16; 169.254.0.0/16;
-- 255.255.255.255; 0.0.0.0; 100.64.0.0/10.
abbrev pub in_reserved_block : ℕ → Bool
in_reserved_block n =
    within 2130706432 2147483647 n
    || ((within 167772160 184549375 n
          || within 2886729728 2887778303 n
          || within 3232235520 3232301055 n)
        || (within 2851995648 2852061183 n
            || (within 4294967295 4294967295 n
                || (within 0 0 n || within 1681915904 1686110207 n))))

pub record IsIpv4 (ip : Ipv4) : Type 0 where
  pub a_byte : ip.a < 256
  pub b_byte : ip.b < 256
  pub c_byte : ip.c < 256
  pub d_byte : ip.d < 256

or_eq : {a b c d : Bool} → a ≡ c → b ≡ d → (a || b) ≡ (c || d)
or_eq p q = rw (p, q) refl

module _ (ip : Ipv4) (v : IsIpv4 ip) where
  -- A block that one octet names.
  octet_block :
      (k : ℕ) → (ip.a == k) ≡ within (k * 16777216) (k * 16777216 + 16777215) (to_number ip)
  octet_block k = ground arith

  -- A block that the first octet and a range of the second name.
  octets_block :
      (k lo hi : ℕ)
      → hi < 256
      → (ip.a == k && (leb lo ip.b && leb ip.b hi))
        ≡ within (k * 16777216 + lo * 65536) (k * 16777216 + hi * 65536 + 65535) (to_number ip)
  octets_block k lo hi h = ground arith

  pair_block :
      (k j : ℕ)
      → j < 256
      → (ip.a == k && ip.b == j)
        ≡ within (k * 16777216 + j * 65536) (k * 16777216 + j * 65536 + 65535) (to_number ip)
  pair_block k j h = ground arith

  broadcast_block :
      (ip.a == 255 && (ip.b == 255 && (ip.c == 255 && ip.d == 255)))
      ≡ within 4294967295 4294967295 (to_number ip)
  broadcast_block = ground arith

  unspecified_block :
      (ip.a == 0 && (ip.b == 0 && (ip.c == 0 && ip.d == 0))) ≡ within 0 0 (to_number ip)
  unspecified_block = ground arith

-- An IPv4 address is classified as private exactly where its number lies in a reserved block.
pub is_private_ipv4_iff :
    (ip : Ipv4) → IsIpv4 ip → is_private_ipv4 ip ≡ in_reserved_block (to_number ip)
unfolding is_private_ipv4
is_private_ipv4_iff ip v = or_eq (octet_block ip v 127) (
    or_eq
      (or_eq (or_eq (octet_block ip v 10) (octets_block ip v 172 16 31 (omega arith)))
        (pair_block ip v 192 168 (omega arith)))
      (or_eq (pair_block ip v 169 254 (omega arith)) (
        or_eq (broadcast_block ip v)
          (or_eq (unspecified_block ip v) (octets_block ip v 100 64 127 (omega arith))))))

-- The segment tests by mask are tests of a range: fc00::/7 and fe80::/10.
passes_below : (ℕ → Bool) → ℕ → Bool
passes_below test zero = true
passes_below test (suc bound) = passes_below test bound && test bound

passes_below-test :
    (test : ℕ → Bool) (bound c : ℕ) → c < bound → passes_below test bound ≡ true → test c ≡ true
unfolding passes_below
passes_below-test test zero c small all = elim small [ ]
passes_below-test test (suc bound) c small all = ground (arith, passes_below-test test bound c)

-- Equality of truth values.
abbrev same : Bool → Bool → Bool
same true b = b
same false b = not b

same_eq : (a b : Bool) → same a b ≡ true → a ≡ b
same_eq a b h = ground arith

unique_local_table :
    passes_below (λ x. same (bit_and x 0xfe00 == 0xfc00) (within 0xfc00 0xfdff x)) 65536 ≡ true
unfolding passes_below
unique_local_table = refl

-- An IPv4-mapped IPv6 address is classified as the IPv4 address that it carries.
pub is_private_mapped :
    (ip : Ipv4)
    → IsIpv4 ip
    → is_private_ip (
        v6 (record {
          s0 = 0;
          s1 = 0;
          s2 = 0;
          s3 = 0;
          s4 = 0;
          s5 = 65535;
          s6 = ip.a * 256 + ip.b;
          s7 = ip.c * 256 + ip.d;
        }))
      ≡ is_private_ip (v4 ip)
unfolding is_private_ip
is_private_mapped ip v =
    let a : (ip.a * 256 + ip.b) / 256 ≡ ip.a = omega arith in
    let b : (ip.a * 256 + ip.b) % 256 ≡ ip.b = omega arith in
    let c : (ip.c * 256 + ip.d) / 256 ≡ ip.c = omega arith in
    let d : (ip.c * 256 + ip.d) % 256 ≡ ip.d = omega arith in rw (a, b, c, d) refl

link_local_table :
    passes_below (λ x. same (bit_and x 0xffc0 == 0xfe80) (within 0xfe80 0xfebf x)) 65536 ≡ true
unfolding passes_below
link_local_table = refl

pub record IsIpv6 (ip : Ipv6) : Type 0 where
  pub w0 : ip.s0 < 65536
  pub w1 : ip.s1 < 65536
  pub w2 : ip.s2 < 65536
  pub w3 : ip.s3 < 65536
  pub w4 : ip.s4 < 65536
  pub w5 : ip.s5 < 65536
  pub w6 : ip.s6 < 65536
  pub w7 : ip.s7 < 65536

-- The 96 high bits of an address, and the 32 low ones.
abbrev pub high_bits : Ipv6 → ℕ
high_bits ip =
    ip.s0 * 2 ^ 80 + ip.s1 * 2 ^ 64 + ip.s2 * 2 ^ 48 + ip.s3 * 2 ^ 32 + ip.s4 * 2 ^ 16 + ip.s5

abbrev pub low_bits : Ipv6 → ℕ
low_bits ip = ip.s6 * 65536 + ip.s7

-- ::1, ::, fc00::/7, fe80::/10, and the reserved IPv4 blocks below ::ffff:0:0/96.
abbrev pub in_reserved_block6 : ℕ → ℕ → Bool
in_reserved_block6 high low =
    (high == 0 && low == 1)
    || ((high == 0 && low == 0)
        || (within (0xfc00 * 2 ^ 80) (0xfe00 * 2 ^ 80 - 1) high
            || (within (0xfe80 * 2 ^ 80) (0xfec0 * 2 ^ 80 - 1) high
                || (high == 65535 && in_reserved_block low))))

-- The test of `to_ipv4_mapped`, and the address that it takes out.
abbrev is_mapped : Ipv6 → Bool
is_mapped ip =
    ip.s0 == 0 && (ip.s1 == 0 && (ip.s2 == 0 && (ip.s3 == 0 && (ip.s4 == 0 && ip.s5 == 65535))))

abbrev embedded : Ipv6 → Ipv4
embedded ip = record { a = ip.s6 / 256; b = ip.s6 % 256; c = ip.s7 / 256; d = ip.s7 % 256 }

module _ (ip : Ipv6) (v : IsIpv6 ip) where
  zero_head :
      (x : Bool)
      → (ip.s0 == 0
          && (ip.s1 == 0 && (ip.s2 == 0 && (ip.s3 == 0 && (ip.s4 == 0 && (ip.s5 == 0 && x))))))
        ≡ (high_bits ip == 0 && x)
  zero_head x = ground arith

  zero_tail : (k : ℕ) → k < 65536 → (ip.s6 == 0 && ip.s7 == k) ≡ (low_bits ip == k)
  zero_tail k h = ground arith

  mapped_high : is_mapped ip ≡ (high_bits ip == 65535)
  mapped_high = ground arith

  unique_local :
      (bit_and ip.s0 0xfe00 == 0xfc00)
      ≡ within (0xfc00 * 2 ^ 80) (0xfe00 * 2 ^ 80 - 1) (high_bits ip)
  unique_local =
      same_eq _ _ (passes_below-test _ 65536 ip.s0 v.w0 unique_local_table) ∙ ground arith

  link_local :
      (bit_and ip.s0 0xffc0 == 0xfe80)
      ≡ within (0xfe80 * 2 ^ 80) (0xfec0 * 2 ^ 80 - 1) (high_bits ip)
  link_local = same_eq _ _ (passes_below-test _ 65536 ip.s0 v.w0 link_local_table) ∙ ground arith

  octets_of_low : is_private_ipv4 (embedded ip) ≡ in_reserved_block (low_bits ip)
  octets_of_low =
      let same_number : to_number (embedded ip) ≡ low_bits ip = omega arith in
      is_private_ipv4_iff (embedded ip) (record {
        a_byte = omega arith;
        b_byte = omega arith;
        c_byte = omega arith;
        d_byte = omega arith;
      })
      ∙ ap in_reserved_block same_number

guarded :
    (t : Bool) (ip : Ipv4) → and_private (if t then some ip else none) ≡ (t && is_private_ipv4 ip)
guarded true ip = refl
guarded false ip = refl

-- An IPv6 address is classified as private exactly where it is in one of the reserved blocks.
pub is_private_ipv6_iff :
    (ip : Ipv6) → IsIpv6 ip → is_private_ipv6 ip ≡ in_reserved_block6 (high_bits ip) (low_bits ip)
unfolding is_private_ipv6
is_private_ipv6_iff ip v =
    or_eq (zero_head ip v _ ∙ ap (λ x. high_bits ip == 0 && x) (zero_tail ip v 1 (omega arith))) (
      or_eq (zero_head ip v _ ∙ ap (λ x. high_bits ip == 0 && x) (zero_tail ip v 0 (omega arith))) (
        or_eq (unique_local ip v) (
          or_eq (link_local ip v) (
            guarded (is_mapped ip) (embedded ip)
            ∙ ap (λ x. x && is_private_ipv4 (embedded ip)) (mapped_high ip v)
            ∙ ap (λ x. high_bits ip == 65535 && x) (octets_of_low ip v)))))
