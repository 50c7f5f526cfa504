-- ===== src/Domain/Net.antt =====
-- backend/crates/ferum-domain/src/net.rs: addresses that no outbound request may reach. An IPv4 address
-- is its four octets, an IPv6 address its eight 16-bit segments.
pub mod Ranges
use Prim.Native.Nat.{bit_and}
use ferum_board.Prelude.{
  ℕ, ◌+◌, ◌/◌, ◌%◌, List, [], ◌∷◌, Text, Bool, true, false, ◌&&◌, ◌||◌, Option, none, some, ◌==◌,
  leb, if◌then◌else◌,
}

pub record Ipv4 : Type 0 where
  pub a : ℕ
  pub b : ℕ
  pub c : ℕ
  pub d : ℕ

pub record Ipv6 : Type 0 where
  pub s0 : ℕ
  pub s1 : ℕ
  pub s2 : ℕ
  pub s3 : ℕ
  pub s4 : ℕ
  pub s5 : ℕ
  pub s6 : ℕ
  pub s7 : ℕ

pub data IpAddr : Type 0 where
  v4 : Ipv4 → IpAddr
  v6 : Ipv6 → IpAddr

-- The tests of `std::net::Ipv4Addr`.
abbrev is_loopback : Ipv4 → Bool
is_loopback ip = ip.a == 127

abbrev is_private : Ipv4 → Bool
is_private ip =
    ip.a == 10 || (ip.a == 172 && (leb 16 ip.b && leb ip.b 31)) || (ip.a == 192 && ip.b == 168)

abbrev is_link_local : Ipv4 → Bool
is_link_local ip = ip.a == 169 && ip.b == 254

abbrev is_broadcast : Ipv4 → Bool
is_broadcast ip = ip.a == 255 && (ip.b == 255 && (ip.c == 255 && ip.d == 255))

abbrev is_unspecified : Ipv4 → Bool
is_unspecified ip = ip.a == 0 && (ip.b == 0 && (ip.c == 0 && ip.d == 0))

unfoldable pub is_private_ipv4 : Ipv4 → Bool
is_private_ipv4 ip =
    is_loopback ip
    || (is_private ip
        || (is_link_local ip
            || (is_broadcast ip
                || (is_unspecified ip || (ip.a == 100 && (leb 64 ip.b && leb ip.b 127))))))

-- The first seven segments are zero, and the last is the given number.
abbrev all_zero_but : Ipv6 → ℕ → Bool
all_zero_but ip n =
    ip.s0 == 0
    && (ip.s1 == 0
        && (ip.s2 == 0
            && (ip.s3 == 0 && (ip.s4 == 0 && (ip.s5 == 0 && (ip.s6 == 0 && ip.s7 == n))))))

-- `Ipv6Addr::to_ipv4_mapped`: `::ffff:a.b.c.d`.
abbrev pub to_ipv4_mapped : Ipv6 → Option Ipv4
to_ipv4_mapped ip =
    if ip.s0 == 0 && (ip.s1 == 0 && (ip.s2 == 0 && (ip.s3 == 0 && (ip.s4 == 0 && ip.s5 == 65535))))
    then some (record { a = ip.s6 / 256; b = ip.s6 % 256; c = ip.s7 / 256; d = ip.s7 % 256 })
    else none

abbrev and_private : Option Ipv4 → Bool
and_private none = false
and_private (some ip) = is_private_ipv4 ip

unfoldable pub is_private_ipv6 : Ipv6 → Bool
unfolding is_private_ipv4
is_private_ipv6 ip =
    all_zero_but ip 1
    || (all_zero_but ip 0
        || (bit_and ip.s0 0xfe00 == 0xfc00
            || (bit_and ip.s0 0xffc0 == 0xfe80 || and_private (to_ipv4_mapped ip))))

unfoldable pub is_private_ip : IpAddr → Bool
unfolding is_private_ipv4 is_private_ipv6
is_private_ip (v4 ip) = is_private_ipv4 ip
is_private_ip (v6 ip) = is_private_ipv6 ip

-- `strip_suffix(']')`.
abbrev strip_bracket : Text → Option Text
strip_bracket [] = none
strip_bracket (c ∷ []) = if c == b']' then some [] else none
strip_bracket (c ∷ d ∷ s) = elim (strip_bracket (d ∷ s)) [ none ↦ none | some t ↦ some (c ∷ t) ]

abbrev unbracketed : Text → Option Text → Text
unbracketed host none = host
unbracketed host (some t) = t

unfoldable pub normalize_host : Text → Text
normalize_host [] = []
normalize_host (c ∷ s) = if c == b'[' then unbracketed (c ∷ s) (strip_bracket s) else c ∷ s

abbrev lower : ℕ → ℕ
lower c = if leb 65 c && leb c 90 then c + 32 else c

-- `eq_ignore_ascii_case`.
unfoldable pub same_ignoring_case : Text → Text → Bool
same_ignoring_case [] [] = true
same_ignoring_case (a ∷ s) (b ∷ t) = lower a == lower b && same_ignoring_case s t
same_ignoring_case _ _ = false

abbrev pub private_or_none : Option IpAddr → Bool
private_or_none none = false
private_or_none (some ip) = is_private_ip ip

abbrev pub localhost : Text
localhost = b'l' ∷ b'o' ∷ b'c' ∷ b'a' ∷ b'l' ∷ b'h' ∷ b'o' ∷ b's' ∷ b't' ∷ []

-- The parser of addresses is the standard library's.
unfoldable pub is_private_host_literal : (parse_ip : Text → Option IpAddr) → Text → Bool
unfolding normalize_host same_ignoring_case is_private_ip
is_private_host_literal parse_ip host =
    same_ignoring_case (normalize_host host) localhost
    || private_or_none (parse_ip (normalize_host host))
