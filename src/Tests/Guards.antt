-- ===== src/Tests/Guards.antt =====
-- The permission checks and the address ranges at concrete inputs.
use ferum_board.Prelude.{◌≡◌, ◌↔◌, true, arith}
use ferum_board.Prelude.Int.{pos}
use ferum_board.Domain.Error.{ok}
use ferum_board.Domain.AuthUser.{AuthUser, has_perm_in, permitted_category_ids}
use ferum_board.Domain.AuthUser.Scope.{allows, permitted_category_ids_iff}
use ferum_board.Domain.Net.{Ipv4, Ipv6, is_private_ipv4, is_private_ipv6}
use ferum_board.Domain.Net.Ranges.{
  IsIpv4, IsIpv6, to_number, in_reserved_block, high_bits, low_bits, in_reserved_block6,
  is_private_ipv4_iff, is_private_ipv6_iff,
}
use ferum_board.Permission.{can_create_post, can_edit_post}
use ferum_board.Permission.Laws.{MayEdit, MayPost, can_edit_post_iff, can_create_post_iff}
use ferum_board.Tests.Data.{alice, general, first_post}

can_edit_post_iff_example :
    (can_edit_post alice first_post 5 (pos 24) 200 ≡ ok tt)
    ↔ MayEdit alice first_post 5 (pos 24) 200
can_edit_post_iff_example = can_edit_post_iff alice first_post 5 (pos 24) 200

can_create_post_iff_example :
    (can_create_post alice general 200 ≡ ok tt) ↔ MayPost alice general 200
can_create_post_iff_example = can_create_post_iff alice general 200

abbrev banned : AuthUser
banned = record alice { is_banned = true }

permitted_category_ids_iff_example :
    allows (permitted_category_ids alice "moderation.warn") 7
    ≡ has_perm_in alice "moderation.warn" 7
permitted_category_ids_iff_example = permitted_category_ids_iff alice "moderation.warn" 7 (tt, tt)

abbrev home : Ipv4
home = record { a = 192; b = 168; c = 0; d = 7 }

home-IsIpv4 : IsIpv4 home
home-IsIpv4 = record {
  a_byte = omega arith;
  b_byte = omega arith;
  c_byte = omega arith;
  d_byte = omega arith;
}

is_private_ipv4_iff_example : is_private_ipv4 home ≡ in_reserved_block (to_number home)
is_private_ipv4_iff_example = is_private_ipv4_iff home home-IsIpv4

abbrev unique_local : Ipv6
unique_local = record { s0 = 0xfd00; s1 = 1; s2 = 0; s3 = 0; s4 = 0; s5 = 0; s6 = 0; s7 = 1 }

unique_local-IsIpv6 : IsIpv6 unique_local
unique_local-IsIpv6 = record {
  w0 = omega arith;
  w1 = omega arith;
  w2 = omega arith;
  w3 = omega arith;
  w4 = omega arith;
  w5 = omega arith;
  w6 = omega arith;
  w7 = omega arith;
}

is_private_ipv6_iff_example :
    is_private_ipv6 unique_local
    ≡ in_reserved_block6 (high_bits unique_local) (low_bits unique_local)
is_private_ipv6_iff_example = is_private_ipv6_iff unique_local unique_local-IsIpv6
