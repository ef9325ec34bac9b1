-- ===== src/Go/Tests.antt =====
-- Runs of the library functions on inputs of the package documentation.
use network_controller.Common.{◌≡◌, refl, [], ◌∷◌, none, some}
use network_controller.Go.Text.{codes, split, trim, dtoi, uitoa, digits, hex}
use network_controller.Go.Sha1.{sha1_sum}
use network_controller.Go.Net.{
  parse_ip, ip_string, ipv4, parse_ipv4, to4, dotted, parse_cidr, cidr_mask, and_bytes, mask_ip,
  nil_ip,
}
use network_controller.Go.Net.V6.{parse_ipv6, ipv6_string}
use network_controller.Go.Text.{beq, xtoi, hex_group}

split_runs : split (codes "a/b//c") b'/' ≡ codes "a" ∷ codes "b" ∷ [] ∷ codes "c" ∷ []
unfolding split
split_runs = refl

trim_runs : trim (codes "  a b ") b' ' ≡ codes "a b"
unfolding trim
trim_runs = refl

dtoi_runs : dtoi (codes "24/x") ≡ some (24, codes "/x")
unfolding dtoi
dtoi_runs = refl

uitoa_runs : uitoa 18446744073709551615 ≡ codes "18446744073709551615"
unfolding uitoa digits
uitoa_runs = refl

hex_runs : hex (0 ∷ 171 ∷ []) ≡ codes "00ab"
unfolding hex
hex_runs = refl

parse_v4 : parse_ip (codes "192.168.1.10") ≡ ipv4 192 168 1 10
unfolding parse_ip parse_ipv4 dtoi
parse_v4 = refl

parse_refused : parse_ip (codes "192.168.1.256") ≡ nil_ip
unfolding parse_ip parse_ipv4 dtoi
parse_refused = refl

parse_v6 : ip_string (parse_ip (codes "2001:db8::0:1")) ≡ codes "2001:db8::1"
unfolding parse_ip parse_ipv4 dtoi parse_ipv6 xtoi ip_string to4 beq ipv6_string hex_group
parse_v6 = refl

parse_mapped : ip_string (parse_ip (codes "::ffff:10.0.0.1")) ≡ codes "10.0.0.1"
unfolding parse_ip parse_ipv4 dtoi parse_ipv6 xtoi ip_string to4 beq dotted uitoa digits
parse_mapped = refl

cidr_runs :
    parse_cidr (codes "192.168.1.255/30")
    ≡ some (
      ipv4 192 168 1 255,
      record { ip = 192 ∷ 168 ∷ 1 ∷ 252 ∷ []; mask = 255 ∷ 255 ∷ 255 ∷ 252 ∷ [] },
    )
unfolding parse_cidr parse_ipv4 dtoi cidr_mask mask_ip and_bytes beq
cidr_runs = refl

cidr_refused : parse_cidr (codes "192.168.1.0/33") ≡ none
unfolding parse_cidr parse_ipv4 dtoi cidr_mask mask_ip and_bytes beq
cidr_refused = refl

sha1_runs : hex (sha1_sum (codes "abc")) ≡ codes "a9993e364706816aba3e25717850c26c9cd0d89d"
unfolding hex sha1_sum
sha1_runs = refl
