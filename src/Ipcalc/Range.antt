-- ===== src/Ipcalc/Range.antt =====
-- `ParseIPRange`: on IPv4 bounds it returns the addresses from `start` to `end`, both included. The
-- lower bound of its loop moves with the address, so on an upper bound of all ones the loop never
-- ends.
use native.Mathlib.Decide.{dec_lt}
use network_controller.Common.{
  ℕ, zero, suc, ◌+◌, ◌-◌, ◌^◌, ◌≤◌, ◌<◌, ◌≡◌, ◌≢◌, refl, ap, subst, ◌∙◌, true, false, List, [], ◌∷◌,
  ◌++◌, append_assoc, arith, All, Ordering, length, replicate,
}
use network_controller.Go.Text.{compare_bytes, beq}
use network_controller.Go.Text.Laws.{compare_bytes_refl}
use network_controller.Go.Result.{ok, hangs}
use network_controller.Go.Net.{Ip, parse_ip, ip_string, to4}
use network_controller.Go.Net.Laws.{parse_ip-ip_string}
use network_controller.Ipcalc.{incip, is_in_range_bound, range_loop, parse_ip_range, max_rounds}
use network_controller.Ipcalc.Incip.{mapped, incip-mapped, length-incip, incip-All}
use network_controller.Ipcalc.Cidr.{mapped-IsIpv4}

-- The `count` addresses from the number `n` on.
unfoldable pub addresses_from : ℕ → ℕ → List Ip
addresses_from zero n = []
addresses_from (suc count) n = mapped n ∷ addresses_from count (n + 1)

-- The lower bound is the address itself, so only the upper one counts.
in_bound_self :
    (ip upper : Ip) → compare_bytes ip upper ≡ Ordering.gt → is_in_range_bound ip ip upper ≡ false
unfolding is_in_range_bound
in_bound_self ip upper h = rw (compare_bytes_refl ip, h)

compare-mapped-le :
    (i j : ℕ) → i ≤ j → j < 2 ^ 32 → is_in_range_bound (mapped i) (mapped i) (mapped j) ≡ true
unfolding is_in_range_bound compare_bytes
compare-mapped-le i j h k = ground arith

compare-mapped-gt :
    (i j : ℕ) → j < i → i < 2 ^ 32 → is_in_range_bound (mapped i) (mapped i) (mapped j) ≡ false
unfolding is_in_range_bound compare_bytes
compare-mapped-gt i j h k = ground arith

-- Behind 255.255.255.255 comes an address above all IPv4 ones.
overflow :
    (j : ℕ)
    → j < 2 ^ 32
    → is_in_range_bound (incip (mapped (2 ^ 32 - 1))) (incip (mapped (2 ^ 32 - 1))) (mapped j)
      ≡ false
unfolding is_in_range_bound compare_bytes incip
overflow j h = ground arith

same_text : (n : ℕ) → ip_string (to4 (mapped n)) ≡ ip_string (mapped n)
unfolding ip_string to4 beq
same_text n = refl

-- What the loop appends: the address itself.
element : (n : ℕ) → parse_ip (ip_string (to4 (mapped n))) ≡ mapped n
element n = ap parse_ip (same_text n) ∙ parse_ip-ip_string (mapped-IsIpv4 n)

stop_behind :
    (j : ℕ)
    → j < 2 ^ 32
    → is_in_range_bound (incip (mapped j)) (incip (mapped j)) (mapped j) ≡ false
stop_behind j h = elim (dec_lt (j + 1) (2 ^ 32)) [
  | yes lt ↦ rw (incip-mapped j lt) (compare-mapped-gt (j + 1) j (omega arith) lt)
  | no ge ↦ let last : j ≡ 2 ^ 32 - 1 = omega arith in rw last (overflow (2 ^ 32 - 1) (omega arith))
]

range_loop-stop :
    (fuel : ℕ) (ip upper : Ip) (ips : List Ip)
    → is_in_range_bound ip ip upper ≡ false
    → range_loop (suc fuel) ip upper ips ≡ ok ips
unfolding range_loop
range_loop-stop fuel ip upper ips h = rw h

range_loop-addresses :
    (count fuel n j : ℕ) (ips : List Ip)
    → n + count ≡ j
    → j < 2 ^ 32
    → suc count < fuel
    → range_loop fuel (mapped n) (mapped j) ips ≡ ok (ips ++ addresses_from (suc count) n)
unfolding range_loop addresses_from
range_loop-addresses count zero n j ips e b h = absurd (omega arith)
range_loop-addresses zero (suc zero) n j ips e b h = absurd (omega arith)
range_loop-addresses zero (suc (suc fuel)) n j ips e b h =
    let same : n ≡ j = omega arith in
    rw (compare-mapped-le n j (omega arith) b, element n)
      (range_loop-stop fuel (incip (mapped n)) (mapped j) (ips ++ mapped n ∷ []) (
        subst (λ t. is_in_range_bound (incip (mapped n)) (incip (mapped n)) (mapped t) ≡ false) same
          (stop_behind n (omega arith))))
range_loop-addresses (suc count) (suc fuel) n j ips e b h =
    rw (compare-mapped-le n j (omega arith) b, element n, incip-mapped n (omega arith))
      (range_loop-addresses count fuel (n + 1) j (ips ++ mapped n ∷ []) (omega arith) b
          (omega arith)
        ∙ ap ok (append_assoc ips (mapped n ∷ []) (addresses_from (suc count) (n + 1))))

few_rounds : (k : ℕ) → k < 2 ^ 33 → k < max_rounds
unfolding max_rounds
few_rounds k h = omega arith

-- For the texts of two IPv4 addresses, the first not above the second, `ParseIPRange` ends and
-- returns the addresses from the one to the other.
pub parse_ip_range-ipv4 :
    (i j : ℕ)
    → i ≤ j
    → j < 2 ^ 32
    → parse_ip_range (ip_string (mapped i)) (ip_string (mapped j))
      ≡ ok (addresses_from (j - i + 1) i)
unfolding parse_ip_range
parse_ip_range-ipv4 i j h b =
    rw (parse_ip-ip_string (mapped-IsIpv4 i), parse_ip-ip_string (mapped-IsIpv4 j))
      (let one : j - i + 1 ≡ suc (j - i) = omega arith in
        rw one (
          range_loop-addresses (j - i) max_rounds i j [] (omega arith) b
            (few_rounds _ (omega arith))))

-- An upper bound of all ones: `ffff:ffff:ffff:ffff:ffff:ffff:ffff:ffff`.
abbrev pub all_ones : Ip
all_ones = replicate 16 255

at_most_ones :
    (k : ℕ) (ip : Ip)
    → length ip ≤ k
    → All (λ b. b < 256) ip
    → compare_bytes ip (replicate k 255) ≢ Ordering.gt
unfolding compare_bytes
at_most_ones zero [] h a = λ e. cc
at_most_ones (suc k) [] h a = λ e. cc
at_most_ones zero (b ∷ ip) h a = absurd (omega arith)
at_most_ones (suc k) (b ∷ ip) h a = ground (arith, at_most_ones k ip)

bound_ones :
    (ip : Ip) → compare_bytes ip all_ones ≢ Ordering.gt → is_in_range_bound ip ip all_ones ≡ true
unfolding is_in_range_bound
bound_ones ip h = rw (compare_bytes_refl ip) (ground arith)

-- No address is above an upper bound of all ones, and the lower bound moves along: the loop of
-- `ParseIPRange` runs out of any fuel, whatever address of up to 16 bytes it starts from.
pub range_loop-hangs :
    (fuel : ℕ) (ip : Ip) (ips : List Ip)
    → length ip ≤ 16
    → All (λ b. b < 256) ip
    → range_loop fuel ip all_ones ips ≡ hangs
unfolding range_loop
range_loop-hangs zero ip ips h a = refl
range_loop-hangs (suc fuel) ip ips h a =
    rw (bound_ones ip (at_most_ones 16 ip h a))
      (range_loop-hangs fuel (incip ip) _ (rw (length-incip ip) h) (incip-All ip a))
