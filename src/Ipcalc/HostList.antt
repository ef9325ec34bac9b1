-- ===== src/Ipcalc/HostList.antt =====
-- The host list of an IPv4 network, by its members.
use native.Mathlib.Decide.{ℕ_discrete}
use network_controller.Common.{
  ℕ, zero, suc, ◌+◌, ◌%◌, ◌^◌, ◌≤◌, ◌<◌, ◌≡◌, ◌≢◌, ◌↔◌, ap, ◌∙◌, true, false, ◌||◌, ◌⊎◌, inl, inr,
  List, arith, All, In, ◌==◌, Bool-cases, Ordering,
}
use network_controller.Go.Text.{compare_bytes}
use network_controller.Go.Sort.{Ascending}
use network_controller.Go.Result.{ok}
use network_controller.Go.Net.{Ip}
use network_controller.Go.Net.Laws.{IsIpv4}
use network_controller.Ipcalc.{cidr_to_hosts}
use network_controller.Ipcalc.Incip.{mapped}
use network_controller.Ipcalc.Hosts.{size, first, network_end, hosts_from}
use network_controller.Ipcalc.Cidr.{cidr_text, cidr_to_hosts-network, mapped-IsIpv4}

-- The address is one of `count` numbers from `n` on, and its last byte is neither 0 nor 255.
abbrev pub IsHostIn : ℕ → ℕ → Ip → Type 0
IsHostIn n count ip =
    (i : ℕ) × (n ≤ i) × (i < n + count) × (i % 256 ≢ 0) × (i % 256 ≢ 255) × (ip ≡ mapped i)

later : (n i : ℕ) → n ≤ i → i ≢ n → n + 1 ≤ i
later n i h ne = omega arith

edge→ : (i : ℕ) → (i % 256 == 0 || i % 256 == 255) ≡ true → (i % 256 ≢ 0) → (i % 256 ≢ 255) → ⊥
edge→ i h a b = ground arith

not-edge : (i : ℕ) → (i % 256 == 0 || i % 256 == 255) ≡ false → (i % 256 ≢ 0) × (i % 256 ≢ 255)
not-edge i h = ground arith

In-hosts_from→ : (count n : ℕ) (ip : Ip) → In ip (hosts_from count n) → IsHostIn n count ip
unfolding hosts_from
In-hosts_from→ zero n ip h = elim h [ ]
In-hosts_from→ (suc count) n ip h = elim (Bool-cases (n % 256 == 0 || n % 256 == 255)) [
  | inl e ↦
      let (i, lo, hi, a, b, q) = In-hosts_from→ count (n + 1) ip (rw e at h) in
      (i, omega arith, omega arith, a, b, q)
  | inr e ↦
      let tail = In-hosts_from→ count (n + 1) ip in
      let (a, b) = not-edge n e in
      let split : (ip ≡ mapped n) ⊎ In ip (hosts_from count (n + 1)) = rw e at h in
      elim split [
        | inl q ↦ (n, omega arith, omega arith, a, b, q)
        | inr j ↦ let (i, lo, hi, a', b', q) = tail j in (i, omega arith, omega arith, a', b', q)
      ]
]

In-hosts_from← : (count n : ℕ) (ip : Ip) → IsHostIn n count ip → In ip (hosts_from count n)
unfolding hosts_from
In-hosts_from← zero n ip (i, lo, hi, a, b, q) = absurd (omega arith)
In-hosts_from← (suc count) n ip (i, lo, hi, a, b, q) =
    elim (Bool-cases (n % 256 == 0 || n % 256 == 255)) [
      | inl e ↦ rw e (
          In-hosts_from← count (n + 1) ip (
            i,
            later n i lo (λ s. edge→ n e (λ z. a (rw s z)) (λ z. b (rw s z))),
            omega arith,
            a,
            b,
            q,
          ))
      | inr e ↦ rw e (elim (ℕ_discrete i n) [
        | yes same ↦ inl (q ∙ ap mapped same)
        | no other ↦ inr (In-hosts_from← count (n + 1) ip (i, omega arith, omega arith, a, b, q))
      ])
    ]

compare-mapped : (i j : ℕ) → i < j → j < 2 ^ 32 → compare_bytes (mapped i) (mapped j) ≡ Ordering.lt
unfolding compare_bytes
compare-mapped i j h k = ground arith

hosts_from-above :
    (count n j : ℕ)
    → j < n
    → n + count ≤ 2 ^ 32
    → All (λ y. compare_bytes (mapped j) y ≡ Ordering.lt) (hosts_from count n)
unfolding hosts_from
hosts_from-above zero n j h b = tt
hosts_from-above (suc count) n j h b =
    let rest = hosts_from-above count (n + 1) j (omega arith) (omega arith) in
    elim (Bool-cases (n % 256 == 0 || n % 256 == 255)) [
      | inl e ↦ rw e rest
      | inr e ↦ rw e (compare-mapped j n h (omega arith), rest)
    ]

hosts_from-Ascending : (count n : ℕ) → n + count ≤ 2 ^ 32 → Ascending (hosts_from count n)
unfolding hosts_from
hosts_from-Ascending zero n b = tt
hosts_from-Ascending (suc count) n b =
    let rest = hosts_from-Ascending count (n + 1) (omega arith) in
    elim (Bool-cases (n % 256 == 0 || n % 256 == 255)) [
      | inl e ↦ rw e rest
      | inr e ↦ rw e (hosts_from-above count (n + 1) n (omega arith) (omega arith), rest)
    ]

pub hosts_from-IsIpv4 : (count n : ℕ) → All IsIpv4 (hosts_from count n)
unfolding hosts_from
hosts_from-IsIpv4 zero n = tt
hosts_from-IsIpv4 (suc count) n = elim (Bool-cases (n % 256 == 0 || n % 256 == 255)) [
  | inl e ↦ rw e (hosts_from-IsIpv4 count (n + 1))
  | inr e ↦ rw e (mapped-IsIpv4 n, hosts_from-IsIpv4 count (n + 1))
]

-- For the text `a.b.c.d/p` of an IPv4 network with 1 ≤ p ≤ 32, `CIDRtoHosts` ends without an error
-- and returns a strictly ascending list, whose members are exactly the addresses of the network,
-- in the 16-byte form, whose last byte is neither 0 nor 255.
pub cidr_to_hosts_correct :
    (m p : ℕ)
    → 0 < p
    → p ≤ 32
    → m < 2 ^ 32
    → (hosts : List Ip) × (cidr_to_hosts (cidr_text m p) ≡ ok hosts)
      × Ascending hosts
      × ((ip : Ip) → In ip hosts ↔ IsHostIn (first p m) (size p) ip)
cidr_to_hosts_correct m p pos hp hm = (
  hosts_from (size p) (first p m),
  cidr_to_hosts-network m p pos hp hm,
  hosts_from-Ascending (size p) (first p m) (network_end p m hp hm),
  λ ip. (In-hosts_from→ (size p) (first p m) ip, In-hosts_from← (size p) (first p m) ip),
)
