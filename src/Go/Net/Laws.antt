-- ===== src/Go/Net/Laws.antt =====
-- Laws of `net.IP`: an IPv4 address is read back from its text.
use network_controller.Go.Net.V6.{ipv6_string, ipv6_string-filled}
use network_controller.Common.{length, is_empty, append_filled, ◌==◌, Bool-cases, inl, inr, false}
use network_controller.Common.{
  ℕ, ◌<◌, ◌≡◌, ◌≢◌, refl, true, false, [], ◌∷◌, ◌++◌, append-nil, some, arith, All-append,
}
use network_controller.Go.Text.{Bytes, uitoa, beq, is_digit}
use network_controller.Go.Text.Laws.{dtoi-uitoa, uitoa-Lacks, Lacks}
use network_controller.Go.Net.{
  Ip, nil_ip, ipv4, to4, parse_ipv4, family, parse_ip, dotted, ip_string,
}

-- An IPv4 address in the 16-byte form that `net.IPv4` and `net.ParseIP` make.
pub data IsIpv4 : Ip → Type 0 where
  v4 : (a b c d : ℕ) → a < 256 → b < 256 → c < 256 → d < 256 → IsIpv4 (ipv4 a b c d)

pub ip_string-ipv4 :
    (a b c d : ℕ)
    → ip_string (ipv4 a b c d) ≡ uitoa a ++ b'.' ∷ (uitoa b ++ b'.' ∷ (uitoa c ++ b'.' ∷ uitoa d))
unfolding ip_string to4 dotted beq
ip_string-ipv4 a b c d = refl

module _ (a b c d : ℕ) (ha : a < 256) (hb : b < 256) (hc : c < 256) (hd : d < 256) where
  parse_ipv4-dotted :
      parse_ipv4 (uitoa a ++ b'.' ∷ (uitoa b ++ b'.' ∷ (uitoa c ++ b'.' ∷ uitoa d))) ≡ ipv4 a b c d
  unfolding parse_ipv4
  parse_ipv4-dotted = ground (
    arith,
    dtoi-uitoa a (b'.' ∷ (uitoa b ++ b'.' ∷ (uitoa c ++ b'.' ∷ uitoa d))) ha refl,
    dtoi-uitoa b (b'.' ∷ (uitoa c ++ b'.' ∷ uitoa d)) hb refl,
    dtoi-uitoa c (b'.' ∷ uitoa d) hc refl,
    dtoi-uitoa d [] hd tt,
    append-nil (uitoa d),
  )

family-dot : (s t : Bytes) → Lacks b'.' s → Lacks b':' s → family (s ++ b'.' ∷ t) ≡ some true
unfolding family
family-dot [] t h k = refl
family-dot (x ∷ s) t h k = ground (arith, family-dot s t h.1 k.1)

parse_ip-dotted :
    (a b c d : ℕ)
    → a < 256
    → b < 256
    → c < 256
    → d < 256
    → parse_ip (uitoa a ++ b'.' ∷ (uitoa b ++ b'.' ∷ (uitoa c ++ b'.' ∷ uitoa d))) ≡ ipv4 a b c d
unfolding parse_ip
parse_ip-dotted a b c d ha hb hc hd =
    rw
      (
        family-dot (uitoa a) (uitoa b ++ b'.' ∷ (uitoa c ++ b'.' ∷ uitoa d))
            (uitoa-Lacks a b'.' ha refl) (uitoa-Lacks a b':' ha refl),
        parse_ip,
      )
      (parse_ipv4-dotted a b c d ha hb hc hd)

-- `net.ParseIP` undoes `IP.String` on IPv4 addresses.
pub parse_ip-ip_string : {ip : Ip} → IsIpv4 ip → parse_ip (ip_string ip) ≡ ip
parse_ip-ip_string (v4 a b c d ha hb hc hd) =
    rw (ip_string-ipv4 a b c d) (parse_ip-dotted a b c d ha hb hc hd)

pub parse_ipv4-ip_string : {ip : Ip} → IsIpv4 ip → parse_ipv4 (ip_string ip) ≡ ip
parse_ipv4-ip_string (v4 a b c d ha hb hc hd) =
    rw (ip_string-ipv4 a b c d) (parse_ipv4-dotted a b c d ha hb hc hd)

-- The text of an IPv4 address holds nothing but digits and dots.
pub ip_string-Lacks :
    {ip : Ip} (b : ℕ) → IsIpv4 ip → is_digit b ≡ false → b'.' ≢ b → Lacks b (ip_string ip)
ip_string-Lacks b (v4 a x c d ha hx hc hd) k dot = rw (ip_string-ipv4 a x c d) (
    All-append _ (uitoa a) _ (uitoa-Lacks a b ha k) (
      dot,
      All-append _ (uitoa x) _ (uitoa-Lacks x b hx k)
          (dot, All-append _ (uitoa c) _ (uitoa-Lacks c b hc k) (dot, uitoa-Lacks d b hd k)),
    ))

pub parse_ip-nil : parse_ip (ip_string nil_ip) ≡ nil_ip
unfolding parse_ip ip_string
parse_ip-nil = refl

dotted-filled : (bytes : Bytes) → (length bytes == 4) ≡ true → is_empty (dotted bytes) ≡ false
unfolding dotted
dotted-filled [] h = absurd (cc)
dotted-filled (a ∷ []) h = absurd (cc)
dotted-filled (a ∷ b ∷ s) h = append_filled (uitoa a) b'.' (dotted (b ∷ s))

sixteen-filled : (ip : Ip) → (length ip == 16) ≡ true → is_empty (ipv6_string ip) ≡ false
sixteen-filled [] h = absurd (cc)
sixteen-filled (a ∷ []) h = absurd (cc)
sixteen-filled (a ∷ b ∷ []) h = absurd (cc)
sixteen-filled (a ∷ b ∷ c ∷ []) h = absurd (cc)
sixteen-filled (a ∷ b ∷ c ∷ d ∷ s) h = ipv6_string-filled a b c d s

-- The text of an address is never empty.
pub ip_string-filled : (ip : Ip) → is_empty (ip_string ip) ≡ false
unfolding ip_string
ip_string-filled ip = elim (Bool-cases (length ip == 0)) [
  | inl z ↦ rw z refl
  | inr z ↦ elim (Bool-cases (length (to4 ip) == 4)) [
    | inl e ↦ rw (z, e) (dotted-filled (to4 ip) e)
    | inr e ↦ elim (Bool-cases (length ip == 16)) [
      | inl k ↦ rw (z, e, k) (sixteen-filled ip k)
      | inr k ↦ rw (z, e, k) refl
    ]
  ]
]
