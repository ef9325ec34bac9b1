-- ===== src/Examples/Listers.antt =====
-- A run of the theorem about the listers, on a cache of one macvlanip.
use network_controller.Common.{
  ◌≡◌, refl, sym, ap, ◌∙◌, ◌⊎◌, ◌↔◌, inl, inr, false, [], ◌∷◌, none, some, In, is_empty,
  if◌then◌else◌, Bool-cases, arith, subst,
}
use network_controller.Go.Text.{Bytes, codes, beq}
use network_controller.Go.Text.Laws.{Lacks, beq_iff, beq_refl}
use network_controller.Go.Result.{ok, err, status, Reason}
use network_controller.Types.{MacvlanIp}
use network_controller.Lister.{object, Indexer, namespace_get}
use network_controller.Lister.Lookup.{object_key, IsIndex, IsNamed, namespace_get-IsNamed}
use network_controller.Examples.Allocations.{taken_ip}

abbrev only_key : Bytes
only_key = object_key taken_ip.meta

abbrev one_cached : Indexer MacvlanIp Bytes
one_cached = record {
  list_all = λ selector. (object taken_ip ∷ [], none);
  list_all_by_namespace = λ ns selector. (object taken_ip ∷ [], none);
  get_by_key = λ k. if beq only_key k then ok (some (object taken_ip)) else ok none;
}

only : (a : MacvlanIp) → In a (taken_ip ∷ []) → a ≡ taken_ip
only a (inl e) = e
only a (inr n) = elim n [ ]

stored-only :
    (k : Bytes) (a : MacvlanIp)
    → one_cached.get_by_key k ≡ ok (some (object a))
    → (a ≡ taken_ip) × (only_key ≡ k)
stored-only k a e = elim (Bool-cases (beq only_key k)) [
  | inl h ↦ (cc (rw h at e), (beq_iff only_key k).0 h)
  | inr h ↦ absurd (cc (rw h at e))
]

has_namespace : (is_empty taken_ip.meta.namespace ≡ false) × Lacks b'/' taken_ip.meta.namespace
has_namespace = (refl, ground arith)

one_cached-IsIndex : IsIndex MacvlanIp.meta one_cached (taken_ip ∷ [])
one_cached-IsIndex = record {
  answers = λ k. elim (Bool-cases (beq only_key k)) [
    | inl h ↦ inr (taken_ip, rw h refl)
    | inr h ↦ inl (rw h refl)
  ];
  found = λ k a e.
      let (same, at_k) = stored-only k a e in
      (inl same, ap (λ (x : MacvlanIp). object_key x.meta) same ∙ at_k);
  complete = λ a i. rw (only a i, beq_refl only_key) refl;
  namespaced = λ a i.
      subst (λ (x : MacvlanIp). (is_empty x.meta.namespace ≡ false) × Lacks b'/' x.meta.namespace)
        (sym (only a i)) has_namespace;
}

namespace_get-IsNamed_example :
    ((a : MacvlanIp)
      → (namespace_get one_cached (λ n. n) (codes "default") (codes "other") ≡ ok a)
        ↔ IsNamed MacvlanIp.meta one_cached
            (taken_ip ∷ [])
            (λ n. n)
            (codes "default")
            (codes "other")
            a)
    × (((a : MacvlanIp) × IsNamed MacvlanIp.meta one_cached
            (taken_ip ∷ [])
            (λ n. n)
            (codes "default")
            (codes "other")
            a)
        ⊎ (namespace_get one_cached (λ n. n) (codes "default") (codes "other")
            ≡ err (status Reason.not_found (codes "other"))))
namespace_get-IsNamed_example =
    namespace_get-IsNamed MacvlanIp.meta one_cached (taken_ip ∷ []) (λ n. n) (codes "default")
      (codes "other") one_cached-IsIndex (ground arith)
