-- ===== src/Lister/Lookup.antt =====
-- The lookup of a lister, and the keys of the index.
use network_controller.Common.{
  ◌≡◌, refl, sym, ap, ap₂, ◌∙◌, ◌⊎◌, ◌↔◌, inl, inr, List, [], ◌∷◌, ◌++◌, Option, none, some, In,
  arith, false, is_empty, if◌then◌else◌,
}
use network_controller.Go.Text.{Bytes, codes}
use network_controller.Go.Text.Laws.{Lacks}
use network_controller.Go.Result.{Result, ok, err, panics, status, Reason, ◌>>=◌}
use network_controller.Types.{ObjectMeta}
use network_controller.Lister.{Stored, object, foreign, Indexer, namespace_get}

-- `cache.MetaNamespaceKeyFunc`
abbrev pub object_key : ObjectMeta → Bytes
object_key m = if is_empty m.namespace then m.name else m.namespace ++ (codes "/" ++ m.name)

key_parts :
    (p q m n : Bytes)
    → Lacks b'/' p
    → Lacks b'/' q
    → p ++ (codes "/" ++ m) ≡ q ++ (codes "/" ++ n)
    → (p ≡ q) × (m ≡ n)
key_parts [] [] m n lp lq e = ground arith
key_parts [] (d ∷ q) m n lp lq e = ground arith
key_parts (c ∷ p) [] m n lp lq e = ground arith
key_parts (c ∷ p) (d ∷ q) m n lp lq e = ground (arith, key_parts p q m n)

-- The index of a cache that holds the items: it looks up by their keys, and they are namespaced.
pub record IsIndex {A S : Type 0} (meta : A → ObjectMeta) (indexer : Indexer A S) (items : List A)
    : Type 0 where
  pub answers :
      (k : Bytes)
      → (indexer.get_by_key k ≡ ok none) ⊎ ((a : A) × (indexer.get_by_key k ≡ ok (some (object a))))
  pub found :
      (k : Bytes) (a : A)
      → indexer.get_by_key k ≡ ok (some (object a))
      → In a items × (object_key (meta a) ≡ k)
  pub complete :
      (a : A) → In a items → indexer.get_by_key (object_key (meta a)) ≡ ok (some (object a))
  pub namespaced :
      (a : A) → In a items → (is_empty (meta a).namespace ≡ false) × Lacks b'/' (meta a).namespace

module _ {A S : Type 0} (meta : A → ObjectMeta) (indexer : Indexer A S) (items : List A)
    (not_found : Bytes → Bytes) where
  -- An object of the items under its namespace and name.
  abbrev pub IsNamed : Bytes → Bytes → A → Type 0
  IsNamed ns name a = In a items × ((meta a).namespace ≡ ns) × ((meta a).name ≡ name)

  namespaced_key :
      (m : ObjectMeta)
      → is_empty m.namespace ≡ false
      → object_key m ≡ m.namespace ++ (codes "/" ++ m.name)
  namespaced_key m e = rw e refl

  abbrev key_of : Bytes → Bytes → Bytes
  key_of ns name = ns ++ (codes "/" ++ name)

  stored-IsNamed :
      (ns name : Bytes) (a : A)
      → IsIndex meta indexer items
      → Lacks b'/' ns
      → indexer.get_by_key (key_of ns name) ≡ ok (some (object a))
      → IsNamed ns name a
  stored-IsNamed ns name a index l e =
      let (i, same) = index.found (key_of ns name) a e in
      let (full, lacks) = index.namespaced a i in
      let (p, q) =
        key_parts (meta a).namespace ns (meta a).name name lacks l
          (sym (namespaced_key (meta a) full) ∙ same) in
      (i, p, q)

  IsNamed-stored :
      (ns name : Bytes) (a : A)
      → IsIndex meta indexer items
      → IsNamed ns name a
      → indexer.get_by_key (key_of ns name) ≡ ok (some (object a))
  IsNamed-stored ns name a index (i, p, q) =
      ap indexer.get_by_key
        (sym (namespaced_key (meta a) (index.namespaced a i).0 ∙ ap₂ key_of p q))
      ∙ index.complete a i

  got :
      (ns name : Bytes) (r : Result (Option (Stored A)))
      → indexer.get_by_key (key_of ns name) ≡ r
      → namespace_get indexer not_found ns name ≡ (
          r >>= λ o. elim o [
            | none ↦ err (status Reason.not_found (not_found name))
            | some (object a) ↦ ok a
            | some foreign ↦ panics
          ])
  unfolding namespace_get
  got ns name r e = rw e refl

  -- Let the index be that of a cache of namespaced items. Then `Get` returns an item exactly if it has
  -- the given namespace and name, and where it returns none, the error is that of an object which is
  -- not found.
  pub namespace_get-IsNamed :
      (ns name : Bytes)
      → IsIndex meta indexer items
      → Lacks b'/' ns
      → ((a : A) → (namespace_get indexer not_found ns name ≡ ok a) ↔ IsNamed ns name a)
        × (((a : A) × IsNamed ns name a)
            ⊎ (namespace_get indexer not_found ns name
                ≡ err (status Reason.not_found (not_found name))))
  namespace_get-IsNamed ns name index l = elim (index.answers (key_of ns name)) [
    | inl e ↦
        let missing = got ns name (ok none) e in
        (
          λ a. (λ h. absurd (cc missing), λ n. absurd (cc (e, IsNamed-stored ns name a index n))),
          inr missing,
        )
    | inr (b, e) ↦
        let there = got ns name (ok (some (object b))) e in
        let named = stored-IsNamed ns name b index l e in
        (
          λ a. (
            λ h. stored-IsNamed ns name a index l (cc (there, e)),
            λ n. cc (there, e, IsNamed-stored ns name a index n),
          ),
          inl (b, named),
        )
  ]
