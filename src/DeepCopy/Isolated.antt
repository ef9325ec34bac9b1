-- ===== src/DeepCopy/Isolated.antt =====
-- zz_generated.deepcopy.go: `DeepCopy` of each type of the API, the copy and the original.
use network_controller.Common.{ℕ, ◌<◌, ◌≡◌, ◌∙◌, Option}
use network_controller.DeepCopy.{Metas, Heap, Mem}
use network_controller.DeepCopy.Copies.{IsCopy, Below, Between}
use network_controller.DeepCopy.Readings.{GoType, deep_copy, shown, StandsOn, deep_copy-IsCopy}

module _ (k : Metas) (copy_meta : k.ObjectMeta → Mem k k.ObjectMeta) {V : Type 0}
    (meta_value : Heap k → k.ObjectMeta → V)
    (OnMeta : (ℕ → Type 0) → Heap k → k.ObjectMeta → Type 0) where
  -- Let `ObjectMeta.DeepCopyInto` copy metadata, and let `o` be nil or point to a value of one of the
  -- API's types, all of whose cells are in use. Then the pointer that `DeepCopy` of this type returns
  -- shows what `o` showed, and goes on to show it whatever is written later to the cells that were in
  -- use before; and `o` goes on to show it whatever is written to the copy's cells, and also after
  -- the copying itself.
  pub deep_copy-isolated :
      (t : GoType) (o : Option ℕ) (h v : Heap k)
      → IsCopy meta_value OnMeta copy_meta
      → StandsOn k copy_meta meta_value OnMeta t (Below h.next) h o
      → (((p : ℕ)
            → Between h.next (deep_copy k copy_meta t o h).1.next p
            → v.cell p ≡ (deep_copy k copy_meta t o h).1.cell p)
          → shown k copy_meta meta_value OnMeta t v (deep_copy k copy_meta t o h).0
            ≡ shown k copy_meta meta_value OnMeta t h o)
        × (((p : ℕ) → p < h.next → v.cell p ≡ (deep_copy k copy_meta t o h).1.cell p)
            → shown k copy_meta meta_value OnMeta t v o ≡ shown k copy_meta meta_value OnMeta t h o)
  deep_copy-isolated t o h v meta on =
      let c = deep_copy-IsCopy k copy_meta meta_value OnMeta meta t in
      let h' = (deep_copy k copy_meta t o h).1 in
      let out = (deep_copy k copy_meta t o h).0 in
      (
        λ same.
            c.reading.read (Between h.next h'.next) h' v out same (c.fresh o h on)
            ∙ c.same_value o h on,
        λ same.
            c.reading.read (Below h.next) h v o (λ p l. same p l ∙ (c.frame o h on).same p l) on,
      )
