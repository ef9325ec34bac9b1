-- ===== src/Go/Map.antt =====
-- A Go map with string keys, as an association list. A range over a map visits the keys in an
-- order that the language leaves open; here it is the order of insertion.
use network_controller.Common.{
  ◌≡◌, ◌≢◌, refl, ◌↔◌, List, [], ◌∷◌, Option, none, some, Bool, true, false, arith, if◌then◌else◌,
  In, Bool-cases, inl, inr,
}
use network_controller.Go.Text.{Bytes, beq}
use network_controller.Go.Text.Laws.{beq_iff, beq_refl}

abbrev pub Dict {ℓ} : Type ℓ → Type ℓ
Dict V = List (Bytes × V)

-- No entry twice.
abbrev pub AllDistinct : List Bytes → Type 0
AllDistinct [] = Unit
AllDistinct (k ∷ ks) = (¬ In k ks) × AllDistinct ks

module _ {ℓ} {V : Type ℓ} where
  -- `v, ok := m[k]`
  unfoldable pub get : Dict V → Bytes → Option V
  get [] k = none
  get ((j, v) ∷ m) k = if beq j k then some v else get m k

  -- `m[k] = v`
  unfoldable pub put : Dict V → Bytes → V → Dict V
  put [] k v = (k, v) ∷ []
  put ((j, w) ∷ m) k v = if beq j k then (k, v) ∷ m else (j, w) ∷ put m k v

  -- `delete(m, k)`
  unfoldable pub delete : Dict V → Bytes → Dict V
  delete [] k = []
  delete ((j, v) ∷ m) k = let rest = delete m k in if beq j k then rest else (j, v) ∷ rest

  unfoldable pub keys : Dict V → List Bytes
  keys [] = []
  keys ((j, v) ∷ m) = j ∷ keys m

  -- `m[k]`, with the zero value where the key is missing
  abbrev pub value_or : V → Option V → V
  value_or d none = d
  value_or d (some v) = v

  -- the second value of `v, ok := m[k]`
  abbrev pub present : Option V → Bool
  present none = false
  present (some v) = true

  -- a map that may be nil, as `if m == nil { m = map[string]string{} }` leaves it
  abbrev pub made : Option (Dict V) → Dict V
  made none = []
  made (some m) = m

  pub get-put :
      (m : Dict V) (k j : Bytes) (v : V) → get (put m k v) j ≡ (if beq k j then some v else get m j)
  unfolding get put
  get-put [] k j v = refl
  get-put ((i, w) ∷ m) k j v =
      ground (arith, beq_iff k j, beq_iff i k, beq_iff i j, get-put m k j v)

  pub get-delete :
      (m : Dict V) (k j : Bytes) → get (delete m k) j ≡ (if beq k j then none else get m j)
  unfolding get delete
  get-delete [] k j = ground arith
  get-delete ((i, w) ∷ m) k j =
      ground (arith, beq_iff k j, beq_iff i k, beq_iff i j, get-delete m k j)

  pub get-put_self : (m : Dict V) (k : Bytes) (v : V) → get (put m k v) k ≡ some v
  get-put_self m k v = rw (get-put, beq_refl k)

  -- A value written again.
  pub put_again : (m : Dict V) (k : Bytes) (v : V) → get m k ≡ some v → put m k v ≡ m
  unfolding put get
  put_again [] k v h = absurd (cc)
  put_again ((j, w) ∷ m) k v h = elim (Bool-cases (beq j k)) [
    | inl e ↦ rw e (cc (rw e at h, (beq_iff j k).0 e))
    | inr e ↦ rw (e, put_again m k v (rw e at h))
  ]

module _ {V : Type 0} where
  -- No key twice: what every map has.
  abbrev pub IsMap : Dict V → Type 0
  IsMap [] = Unit
  IsMap ((j, v) ∷ m) = (get m j ≡ none) × IsMap m

  pub put-IsMap : (m : Dict V) (k : Bytes) (v : V) → IsMap m → IsMap (put m k v)
  unfolding put get
  put-IsMap [] k v h = (refl, tt)
  put-IsMap ((j, w) ∷ m) k v h =
      ground (arith, beq_iff j k, beq_iff k j, get-put m k j v, put-IsMap m k v h.1)

  pub delete-IsMap : (m : Dict V) (k : Bytes) → IsMap m → IsMap (delete m k)
  unfolding delete get
  delete-IsMap [] k h = tt
  delete-IsMap ((j, w) ∷ m) k h =
      ground (arith, beq_iff j k, beq_iff k j, get-delete m k j, delete-IsMap m k h.1)

  pub In-keys : (m : Dict V) (k : Bytes) → In k (keys m) ↔ (get m k ≢ none)
  unfolding keys get
  In-keys [] k = (λ n. elim n [ ], λ h. absurd (h refl))
  In-keys ((j, v) ∷ m) k = ground (arith, beq_iff j k, In-keys m k)

  pub keys-AllDistinct : (m : Dict V) → IsMap m → AllDistinct (keys m)
  unfolding keys
  keys-AllDistinct [] h = tt
  keys-AllDistinct ((j, v) ∷ m) h = (λ i. (In-keys m j).0 i h.0, keys-AllDistinct m h.1)
