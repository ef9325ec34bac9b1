-- ===== src/Go/Sort.antt =====
-- `sort.Sort` of byte strings by `bytes.Compare`. The order is total and two byte strings that
-- compare equal are equal, so every sorting algorithm gives the list that insertion gives.
use network_controller.Common.{
  ◌≡◌, refl, ◌↔◌, ◌⊎◌, inl, inr, Bool, true, false, List, [], ◌∷◌, arith, if◌then◌else◌, In, All,
  Ordering, Bool-cases, ap₂, sym, ◌∙◌,
}
use network_controller.Go.Text.{Bytes, compare_bytes}
use network_controller.Go.Map.{AllDistinct}
use network_controller.Go.Text.Laws.{compare_bytes-eq, compare_bytes_refl}

abbrev pub is_lt : Ordering → Bool
is_lt Ordering.lt = true
is_lt _ = false

-- `bytes.Compare(a, b) == -1`
abbrev pub less : Bytes → Bytes → Bool
less a b = is_lt (compare_bytes a b)

insert : Bytes → List Bytes → List Bytes
insert x [] = x ∷ []
insert x (y ∷ ys) = if less y x then y ∷ insert x ys else x ∷ y ∷ ys

unfoldable pub sort : List Bytes → List Bytes
unfolding insert
sort [] = []
sort (x ∷ xs) = insert x (sort xs)

pub compare_trans :
    (a b c : Bytes)
    → compare_bytes a b ≡ Ordering.lt
    → compare_bytes b c ≡ Ordering.lt
    → compare_bytes a c ≡ Ordering.lt
unfolding compare_bytes
compare_trans [] [] c h k = cc
compare_trans [] (y ∷ b) [] h k = cc
compare_trans [] (y ∷ b) (z ∷ c) h k = refl
compare_trans (x ∷ a) [] c h k = cc
compare_trans (x ∷ a) (y ∷ b) [] h k = cc
compare_trans (x ∷ a) (y ∷ b) (z ∷ c) h k = ground (arith, compare_trans a b c)

pub compare-swap : (a b : Bytes) → compare_bytes a b ≡ Ordering.gt → compare_bytes b a ≡ Ordering.lt
unfolding compare_bytes
compare-swap [] [] h = cc
compare-swap [] (y ∷ b) h = cc
compare-swap (x ∷ a) [] h = refl
compare-swap (x ∷ a) (y ∷ b) h = ground (arith, compare-swap a b)

-- What is not less, and is not equal, is greater.
pub less_total : (a b : Bytes) → less a b ≡ false → (a ≡ b) ⊎ (less b a ≡ true)
less_total a b h = go (compare_bytes a b) refl h
  where
    go : (o : Ordering) → compare_bytes a b ≡ o → is_lt o ≡ false → (a ≡ b) ⊎ (less b a ≡ true)
    go Ordering.lt e k = cc
    go Ordering.eq e k = inl (compare_bytes-eq a b e)
    go Ordering.gt e k = inr (rw (compare-swap a b e))

-- Each entry is below all that follow: ascending, and no entry twice.
abbrev pub Ascending : List Bytes → Type 0
Ascending [] = Unit
Ascending (x ∷ xs) = All (λ y. compare_bytes x y ≡ Ordering.lt) xs × Ascending xs

In-insert : (a x : Bytes) (xs : List Bytes) → In a (insert x xs) ↔ ((a ≡ x) ⊎ In a xs)
unfolding insert
In-insert a x [] = ground arith
In-insert a x (y ∷ ys) = ground (arith, In-insert a x ys)

pub In-sort : (a : Bytes) (xs : List Bytes) → In a (sort xs) ↔ In a xs
unfolding sort
In-sort a [] = (λ h. h, λ h. h)
In-sort a (x ∷ xs) = ground (arith, In-insert a x (sort xs), In-sort a xs)

insert-All :
    (y x : Bytes) (xs : List Bytes)
    → compare_bytes y x ≡ Ordering.lt
    → All (λ z. compare_bytes y z ≡ Ordering.lt) xs
    → All (λ z. compare_bytes y z ≡ Ordering.lt) (insert x xs)
unfolding insert
insert-All y x [] h a = (h, tt)
insert-All y x (z ∷ zs) h a = ground (arith, insert-All y x zs h a.1)

All-trans :
    (x y : Bytes) (ys : List Bytes)
    → compare_bytes x y ≡ Ordering.lt
    → All (λ z. compare_bytes y z ≡ Ordering.lt) ys
    → All (λ z. compare_bytes x z ≡ Ordering.lt) ys
All-trans x y [] h a = tt
All-trans x y (z ∷ zs) h a = (compare_trans x y z h a.0, All-trans x y zs h a.1)

less→lt : (a b : Bytes) → less a b ≡ true → compare_bytes a b ≡ Ordering.lt
less→lt a b h = ground arith

insert-Ascending :
    (x : Bytes) (xs : List Bytes) → ¬ In x xs → Ascending xs → Ascending (insert x xs)
unfolding insert
insert-Ascending x [] n a = (tt, tt)
insert-Ascending x (y ∷ ys) n a = elim (Bool-cases (less y x)) [
  | inl lt ↦
      rw lt (insert-All y x ys (less→lt y x lt) a.0, insert-Ascending x ys (λ i. n (inr i)) a.1)
  | inr ge ↦
      let x_lt_y : compare_bytes x y ≡ Ordering.lt = (elim (less_total y x ge) [
        | inl e ↦ absurd (n (inl (sym e)))
        | inr lt ↦ less→lt x y lt
      ]) in
      rw ge ((x_lt_y, All-trans x y ys x_lt_y a.0), a)
]

-- Entries that differ come out in strictly ascending order.
pub sort-Ascending : (xs : List Bytes) → AllDistinct xs → Ascending (sort xs)
unfolding sort
sort-Ascending [] d = tt
sort-Ascending (x ∷ xs) d =
    insert-Ascending x (sort xs) (λ i. d.0 ((In-sort x xs).0 i)) (sort-Ascending xs d.1)

pub All-In :
    (x a : Bytes) (xs : List Bytes)
    → All (λ z. compare_bytes x z ≡ Ordering.lt) xs
    → In a xs
    → compare_bytes x a ≡ Ordering.lt
All-In x a [] h i = elim i [ ]
All-In x a (y ∷ ys) h (inl e) = rw e h.0
All-In x a (y ∷ ys) h (inr i) = All-In x a ys h.1 i

lt_irrefl : (a : Bytes) → ¬ (compare_bytes a a ≡ Ordering.lt)
lt_irrefl a h = cc (compare_bytes_refl a)

lt-asymm : (a b : Bytes) → compare_bytes a b ≡ Ordering.lt → ¬ (compare_bytes b a ≡ Ordering.lt)
lt-asymm a b h k = lt_irrefl a (compare_trans a b a h k)

-- The order of equal sets is one: two ascending lists with the same members are the same list.
pub Ascending-unique :
    (xs ys : List Bytes) → Ascending xs → Ascending ys → ((a : Bytes) → In a xs ↔ In a ys) → xs ≡ ys
Ascending-unique [] [] h k same = refl
Ascending-unique [] (y ∷ ys) h k same = absurd (elim ((same y).1 (inl refl)) [ ])
Ascending-unique (x ∷ xs) [] h k same = absurd (elim ((same x).0 (inl refl)) [ ])
Ascending-unique (x ∷ xs) (y ∷ ys) h k same = ap₂ ◌∷◌ heads (Ascending-unique xs ys h.1 k.1 tails)
  where
    heads : x ≡ y
    heads = elim ((same x).0 (inl refl)) [
      | inl e ↦ e
      | inr i ↦ elim ((same y).1 (inl refl)) [
        | inl e ↦ sym e
        | inr j ↦ absurd (lt-asymm x y (All-In x y xs h.0 j) (All-In y x ys k.0 i))
      ]
    ]

    tails : (a : Bytes) → In a xs ↔ In a ys
    tails a = (
      λ i. elim ((same a).0 (inr i)) [
        | inl e ↦ absurd (lt_irrefl a (rw (heads ∙ sym e) at (All-In x a xs h.0 i)))
        | inr j ↦ j
      ],
      λ i. elim ((same a).1 (inr i)) [
        | inl e ↦ absurd (lt_irrefl a (rw (sym heads ∙ sym e) at (All-In y a ys k.0 i)))
        | inr j ↦ j
      ],
    )

-- A list in ascending order is the only one with its elements.
pub Ascending-iff :
    (xs ys : List Bytes) (P : Bytes → Type 0)
    → Ascending xs
    → ((x : Bytes) → In x xs ↔ P x)
    → (ys ≡ xs) ↔ (Ascending ys × ((x : Bytes) → In x ys ↔ P x))
Ascending-iff xs ys P asc members = (
  λ e. rw e (asc, members),
  λ (a, m).
      Ascending-unique ys xs a asc
        (λ x. (λ i. (members x).1 ((m x).0 i), λ i. (m x).1 ((members x).0 i))),
)
