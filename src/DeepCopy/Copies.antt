-- ===== src/DeepCopy/Copies.antt =====
-- What it is to copy: the same value on new cells, with no cell in use touched; and the copying of
-- lists.
use network_controller.Common.{ℕ, ◌≤◌, ◌<◌, ◌≡◌, refl, ap₂, ◌∙◌, arith, List, [], ◌∷◌, All, map}
use network_controller.DeepCopy.{Metas, Cell, Heap, Mem, alloc, copy_each}

abbrev pub Below : ℕ → ℕ → Type 0
Below n p = p < n

abbrev pub Between : ℕ → ℕ → ℕ → Type 0
Between m n p = (m ≤ p) × (p < n)

module _ {k : Metas} where
  -- The cells that were in use are as they were.
  pub record Frame (h h' : Heap k) : Type 0 where
    pub next_le : h.next ≤ h'.next
    pub same : (a : ℕ) → a < h.next → h'.cell a ≡ h.cell a

  -- `value` is what can be read, and `On P` tells that it is read from cells with `P` alone.
  pub record IsReading {A V : Type 0} (value : Heap k → A → V)
      (On : (ℕ → Type 0) → Heap k → A → Type 0) : Type 1 where
    pub mono : (P Q : ℕ → Type 0) (h : Heap k) (a : A) → ((p : ℕ) → P p → Q p) → On P h a → On Q h a
    pub stable :
        (P : ℕ → Type 0) (h h' : Heap k) (a : A)
        → ((p : ℕ) → P p → h'.cell p ≡ h.cell p)
        → On P h a
        → On P h' a
    pub read :
        (P : ℕ → Type 0) (h h' : Heap k) (a : A)
        → ((p : ℕ) → P p → h'.cell p ≡ h.cell p)
        → On P h a
        → value h' a ≡ value h a

  -- A copy of what stands on cells in use.
  pub record IsCopy {A V : Type 0} (value : Heap k → A → V)
      (On : (ℕ → Type 0) → Heap k → A → Type 0) (into : A → Mem k A) : Type 1 where
    pub reading : IsReading value On
    pub frame : (a : A) (h : Heap k) → On (Below h.next) h a → Frame h (into a h).1
    pub same_value :
        (a : A) (h : Heap k) → On (Below h.next) h a → value (into a h).1 (into a h).0 ≡ value h a
    pub fresh :
        (a : A) (h : Heap k)
        → On (Below h.next) h a
        → On (Between h.next (into a h).1.next) (into a h).1 (into a h).0

  pub Frame-refl : (h : Heap k) → Frame h h
  Frame-refl h = record { next_le = omega arith; same = λ a l. refl }

  pub Frame-trans : {h h' h'' : Heap k} → Frame h h' → Frame h' h'' → Frame h h''
  Frame-trans f g = record {
    next_le = omega (arith, f.next_le, g.next_le);
    same = λ a l. g.same a (omega (arith, l, f.next_le)) ∙ f.same a l;
  }

  pub alloc-Frame : (c : Cell k) (h : Heap k) → Frame h (alloc k c h).1
  unfolding alloc
  alloc-Frame c h = record { next_le = omega arith; same = λ a l. ground arith }

  module _ {A V : Type 0} (value : Heap k → A → V) (On : (ℕ → Type 0) → Heap k → A → Type 0) where
    abbrev pub value_each : Heap k → List A → List V
    value_each h xs = map (value h) xs

    abbrev pub OnEach : (ℕ → Type 0) → Heap k → List A → Type 0
    OnEach P h xs = All (On P h) xs

    module _ (r : IsReading value On) where
      each_mono :
          (P Q : ℕ → Type 0) (h : Heap k) (xs : List A)
          → ((p : ℕ) → P p → Q p)
          → OnEach P h xs
          → OnEach Q h xs
      each_mono P Q h [] f on = tt
      each_mono P Q h (x ∷ xs) f (on, rest) = (r.mono P Q h x f on, each_mono P Q h xs f rest)

      each-stable :
          (P : ℕ → Type 0) (h h' : Heap k) (xs : List A)
          → ((p : ℕ) → P p → h'.cell p ≡ h.cell p)
          → OnEach P h xs
          → OnEach P h' xs
      each-stable P h h' [] same on = tt
      each-stable P h h' (x ∷ xs) same (on, rest) =
          (r.stable P h h' x same on, each-stable P h h' xs same rest)

      each-read :
          (P : ℕ → Type 0) (h h' : Heap k) (xs : List A)
          → ((p : ℕ) → P p → h'.cell p ≡ h.cell p)
          → OnEach P h xs
          → value_each h' xs ≡ value_each h xs
      each-read P h h' [] same on = refl
      each-read P h h' (x ∷ xs) same (on, rest) =
          ap₂ (λ v vs. v ∷ vs) (r.read P h h' x same on) (each-read P h h' xs same rest)

      each-IsReading : IsReading value_each OnEach
      each-IsReading = record { mono = each_mono; stable = each-stable; read = each-read }

      -- What stood on cells in use still does, and reads the same.
      pub kept :
          (h h' : Heap k) (a : A)
          → Frame h h'
          → On (Below h.next) h a
          → On (Below h'.next) h' a × (value h' a ≡ value h a)
      kept h h' a f on = (
        r.mono (Below h.next) (Below h'.next) h' a (λ p l. omega (arith, l, f.next_le))
            (r.stable (Below h.next) h h' a f.same on),
        r.read (Below h.next) h h' a f.same on,
      )

      -- The same for a copy, whose cells were not in use at first.
      pub kept_fresh :
          (n : ℕ) (h h' : Heap k) (a : A)
          → Frame h h'
          → On (Between n h.next) h a
          → On (Between n h'.next) h' a × (value h' a ≡ value h a)
      kept_fresh n h h' a f on =
          let same = λ (p : ℕ) (l : Between n h.next p). f.same p l.1 in
          (
            r.mono (Between n h.next) (Between n h'.next) h' a
                (λ p l. (l.0, omega (arith, l.1, f.next_le)))
                (r.stable (Between n h.next) h h' a same on),
            r.read (Between n h.next) h h' a same on,
          )

  module _ {A V : Type 0} (value : Heap k → A → V) (On : (ℕ → Type 0) → Heap k → A → Type 0)
      (into : A → Mem k A) (c : IsCopy value On into) where
    each-Frame :
        (xs : List A) (h : Heap k)
        → OnEach value On (Below h.next) h xs
        → Frame h (copy_each k into xs h).1
    unfolding copy_each
    each-Frame [] h on = Frame-refl h
    each-Frame (x ∷ xs) h (on, rest) =
        let f = c.frame x h on in
        let later =
          kept (value_each value On) (OnEach value On) (each-IsReading value On c.reading) h
            (into x h).1 xs f rest in
        Frame-trans f (each-Frame xs (into x h).1 later.0)

    each-copied :
        (xs : List A) (h : Heap k)
        → OnEach value On (Below h.next) h xs
        → (value_each value On (copy_each k into xs h).1 (copy_each k into xs h).0
            ≡ value_each value On h xs)
          × OnEach value On
              (Between h.next (copy_each k into xs h).1.next)
              (copy_each k into xs h).1
              (copy_each k into xs h).0
    unfolding copy_each
    each-copied [] h on = (refl, tt)
    each-copied (x ∷ xs) h (on, rest) =
        let f = c.frame x h on in
        let h1 = (into x h).1 in
        let all = each-IsReading value On c.reading in
        let later = kept (value_each value On) (OnEach value On) all h h1 xs f rest in
        let g = each-Frame xs h1 later.0 in
        let (same, new) = each-copied xs h1 later.0 in
        let first =
          kept_fresh value On c.reading h.next h1 (copy_each k into xs h1).1 (into x h).0 g
            (c.fresh x h on) in
        (
          ap₂ (λ v vs. v ∷ vs) (first.1 ∙ c.same_value x h on) (same ∙ later.1),
          (
            first.0,
            each_mono value On c.reading _ _ _ _ (λ p l. (omega (arith, l.0, f.next_le), l.1)) new,
          ),
        )

    pub each-IsCopy : IsCopy (value_each value On) (OnEach value On) (copy_each k into)
    each-IsCopy = record {
      reading = each-IsReading value On c.reading;
      frame = each-Frame;
      same_value = λ xs h on. (each-copied xs h on).0;
      fresh = λ xs h on. (each-copied xs h on).1;
    }
