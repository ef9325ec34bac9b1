-- ===== src/DeepCopy/Structs.antt =====
-- Copies of structs: of plain ones, and of those with two fields that lead to other cells.
use network_controller.Common.{ℕ, ◌≡◌, refl, ap₂, ◌∙◌, arith}
use network_controller.DeepCopy.{Metas, Heap, Mem}
use network_controller.DeepCopy.Copies.{
  Frame, Frame-refl, Frame-trans, IsReading, IsCopy, Below, Between, kept, kept_fresh,
}

module _ {k : Metas} {A : Type 0} where
  -- What stands on no cells at all.
  abbrev pub plain_value : Heap k → A → A
  plain_value h a = a

  abbrev pub Plain : (ℕ → Type 0) → Heap k → A → Type 0
  Plain P h a = Unit

  pub Plain-IsCopy : IsCopy {k = k} plain_value Plain (λ a h. (a, h))
  Plain-IsCopy = record {
    reading = record {
      mono = λ P Q h a f on. tt;
      stable = λ P h h' a same on. tt;
      read = λ P h h' a same on. refl;
    };
    frame = λ a h on. Frame-refl h;
    same_value = λ a h on. refl;
    fresh = λ a h on. tt;
  }

module _ {k : Metas} {A B C R U V : Type 0} (rest : A → R) (first : A → B) (second : A → C)
    (set : A → B → C → A) (rest_set : (a : A) (b : B) (c : C) → rest (set a b c) ≡ rest a)
    (first_set : (a : A) (b : B) (c : C) → first (set a b c) ≡ b)
    (second_set : (a : A) (b : B) (c : C) → second (set a b c) ≡ c) (vb : Heap k → B → U)
    (OnB : (ℕ → Type 0) → Heap k → B → Type 0) (into_b : B → Mem k B) (cb : IsCopy vb OnB into_b)
    (vc : Heap k → C → V) (OnC : (ℕ → Type 0) → Heap k → C → Type 0) (into_c : C → Mem k C)
    (cs : IsCopy vc OnC into_c) where
  abbrev both_value : Heap k → A → R × U × V
  both_value h a = (rest a, vb h (first a), vc h (second a))

  abbrev OnBoth : (ℕ → Type 0) → Heap k → A → Type 0
  OnBoth P h a = OnB P h (first a) × OnC P h (second a)

  abbrev both_into : A → Mem k A
  both_into a h =
      let (b, h1) = into_b (first a) h in let (c, h2) = into_c (second a) h1 in (set a b c, h2)

  both-IsReading : IsReading both_value OnBoth
  both-IsReading = record {
    mono = λ P Q h a f on.
        (cb.reading.mono P Q h (first a) f on.0, cs.reading.mono P Q h (second a) f on.1);
    stable = λ P h h' a same on. (
      cb.reading.stable P h h' (first a) same on.0,
      cs.reading.stable P h h' (second a) same on.1,
    );
    read = λ P h h' a same on.
        ap₂ (λ u v. (rest a, u, v)) (cb.reading.read P h h' (first a) same on.0)
          (cs.reading.read P h h' (second a) same on.1);
  }

  both-copied :
      (a : A) (h : Heap k)
      → OnBoth (Below h.next) h a
      → Frame h (both_into a h).1
        × (both_value (both_into a h).1 (both_into a h).0 ≡ both_value h a)
        × OnBoth (Between h.next (both_into a h).1.next) (both_into a h).1 (both_into a h).0
  both-copied a h (on_b, on_c) =
      let b = (into_b (first a) h).0 in
      let h1 = (into_b (first a) h).1 in
      let f = cb.frame (first a) h on_b in
      let later = kept vc OnC cs.reading h h1 (second a) f on_c in
      let c = (into_c (second a) h1).0 in
      let h2 = (into_c (second a) h1).1 in
      let g = cs.frame (second a) h1 later.0 in
      let b_kept = kept_fresh vb OnB cb.reading h.next h1 h2 b g (cb.fresh (first a) h on_b) in
      (
        Frame-trans f g,
        rw (rest_set a b c, first_set a b c, second_set a b c)
            (ap₂ (λ u v. (rest a, u, v)) (b_kept.1 ∙ cb.same_value (first a) h on_b)
              (cs.same_value (second a) h1 later.0 ∙ later.1)),
        rw (first_set a b c, second_set a b c)
            (
              b_kept.0,
              cs.reading.mono (Between h1.next h2.next) (Between h.next h2.next) h2 c
                  (λ p l. (omega (arith, l.0, f.next_le), l.1)) (cs.fresh (second a) h1 later.0),
            ),
      )

  pub both-IsCopy : IsCopy both_value OnBoth both_into
  both-IsCopy = record {
    reading = both-IsReading;
    frame = λ a h on. (both-copied a h on).0;
    same_value = λ a h on. (both-copied a h on).1;
    fresh = λ a h on. (both-copied a h on).2;
  }
