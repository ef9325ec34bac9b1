-- ===== src/DeepCopy/Cells.antt =====
-- Copies of what a pointer or a slice leads to.
use network_controller.Common.{ℕ, ◌≡◌, refl, sym, ap, ◌∙◌, arith, Option, none, some}
use network_controller.DeepCopy.{Metas, Cell, Heap, Mem, alloc, Kind, copy_cell}
use network_controller.DeepCopy.Copies.{
  Frame, Frame-refl, Frame-trans, alloc-Frame, IsReading, IsCopy, Below, Between, kept_fresh,
}

abbrev pub each_of : {A B : Type 0} → (A → B) → Option A → Option B
each_of f none = none
each_of f (some a) = some (f a)

module _ {k : Metas} where
  alloc-cell : (c : Cell k) (h : Heap k) → (alloc k c h).1.cell (alloc k c h).0 ≡ some c
  unfolding alloc
  alloc-cell c h = ground arith

  module _ {B V : Type 0} (value : Heap k → B → V) (On : (ℕ → Type 0) → Heap k → B → Type 0)
      (kind : Kind k B) where
    -- What a pointer or a slice shows: nil, or what the cell holds.
    abbrev pub value_cell : Heap k → Option ℕ → Option (Option V)
    value_cell h none = none
    value_cell h (some p) = some (each_of (value h) (kind.content (h.cell p)))

    -- It is nil, or its cell is of the kind.
    abbrev pub OnCell : (ℕ → Type 0) → Heap k → Option ℕ → Type 0
    OnCell P h none = Unit
    OnCell P h (some p) = P p × ((b : B) × (kind.content (h.cell p) ≡ some b) × On P h b)

    module _ (r : IsReading value On) where
      cell_mono :
          (P Q : ℕ → Type 0) (h : Heap k) (o : Option ℕ)
          → ((p : ℕ) → P p → Q p)
          → OnCell P h o
          → OnCell Q h o
      cell_mono P Q h none f on = tt
      cell_mono P Q h (some p) f (at_p, (b, e, on)) = (f p at_p, (b, e, r.mono P Q h b f on))

      cell-stable :
          (P : ℕ → Type 0) (h h' : Heap k) (o : Option ℕ)
          → ((p : ℕ) → P p → h'.cell p ≡ h.cell p)
          → OnCell P h o
          → OnCell P h' o
      cell-stable P h h' none same on = tt
      cell-stable P h h' (some p) same (at_p, (b, e, on)) =
          (at_p, (b, ap kind.content (same p at_p) ∙ e, r.stable P h h' b same on))

      cell-read :
          (P : ℕ → Type 0) (h h' : Heap k) (o : Option ℕ)
          → ((p : ℕ) → P p → h'.cell p ≡ h.cell p)
          → OnCell P h o
          → value_cell h' o ≡ value_cell h o
      cell-read P h h' none same on = refl
      cell-read P h h' (some p) same (at_p, (b, e, on)) =
          let there : kind.content (h'.cell p) ≡ some b = ap kind.content (same p at_p) ∙ e in
          rw (e, there) (ap (λ v. some (some v)) (r.read P h h' b same on))

      cell-IsReading : IsReading value_cell OnCell
      cell-IsReading = record { mono = cell_mono; stable = cell-stable; read = cell-read }

    module _ (is_kind : (b : B) → kind.content (some (kind.put b)) ≡ some b) (into : B → Mem k B)
        (c : IsCopy value On into) where
      copied-cell :
          (p : ℕ) (b : B) (h : Heap k)
          → kind.content (h.cell p) ≡ some b
          → copy_cell k kind into (some p) h
            ≡ (some (into b h).1.next, (alloc k (kind.put (into b h).0) (into b h).1).1)
      unfolding copy_cell alloc
      copied-cell p b h e = rw (copy_cell, e) refl

      cell-copied :
          (p : ℕ) (b : B) (h : Heap k)
          → kind.content (h.cell p) ≡ some b
          → On (Below h.next) h b
          → Frame h (copy_cell k kind into (some p) h).1
            × (value_cell (copy_cell k kind into (some p) h).1 (copy_cell k kind into (some p) h).0
                ≡ some (some (value h b)))
            × OnCell
                (Between h.next (copy_cell k kind into (some p) h).1.next)
                (copy_cell k kind into (some p) h).1
                (copy_cell k kind into (some p) h).0
      unfolding alloc
      cell-copied p b h e on =
          let h1 = (into b h).1 in
          let h2 = (alloc k (kind.put (into b h).0) h1).1 in
          let f = c.frame b h on in
          let g = alloc-Frame (kind.put (into b h).0) h1 in
          let later = kept_fresh value On c.reading h.next h1 h2 (into b h).0 g (c.fresh b h on) in
          let there : kind.content (h2.cell h1.next) ≡ some (into b h).0 =
            ap kind.content (alloc-cell (kind.put (into b h).0) h1) ∙ is_kind (into b h).0 in
          rw (copied-cell p b h e) (
            Frame-trans f g,
            rw there (ap (λ v. some (some v)) (later.1 ∙ c.same_value b h on)),
            ((f.next_le, omega arith), ((into b h).0, there, later.0)),
          )

      cell-Frame :
          (o : Option ℕ) (h : Heap k)
          → OnCell (Below h.next) h o
          → Frame h (copy_cell k kind into o h).1
      unfolding copy_cell
      cell-Frame none h on = Frame-refl h
      cell-Frame (some p) h (at_p, (b, e, on)) = (cell-copied p b h e on).0

      cell-same :
          (o : Option ℕ) (h : Heap k)
          → OnCell (Below h.next) h o
          → value_cell (copy_cell k kind into o h).1 (copy_cell k kind into o h).0 ≡ value_cell h o
      unfolding copy_cell
      cell-same none h on = refl
      cell-same (some p) h (at_p, (b, e, on)) =
          (cell-copied p b h e on).1 ∙ sym (ap (λ o. some (each_of (value h) o)) e)

      cell-fresh :
          (o : Option ℕ) (h : Heap k)
          → OnCell (Below h.next) h o
          → OnCell
              (Between h.next (copy_cell k kind into o h).1.next)
              (copy_cell k kind into o h).1
              (copy_cell k kind into o h).0
      unfolding copy_cell
      cell-fresh none h on = tt
      cell-fresh (some p) h (at_p, (b, e, on)) = (cell-copied p b h e on).2

      pub cell-IsCopy : IsCopy value_cell OnCell (copy_cell k kind into)
      cell-IsCopy = record {
        reading = cell-IsReading c.reading;
        frame = cell-Frame;
        same_value = cell-same;
        fresh = cell-fresh;
      }
