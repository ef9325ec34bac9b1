-- ===== src/Informers/Started.antt =====
-- informers/externalversions/factory.go: the informers that one start runs.
use network_controller.Common.{◌≡◌, Bool, true, ◌||◌, [], ◌∷◌, ◌++◌, none, arith, if◌then◌else◌}
use network_controller.Go.Text.{Bytes, beq}
use network_controller.Go.Text.Laws.{beq_iff}
use network_controller.Go.Map.{Dict, get, put, present, IsMap, get-put}
use network_controller.Informers.{is_started, start_loop}

-- A range visits each entry of a map once.
pub record Visits {I : Type 0} (visit : Dict I → Dict I) : Type 0 where
  pub is_map : (m : Dict I) → IsMap m → IsMap (visit m)
  pub same : (m : Dict I) (k : Bytes) → IsMap m → get (visit m) k ≡ get m k

-- What is started behind one entry.
mark-started :
    (started : Dict Bool) (j k : Bytes)
    → is_started (if is_started started j then started else put started j true) k
      ≡ (is_started started k || beq j k)
mark-started started j k = ground (arith, get-put started j k true, beq_iff j k)

module _ {I : Type 0} where
  -- What is started is what was started, and what the range visits.
  pub start_loop-started :
      (order : Dict I) (started : Dict Bool) (k : Bytes)
      → is_started (start_loop order started).0 k ≡ (is_started started k || present (get order k))
  unfolding start_loop get
  start_loop-started [] started k = ground arith
  start_loop-started ((j, i) ∷ rest) started k = ground (
    arith,
    start_loop-started rest (if is_started started j then started else put started j true) k,
    mark-started started j k,
  )

  -- Run is what the range visits and was not started.
  pub start_loop-run :
      (order : Dict I) (started : Dict Bool) (k : Bytes)
      → IsMap order
      → get (start_loop order started).1 k ≡ (if is_started started k then none else get order k)
  unfolding start_loop get
  start_loop-run [] started k h = ground arith
  start_loop-run ((j, i) ∷ rest) started k h = ground (
    arith,
    start_loop-run rest (if is_started started j then started else put started j true) k h.1,
    mark-started started j k,
    beq_iff j k,
    h.0,
  )

  pub start_loop-IsMap :
      (order : Dict I) (started : Dict Bool) → IsMap order → IsMap (start_loop order started).1
  unfolding start_loop get
  start_loop-IsMap [] started h = tt
  start_loop-IsMap ((j, i) ∷ rest) started h = ground (
    arith,
    start_loop-run rest (if is_started started j then started else put started j true) j h.1,
    mark-started started j j,
    beq_iff j j,
    h.0,
    start_loop-IsMap rest (if is_started started j then started else put started j true) h.1,
  )

  pub get-append :
      (a b : Dict I) (k : Bytes) → get (a ++ b) k ≡ (if present (get a k) then get a k else get b k)
  unfolding get
  get-append [] b k = ground arith
  get-append ((j, i) ∷ a) b k = ground (arith, get-append a b k)

  pub append-IsMap :
      (a b : Dict I)
      → IsMap a
      → IsMap b
      → ((k : Bytes) → present (get a k) ≡ true → get b k ≡ none)
      → IsMap (a ++ b)
  unfolding get
  append-IsMap [] b ha hb apart = hb
  append-IsMap ((j, i) ∷ a) b ha hb apart = (
    ground (arith, get-append a b j, apart j, beq_iff j j, ha.0),
    append-IsMap a b ha.1 hb (λ k p. ground (arith, apart k, ha.0)),
  )
