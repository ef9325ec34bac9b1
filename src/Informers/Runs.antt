-- ===== src/Informers/Runs.antt =====
-- informers/externalversions/factory.go: histories of a factory, and the informers that it ran.
use network_controller.Common.{
  ◌≡◌, refl, List, [], ◌∷◌, ◌++◌, Option, some, arith, All, Option-cases, inl, inr,
}
use network_controller.Go.Text.{Bytes}
use network_controller.Go.Text.Laws.{beq_iff}
use network_controller.Go.Int.{ℤ}
use network_controller.Go.Map.{
  Dict, get, present, IsMap, AllDistinct, keys, keys-AllDistinct, get-put, put-IsMap,
}
use network_controller.Informers.{
  Factory, FactoryOption, with_custom_resync_config, with_tweak_list_options, with_namespace,
  apply_options, new_factory_with_options, is_started, start_loop, start, informer_for,
}
use network_controller.Informers.Shared.{period, informer_for-cases, informer_for-found}
use network_controller.Informers.Started.{
  Visits, start_loop-started, start_loop-run, start_loop-IsMap, get-append, append-IsMap,
}

module _ {C T I : Type 0} where
  -- The options of the package.
  pub data IsOption : FactoryOption C T I → Type 0 where
    custom_resync : (config : List (Bytes × ℤ)) → IsOption (with_custom_resync_config config)
    tweak : (t : Option T) → IsOption (with_tweak_list_options t)
    namespace : (ns : Bytes) → IsOption (with_namespace ns)

  -- A factory after some calls, and the informers that were run, with their types.
  pub data History : Factory C T I → Dict I → Type 0 where
    made :
        (client : C) (resync : ℤ) (options : List (FactoryOption C T I))
        → All IsOption options
        → History (new_factory_with_options client resync options) []
    asked :
        {f : Factory C T I} {run : Dict I}
        → History f run
        → (k : Bytes) (new_func : C → ℤ → I) → History (informer_for k new_func f).1 run
    started :
        {f : Factory C T I} {run : Dict I}
        → History f run
        → (visit : Dict I → Dict I) → Visits visit
        → History (start visit f).0 (run ++ (start visit f).1)

  -- What the calls keep.
  record IsSound (f : Factory C T I) (run : Dict I) : Type 0 where
    is_map : IsMap f.informers
    run_once : IsMap run
    known :
        (k : Bytes) (informer : I) → get run k ≡ some informer → get f.informers k ≡ some informer
    marked : (k : Bytes) → is_started f.started_informers k ≡ present (get run k)

  -- A factory without informers.
  abbrev IsBare : Factory C T I → Type 0
  IsBare f = (f.informers ≡ []) × (f.started_informers ≡ [])

  option-IsBare :
      {opt : FactoryOption C T I} → IsOption opt → (f : Factory C T I) → IsBare f → IsBare (opt f)
  unfolding with_custom_resync_config with_tweak_list_options with_namespace
  option-IsBare (custom_resync config) f b = b
  option-IsBare (tweak t) f b = b
  option-IsBare (namespace ns) f b = b

  options-IsBare :
      (options : List (FactoryOption C T I))
      → All IsOption options
      → (f : Factory C T I) → IsBare f
      → IsBare (apply_options options f)
  unfolding apply_options
  options-IsBare [] all f b = b
  options-IsBare (opt ∷ options) (o, all) f b =
      options-IsBare options all (opt f) (option-IsBare o f b)

  made-IsSound : (f : Factory C T I) → IsBare f → IsSound f []
  unfolding get
  made-IsSound f (e, d) = record {
    is_map = rw e tt;
    run_once = tt;
    known = λ k i h. absurd (cc);
    marked = λ k. rw d refl;
  }

  asked-IsSound :
      (f : Factory C T I) (run : Dict I) (k : Bytes) (new_func : C → ℤ → I)
      → IsSound f run
      → IsSound (informer_for k new_func f).1 run
  asked-IsSound f run k new_func s = elim (informer_for-cases k new_func f) [
    | inl (i, e, same) ↦ rw same s
    | inr (e, same) ↦ rw same (record {
      is_map = put-IsMap f.informers k _ s.is_map;
      run_once = s.run_once;
      known = λ j i h. ground (
        arith,
        get-put f.informers k j (new_func f.client (period f k)),
        beq_iff k j,
        s.known j i h,
      );
      marked = s.marked;
    })
  ]

  started-IsSound :
      (f : Factory C T I) (run : Dict I) (visit : Dict I → Dict I)
      → Visits visit
      → IsSound f run
      → IsSound (start visit f).0 (run ++ (start visit f).1)
  unfolding start
  started-IsSound f run visit v s =
      let order = visit f.informers in
      let visited = v.is_map f.informers s.is_map in
      let now = start_loop order f.started_informers in
      record {
        is_map = s.is_map;
        run_once =
            append-IsMap run now.1 s.run_once (start_loop-IsMap order f.started_informers visited)
              (λ k p.
                ground (arith, start_loop-run order f.started_informers k visited, s.marked k));
        known = λ k i h. ground (
          arith,
          get-append run now.1 k,
          start_loop-run order f.started_informers k visited,
          s.marked k,
          s.known k i,
          v.same f.informers k s.is_map,
        );
        marked = λ k. ground (
          arith,
          get-append run now.1 k,
          start_loop-run order f.started_informers k visited,
          s.marked k,
          start_loop-started order f.started_informers k,
        );
      }

  History-IsSound : {f : Factory C T I} {run : Dict I} → History f run → IsSound f run
  unfolding new_factory_with_options
  History-IsSound (made client resync options all) =
      made-IsSound _ (options-IsBare options all _ (refl, refl))
  History-IsSound (asked h k new_func) = asked-IsSound _ _ k new_func (History-IsSound h)
  History-IsSound (started h visit v) = started-IsSound _ _ visit v (History-IsSound h)

  -- In every history of a factory no two of the informers that were run are of the same type, and for
  -- the type of one that was run the factory hands out this informer and is left as it is.
  pub run_once :
      {f : Factory C T I} {run : Dict I}
      → History f run
      → AllDistinct (keys run)
        × ((k : Bytes) (i : I) (new_func : C → ℤ → I)
            → get run k ≡ some i
            → informer_for k new_func f ≡ (i, f))
  run_once {f} {run} h =
      let s = History-IsSound h in
      (
        keys-AllDistinct run s.run_once,
        λ k i new_func e. informer_for-found k new_func f i (s.known k i e),
      )

  -- After a start each informer that was asked for is running: at any time before or by this start it
  -- was run.
  pub start-runs :
      {f : Factory C T I} {run : Dict I} (visit : Dict I → Dict I) (k : Bytes) (i : I)
      → History f run
      → Visits visit
      → get f.informers k ≡ some i
      → get (run ++ (start visit f).1) k ≡ some i
  unfolding start
  start-runs {f} {run} visit k i h v e =
      let s = History-IsSound h in
      let visited = v.is_map f.informers s.is_map in
      elim (Option-cases (get run k)) [
        | inl none_yet ↦ ground (
          arith,
          get-append run (start_loop (visit f.informers) f.started_informers).1 k,
          start_loop-run (visit f.informers) f.started_informers k visited,
          s.marked k,
          v.same f.informers k s.is_map,
        )
        | inr (j, found) ↦ ground (
          arith,
          get-append run (start_loop (visit f.informers) f.started_informers).1 k,
          s.known k j found,
        )
      ]
