-- ===== src/Fake/Simple.antt =====
-- pkg/generated/clientset/versioned/fake/clientset_generated.go: the clientset for tests.
use network_controller.Common.{List, [], ◌∷◌, Option, none, some, Bool, true, false}
use network_controller.Go.Text.{Bytes, codes}
use network_controller.Go.Result.{Error, panics}
use network_controller.Go.Exec.{Exec, pure, lift, catch, ◌>>=◌, ◌>>◌}
use network_controller.Informers.{GroupVersionResource}

-- Package testing, as `NewSimpleClientset` uses it: a tracker `H` that lives in the world, the
-- reactions `R` of a fake `F`, and the actions `A` that its watches are given.
pub record Testing (W O H R A F V : Type 0) : Type 0 where
  pub new_tracker : Exec W H
  pub add : H → O → Exec W (Unit {0})
  pub watch : H → GroupVersionResource → Bytes → Exec W (Option V × Option Error)
  pub object_reaction : H → R
  pub action_resource : A → GroupVersionResource
  pub action_namespace : A → Bytes
  pub new_fake : F
  pub add_reactor : Bytes → Bytes → R → F → F
  pub add_watch_reactor : Bytes → (A → Exec W (Bool × Option V × Option Error)) → F → F

module _ {W O H R A F V : Type 0} (testing : Testing W O H R A F V) where
  -- `if err := o.Add(obj); err != nil { panic(err) }` for each object
  unfoldable pub add_all : H → List O → Exec W (Unit {0})
  add_all o [] = pure tt
  add_all o (obj ∷ rest) = do catch (testing.add o obj) (λ e. lift panics); add_all o rest

  -- Whether the reaction handled the action, the watch, and the error.
  handled : Option V × Option Error → Bool × Option V × Option Error
  handled (watcher, none) = (true, watcher, none)
  handled (watcher, some e) = (false, none, some e)

  unfoldable pub watch_reaction : H → A → Exec W (Bool × Option V × Option Error)
  unfolding handled
  watch_reaction o action = do
    answer ← testing.watch o (testing.action_resource action) (testing.action_namespace action)
    pure (handled answer)

  -- The fake behind the clientset; its discovery client points to the same one.
  unfoldable pub new_simple_clientset : List O → Exec W F
  unfolding add_all watch_reaction
  new_simple_clientset objects = do
    o ← testing.new_tracker
    add_all o objects
    let reacting =
        testing.add_reactor (codes "*") (codes "*") (testing.object_reaction o) testing.new_fake
    pure (testing.add_watch_reactor (codes "*") (watch_reaction o) reacting)
