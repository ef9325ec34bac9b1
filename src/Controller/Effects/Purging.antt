-- ===== src/Controller/Effects/Purging.antt =====
-- controller/purge.go: which macvlanips a purge deletes.
use network_controller.Common.{
  ℕ, ◌+◌, ◌≡◌, refl, Bool, true, false, List, [], ◌∷◌, if◌then◌else◌, Bool-cases, inl, inr, ◌∙◌,
  arith,
}
use network_controller.Go.Text.{Bytes}
use network_controller.Go.Result.{Result, ok, err, panics, hangs, is_not_found}
use network_controller.Go.Exec.{Exec, pure, catch, ◌>>=◌}
use network_controller.Go.Exec.Laws.{>>=-cong, catch-pure_world}
use network_controller.Types.{MacvlanIp, Pod}
use network_controller.Cluster.{Cluster}
use network_controller.Controller.Purge.{is_pod_not_exist, delete_one, purge_loop, purge}

-- The answer is a value or an error.
abbrev pub Answers : {A : Type 0} → Result A → Type 0
Answers (ok a) = Unit
Answers (err e) = Unit
Answers panics = ⊥
Answers hangs = ⊥

-- The answer says that the pod is gone.
abbrev pub says_gone : Result Pod → Bool
says_gone (err e) = is_not_found e
says_gone _ = false

-- The macvlanips of a list whose pod is gone, by what `pods` answers.
unfoldable pub orphans : (Bytes → Bytes → Result Pod) → List MacvlanIp → List MacvlanIp
orphans pods [] = []
orphans pods (ip ∷ ips) =
    if says_gone (pods ip.meta.namespace ip.meta.name)
    then ip ∷ orphans pods ips
    else orphans pods ips

add_zero : (n : ℕ) → n + 0 ≡ n
add_zero n = omega arith

module _ (c : Cluster) where
  -- What a deletion counts by its answer: one where it succeeds or finds nothing, none beside another
  -- error.
  unfoldable pub counts : Result (Unit {0}) → Result ℕ
  counts (ok u) = ok 1
  counts (err e) = ok (if is_not_found e then 1 else 0)
  counts panics = panics
  counts hangs = hangs

  -- Deletes each of the list in turn, by its namespace and its name, and adds up what they count.
  unfoldable pub delete_all : ℕ → List MacvlanIp → Exec c.World ℕ
  delete_all count [] = pure count
  delete_all count (ip ∷ ips) =
      (λ w. let (r, v) = c.delete_macvlan_ip ip.meta.namespace ip.meta.name w in (counts r, v))
      >>= λ one. delete_all (count + one) ips

  answered-counts :
      {B : Type 0} (r : Result (Unit {0})) (v : c.World) (next : ℕ → Exec c.World B) (count : ℕ)
      → (catch ((λ u. (r, u)) >>= λ _. pure true) (λ e. pure (is_not_found e)) >>= λ deleted.
            next (if deleted then count + 1 else count))
          v
        ≡ ((λ u. (counts r, u)) >>= λ one. next (count + one)) v
  unfolding counts
  answered-counts (ok u) v next count = refl
  answered-counts (err e) v next count = elim (Bool-cases (is_not_found e)) [
    | inl h ↦ rw h refl
    | inr h ↦ rw (h, add_zero count) refl
  ]
  answered-counts panics v next count = refl
  answered-counts hangs v next count = refl

  -- One deletion of the loop, by the answer to the call.
  delete_one-counts :
      {B : Type 0} (ip : MacvlanIp) (next : ℕ → Exec c.World B) (count : ℕ) (w : c.World)
      → (delete_one c ip >>= λ deleted. next (if deleted then count + 1 else count)) w
        ≡ ((λ v. let (r, u) = c.delete_macvlan_ip ip.meta.namespace ip.meta.name v in (counts r, u))
              >>= λ one. next (count + one))
            w
  unfolding delete_one
  delete_one-counts ip next count w =
      let (r, v) = c.delete_macvlan_ip ip.meta.namespace ip.meta.name w in
      answered-counts r v next count

  -- `Shows` holds while the lister's cache of pods stays as it is: then the lister answers by
  -- `pods`, with a pod or an error.
  module _ (Shows : c.World → Type 0) (pods : Bytes → Bytes → Result Pod)
      (answers : (n m : Bytes) → Answers (pods n m))
      (reads : (n m : Bytes) (w : c.World) → Shows w → c.lister_pod n m w ≡ (pods n m, w))
      (keeps : (n m : Bytes) (w : c.World) → Shows w → Shows (c.delete_macvlan_ip n m w).1) where
    gone-answer :
        (r : Result Pod) (w : c.World)
        → Answers r
        → catch ((λ u. (r, u)) >>= λ _. pure false) (λ e. pure (is_not_found e)) w
          ≡ (ok (says_gone r), w)
    gone-answer (ok a) w h = refl
    gone-answer (err e) w h = refl
    gone-answer panics w h = absurd h
    gone-answer hangs w h = absurd h

    is_pod_not_exist-answer :
        (ip : MacvlanIp) (w : c.World)
        → Shows w
        → is_pod_not_exist c ip w ≡ (ok (says_gone (pods ip.meta.namespace ip.meta.name)), w)
    unfolding is_pod_not_exist
    is_pod_not_exist-answer ip w s = rw (reads ip.meta.namespace ip.meta.name w s) (
        gone-answer (pods ip.meta.namespace ip.meta.name) w
          (answers ip.meta.namespace ip.meta.name))

    delete_one-Shows : (ip : MacvlanIp) (w : c.World) → Shows w → Shows (delete_one c ip w).1
    unfolding delete_one
    delete_one-Shows ip w s =
        let delete = c.delete_macvlan_ip ip.meta.namespace ip.meta.name in
        rw (catch-pure_world delete true is_not_found w) (keeps ip.meta.namespace ip.meta.name w s)

    -- The loop, from any count.
    purge_loop-delete_all :
        (count : ℕ) (ips : List MacvlanIp) (w : c.World)
        → Shows w
        → purge_loop c count ips w ≡ delete_all count (orphans pods ips) w
    unfolding purge_loop delete_all orphans
    purge_loop-delete_all count [] w s = refl
    purge_loop-delete_all count (ip ∷ ips) w s =
        elim (Bool-cases (says_gone (pods ip.meta.namespace ip.meta.name))) [
          | inl e ↦
              rw (is_pod_not_exist-answer ip w s, e)
                (>>=-cong (delete_one c ip) _ _ w (λ deleted.
                    purge_loop-delete_all (if deleted then count + 1 else count) ips _
                      (delete_one-Shows ip w s))
                  ∙ delete_one-counts ip (λ n. delete_all n (orphans pods ips)) count w)
          | inr e ↦ rw (is_pod_not_exist-answer ip w s, e, purge_loop-delete_all count ips w s)
        ]

    -- While the lister's cache of pods stays as it is, which neither the listing nor a deletion
    -- changes, and the lister answers each request by a pod or an error, a purge deletes the listed macvlanips whose
    -- pod the lister does not find, in order and no others, and counts the deletions that succeed
    -- or find nothing; an error beside the list changes nothing of this.
    pub purge-orphans :
        (w : c.World)
        → Shows (c.lister_macvlan_ips w).1
        → purge c w ≡ (c.lister_macvlan_ips >>= λ (ips, e). delete_all 0 (orphans pods ips)) w
    unfolding purge
    purge-orphans w s =
        >>=-cong c.lister_macvlan_ips _ _ w (λ (ips, e). purge_loop-delete_all 0 ips _ s)
