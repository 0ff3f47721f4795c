-- ===== src/Store/Set/Steady.antt =====
-- What the operations of src/store/set.h leave alone whatever they do: the counters of the set, and
-- the numbers that have no node.
pub mod Steps
use bandchain_legacy.Common.{
  ℕ, zero, suc, ◌≡◌, ◌≢◌, refl, sym, ap, ◌∙◌, Bool, true, false, ◌⊎◌, inl, inr, Bool-cases, none,
  some, ◌==◌, ==_iff, ◌&&◌, not, ltb, find, Option-cases, arith,
}
use bandchain_legacy.Thrown.{Thrown, Result, ok, err}
use bandchain_legacy.Uint256.{CheckedUint}
use bandchain_legacy.Buffer.{Bytes}
use bandchain_legacy.Store.Backend.{StorageMap}
use bandchain_legacy.Ledger.Action.{Action, ◌>>=◌, ◌>>◌, pure, modify, continue_with}
use bandchain_legacy.Store.Set.{
  Node, Set, Element, set_node, add_node, fetch_node, get_node, update, get_height, update_parent,
  stored_node,
}
use bandchain_legacy.Store.Set.Tree.{node_at, node_at-add_node}
use bandchain_legacy.Store.Set.Links.{node_at-set_node}
use bandchain_legacy.Store.Set.Rotate.{
  update_height, move_subtree, finish_rotation, right_rotate, left_rotate, get_balance,
  left_right_case, right_left_case, compare_heights,
}
use bandchain_legacy.Store.Set.Insert.{insert_right, insert_left, balance_inserted}

module _ ⦃u : CheckedUint⦄ {A : Type 0} (el : Element A) (str : ℕ → Bytes) (m : StorageMap) where
  -- The counters stay, and so does what has no node.
  pub record Same (s s' : Set A) : Type 0 where
    pub base_key : s'.base_key ≡ s.base_key
    pub nonce_node : s'.nonce_node ≡ s.nonce_node
    pub nonce_root : s'.nonce_root ≡ s.nonce_root
    pub set_size : s'.set_size ≡ s.set_size
    pub missing :
        (j : ℕ) (e : Thrown) → node_at el str m s j ≡ err e → node_at el str m s' j ≡ err e

  pub Same-refl : (s : Set A) → Same s s
  Same-refl s = record {
    base_key = refl;
    nonce_node = refl;
    nonce_root = refl;
    set_size = refl;
    missing = λ j e h. h;
  }

  pub Same-trans : (s s1 s2 : Set A) → Same s s1 → Same s1 s2 → Same s s2
  Same-trans s s1 s2 a b = record {
    base_key = b.base_key ∙ a.base_key;
    nonce_node = b.nonce_node ∙ a.nonce_node;
    nonce_root = b.nonce_root ∙ a.nonce_root;
    set_size = b.set_size ∙ a.set_size;
    missing = λ j e h. b.missing j e (a.missing j e h);
  }

  -- An action that leaves these alone, from any state.
  abbrev pub Steady : {B : Type 0} → Action (Set A) B → Type 0
  Steady f = (s : Set A) → Same s (f s).1

  pub Steady-pure : {B : Type 0} (b : B) → Steady (pure b)
  Steady-pure b s = Same-refl s

  Steady-continue :
      {B C : Type 0} (f : B → Action (Set A) C)
      → ((b : B) → Steady (f b))
      → (r : Result B) (s : Set A) → Same s (continue_with f r s).1
  Steady-continue f h (ok b) s = h b s
  Steady-continue f h (err e) s = Same-refl s

  pub Steady->>= :
      {B C : Type 0} (f : Action (Set A) B) (g : B → Action (Set A) C)
      → Steady f
      → ((b : B) → Steady (g b))
      → Steady (f >>= g)
  Steady->>= f g hf hg s = Same-trans s (f s).1 _ (hf s) (Steady-continue g hg (f s).0 (f s).1)

  pub Steady->> :
      {C : Type 0} (f : Action (Set A) (Unit {0})) (g : Action (Set A) C)
      → Steady f
      → Steady g
      → Steady (f >> g)
  Steady->> f g hf hg s =
      Same-trans s (f s).1 _ (hf s) (Steady-continue (λ _. g) (λ _. hg) (f s).0 (f s).1)

  -- A run of a steady action.
  pub Steady-run :
      {B : Type 0} (f : Action (Set A) B) (s s' : Set A) (r : Result B)
      → Steady f
      → f s ≡ (r, s')
      → Same s s'
  Steady-run f s s' r h e = rw e at (h s)

  get_node-outcomes :
      (i : ℕ) (s : Set A)
      → ((r : Result (Node A)) × (get_node el str m i s ≡ (r, s)))
        ⊎ ((node : Node A) × (find i s.cache ≡ none)
            × (get_node el str m i s ≡ (ok node, add_node i node s)))
  unfolding get_node
  get_node-outcomes i s = elim (Option-cases (find i s.cache)) [
    | inr (node, q) ↦ inl (ok node, rw (get_node, q) refl)
    | inl q ↦ go q (stored_node el str m s.base_key i) refl
  ]
    where
      go :
          find i s.cache ≡ none
          → (r : Result (Node A)) → stored_node el str m s.base_key i ≡ r
          → ((r : Result (Node A)) × (get_node el str m i s ≡ (r, s)))
            ⊎ ((node : Node A) × (find i s.cache ≡ none)
                × (get_node el str m i s ≡ (ok node, add_node i node s)))
      go q (ok node) e = inr (node, q, rw (get_node, q, e) (refl))
      go q (err x) e = inl (err x, rw (get_node, q, e) refl)

  pub Steady-get_node : (i : ℕ) → Steady (get_node el str m i)
  unfolding node_at add_node
  Steady-get_node i s = elim (get_node-outcomes i s) [
    | inl (r, e) ↦ rw e (Same-refl s)
    | inr (node, q, e) ↦ rw e (record {
      base_key = refl;
      nonce_node = refl;
      nonce_root = refl;
      set_size = refl;
      missing = λ j x h.
          node_at-add_node el str m s i j node q (ap (λ (p : Result (Node A) × Set A). p.0) e) ∙ h;
    })
  ]

  clash : {node : Node A} {x : Thrown} → ◌≢◌ {A = Result (Node A)} (ok node) (err x)
  clash e = cc

  pub Steady-update : (i : ℕ) (f : Node A → Node A) → Steady (update el str m i f)
  unfolding update find node_at
  Steady-update i f s = go (get_node el str m i s) refl (Steady-get_node i s)
    where
      go :
          (p : Result (Node A) × Set A)
          → get_node el str m i s ≡ p
          → Same s p.1
          → Same s (continue_with (λ node. modify (set_node i (f node))) p.0 p.1).1
      go (err x, s1) e h = h
      go (ok node, s1) e h = record {
        base_key = h.base_key;
        nonce_node = h.nonce_node;
        nonce_root = h.nonce_root;
        set_size = h.set_size;
        missing = λ j x q. elim (Bool-cases (i == j)) [
          | inl p ↦ absurd (
              clash {x = x}
                (sym (ap (λ (p : Result (Node A) × Set A). p.0) e) ∙ rw ((==_iff i j).0 p) q))
          | inr p ↦ node_at-set_node el str m s1 i j (f node) ∙ rw p (h.missing j x q)
        ];
      }
