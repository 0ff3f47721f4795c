-- ===== src/Store/Set/Reached.antt =====
-- Insertions into a set of src/store/set.h, one behind the other, and what `contains` finds then.
use bandchain_legacy.Common.{
  ℕ, suc, ◌^◌, ◌<◌, ◌≡◌, refl, ap, ◌∙◌, Bool, false, ◌||◌, inl, inr, Bool-cases, find, none, List,
  [], ◌∷◌, arith, ◌+◌, length,
}
use bandchain_legacy.Thrown.{Thrown, ok, err, error}
use bandchain_legacy.Uint256.{CheckedUint}
use bandchain_legacy.Buffer.{Bytes}
use bandchain_legacy.Store.Backend.{StorageMap}
use bandchain_legacy.Ledger.Action.{◌>>=◌, >>=-step, Action, pure}
use bandchain_legacy.Store.Set.{Set, Element, stored_node, get_node, fetch_node}
use bandchain_legacy.Store.Set.Tree.{Tree, leaf, elements, IsSearch, IsOrder, node_at}
use bandchain_legacy.Store.Set.Lookup.{contains}
use bandchain_legacy.Store.Set.Members.{member, contains_lem}
use bandchain_legacy.Store.Set.Insert.{insert}
use bandchain_legacy.Store.Set.Stored.{IsBalanced, IsProper, Stored, Stored-Represents}
use bandchain_legacy.Store.Set.Parts.{Apart}
use bandchain_legacy.Store.Set.Balance.{IsStrict}
use bandchain_legacy.Store.Set.Sorted.{insert_sorted, insert_before, insert_after, insert_at}
use bandchain_legacy.Store.Set.Inserted.Whole.{IsValid, insert_lem, insert_run}

module _ {A : Type 0} (el : Element A) (order : IsOrder el) (strict : IsStrict el) where
  -- The elements after an insertion are those before, and the value.
  pub member-insert_sorted :
      (w val : A) (xs : List A)
      → member el w (insert_sorted el val xs) ≡ (el.equal w val || member el w xs)
  unfolding member insert_sorted
  member-insert_sorted w val [] = refl
  member-insert_sorted w val (x ∷ xs) = elim (Bool-cases (el.less val x)) [
    | inl e ↦ ap (member el w) (insert_before el val x xs e)
    | inr e ↦ elim (Bool-cases (el.less x val)) [
      | inl e' ↦
          ap (member el w) (insert_after el val x xs e e')
          ∙ ap (λ (b : Bool). el.equal w x || b) (member-insert_sorted w val xs)
          ∙ swap (el.equal w x) (el.equal w val) (member el w xs)
      | inr e' ↦
          ap (member el w) (insert_at el val x xs e e')
          ∙ twice (el.equal w x) (el.equal w val) (member el w xs)
              (ap (λ (y : A). el.equal w y) (same x e e'))
    ]
  ]
    where
      swap : (a b c : Bool) → (a || (b || c)) ≡ (b || (a || c))
      swap a b c = ground arith

      twice : (a b c : Bool) → b ≡ a → (a || c) ≡ (b || (a || c))
      twice a b c e = ground arith

      same : (x : A) → el.less val x ≡ false → el.less x val ≡ false → val ≡ x
      same x e e' = elim (Bool-cases (el.equal val x)) [
        | inl p ↦ strict.equal_same val x p
        | inr p ↦ absurd (ground (arith, order.less_total val x p e))
      ]

module _ ⦃u : CheckedUint⦄ {A : Type 0} (el : Element A) (str : ℕ → Bytes) (m : StorageMap) where
  -- A number that neither the cache nor the storage has a node for.
  pub node_at-none :
      (s : Set A) (j : ℕ) (e : Thrown)
      → find j s.cache ≡ none
      → stored_node el str m s.base_key j ≡ err e
      → node_at el str m s j ≡ err e
  unfolding node_at get_node fetch_node
  node_at-none s j e not_cached not_stored = rw (node_at, get_node, not_cached, not_stored) refl

  -- A set without nodes is valid, where the storage has none under its key.
  pub IsValid-empty :
      (s : Set A)
      → s.cache ≡ []
      → s.nonce_root ≡ 0
      → s.set_size ≡ 0
      → ((j : ℕ) → stored_node el str m s.base_key j ≡ err error)
      → IsValid el str m s leaf
  unfolding Stored IsProper IsSearch IsBalanced Apart elements find
  IsValid-empty s no_cache no_root no_size nothing = record {
    stored = no_root;
    proper = tt;
    search = tt;
    balanced = tt;
    counts = no_size;
    missing = λ j h. (error, node_at-none s j error (ap (find j) no_cache) (nothing j));
    apart = λ j h. tt;
  }

  module _ (order : IsOrder el) (strict : IsStrict el) where
    -- On a valid set with room for one more, where the operators of the elements are a strict
    -- total order, contains returns after insert whether the one value is equal to the other or
    -- to an element that was there before.
    pub contains-insert :
        (val w : A) (t : Tree A) (s : Set A)
        → IsValid el str m s t
        → suc s.nonce_node < 2 ^ 64
        → suc s.set_size < 2 ^ 64
        → (s' : Set A) × ((insert el str m val >>= λ b. contains el str m w) s
            ≡ (ok (el.equal w val || member el w (elements t)), s'))
    contains-insert val w t s valid small room =
        let (s1, t1, run, valid1, put) =
          insert_lem el str m order strict val t s valid small room in
        let (s2, run2, _) =
          contains_lem el str m order w t1 s1 valid1.search
            (Stored-Represents el str m s1 s1.nonce_root t1 valid1.stored) valid1.counts in
        (
          s2,
          >>=-step (insert el str m val) (λ b. contains el str m w) run
              ∙ run2
              ∙ ap (λ (b : Bool). (ok b, s2))
                  (ap (member el w) put ∙ member-insert_sorted el order strict w val (elements t)),
        )

  -- One insertion behind the other.
  unfoldable pub insert_each : List A → Action (Set A) (Unit {0})
  insert_each [] = pure tt
  insert_each (val ∷ vals) = insert el str m val >>= λ b. insert_each vals

  module _ (order : IsOrder el) (strict : IsStrict el) where
    -- From a valid set, an empty one for instance, whose counters have room for so many more,
    -- inserting the values of a list one after the other returns and leaves a valid set whose
    -- elements are those before and the values, where the operators of the elements are a strict
    -- total order.
    pub insert_each-IsValid :
        (vals : List A) (t : Tree A) (s : Set A)
        → IsValid el str m s t
        → s.nonce_node + length vals < 2 ^ 64
        → s.set_size + length vals < 2 ^ 64
        → (s' : Set A) × (t' : Tree A) × (insert_each vals s ≡ (ok tt, s'))
          × IsValid el str m s' t'
          × ((w : A) → member el w (elements t') ≡ (member el w vals || member el w (elements t)))
    unfolding insert_each member
    insert_each-IsValid [] t s valid small room = (s, t, refl, valid, λ w. refl)
    insert_each-IsValid (val ∷ vals) t s valid small room =
        let (s1, t1, run, valid1, put, few, less) =
          insert_run el str m order strict val t s valid (omega arith) (omega arith) in
        let (s2, t2, run2, valid2, found) =
          insert_each-IsValid vals t1 s1 valid1 (omega arith) (omega arith) in
        (
          s2,
          t2,
          >>=-step (insert el str m val) (λ b. insert_each vals) run ∙ run2,
          valid2,
          λ w.
              found w
              ∙ ap (λ (b : Bool). member el w vals || b)
                  (ap (member el w) put ∙ member-insert_sorted el order strict w val (elements t))
              ∙ turn (member el w vals) (el.equal w val) (member el w (elements t)),
        )
      where
        turn : (a b c : Bool) → (a || (b || c)) ≡ ((b || a) || c)
        turn a b c = ground arith
