-- ===== src/Store/Set/Depth.antt =====
-- How far `contains` of src/store/set.h goes down a balanced tree.
use bandchain_legacy.Common.{
  ℕ, zero, suc, ◌*◌, ◌^◌, ◌<◌, ◌≤◌, ◌≡◌, ltb, ltb→lt, Bool-cases, true, false, ◌⊎◌, inl, inr, arith,
}
use bandchain_legacy.Thrown.{ok}
use bandchain_legacy.Uint256.{CheckedUint}
use bandchain_legacy.Buffer.{Bytes}
use bandchain_legacy.Store.Backend.{StorageMap}
use bandchain_legacy.Store.Set.{Set, Element}
use bandchain_legacy.Store.Set.Tree.{
  Tree, leaf, fork, elements, depth, depth_lem, height, IsOrder, Alike,
}
use bandchain_legacy.Store.Set.Lookup.{contains_loop}
use bandchain_legacy.Store.Set.Members.{member, contains_loop_lem}
use bandchain_legacy.Store.Set.Stored.{IsBalanced, Stored-Represents}
use bandchain_legacy.Store.Set.Inserted.Whole.{IsValid}

-- A balanced tree of the height 2 k has 2 ^ k - 1 nodes or more.
height-pow :
    {A : Type 0} (k : ℕ) (t : Tree A) → IsBalanced t → 2 * k ≤ height t → 2 ^ k ≤ suc (depth t)
unfolding IsBalanced height depth
height-pow zero t balanced h = omega arith
height-pow (suc k) leaf balanced h = absurd (omega arith)
height-pow (suc k) (fork i l v r) (near_l, near_r, bl, br) h =
    omega (arith, height-pow k l bl (omega arith), height-pow k r br (omega arith))

module _ ⦃u : CheckedUint⦄ {A : Type 0} (el : Element A) (str : ℕ → Bytes) (m : StorageMap) where
  -- On a valid set with fewer than 2 ^ k - 1 elements, where the operators of the elements are a
  -- total order, contains ends within 2 k rounds with whether an element is equal to the value,
  -- and the set then reads as before.
  pub contains_loop-steps :
      (k : ℕ) (order : IsOrder el) (val : A) (t : Tree A) (s : Set A)
      → IsValid el str m s t
      → suc s.set_size < 2 ^ k
      → (s' : Set A) × (contains_loop el str m (2 * k) s.nonce_root val s
          ≡ (ok (member el val (elements t)), s'))
        × Alike el str m s s'
  contains_loop-steps k order val t s valid few =
      contains_loop_lem el str m order val (2 * k) s.nonce_root t s
        (low (Bool-cases (ltb (height t) (2 * k)))) valid.search
        (Stored-Represents el str m s s.nonce_root t valid.stored)
    where
      low : (ltb (height t) (2 * k) ≡ true) ⊎ (ltb (height t) (2 * k) ≡ false) → height t < 2 * k
      low (inl e) = ltb→lt (height t) (2 * k) e
      low (inr e) =
          let high : 2 * k ≤ height t = ground arith in
          absurd (omega (arith, height-pow k t valid.balanced high, depth_lem t, valid.counts))
