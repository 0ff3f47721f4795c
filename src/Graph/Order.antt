-- ===== src/Graph/Order.antt =====
-- `Edge::operator<` of src/store/graph_set.h against what a `std::set` needs of it.
use bandchain_legacy.Common.{◌≡◌, refl, true, false, [], ◌∷◌, arith}
use bandchain_legacy.Buffer.{Bytes}
use bandchain_legacy.Graph.{Edge, less_bytes, less_tuple, edge_less, is_equivalent}

less_bytes_self : (a : Bytes) → less_bytes a a ≡ false
unfolding less_bytes
less_bytes_self [] = refl
less_bytes_self (x ∷ xs) = ground (arith, less_bytes_self xs)

less_bytes_asym : (a b : Bytes) → less_bytes a b ≡ true → less_bytes b a ≡ false
unfolding less_bytes
less_bytes_asym [] (y ∷ ys) h = refl
less_bytes_asym xs [] h = ground arith
less_bytes_asym (x ∷ xs) (y ∷ ys) h = ground (arith, less_bytes_asym xs ys)

less_bytes_trans :
    (a b c : Bytes) → less_bytes a b ≡ true → less_bytes b c ≡ true → less_bytes a c ≡ true
unfolding less_bytes
less_bytes_trans a b [] h k = ground arith
less_bytes_trans [] b (z ∷ zs) h k = refl
less_bytes_trans (x ∷ xs) [] (z ∷ zs) h k = ground arith
less_bytes_trans (x ∷ xs) (y ∷ ys) (z ∷ zs) h k = ground (arith, less_bytes_trans xs ys zs)

-- An edge is less than itself where its object comes before its subject.
pub edge_less_self : (e : Edge) → edge_less e e ≡ less_bytes e.object e.subject
unfolding edge_less less_tuple
edge_less_self e = ground (
  arith,
  less_bytes_self e.subject,
  less_bytes_self e.predicate,
  less_bytes_self e.label,
  less_bytes_asym e.object e.subject,
)

-- Two edges with the same subject and the same predicate, whose objects both come after the
-- subject, are the same edge to the set, whatever the objects and the labels are.
pub edge_less_lost :
    (e f : Edge)
    → f.subject ≡ e.subject
    → f.predicate ≡ e.predicate
    → less_bytes e.subject e.object ≡ true
    → less_bytes e.subject f.object ≡ true
    → is_equivalent e f ≡ true
unfolding is_equivalent edge_less less_tuple
edge_less_lost e f hs hp he hf =
    rw
      (
        hs,
        hp,
        less_bytes_self e.subject,
        less_bytes_self e.predicate,
        less_bytes_asym e.subject e.object he,
        he,
        less_bytes_asym e.subject f.object hf,
        hf,
      )
      refl
