-- ===== src/Store/Set/Written.antt =====
-- The bytes of a node of src/store/set.h, and what is read back from them.
use bandchain_legacy.Common.{
  ℕ, ◌^◌, ◌<◌, ◌≡◌, refl, sym, ap, ◌∙◌, [], ◌++◌, append_assoc, append-nil,
}
use bandchain_legacy.Thrown.{ok}
use bandchain_legacy.Uint256.{CheckedUint}
use bandchain_legacy.Buffer.{Bytes, uint64, bits_of}
use bandchain_legacy.Buffer.Values.{write_int}
use bandchain_legacy.Buffer.ValuesRoundTrip.{read_int-write_int, write_int-append}
use bandchain_legacy.Store.Set.{unchanged, Node, Element, write_node, read_node}

-- What reading and writing of the elements are to be.
pub record IsCoded {A : Type 0} (el : Element A) : Type 1 where
  pub Fits : A → Type 0
  pub write-append : (buf : Bytes) (a : A) → el.write buf a ≡ buf ++ el.write [] a
  pub read-write : (a : A) (rest : Bytes) → Fits a → el.read (el.write [] a ++ rest) ≡ ok (a, rest)

-- The fields of a node are values of their types.
pub record IsFit {A : Type 0} (el : Element A) (coded : IsCoded el) (node : Node A) : Type 0 where
  pub left : node.left < 2 ^ 64
  pub right : node.right < 2 ^ 64
  pub height : node.height < 2 ^ 64
  pub parent : node.parent < 2 ^ 64
  pub val : coded.Fits node.val

abbrev pub w : ℕ → Bytes
w n = write_int [] n

abbrev pub numbers_written : ℕ → ℕ → ℕ → Bytes
numbers_written a b c = write_int (write_int (write_int [] a) b) c

pub numbers_written-append : (a b c : ℕ) → numbers_written a b c ≡ w a ++ (w b ++ w c)
numbers_written-append a b c =
    write_int-append (write_int (w a) b) c
    ∙ ap (λ (x : Bytes). x ++ w c) (write_int-append (w a) b)
    ∙ append_assoc (w a) (w b) (w c)

five : (a b c d e : Bytes) → (a ++ (b ++ c)) ++ d ++ e ≡ a ++ (b ++ (c ++ (d ++ (e ++ []))))
five a b c d e =
    append_assoc (a ++ (b ++ c)) d e
    ∙ append_assoc a (b ++ c) (d ++ e)
    ∙ ap (λ (x : Bytes). a ++ x) (append_assoc b c (d ++ e))
    ∙ ap (λ (x : Bytes). a ++ (b ++ (c ++ (d ++ x)))) (sym (append-nil e))

module _ {A : Type 0} (el : Element A) (coded : IsCoded el) where
  write_node-append :
      (node : Node A)
      → write_node el [] node
        ≡ w node.left
          ++ (w node.right ++ (w node.height ++ (w node.parent ++ (el.write [] node.val ++ []))))
  unfolding write_node
  write_node-append node =
      let (l, r, h, p) : ℕ × ℕ × ℕ × ℕ = (node.left, node.right, node.height, node.parent) in
      coded.write-append (write_int (numbers_written l r h) p) node.val
      ∙ ap (λ (x : Bytes). x ++ el.write [] node.val)
          (write_int-append (numbers_written l r h) p
            ∙ ap (λ (x : Bytes). x ++ w p) (numbers_written-append l r h))
      ∙ five (w l) (w r) (w h) (w p) (el.write [] node.val)

  pub read_node-write_node :
      ⦃u : CheckedUint⦄
      → (node : Node A) → IsFit el coded node
      → read_node el (write_node el [] node) ≡ ok (record node { status = unchanged }, [])
  unfolding read_node bits_of
  read_node-write_node node fit =
      rw
        (
          write_node-append node,
          read_int-write_int uint64 node.left _ fit.left,
          read_int-write_int uint64 node.right _ fit.right,
          read_int-write_int uint64 node.height _ fit.height,
          read_int-write_int uint64 node.parent _ fit.parent,
          coded.read-write node.val [] fit.val,
        )
        refl
