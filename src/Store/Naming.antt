-- ===== src/Store/Naming.antt =====
-- The keys of src/store: the digits of an index stand behind the key of a container.
use bandchain_legacy.Common.{
  ℕ, ◌≡◌, ◌≢◌, sym, ◌∙◌, false, Bool-cases, inl, inr, none, [], ◌∷◌, ◌++◌, append-nil, Indexed,
  find, ◌==◌, eq_bytes, eq_bytes_iff, arith,
}
use bandchain_legacy.Buffer.{Bytes}

-- No index is cached twice.
unfoldable pub IsUnique : {A : Type 0} → Indexed A → Type 0
IsUnique [] = Unit {0}
IsUnique ((i, v) ∷ rest) = (find i rest ≡ none) × IsUnique rest

-- What the decimal digits of an index are to be.
pub record IsNaming (str : ℕ → Bytes) : Type 0 where
  pub apart : (i j : ℕ) → str i ≡ str j → i ≡ j
  pub some_digit : (i : ℕ) → str i ≢ []

append_cancel : (k a b : Bytes) → k ++ a ≡ k ++ b → a ≡ b
append_cancel [] a b e = e
append_cancel (x ∷ k) a b e = append_cancel k a b (cc)

pub append_self : (k a : Bytes) → k ≡ k ++ a → a ≡ []
append_self k a e = append_cancel k a [] (sym e ∙ sym (append-nil k))

pub not_equal : (a b : Bytes) → a ≢ b → eq_bytes a b ≡ false
not_equal a b n = elim (Bool-cases (eq_bytes a b)) [
  | inl e ↦ absurd (n ((eq_bytes_iff a b).0 e))
  | inr e ↦ e
]

module _ (str : ℕ → Bytes) (naming : IsNaming str) (key : Bytes) where
  pub index_apart : (i j : ℕ) → (i == j) ≡ false → eq_bytes (key ++ str i) (key ++ str j) ≡ false
  index_apart i j e =
      not_equal (key ++ str i) (key ++ str j)
        (λ p. same (naming.apart i j (append_cancel key (str i) (str j) p)))
    where
      same : i ≡ j → ⊥
      same p = absurd (ground arith)

  pub key_apart : (j : ℕ) → eq_bytes key (key ++ str j) ≡ false
  key_apart j = not_equal key (key ++ str j) (λ p. naming.some_digit j (append_self key (str j) p))

  pub apart_key : (j : ℕ) → eq_bytes (key ++ str j) key ≡ false
  apart_key j =
      not_equal (key ++ str j) key (λ p. naming.some_digit j (append_self key (str j) (sym p)))
