-- ===== src/Ledger/Action.antt =====
-- Code that may throw and works on a state: what it changed before it threw stays changed.
use bandchain_legacy.Common.{◌≡◌, ap, Bool, true, false}
use bandchain_legacy.Thrown.{Thrown, Result, ok, err}

abbrev pub Action : Type 0 → Type 0 → Type 0
Action S A = S → Result A × S

abbrev pub continue_with : {S A B : Type 0} → (A → Action S B) → Result A → S → Result B × S
continue_with f (ok a) s = f a s
continue_with f (err e) s = (err e, s)

infixl 5 ◌>>=◌ ◌>>◌
abbrev pub ◌>>=◌ : {S A B : Type 0} → Action S A → (A → Action S B) → Action S B
◌>>=◌ m f s = continue_with f (m s).0 (m s).1

abbrev pub ◌>>◌ : {S B : Type 0} → Action S (Unit {0}) → Action S B → Action S B
◌>>◌ m k s = continue_with (λ _. k) (m s).0 (m s).1

abbrev pub pure : {S A : Type 0} → A → Action S A
pure a s = (ok a, s)

abbrev pub lift : {S A : Type 0} → Result A → Action S A
lift r s = (r, s)

abbrev pub throw : {S A : Type 0} → Thrown → Action S A
throw e s = (err e, s)

abbrev pub modify : {S : Type 0} → (S → S) → Action S (Unit {0})
modify f s = (ok tt, f s)

abbrev pub require_else : {S : Type 0} → Bool → Thrown → Action S (Unit {0})
require_else true e s = (ok tt, s)
require_else false e s = (err e, s)

-- How an action goes on, once what it begins with is known.
module _ {S A B : Type 0} where
  pub >>=-step :
      (m : Action S A) (f : A → Action S B) {s s' : S} {a : A}
      → m s ≡ (ok a, s')
      → (m >>= f) s ≡ f a s'
  >>=-step m f h = ap (λ (p : Result A × S). continue_with f p.0 p.1) h

  pub >>=-throw :
      (m : Action S A) (f : A → Action S B) {s s' : S} {e : Thrown}
      → m s ≡ (err e, s')
      → (m >>= f) s ≡ (err e, s')
  >>=-throw m f h = ap (λ (p : Result A × S). continue_with f p.0 p.1) h
