-- ===== src/StateTransition/Reach.antt =====
-- The states that an entity can come to by valid transitions of a matrix.
use credence_backend.StateTransition.Matrix.{Matrix, is_valid}
use credence_backend.Base.{◌≡◌, Bool, true, Eq}

module _ {S : Type 0} ⦃e : Eq S⦄ where
  pub data Reaches (m : Matrix S) (a : S) : S → Type 0 where
    here : Reaches m a a
    next : {b c : S} → Reaches m a b → is_valid m b c ≡ true → Reaches m a c

  -- A property that every valid transition keeps holds of all that is reached.
  pub Reaches-inv :
      (m : Matrix S) (p : S → Bool)
      → ((b c : S) → p b ≡ true → is_valid m b c ≡ true → p c ≡ true)
      → {a b : S} → Reaches m a b
      → p a ≡ true
      → p b ≡ true
  Reaches-inv m p keep here h = h
  Reaches-inv m p keep (next {b} {c} r v) h = keep b c (Reaches-inv m p keep r h) v
