-- ===== src/Controllers/Mapped.antt =====
-- A call whose result a pure function turns into a response.
use trade_reconcile_system.Base.{ap, refl, ◌≡◌}
use trade_reconcile_system.Db.Monad.{M, Outcome, World, done, hang, pure, resume, thrown, ◌>>=◌}
use trade_reconcile_system.Db.Monad.Returns.{done-injective}

module _ {A B : Type 0} (m : M A) (f : A → B) (w : World) where
  resumed-world : (r : Outcome A × World) → (resume (λ a. pure (f a)) r).1 ≡ r.1
  unfolding resume pure
  resumed-world (done a, u) = refl
  resumed-world (thrown e, u) = refl
  resumed-world (hang, u) = refl

  resumed-done :
      (r : Outcome A × World) {a : A} → r.0 ≡ done a → (resume (λ a. pure (f a)) r).0 ≡ done (f a)
  unfolding resume pure
  resumed-done (done x, u) e = ap (λ y. done (f y)) (done-injective e)
  resumed-done (thrown x, u) e = cc
  resumed-done (hang, u) e = cc

  pub mapped-world : ((m >>= λ a. pure (f a)) w).1 ≡ (m w).1
  unfolding ◌>>=◌
  mapped-world = resumed-world (m w)

  pub mapped-done : {a : A} → (m w).0 ≡ done a → ((m >>= λ a. pure (f a)) w).0 ≡ done (f a)
  unfolding ◌>>=◌
  mapped-done {a} e = resumed-done (m w) {a = a} e
