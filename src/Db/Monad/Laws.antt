-- ===== src/Db/Monad/Laws.antt =====
-- What the steps of a call do to the committed database and to the guard, and how a bind may end.
use trade_reconcile_system.Base.{
  Bool, List, Option, [], false, none, refl, some, true, ◌∙◌, ◌∷◌, ◌≡◌,
}
use trade_reconcile_system.Db.{Db}
use trade_reconcile_system.Db.Monad.{
  Env, Exception, M, Outcome, Statement, World, done, exec, exec_on, hang, in_transaction, next_id,
  or_throw, pure, read_clock, require, resume, store_generated, throw, thrown, ◌>>=◌, ◌>>◌,
}
use trade_reconcile_system.Ids.{Generated, generated, moved_backwards, next_number, spinning}

-- The call leaves the committed database and the guard's flag alone, however it ends.
pub record Keeps {A : Type 0} (m : M A) : Type 0 where
  pub committed : (w : World) → (m w).1.committed ≡ w.committed
  pub finished : (w : World) → (m w).1.finished ≡ w.finished

pub pure-Keeps : {A : Type 0} (a : A) → Keeps (pure a)
unfolding pure
pure-Keeps a = record { committed = λ w. refl; finished = λ w. refl }

pub throw-Keeps : (A : Type 0) (e : Exception) → Keeps (throw {A = A} e)
unfolding throw
throw-Keeps A e = record { committed = λ w. refl; finished = λ w. refl }

pub require-Keeps : (b : Bool) (e : Exception) → Keeps (require b e)
unfolding require
require-Keeps true e = record { committed = λ w. refl; finished = λ w. refl }
require-Keeps false e = record { committed = λ w. refl; finished = λ w. refl }

pub or_throw-Keeps : {A : Type 0} (o : Option A) (e : Exception) → Keeps (or_throw o e)
unfolding or_throw
or_throw-Keeps none e = record { committed = λ w. refl; finished = λ w. refl }
or_throw-Keeps (some a) e = record { committed = λ w. refl; finished = λ w. refl }

resume-committed :
    {A B : Type 0} {f : A → M B} (w : World) (r : Outcome A × World)
    → ((a : A) → Keeps (f a))
    → r.1.committed ≡ w.committed
    → (resume f r).1.committed ≡ w.committed
unfolding resume
resume-committed w (done a, u) kf k = (kf a).committed u ∙ k
resume-committed w (thrown e, u) kf k = k
resume-committed w (hang, u) kf k = k

resume-finished :
    {A B : Type 0} {f : A → M B} (w : World) (r : Outcome A × World)
    → ((a : A) → Keeps (f a))
    → r.1.finished ≡ w.finished
    → (resume f r).1.finished ≡ w.finished
unfolding resume
resume-finished w (done a, u) kf k = (kf a).finished u ∙ k
resume-finished w (thrown e, u) kf k = k
resume-finished w (hang, u) kf k = k

pub >>=-Keeps :
    {A B : Type 0} {m : M A} {f : A → M B} → Keeps m → ((a : A) → Keeps (f a)) → Keeps (m >>= f)
unfolding ◌>>=◌
>>=-Keeps {m} {f} km kf = record {
  committed = λ w. resume-committed {f = f} w (m w) kf (km.committed w);
  finished = λ w. resume-finished {f = f} w (m w) kf (km.finished w);
}

pub >>-Keeps : {A B : Type 0} {m : M A} {k : M B} → Keeps m → Keeps k → Keeps (m >> k)
unfolding ◌>>◌
>>-Keeps {m} {k} km kk = >>=-Keeps {m = m} {f = λ _. k} km (λ _. kk)

-- A call whose end has the committed database and the flag that it began with.
keeps :
    {A : Type 0} {m : M A}
    → ((w : World) → ((m w).1.committed ≡ w.committed) × ((m w).1.finished ≡ w.finished))
    → Keeps m
keeps h = record { committed = λ w. (h w).0; finished = λ w. (h w).1 }

in_transaction-keeps :
    {A : Type 0} (o : Option (A × Db)) (w : World)
    → ((in_transaction o w).1.committed ≡ w.committed)
      × ((in_transaction o w).1.finished ≡ w.finished)
unfolding in_transaction
in_transaction-keeps none w = (refl, refl)
in_transaction-keeps (some (a, db)) w = (refl, refl)

exec_on-keeps :
    {A : Type 0} (f : Statement A) (l : List Bool) (w : World)
    → ((exec_on f l w).1.committed ≡ w.committed) × ((exec_on f l w).1.finished ≡ w.finished)
unfolding exec_on
exec_on-keeps f [] w = in_transaction-keeps (f w.working) w
exec_on-keeps f (true ∷ rest) w = (refl, refl)
exec_on-keeps f (false ∷ rest) w = in_transaction-keeps (f w.working) (record w { faults = rest })

pub exec-Keeps : {A : Type 0} (f : Statement A) → Keeps (exec f)
unfolding exec
exec-Keeps f = keeps (λ w. exec_on-keeps f w.faults w)

pub read_clock-Keeps : (env : Env) → Keeps (read_clock env)
unfolding read_clock
read_clock-Keeps env = keeps (λ w. (refl, refl))

store_generated-keeps :
    (r : Generated) (w : World)
    → ((store_generated r w).1.committed ≡ w.committed)
      × ((store_generated r w).1.finished ≡ w.finished)
unfolding store_generated
store_generated-keeps (generated n g) w = (refl, refl)
store_generated-keeps (moved_backwards g) w = (refl, refl)
store_generated-keeps spinning w = (refl, refl)

pub next_id-Keeps : (env : Env) → Keeps (next_id env)
unfolding next_id
next_id-Keeps env =
    keeps (λ w. store_generated-keeps (next_number env.rounds env.clock w.generator) w)

resume-ends :
    {A B : Type 0} (P : Outcome B × World → Type 0) (m : M A) (f : A → M B) (r : Outcome A × World)
    (w : World)
    → m w ≡ r
    → r.1.committed ≡ w.committed
    → r.1.finished ≡ w.finished
    → ((e : Exception) (u : World) → u.committed ≡ w.committed → P (thrown e, u))
    → ((u : World) → u.committed ≡ w.committed → P (hang, u))
    → ((a : A) (u : World)
        → m w ≡ (done a, u)
        → u.committed ≡ w.committed
        → u.finished ≡ w.finished
        → P (f a u))
    → P (resume f r)
unfolding resume
resume-ends P m f (done a, u) w e c d on_throw on_hang on_done = on_done a u e c d
resume-ends P m f (thrown x, u) w e c d on_throw on_hang on_done = on_throw x u c
resume-ends P m f (hang, u) w e c d on_throw on_hang on_done = on_hang u c

-- How a bind may end: as its first step, without a result, or as its rest.
pub >>=-ends :
    {A B : Type 0} (P : Outcome B × World → Type 0) (m : M A) (f : A → M B) (w : World)
    → Keeps m
    → ((e : Exception) (u : World) → u.committed ≡ w.committed → P (thrown e, u))
    → ((u : World) → u.committed ≡ w.committed → P (hang, u))
    → ((a : A) (u : World)
        → m w ≡ (done a, u)
        → u.committed ≡ w.committed
        → u.finished ≡ w.finished
        → P (f a u))
    → P ((m >>= f) w)
unfolding ◌>>=◌
>>=-ends P m f w k on_throw on_hang on_done =
    resume-ends P m f (m w) w refl (k.committed w) (k.finished w) on_throw on_hang on_done
