-- ===== src/Db/Monad/Returns.antt =====
-- How a call that returns splits into its steps, and what each step returns.
use trade_reconcile_system.Base.{
  Bool, List, Option, [], ap, false, none, refl, some, some_inj, sym, true, ℕ, ◌∷◌, ◌≡◌,
}
use trade_reconcile_system.Base.Bytes.{Bytes}
use trade_reconcile_system.Db.{Db}
use trade_reconcile_system.Db.Monad.{
  Env, Exception, M, Outcome, Statement, World, done, exec, exec_on, hang, in_transaction, next_id,
  or_throw, pure, query, read_clock, require, resume, store_generated, thrown, ◌>>=◌, ◌>>◌,
}
use trade_reconcile_system.Ids.{Generated, generated, moved_backwards, next_number, spinning}

abbrev end_of : {A : Type 0} → Outcome A × World → Outcome A
end_of r = r.0

pub done-injective : {A : Type 0} {a b : A} → done a ≡ done b → a ≡ b
done-injective e = cc

resume-done :
    {A B : Type 0} (f : A → M B) (r : Outcome A × World) {b : B} {w' : World}
    → resume f r ≡ (done b, w')
    → (a : A) × (u : World) × (r ≡ (done a, u)) × (f a u ≡ (done b, w'))
unfolding resume
resume-done f (done a, u) k = (a, u, refl, k)
resume-done f (thrown x, u) k = cc (ap end_of k)
resume-done f (hang, u) k = cc (ap end_of k)

-- A bind that returns is a step that returns and a rest that returns.
pub >>=-done :
    {A B : Type 0} (m : M A) (f : A → M B) (w : World) {b : B} {w' : World}
    → (m >>= f) w ≡ (done b, w')
    → (a : A) × (u : World) × (m w ≡ (done a, u)) × (f a u ≡ (done b, w'))
unfolding ◌>>=◌
>>=-done m f w e = resume-done f (m w) e

in_transaction-done :
    {A : Type 0} (o : Option (A × Db)) (w : World) {a : A} {w' : World}
    → in_transaction o w ≡ (done a, w')
    → o ≡ some (a, w'.working)
unfolding in_transaction
in_transaction-done none w h = cc (ap end_of h)
in_transaction-done {A} (some (b, db)) w {a} {w'} h =
    let e : b ≡ a = done-injective (ap end_of h) in
    let d : db ≡ w'.working = ap (λ (s : Outcome A × World). s.1.working) h in rw (e, d)

exec_on-done :
    {A : Type 0} (f : Statement A) (l : List Bool) (w : World) {a : A} {w' : World}
    → exec_on f l w ≡ (done a, w')
    → f w.working ≡ some (a, w'.working)
unfolding exec_on
exec_on-done f [] w h = in_transaction-done (f w.working) w h
exec_on-done f (true ∷ rest) w h = cc (ap end_of h)
exec_on-done f (false ∷ rest) w h = in_transaction-done (f w.working) (record w { faults = rest }) h

-- A statement that returns has run on the working database.
pub exec-done :
    {A : Type 0} (f : Statement A) (w : World) {a : A} {w' : World}
    → exec f w ≡ (done a, w')
    → f w.working ≡ some (a, w'.working)
unfolding exec
exec-done f w h = exec_on-done f w.faults w h

-- The steps that return, one by one: what they return, and the working database after them.
pub pure-done :
    {A : Type 0} (a : A) (w : World) {b : A} {w' : World}
    → pure a w ≡ (done b, w')
    → (a ≡ b) × (w'.working ≡ w.working)
unfolding pure
pure-done {A} a w e =
    (done-injective (ap end_of e), sym (ap (λ (s : Outcome A × World). s.1.working) e))

pub require-done :
    (b : Bool) (x : Exception) (w : World) {u : Unit {0}} {w' : World}
    → require b x w ≡ (done u, w')
    → (b ≡ true) × (w'.working ≡ w.working)
unfolding require
require-done true x w e = (refl, sym (ap (λ (s : Outcome (Unit {0}) × World). s.1.working) e))
require-done false x w e = cc (ap end_of e)

pub or_throw-done :
    {A : Type 0} (o : Option A) (x : Exception) (w : World) {a : A} {w' : World}
    → or_throw o x w ≡ (done a, w')
    → (o ≡ some a) × (w'.working ≡ w.working)
unfolding or_throw
or_throw-done none x w e = cc (ap end_of e)
or_throw-done {A} (some b) x w e =
    (ap some (done-injective (ap end_of e)), sym (ap (λ (s : Outcome A × World). s.1.working) e))

pub update-done :
    {A : Type 0} (g : Db → A) (h : Db → Db) (w : World) {a : A} {w' : World}
    → exec (λ db. some (g db, h db)) w ≡ (done a, w')
    → (a ≡ g w.working) × (w'.working ≡ h w.working)
update-done {A} g h w {a} {w'} e =
    let s = exec-done (λ db. some (g db, h db)) w e in
    let p : (g w.working, h w.working) ≡ (a, w'.working) = some_inj s in
    (sym (ap (λ (q : A × Db). q.0) p), sym (ap (λ (q : A × Db). q.1) p))

pub query-done :
    {A : Type 0} (f : Db → A) (w : World) {a : A} {w' : World}
    → exec (query f) w ≡ (done a, w')
    → (a ≡ f w.working) × (w'.working ≡ w.working)
query-done f w e = update-done f (λ db. db) w e

store_generated-done :
    (r : Generated) (w : World) {t : Bytes} {w' : World}
    → store_generated r w ≡ (done t, w')
    → w'.working ≡ w.working
unfolding store_generated
store_generated-done (generated n g) w e = sym (ap (λ (s : Outcome Bytes × World). s.1.working) e)
store_generated-done (moved_backwards g) w e = cc (ap end_of e)
store_generated-done spinning w e = cc (ap end_of e)

pub next_id-done :
    (env : Env) (w : World) {t : Bytes} {w' : World}
    → next_id env w ≡ (done t, w')
    → w'.working ≡ w.working
unfolding next_id
next_id-done env w e = store_generated-done (next_number env.rounds env.clock w.generator) w e

pub read_clock-done :
    (env : Env) (w : World) {t : ℕ} {w' : World}
    → read_clock env w ≡ (done t, w')
    → w'.working ≡ w.working
unfolding read_clock
read_clock-done env w e = sym (ap (λ (s : Outcome ℕ × World). s.1.working) e)

pub >>-done :
    {A B : Type 0} (m : M A) (k : M B) (w : World) {b : B} {w' : World}
    → (m >> k) w ≡ (done b, w')
    → (a : A) × (u : World) × (m w ≡ (done a, u)) × (k u ≡ (done b, w'))
unfolding ◌>>◌
>>-done m k w e = >>=-done m (λ _. k) w e
