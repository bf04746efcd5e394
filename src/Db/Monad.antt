-- ===== src/Db/Monad.antt =====
-- Calls that read clocks, run SQL statements and throw: src/utils/DbUtil.h and DbUtil.cc, with the
-- two kinds of exceptions of the services. A statement may fail for a reason outside the program
-- (a lost connection, a deadlock): the world says which ones do.
pub mod Laws
pub mod Returns
pub mod Commit
use trade_reconcile_system.Base.{
  Bool, List, Option, String, [], false, if◌then◌else◌, none, some, true, ℕ, ◌+◌, ◌∷◌,
}
use trade_reconcile_system.Base.Bytes.{Bytes}
use trade_reconcile_system.Db.{Db}
use trade_reconcile_system.Ids.{
  Clock, Generated, Generator, generated, id_text, moved_backwards, next_number, spinning,
}
use trade_reconcile_system.Models.ErrCode.{ErrCode}
use trade_reconcile_system.Models.Json.{Json}

pub data Exception : Type 0 where
  biz : ErrCode → String → Exception
  db_exception std_exception : Exception

-- `hang` is a call that is still in the spin loop of `waitNextMs`.
pub data Outcome (A : Type 0) : Type 0 where
  done : A → Outcome A
  thrown : Exception → Outcome A
  hang : Outcome A

-- `working` is the database as the open transaction sees it; `finished` is the guard's flag;
-- each entry of `faults` says whether the next statement fails, and none fails after the last.
pub record World : Type 0 where
  pub committed : Db
  pub working : Db
  pub finished : Bool
  pub generator : Generator
  pub faults : List Bool

-- What the process takes from its surroundings: the clock, the rounds of the spin loop that the
-- model runs, the database's clock, and jsoncpp's two ways to print a value.
pub record Env : Type 0 where
  pub clock : Clock
  pub rounds : ℕ
  pub db_now : ℕ
  pub write_compact : Json → Bytes
  pub write_styled : Json → Bytes

abbrev pub M : Type 0 → Type 0
M A = World → Outcome A × World

unfoldable pub pure : {A : Type 0} → A → M A
pure a w = (done a, w)

unfoldable pub throw : {A : Type 0} → Exception → M A
throw e w = (thrown e, w)

-- What follows a first part: an exception or the spin loop passes it over.
unfoldable pub resume : {A B : Type 0} → (A → M B) → Outcome A × World → Outcome B × World
resume f (done a, w) = f a w
resume f (thrown e, w) = (thrown e, w)
resume f (hang, w) = (hang, w)

infixl 5 ◌>>=◌ ◌>>◌
unfoldable pub ◌>>=◌ : {A B : Type 0} → M A → (A → M B) → M B
unfolding resume
◌>>=◌ m f w = resume f (m w)

unfoldable pub ◌>>◌ : {A B : Type 0} → M A → M B → M B
unfolding ◌>>=◌
m >> k = m >>= λ _. k

-- `throw` unless the test holds.
unfoldable pub require : Bool → Exception → M (Unit {0})
unfolding pure throw
require true e = pure tt
require false e = throw e

unfoldable pub or_throw : {A : Type 0} → Option A → Exception → M A
unfolding pure throw
or_throw none e = throw e
or_throw (some a) e = pure a

-- A statement on a database: `none` when a constraint refuses it.
abbrev pub Statement : Type 0 → Type 0
Statement A = Db → Option (A × Db)

unfoldable pub in_transaction : {A : Type 0} → Option (A × Db) → M A
in_transaction none w = (thrown db_exception, w)
in_transaction (some (a, db)) w = (done a, record w { working = db })

unfoldable pub exec_on : {A : Type 0} → Statement A → List Bool → M A
unfolding in_transaction
exec_on f [] w = in_transaction (f w.working) w
exec_on f (true ∷ rest) w = (thrown db_exception, record w { faults = rest })
exec_on f (false ∷ rest) w = in_transaction (f w.working) (record w { faults = rest })

-- `tx->execSqlSync`
unfoldable pub exec : {A : Type 0} → Statement A → M A
unfolding exec_on
exec f w = exec_on f w.faults w

unfoldable pub autocommit : {A : Type 0} → Option (A × Db) → M A
autocommit none w = (thrown db_exception, w)
autocommit (some (a, db)) w = (done a, record w { committed = db })

unfoldable pub exec_auto_on : {A : Type 0} → Statement A → List Bool → M A
unfolding autocommit
exec_auto_on f [] w = autocommit (f w.committed) w
exec_auto_on f (true ∷ rest) w = (thrown db_exception, record w { faults = rest })
exec_auto_on f (false ∷ rest) w = autocommit (f w.committed) (record w { faults = rest })

-- `drogon::app().getDbClient()->execSqlSync`: a statement of its own, outside any transaction.
unfoldable pub exec_auto : {A : Type 0} → Statement A → M A
unfolding exec_auto_on
exec_auto f w = exec_auto_on f w.faults w

abbrev pub query : {A : Type 0} → (Db → A) → Statement A
query f db = some (f db, db)

-- `beginTransaction`, which may fail as a statement may, and the guard's constructor.
unfoldable pub begin_transaction : M (Unit {0})
unfolding exec
begin_transaction w = exec (query (λ _. tt)) (record w { working = w.committed; finished = false })

-- `TransactionGuard::commit`
unfoldable pub commit : M (Unit {0})
unfolding exec ◌>>=◌
commit w =
    if w.finished
    then (thrown std_exception, w)
    else (do
      db ← exec (query (λ db. db))
      λ w'. (done tt, record w' { committed = db; finished = true }))
        w

-- `~TransactionGuard`: roll back unless committed.
unfoldable pub guard_exit : World → World
guard_exit w = if w.finished then w else record w { working = w.committed }

unfoldable pub transaction : {A : Type 0} → M A → M A
unfolding begin_transaction guard_exit ◌>>◌
transaction m w = let (r, w') = (begin_transaction >> m) w in (r, guard_exit w')

-- `std::chrono::system_clock::now()`, in milliseconds.
unfoldable pub read_clock : Env → M ℕ
read_clock env w =
    let g = w.generator in
    (done (env.clock g.readings), record w { generator = record g { readings = g.readings + 1 } })

unfoldable pub store_generated : Generated → M Bytes
store_generated (generated n g) w = (done (id_text n), record w { generator = g })
store_generated (moved_backwards g) w = (thrown std_exception, record w { generator = g })
store_generated spinning w = (hang, w)

-- `IdGenerator::nextId`
unfoldable pub next_id : Env → M Bytes
unfolding store_generated
next_id env w = store_generated (next_number env.rounds env.clock w.generator) w
