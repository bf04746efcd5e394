-- ===== src/ReconcileTask/Once.antt =====
-- What one round of the daily task does to the database.
use trade_reconcile_system.Base.{
  Bool, Option, Option-cases, [], count_where, false, if◌then◌else◌, inl, inr, ltb, refl, some, sym,
  true, ◌+◌, ◌/◌, ◌≡◌,
}
use trade_reconcile_system.Base.Bytes.{Bytes}
use trade_reconcile_system.Base.Calendar.{format_date, gmtime}
use trade_reconcile_system.Base.Int.{pos}
use trade_reconcile_system.Dao.Reconcile.{has_batch_for_date, of_date}
use trade_reconcile_system.Db.Monad.{
  Env, M, Outcome, World, autocommit, done, exec_auto, exec_auto_on, hang, pure, read_clock, resume,
  thrown, ◌>>=◌, ◌>>◌,
}
use trade_reconcile_system.Db.Monad.Laws.{>>=-ends}
use trade_reconcile_system.ReconcileService.{bill_path, channel_name, run}
use trade_reconcile_system.ReconcileService.Bills.{RunsOn, run-RunsOn}
use trade_reconcile_system.ReconcileService.Steps.{has_batch_for_date-Keeps}
use trade_reconcile_system.ReconcileTask.{
  check_and_run, check_bill, eight_hours_ms, run_unless_done, today_beijing,
}

-- The day that a round of the task reconciles.
abbrev pub day_of : Env → World → Bytes
day_of env w = format_date (gmtime (pos ((env.clock w.generator.readings + eight_hours_ms) / 1000)))

>>-world :
    {A : Type 0} (m : M A) (w : World) (r : Outcome A × World)
    → m w ≡ r
    → ((m >> pure tt) w).1.committed ≡ r.1.committed
unfolding pure ◌>>◌ ◌>>=◌ resume
>>-world m w (done a, u) e = rw e refl
>>-world m w (thrown x, u) e = rw e refl
>>-world m w (hang, u) e = rw e refl

unless-RunsOn :
    (env : Env) (read_bill : Bytes → Option Bytes) (bill_date : Bytes) (exists : Bool) (w u : World)
    → u.committed ≡ w.committed
    → RunsOn read_bill bill_date w.committed
        ((if exists then pure tt else run env read_bill bill_date >> pure tt) u).1.committed
unfolding pure
unless-RunsOn env read_bill bill_date true w u k = inl k
unless-RunsOn env read_bill bill_date false w u k =
    rw (>>-world (run env read_bill bill_date) u _ refl)
      (rw (sym k) (run-RunsOn env read_bill bill_date u))

run_unless_done-RunsOn :
    (env : Env) (read_bill : Bytes → Option Bytes) (bill_date : Bytes) (w : World)
    → RunsOn read_bill bill_date w.committed (run_unless_done env read_bill bill_date w).1.committed
unfolding run_unless_done
run_unless_done-RunsOn env read_bill bill_date w =
    >>=-ends (λ r. RunsOn read_bill bill_date w.committed r.1.committed)
      (has_batch_for_date bill_date channel_name) _ w
      (has_batch_for_date-Keeps bill_date channel_name) (λ e u k. inl k) (λ u k. inl k)
      (λ exists u asks k f. unless-RunsOn env read_bill bill_date exists w u k)

check_bill-RunsOn :
    (env : Env) (read_bill : Bytes → Option Bytes) (bill_date : Bytes) (w : World)
    → RunsOn read_bill bill_date w.committed (check_bill env read_bill bill_date w).1.committed
unfolding check_bill pure
check_bill-RunsOn env read_bill bill_date w =
    elim (Option-cases (read_bill (bill_path bill_date))) [
      | inl missing ↦ rw (missing, check_bill) (inl refl)
      | inr (bill, opens) ↦
          rw (opens, check_bill) (run_unless_done-RunsOn env read_bill bill_date w)
    ]

-- However a round of the daily task ends, the committed database is unchanged, or the day in Beijing
-- had no batch, its bill file opened and parsed to rows, and the committed database is the specified
-- one for these rows.
pub check_and_run-RunsOn :
    (env : Env) (read_bill : Bytes → Option Bytes) (w : World)
    → RunsOn read_bill (day_of env w) w.committed (check_and_run env read_bill w).1.committed
unfolding check_and_run today_beijing read_clock pure ◌>>=◌ resume
check_and_run-RunsOn env read_bill w = check_bill-RunsOn env read_bill (day_of env w) _

-- The world in which the task asks for a batch: the clock has been read.
abbrev pub clock_read : World → World
clock_read w = record w { generator = record w.generator { readings = w.generator.readings + 1 } }

-- Whether the day has a batch of the channel.
abbrev pub has_batch : Bytes → World → Bool
has_batch bill_date w = ltb 0 (count_where (of_date bill_date channel_name) w.committed.batches)

asked :
    (bill_date : Bytes) (w : World)
    → w.faults ≡ []
    → has_batch_for_date bill_date channel_name w ≡ (done (has_batch bill_date w), w)
unfolding has_batch_for_date exec_auto exec_auto_on autocommit
asked bill_date w quiet = rw quiet refl

>>-same_world :
    {A : Type 0} (m : M A) (w : World) (r : Outcome A × World)
    → m w ≡ r
    → ((m >> pure tt) w).1 ≡ r.1
unfolding pure ◌>>◌ ◌>>=◌ resume
>>-same_world m w (done a, u) e = rw e refl
>>-same_world m w (thrown x, u) e = rw e refl
>>-same_world m w (hang, u) e = rw e refl

decided :
    (env : Env) (read_bill : Bytes → Option Bytes) (bill_date : Bytes) (exists : Bool) (u : World)
    → ((if exists then pure tt else run env read_bill bill_date >> pure tt) u).1
      ≡ (if exists then u else (run env read_bill bill_date u).1)
unfolding pure
decided env read_bill bill_date true u = refl
decided env read_bill bill_date false u = >>-same_world (run env read_bill bill_date) u _ refl

unless-decided :
    (env : Env) (read_bill : Bytes → Option Bytes) (bill_date : Bytes) (u : World)
    → u.faults ≡ []
    → (run_unless_done env read_bill bill_date u).1
      ≡ (if has_batch bill_date u then u else (run env read_bill bill_date u).1)
unfolding run_unless_done ◌>>=◌ resume
unless-decided env read_bill bill_date u quiet =
    rw (asked bill_date u quiet) (decided env read_bill bill_date (has_batch bill_date u) u)

bill-decided :
    (env : Env) (read_bill : Bytes → Option Bytes) (bill_date bill : Bytes) (u : World)
    → u.faults ≡ []
    → read_bill (bill_path bill_date) ≡ some bill
    → (check_bill env read_bill bill_date u).1
      ≡ (if has_batch bill_date u then u else (run env read_bill bill_date u).1)
unfolding check_bill
bill-decided env read_bill bill_date bill u quiet opens =
    rw (opens, check_bill) (unless-decided env read_bill bill_date u quiet)

-- A round of the daily task for a day in Beijing whose bill file opens, when no statement fails: if the
-- day has a batch of the channel, the world is left as it is but for the reading of the clock, and if
-- it has none, the world is the one that `run` of the day leaves. In both cases the committed database
-- is the old one, or the bill parsed to rows and it is the specified one for these rows.
pub check_and_run-decides :
    (env : Env) (read_bill : Bytes → Option Bytes) (bill : Bytes) (w : World)
    → w.faults ≡ []
    → read_bill (bill_path (day_of env w)) ≡ some bill
    → ((check_and_run env read_bill w).1 ≡ (
        if has_batch (day_of env w) w
        then clock_read w
        else (run env read_bill (day_of env w) (clock_read w)).1))
      × RunsOn read_bill (day_of env w) w.committed (check_and_run env read_bill w).1.committed
unfolding check_and_run today_beijing read_clock pure ◌>>=◌ resume
check_and_run-decides env read_bill bill w quiet opens = (
  bill-decided env read_bill (day_of env w) bill (clock_read w) quiet opens,
  check_and_run-RunsOn env read_bill w,
)
