-- ===== src/WorkPlan/Service/Next/Order.antt =====
-- The order of the candidates of `GetNextWorkTask`.
use text.Mathlib.TextEquality.{eq_iff}
use go_mivia.Base.{String, ◌≡◌, ◌≢◌, ◌⊎◌, true, false, arith, nat_eq, string_eq}
use go_mivia.Text.Order.{str_ltb_asym, str_ltb_not_trans}
use go_mivia.WorkPlan.TaskStatus.{task_status_eq}
use go_mivia.WorkPlan.Model.{WorkTask}
use go_mivia.WorkPlan.Service.Next.{goes_first}

-- The tasks that the owner filter lets through.
abbrev pub Fits : String → WorkTask → Type 0
Fits owner t = (owner ≢ "") → (t.owner_agent ≡ "") ⊎ (t.owner_agent ≡ owner)

pub goes_first_asym :
    (owner : String) (a b : WorkTask) → goes_first owner a b ≡ true → goes_first owner b a ≡ false
unfolding goes_first
goes_first_asym owner a b h = ground (
  arith,
  eq_iff owner "",
  eq_iff a.owner_agent b.owner_agent,
  eq_iff b.owner_agent a.owner_agent,
  eq_iff a.owner_agent owner,
  eq_iff b.owner_agent owner,
  str_ltb_asym a.task_ref b.task_ref,
)

pub goes_first_not_trans :
    (owner : String) (a b c : WorkTask)
    → Fits owner a
    → Fits owner b
    → Fits owner c
    → goes_first owner b a ≡ false
    → goes_first owner c b ≡ false
    → goes_first owner c a ≡ false
unfolding goes_first
goes_first_not_trans owner a b c fa fb fc h k = ground (
  arith,
  eq_iff owner "",
  eq_iff b.owner_agent a.owner_agent,
  eq_iff c.owner_agent b.owner_agent,
  eq_iff c.owner_agent a.owner_agent,
  eq_iff a.owner_agent owner,
  eq_iff b.owner_agent owner,
  eq_iff c.owner_agent owner,
  str_ltb_not_trans a.task_ref b.task_ref c.task_ref,
)

pub goes_first_irrefl : (owner : String) (a : WorkTask) → goes_first owner a a ≡ false
goes_first_irrefl owner a = ground (arith, goes_first_asym owner a a)
