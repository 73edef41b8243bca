-- ===== src/Scheduler/Quota.antt =====
-- CPU quotas of jobs: the `Job` of kernel/src/process.rs.
--
-- A process and a job are the numbers by which `Arc`s to them are told apart; `members` lists those
-- processes of a job whose weak pointers can still be upgraded. Times are `u64`: sums wrap, the
-- code's saturating operations stop at 0 and at 2 ^ 64 - 1.
pub mod Laws
use nexo_os.Prelude.{
  ℕ, ◌+◌, ◌-◌, ◌%◌, ◌^◌, min, Bool, true, false, not, ◌&&◌, ◌||◌, List, [], ◌∷◌, ◌++◌, Option, none,
  some, leb, ◌==◌, if◌then◌else◌,
}

pub record Job : Type 0 where
  pub members : List ℕ
  pub cpu_limite_ns : ℕ
  pub cpu_base_ns : ℕ
  pub throttled : Bool

-- `cpu_ns` and `job` of every process, the jobs, and `JOBS_COM_QUOTA`.
pub record Accounts : Type 0 where
  pub cpu_ns : ℕ → ℕ
  pub job : ℕ → Option ℕ
  pub jobs : ℕ → Job
  pub jobs_com_quota : List ℕ

abbrev pub update {ℓ} : {A : Type ℓ} → (ℕ → A) → ℕ → A → ℕ → A
update f i v j = if i == j then v else f j

abbrev pub u64_mod : ℕ
u64_mod = 2 ^ 64

abbrev pub saturating_add : ℕ → ℕ → ℕ
saturating_add a b = min (a + b) (u64_mod - 1)

unfoldable pub contains : List ℕ → ℕ → Bool
contains [] x = false
contains (y ∷ ys) x = (y == x) || contains ys x

-- `Job::new`.
abbrev pub new_job : Job
new_job = record { members = []; cpu_limite_ns = 0; cpu_base_ns = 0; throttled = false }

unfoldable pub tem_quota : Job → Bool
tem_quota j = not (j.cpu_limite_ns == 0)

unfoldable pub sum_cpu : (ℕ → ℕ) → List ℕ → ℕ
sum_cpu cpu [] = 0
sum_cpu cpu (p ∷ ps) = cpu p + sum_cpu cpu ps

unfoldable pub cpu_total_ns : Accounts → Job → ℕ
unfolding sum_cpu
cpu_total_ns a j = sum_cpu a.cpu_ns j.members % u64_mod

unfoldable pub estourou : Accounts → Job → ℕ → Bool
unfolding cpu_total_ns
estourou a j extra =
    if j.cpu_limite_ns == 0
    then false
    else leb j.cpu_limite_ns (saturating_add (cpu_total_ns a j) extra - j.cpu_base_ns)

abbrev pub put_job : Accounts → ℕ → Job → Accounts
put_job a n j = record a { jobs = update a.jobs n j }

unfoldable pub marca_throttle : Accounts → ℕ → Accounts
marca_throttle a n = put_job a n (record (a.jobs n) { throttled = true })

unfoldable pub set_cpu_limit : Accounts → ℕ → ℕ → Accounts
unfolding cpu_total_ns contains
set_cpu_limit a n ns =
    let anchored = record (a.jobs n) {
      cpu_limite_ns = ns;
      cpu_base_ns = cpu_total_ns a (a.jobs n);
    } in
    if ns == 0 then put_job a n (record anchored { throttled = false }) else record a {
      jobs = update a.jobs n anchored;
      jobs_com_quota =
          if contains a.jobs_com_quota n then a.jobs_com_quota else a.jobs_com_quota ++ n ∷ [];
    }

unfoldable pub fecha_janela : Accounts → ℕ → Accounts
unfolding cpu_total_ns
fecha_janela a n =
    let j = a.jobs n in
    let total = cpu_total_ns a j in
    let gasto = total - j.cpu_base_ns in
    if j.cpu_limite_ns == 0
    then put_job a n (record j { throttled = false })
    else put_job a n (record j {
      cpu_base_ns = total - (gasto - j.cpu_limite_ns);
      throttled = leb j.cpu_limite_ns gasto;
    })

unfoldable pub attach : Accounts → ℕ → ℕ → Accounts
unfolding contains
attach a n p =
    let j = a.jobs n in
    record a {
      jobs =
          update a.jobs n (record j {
            members = if contains j.members p then j.members else j.members ++ p ∷ [];
          });
      job = update a.job p (some n);
    }

unfoldable pub keep_quota : Accounts → List ℕ → List ℕ
unfolding tem_quota
keep_quota a [] = []
keep_quota a (n ∷ ns) =
    let rest = keep_quota a ns in if tem_quota (a.jobs n) then n ∷ rest else rest

unfoldable pub close_windows : Accounts → List ℕ → Accounts
unfolding fecha_janela
close_windows a [] = a
close_windows a (n ∷ ns) = close_windows (fecha_janela a n) ns

unfoldable pub cpu_quota_tick : Accounts → Accounts
unfolding keep_quota close_windows
cpu_quota_tick a =
    close_windows (record a { jobs_com_quota = keep_quota a a.jobs_com_quota }) a.jobs_com_quota

-- Whether the job of a process is out of budget.
unfoldable pub em_throttle : Accounts → ℕ → Bool
unfolding tem_quota
em_throttle a p = elim (a.job p) [
  | none ↦ false
  | some n ↦ (a.jobs n).throttled && tem_quota (a.jobs n)
]
