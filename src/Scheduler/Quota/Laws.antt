-- ===== src/Scheduler/Quota/Laws.antt =====
-- What a job pays for: the end of a window (`fecha_janela` of kernel/src/process.rs).
use nexo_os.Prelude.{ℕ, zero, suc, ◌-◌, ◌*◌, ◌≡◌, ◌≢◌, ◌∙◌, arith, leb}
use nexo_os.Scheduler.Quota.{Accounts, cpu_total_ns, fecha_janela}

-- What the job has used since its base.
abbrev pub spent : Accounts → ℕ → ℕ
spent a n = cpu_total_ns a (a.jobs n) - (a.jobs n).cpu_base_ns

-- The windows of a job that close one after the other.
unfoldable pub windows : ℕ → Accounts → ℕ → Accounts
windows zero a n = a
windows (suc k) a n = windows k (fecha_janela a n) n

module _ (a : Accounts) (n : ℕ) (limited : (a.jobs n).cpu_limite_ns ≢ 0) where
  spent-fecha_janela : spent (fecha_janela a n) n ≡ spent a n - (a.jobs n).cpu_limite_ns
  unfolding fecha_janela cpu_total_ns
  spent-fecha_janela = ground arith

  throttled-fecha_janela :
      ((fecha_janela a n).jobs n).throttled ≡ leb (a.jobs n).cpu_limite_ns (spent a n)
  unfolding fecha_janela
  throttled-fecha_janela = ground arith

limite-fecha_janela :
    (a : Accounts) (n : ℕ) → ((fecha_janela a n).jobs n).cpu_limite_ns ≡ (a.jobs n).cpu_limite_ns
unfolding fecha_janela
limite-fecha_janela a n = ground arith

charge_again : (x l k : ℕ) → x - l - k * l ≡ x - suc k * l
charge_again x l k = grind arith

-- The windows of a job with a limit that close while its processes use no CPU: what it used beyond
-- its budget is charged to the next windows, one budget each, and the window that ends is out of
-- budget exactly if at least a whole budget was left to charge.
pub windows_charge :
    (k : ℕ) (a : Accounts) (n : ℕ)
    → (a.jobs n).cpu_limite_ns ≢ 0
    → let a' = windows (suc k) a n in
      let limite = (a.jobs n).cpu_limite_ns in
      (spent a' n ≡ spent a n - suc k * limite)
      × ((a'.jobs n).throttled ≡ leb limite (spent a n - k * limite))
unfolding windows
windows_charge zero a n h =
    (ground (arith, spent-fecha_janela a n h), ground (arith, throttled-fecha_janela a n h))
windows_charge (suc k) a n h =
    let a1 = fecha_janela a n in
    let same = limite-fecha_janela a n in
    let (s, t) = windows_charge k a1 n (rw same h) in
    let charged = spent-fecha_janela a n h in
    let s' : spent (windows (suc k) a1 n) n ≡ spent a1 n - suc k * (a.jobs n).cpu_limite_ns =
      rw (← same) s in
    let t' : ((windows (suc k) a1 n).jobs n).throttled
        ≡ leb (a.jobs n).cpu_limite_ns (spent a1 n - k * (a.jobs n).cpu_limite_ns) =
      rw (← same) t in
    (
      s' ∙ rw charged (charge_again (spent a n) (a.jobs n).cpu_limite_ns (suc k)),
      t' ∙ rw (charged, charge_again (spent a n) (a.jobs n).cpu_limite_ns k),
    )
