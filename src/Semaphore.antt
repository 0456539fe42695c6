-- ===== src/Semaphore.antt =====
-- The semaphore of libuv (`uv_sem_*`), which the queue only calls: the operations that it uses, with
-- what they are documented to do. `sem_wait` is `none` where the caller would sleep.
use capy_js.Prelude.{ℕ, zero, suc, ◌≡◌, refl, sym, ap, ◌∙◌, Option, none, some}

pub record Semaphore : Type 1 where
  pub Sem : Type 0
  pub sem_init : ℕ → Sem
  pub sem_post : Sem → Sem
  pub sem_wait : Sem → Option Sem
  pub units : Sem → ℕ
  pub units-sem_init : (n : ℕ) → units (sem_init n) ≡ n
  pub units-sem_post : (s : Sem) → units (sem_post s) ≡ suc (units s)
  pub sem_wait_sleeps : (s : Sem) → units s ≡ 0 → sem_wait s ≡ none
  pub sem_wait_takes :
      (s : Sem) (n : ℕ) → units s ≡ suc n → (s' : Sem) × (sem_wait s ≡ some s') × (units s' ≡ n)

-- A wait that returns has taken one unit.
pub sem_wait-units :
    (S : Semaphore) (s s' : S.Sem) → S.sem_wait s ≡ some s' → S.units s ≡ suc (S.units s')
sem_wait-units S s s' e = go (S.units s) refl
  where
    go : (n : ℕ) → S.units s ≡ n → S.units s ≡ suc (S.units s')
    go zero h = cc (S.sem_wait_sleeps s h)
    go (suc n) h =
        let (t, e', h') = S.sem_wait_takes s n h in
        let same : t ≡ s' = cc in h ∙ ap suc (sym h' ∙ ap S.units same)

-- A semaphore that is its number of units.
abbrev pub wait_unit : ℕ → Option ℕ
wait_unit zero = none
wait_unit (suc n) = some n

pub wait_unit_sleeps : (s : ℕ) → s ≡ 0 → wait_unit s ≡ none
wait_unit_sleeps s e = rw e

pub wait_unit_takes : (s n : ℕ) → s ≡ suc n → (s' : ℕ) × (wait_unit s ≡ some s') × (s' ≡ n)
wait_unit_takes s n e = (n, rw e, refl)

abbrev pub counting : Semaphore
counting = record {
  Sem = ℕ;
  sem_init = λ n. n;
  sem_post = λ s. suc s;
  sem_wait = wait_unit;
  units = λ s. s;
  units-sem_init = λ n. refl;
  units-sem_post = λ s. refl;
  sem_wait_sleeps = wait_unit_sleeps;
  sem_wait_takes = wait_unit_takes;
}
