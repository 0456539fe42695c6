-- ===== src/Spsc/Inv.antt =====
-- The indices of the ring: always below `N`, stepped by one and round the end.
use capy_js.Prelude.{ℕ, ◌+◌, ◌-◌, ◌^◌, ◌<◌, ◌≡◌, arith, ap, ap₂, ◌∙◌, inl, inr}
use capy_js.Prelude.{bit_and, add_size, ◌==◌, if◌then◌else◌, leb, Bool-cases}
use capy_js.Prelude.Bits.{bit_and_below, bit_and_at, power_of_two}
use capy_js.Spsc.{Spsc, IsSize, next, init, push, pop}

-- The index after `i`, without masks.
abbrev pub turn : ℕ → ℕ → ℕ
turn N i = if i + 1 == N then 0 else i + 1

turn_of_power :
    (k N i : ℕ) → N ≡ 2 ^ k → N < 2 ^ 64 → i < N → bit_and (add_size i 1) (N - 1) ≡ turn N i
turn_of_power k N i e word h = elim (Bool-cases (i + 1 == N)) [
  | inl last ↦
      let wrapped : add_size i 1 ≡ 2 ^ k = ground arith in
      rw last (ap₂ bit_and wrapped mask ∙ bit_and_at k)
  | inr inside ↦ rw inside (ap₂ bit_and no_wrap mask ∙ bit_and_below k (i + 1) (ground arith))
]
  where
    mask : N - 1 ≡ 2 ^ k - 1
    mask = ap (λ (m : ℕ). m - 1) e

    no_wrap : add_size i 1 ≡ i + 1
    no_wrap = omega arith

-- The masked step is the step round the end.
pub next-turn : {N : ℕ} (i : ℕ) → IsSize N → i < N → next N i ≡ turn N i
unfolding next
next-turn {N} i s h =
    let (k, e) = power_of_two N (omega arith) s.power in turn_of_power k N i e s.word h

module _ {ℓ} {A : Type ℓ} where
  pub record IsValid (N : ℕ) (q : Spsc A) : Type 0 where
    pub size : IsSize N
    pub write_in : q.write < N
    pub read_in : q.read < N

  -- The constructed queue is valid.
  pub init-IsValid : {N : ℕ} (cells : ℕ → A) → IsSize N → IsValid N (init cells)
  unfolding init
  init-IsValid cells s = record { size = s; write_in = omega arith; read_in = omega arith }

  pub push-IsValid : {N : ℕ} {q : Spsc A} (x : A) → IsValid N q → IsValid N (push N x q).1
  unfolding push
  push-IsValid {q} x v = ground (arith, next-turn q.write v.size v.write_in)

  pub pop-IsValid : {N : ℕ} {q : Spsc A} → IsValid N q → IsValid N (pop N q).1
  unfolding pop
  pop-IsValid {q} v = ground (arith, next-turn q.read v.size v.read_in)

  -- The number of items, as an observer of both indices would count them.
  abbrev pub count : ℕ → Spsc A → ℕ
  count N q = if leb q.read q.write then q.write - q.read else q.write + N - q.read

  pub count-lt : {N : ℕ} {q : Spsc A} → IsValid N q → count N q < N
  count-lt v = ground arith
