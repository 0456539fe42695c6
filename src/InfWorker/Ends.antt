-- ===== src/InfWorker/Ends.antt =====
-- The results that end a job, and what the thread has in hand.
use capy_js.Prelude.{
  ℕ, suc, ◌≤◌, arith, ◌<◌, ◌≡◌, refl, ◌-◌, ◌==◌, inl, inr, Bool-cases, Bool, true, false, List, [],
  ◌∷◌, ◌++◌, if◌then◌else◌, length,
}
use capy_js.InfWorker.{
  InfWorkItem, InfResult, Next, finished, go_on, Worker, waiting, starting, generating, pushing,
  ringing, decoding, exited, token_gen_max, is_last, token_result, after_token, Main, calling,
  joining,
}

-- A job by its id and its callback.
abbrev pub owner : InfWorkItem → ℕ × ℕ
owner item = (item.job.job_id, item.callback)

abbrev pub sender : InfResult → ℕ × ℕ
sender r = (r.job_id, r.callback)

abbrev pub ends : List InfResult → List (ℕ × ℕ)
ends [] = []
ends (r ∷ rs) = if r.is_done then sender r ∷ ends rs else ends rs

if_append :
    (b : Bool) (x : ℕ × ℕ) (xs ys : List (ℕ × ℕ))
    → (if b then x ∷ (xs ++ ys) else xs ++ ys) ≡ (if b then x ∷ xs else xs) ++ ys
if_append true x xs ys = refl
if_append false x xs ys = refl

pub ends-append : (rs ts : List InfResult) → ends (rs ++ ts) ≡ ends rs ++ ends ts
ends-append [] ts = refl
ends-append (r ∷ rs) ts =
    rw (ends-append rs ts) (if_append r.is_done (sender r) (ends rs) (ends ts))

length-if :
    (b : Bool) (x : ℕ × ℕ) (xs : List (ℕ × ℕ)) → length (if b then x ∷ xs else xs) ≤ suc (length xs)
length-if true x xs = omega arith
length-if false x xs = omega arith

pub length-ends : (rs : List InfResult) → length (ends rs) ≤ length rs
length-ends [] = omega arith
length-ends (r ∷ rs) = omega (arith, length-ends rs, length-if r.is_done (sender r) (ends rs))

abbrev pub left_by : InfResult → Next → List (ℕ × ℕ)
left_by r finished = sender r ∷ []
left_by r (go_on item i) = owner item ∷ []

abbrev pub left_after : Next → List (ℕ × ℕ)
left_after finished = []
left_after (go_on item i) = owner item ∷ []

-- The job whose last result the thread has not pushed yet.
abbrev pub in_hand : Worker → List (ℕ × ℕ)
in_hand waiting = []
in_hand (starting item) = owner item ∷ []
in_hand (generating item i) = owner item ∷ []
in_hand (pushing r next) = left_by r next
in_hand (ringing next) = left_after next
in_hand (decoding item i) = owner item ∷ []
in_hand exited = []

-- A result is the last one of its job exactly when the thread is done with the job, and no round is
-- past the limit.
abbrev pub Fits : InfResult → Next → Type 0
Fits r finished = r.is_done ≡ true
Fits r (go_on item i) = (r.is_done ≡ false) × (sender r ≡ owner item) × (i < token_gen_max)

abbrev pub Goes : Next → Type 0
Goes finished = Unit
Goes (go_on item i) = i < token_gen_max

abbrev pub Sound : Worker → Type 0
Sound (generating item i) = i < token_gen_max
Sound (decoding item i) = i < token_gen_max
Sound (pushing r next) = Fits r next
Sound (ringing next) = Goes next
Sound _ = Unit

abbrev pub in_call : Main → ℕ
in_call (calling true) = 1
in_call (joining true) = 1
in_call _ = 0

-- Round `i` has the limit in its last result.
pub sampled :
    (is_eog : Bool) (piece : List ℕ) (i : ℕ) (item : InfWorkItem)
    → i < token_gen_max
    → Fits (token_result is_eog piece i item) (after_token is_eog i item)
      × (left_by (token_result is_eog piece i item) (after_token is_eog i item) ≡ owner item ∷ [])
unfolding token_result after_token is_last
sampled true piece i item h = (refl, refl)
sampled false piece i item h = elim (Bool-cases (i == token_gen_max - 1)) [
  | inl e ↦ rw e (refl, refl)
  | inr e ↦ rw e ((refl, refl, ground (arith, e)), refl)
]
