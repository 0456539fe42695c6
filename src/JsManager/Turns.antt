-- ===== src/JsManager/Turns.antt =====
-- The jobs of the script workers of src/js_engine.cc, in turn.
use capy_js.Prelude.{
  Bool-cases, ℕ, suc, ◌+◌, ◌%◌, ◌<◌, ◌≡◌, refl, arith, inl, inr, true, some, List, [], ◌∷◌, ◌++◌,
  append-nil, append_assoc, length, ◌==◌, if◌then◌else◌, size_mod, ap, sym, ◌∙◌,
}
use capy_js.JsManager.{IWorker, Manager, init, js_dispatch}
use capy_js.JsWorker.{JsWorkItem}
use capy_js.JsManager.Share.{share, share-suc, share-zero}
use capy_js.JsManager.Turn.{At, offer, stored, js_dispatch-At}

abbrev pub item : ℕ → List ℕ → ℕ → JsWorkItem
item id input callback = record {
  job = record { job_id = id; input_json = input };
  callback = callback;
}

-- A worker that also keeps what it is offered, whether it takes it or not, the last at the end.
abbrev pub logged : IWorker → IWorker
logged W = record {
  Worker = W.Worker × List JsWorkItem;
  enqueue = λ job callback w.
      let (taken, worker) = W.enqueue job callback w.0 in
      (taken, (worker, w.1 ++ record { job = job; callback = callback } ∷ []));
  stop = λ w. (W.stop w.0, w.1);
}

-- The calls of a script, each with its input and its callback, one after the other.
abbrev pub dispatch_all : (W : IWorker) → List (List ℕ × ℕ) → Manager W → Manager W
dispatch_all W [] m = m
dispatch_all W ((input, callback) ∷ calls) m =
    dispatch_all W calls (js_dispatch W true (some input) callback m).1

-- Every `s`th of the calls from number `k` on, those whose number leaves `i`.
abbrev pub turns : ℕ → ℕ → ℕ → List (List ℕ × ℕ) → List JsWorkItem
turns s i k [] = []
turns s i k ((input, callback) ∷ calls) =
    let rest = turns s i (k + 1) calls in if k % s == i then item k input callback ∷ rest else rest

length-turns :
    (s i k : ℕ) (calls : List (List ℕ × ℕ))
    → i < s
    → length (turns s i k calls) + share s i k ≡ share s i (k + length calls)
length-turns s i k [] h = let same : k ≡ k + 0 = omega arith in omega (arith, ap (share s i) same)
length-turns s i k ((input, callback) ∷ calls) h =
    let rest = length-turns s i (k + 1) calls h in
    let one = share-suc s i k h in
    let n : k + 1 + length calls ≡ k + length ((input, callback) ∷ calls) = omega arith in
    let L = length (turns s i (k + 1) calls) in
    elim (Bool-cases (k % s == i)) [
      | inl turn ↦
          let more : share s i (k + 1) ≡ 1 + share s i k = rw turn at one in
          let shift : suc L + share s i k ≡ L + share s i (k + 1) = rw more (omega arith) in
          rw turn (shift ∙ rest ∙ ap (share s i) n)
      | inr other ↦
          let more : share s i (k + 1) ≡ share s i k = rw other at one in
          let shift : L + share s i k ≡ L + share s i (k + 1) = rw more refl in
          rw other (shift ∙ rest ∙ ap (share s i) n)
    ]

module _ (W : IWorker) where
  abbrev L : IWorker
  L = logged W

  log :
      (m : Manager L) (s k : ℕ) (input : List ℕ) (callback : ℕ)
      → 0 < s
      → k + 1 < size_mod
      → At L m s k
      → (i : ℕ)
      → ((js_dispatch L true (some input) callback m).1.workers i).1
        ≡ (if k % s == i then (m.workers i).1 ++ item k input callback ∷ [] else (m.workers i).1)
  log m s k input callback h small a i =
      let made = stored L m s k input callback h small a i in
      elim (Bool-cases (k % s == i)) [
        | inl turn ↦
            let same : k % s ≡ i = ground (arith, turn) in
            let now : (js_dispatch L true (some input) callback m).1.workers i
                ≡ (offer L m s k input callback).1 =
              rw turn at made in
            rw (now, turn, same) refl
        | inr other ↦
            let now : (js_dispatch L true (some input) callback m).1.workers i ≡ m.workers i =
              rw other at made in
            rw (now, other) refl
      ]

  dispatch_all-logged :
      (calls : List (List ℕ × ℕ)) (m : Manager L) (s k i : ℕ)
      → 0 < s
      → k + length calls < size_mod
      → At L m s k
      → ((dispatch_all L calls m).workers i).1 ≡ (m.workers i).1 ++ turns s i k calls
  dispatch_all-logged [] m s k i h small a = sym (append-nil (m.workers i).1)
  dispatch_all-logged ((input, callback) ∷ calls) m s k i h small a =
      let next = (js_dispatch L true (some input) callback m).1 in
      let one = log m s k input callback h (omega (arith, small)) a i in
      let rest =
        dispatch_all-logged calls next s (k + 1) i h (omega (arith, small))
          (js_dispatch-At L m s k input callback h (omega (arith, small)) a) in
      elim (Bool-cases (k % s == i)) [
        | inl turn ↦
            let here : (next.workers i).1 ≡ (m.workers i).1 ++ item k input callback ∷ [] =
              rw turn at one in
            rw turn (
              rest
              ∙ rw here (
                  append_assoc (m.workers i).1 (item k input callback ∷ [])
                    (turns s i (k + 1) calls)))
        | inr other ↦
            let here : (next.workers i).1 ≡ (m.workers i).1 = rw other at one in
            rw other (rest ∙ rw here refl)
      ]

-- Whatever the workers take or refuse: of the calls of `js_dispatch` with a function and a string, fewer
-- than 2^64 of them, worker `i` of `s` is offered exactly those whose number leaves the remainder `i`,
-- in order, each with its own number as the job id; so that of `n` calls it gets `n / s`, and one more
-- when it stands before the remainder of `n`.
pub jobs_take_turns :
    (W : IWorker) (workers : ℕ → W.Worker) (s i : ℕ) (calls : List (List ℕ × ℕ))
    → i < s
    → length calls < size_mod
    → ((dispatch_all (logged W) calls (init (logged W) (λ j. (workers j, [])) s)).workers i).1
        ≡ turns s i 0 calls
      × length (turns s i 0 calls) ≡ share s i (length calls)
unfolding init
jobs_take_turns W workers s i calls h small =
    let m = init (logged W) (λ j. (workers j, [])) s in
    let all : length (turns s i 0 calls) + share s i 0 ≡ share s i (length calls) =
      length-turns s i 0 calls h ∙ ap (share s i) (omega arith) in
    (
      dispatch_all-logged W calls m s 0 i (omega (arith, h)) (omega (arith, small))
          record { size = refl; ids = refl; idx = refl },
      omega (arith, all, share-zero s i),
    )
