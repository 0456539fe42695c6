-- ===== src/Http/Routes.antt =====
-- `HttpContext` of src/http_context.cc: the routes of a server, with handlers of any type.
use capy_js.Prelude.{
  ℕ, ◌≡◌, ◌∙◌, refl, ap, ap₂, sym, subst, inl, inr, Bool-cases, take, Bool, true, false, ◌&&◌,
  Option, none, some, List, [], ◌∷◌, if◌then◌else◌,
}
use mathlib.Core.Bool.{true≢false}
use capy_js.Prelude.Text.{same_text, same_text-eq}

-- What a request comes to: a handler that is called, or the 404.
pub data Invoked (H : Type 0) : Type 0 where
  called : H → Invoked H
  resp_with_404 : Invoked H

both : (a b : Bool) → a && b ≡ true → (a ≡ true) × (b ≡ true)
both true b h = (refl, h)
both false b h = absurd (true≢false (sym h))

asked_twice {ℓ} :
    {A : Type ℓ} (b : Bool) (x y z : A)
    → (if b then x else z) ≡ (if b then x else (if b then y else z))
asked_twice true x y z = refl
asked_twice false x y z = refl

swapped {ℓ} :
    {A : Type ℓ} (a b : Bool) (x y z : A)
    → (a ≡ true → b ≡ true → ⊥)
    → (if a then x else (if b then y else z)) ≡ (if b then y else (if a then x else z))
swapped true true x y z h = absurd (h refl refl)
swapped true false x y z h = refl
swapped false true x y z h = refl
swapped false false x y z h = refl

module _ (Handler WsHandler : Type 0) where
  -- The maps as lists of pairs, the key of `routes_` being a method and a URI.
  pub record HttpContext : Type 0 where
    pub routes : List ((List ℕ × List ℕ) × Handler)
    pub ws_routes : List (List ℕ × WsHandler)

  -- `m[k] = v`, and `m.find(k)`, for the test of keys `eq`.
  unfoldable pub assign : {K V : Type 0} → (K → K → Bool) → K → V → List (K × V) → List (K × V)
  assign eq k v [] = (k, v) ∷ []
  assign eq k v ((j, u) ∷ m) =
      let rest = assign eq k v m in if eq j k then (k, v) ∷ m else (j, u) ∷ rest

  unfoldable pub find : {K V : Type 0} → (K → K → Bool) → K → List (K × V) → Option V
  find eq k [] = none
  find eq k ((j, u) ∷ m) = let rest = find eq k m in if eq j k then some u else rest

  abbrev pub same_route : List ℕ × List ℕ → List ℕ × List ℕ → Bool
  same_route (m, u) (n, v) = same_text m n && same_text u v

  unfoldable pub register_api_function : List ℕ → List ℕ → Handler → HttpContext → HttpContext
  register_api_function method uri handler ctx = record ctx {
    routes = assign same_route (method, uri) handler ctx.routes;
  }

  unfoldable pub register_ws_cb : List ℕ → WsHandler → HttpContext → HttpContext
  register_ws_cb uri handler ctx = record ctx {
    ws_routes = assign same_text uri handler ctx.ws_routes;
  }

  abbrev pub answer : Option Handler → Invoked Handler
  answer (some handler) = called handler
  answer none = resp_with_404

  unfoldable pub invoke_function : List ℕ → List ℕ → HttpContext → Invoked Handler
  invoke_function verb uri ctx = answer (find same_route (verb, uri) ctx.routes)

  -- Without a route nothing is called, and the upgrade goes on.
  unfoldable pub invoke_ws_function : List ℕ → HttpContext → Option WsHandler
  invoke_ws_function uri ctx = find same_text uri ctx.ws_routes

  -- The part of `process_http_1_request` that copies the method and the path of a request into
  -- `verb` and `uri`.
  unfoldable pub dispatch : List ℕ → List ℕ → HttpContext → Invoked Handler
  dispatch method path ctx = invoke_function (take 15 method) (take 511 path) ctx

  find-assign :
      {K V : Type 0} (eq : K → K → Bool)
      → ((j k : K) → eq j k ≡ true → j ≡ k)
      → (k i : K) (v : V) (m : List (K × V))
      → find eq i (assign eq k v m) ≡ (if eq k i then some v else find eq i m)
  unfolding assign find
  find-assign eq sound k i v [] = refl
  find-assign {K} {V} eq sound k i v ((j, u) ∷ m) = elim (Bool-cases (eq j k)) [
    | inl e ↦
        subst
          (λ l.
            find eq i (if eq j k then (k, v) ∷ m else (j, u) ∷ assign eq k v m)
            ≡ (if eq k i then some v else (if eq l i then some u else find eq i m)))
          (sym (sound j k e)) (rw e (asked_twice (eq k i) (some v) (some u) (find eq i m)))
    | inr e ↦
        let never_both : eq j i ≡ true → eq k i ≡ true → ⊥ =
          λ a b. true≢false (sym (subst (λ l. eq j l ≡ true) (sym (sound k i b)) a) ∙ e) in
        rw (e, find-assign eq sound k i v m)
          (swapped (eq j i) (eq k i) (some u) (some v) (find eq i m) never_both)
  ]

  chosen :
      (b : Bool) (handler : Handler) (o : Option Handler)
      → answer (if b then some handler else o) ≡ (if b then called handler else answer o)
  chosen true handler o = refl
  chosen false handler o = refl

  same_route-eq : (k i : List ℕ × List ℕ) → same_route k i ≡ true → k ≡ i
  same_route-eq (m, u) (n, v) h =
      let (e, f) = both (same_text m n) (same_text u v) h in
      ap₂ (λ (x y : List ℕ). (x, y)) (same_text-eq m n e) (same_text-eq u v f)

  -- After a handler is registered for a method and a URI, a request gets it when its first 15 bytes of
  -- method and 511 of path are these; every other request gets what it got before, a handler or the 404.
  pub dispatch-register :
      (method uri verb path : List ℕ) (handler : Handler) (ctx : HttpContext)
      → dispatch verb path (register_api_function method uri handler ctx) ≡ (
          if same_route (method, uri) (take 15 verb, take 511 path)
          then called handler
          else dispatch verb path ctx)
  unfolding dispatch register_api_function invoke_function
  dispatch-register method uri verb path handler ctx =
      let found =
        find-assign same_route same_route-eq (method, uri) (take 15 verb, take 511 path) handler
          ctx.routes in
      ap answer found ∙ chosen (same_route (method, uri) (take 15 verb, take 511 path)) _ _
