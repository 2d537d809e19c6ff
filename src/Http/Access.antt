-- ===== src/Http/Access.antt =====
-- Who reaches which orders over HTTP: the guards of internal/middleware/auth.go and the endpoints of
-- internal/handler/order_handler.go.
use store_order.Base.{
  ℕ, String, ◌≡◌, ◌≢◌, refl, sym, ◌∙◌, ap, subst, Option, none, some, inl, inr, Bool, true, false,
  is_empty, Result, ok, err, trim_space, Bool-cases, arith, contains,
}
use store_order.Schema.{OrderModel}
use store_order.Runtime.{Runtime, Draw, lower_text}
use store_order.Prisma.{Prisma}
use store_order.Prisma.Tables.{PrismaLaws}
use store_order.Service.Response.{to_order_response}
use store_order.Service.Customer.{get_customer_order, cancel_customer_order}
use store_order.Service.Customer.Reads.{customer_order_shown}
use store_order.Service.Customer.Cancel.{cancel-done, Cancelled}
use store_order.Http.{
  Request, Response, Handler, GatewayUser, respond_error, require_admin, Strings,
}
use store_order.Http.Handlers.{
  Decoders, for_customer, with_id, answer, shown_order, get_refused, handle_get_order,
  handle_cancel_order,
}

module _ {S : Type 0} where
  -- An answer 200 to a customer is given to a known user.
  for_customer-ok :
      (f : GatewayUser → S → Response × S) (r : Request) (s : S)
      → (for_customer f r s).0.status ≡ 200
      → (user : GatewayUser) × (r.user ≡ some user)
        × (is_empty (trim_space user.id) ≡ false)
        × (for_customer f r s ≡ f user s)
  for_customer-ok f r s h = go r.user refl
    where
      go :
          (u : Option GatewayUser)
          → r.user ≡ u
          → (user : GatewayUser) × (r.user ≡ some user)
            × (is_empty (trim_space user.id) ≡ false)
            × (for_customer f r s ≡ f user s)
      go none e = absurd (ground arith)
      go (some user) e = elim (Bool-cases (is_empty (trim_space user.id))) [
        | inl blank ↦ absurd (ground arith)
        | inr named ↦ (user, e, named, rw (e, named) refl)
      ]

  with_id-ok :
      (r : Request) (f : S → Response × S) (s : S)
      → (with_id r f s).0.status ≡ 200
      → with_id r f s ≡ f s
  with_id-ok r f s h = ground arith

  -- ... where the refusals have another status, the service has returned no error.
  answer-ok :
      {A : Type 0} (shown : A → Response) (refused : String → Response) (x : Result A × S)
      → ((e : String) → (refused e).status ≢ 200)
      → (answer shown refused x).0.status ≡ 200
      → (a : A) × (x.0 ≡ ok a) × (answer shown refused x ≡ (shown a, x.1))
  answer-ok shown refused (ok a, s) other h = (a, refl, refl)
  answer-ok shown refused (err e, s) other h = absurd (other e h)

module _ {S A : Type 0} (shown : A → Response) (refused : String → Response)
    (other : (e : String) → (refused e).status ≢ 200) (op : GatewayUser → S → Result A × S)
    (r : Request) (s : S) where
  -- a customer's endpoint on the order of the path
  abbrev endpoint : Response × S
  endpoint = for_customer (λ user. with_id r λ s. answer shown refused (op user s)) r s

  endpoint-ok :
      endpoint.0.status ≡ 200
      → (user : GatewayUser) × (r.user ≡ some user)
        × (is_empty (trim_space user.id) ≡ false)
        × ((a : A) × ((op user s).0 ≡ ok a) × (endpoint ≡ (shown a, (op user s).1)))
  endpoint-ok h =
      let f : GatewayUser → S → Response × S =
        λ user. with_id r λ s. answer shown refused (op user s) in
      let (user, known, named, same) = for_customer-ok f r s h in
      let status : Response × S → ℕ = λ x. x.0.status in
      let h1 : status (f user s) ≡ 200 = sym (ap status same) ∙ h in
      let same1 = with_id-ok r (λ s. answer shown refused (op user s)) s h1 in
      let h2 : status (answer shown refused (op user s)) ≡ 200 = sym (ap status same1) ∙ h1 in
      let (a, done, same2) = answer-ok shown refused (op user s) other h2 in
      (user, known, named, (a, done, same ∙ same1 ∙ same2))

blank_id : (id : String) → id ≡ "" → ¬ (is_empty (trim_space id) ≡ false)
unfolding trim_space
blank_id id e h = absurd (true-ne-false (sym (ap (λ x. is_empty (trim_space x)) e) ∙ h))
  where
    true-ne-false : ¬ (◌≡◌ {A = Bool} true false)
    true-ne-false k = cc

get_refused-other : (rt : Runtime) (e : String) → (get_refused rt e).status ≢ 200
get_refused-other rt e h = elim (Bool-cases (contains (lower_text rt e) "forbidden")) [
  | inl f ↦ absurd (ground arith)
  | inr f ↦ absurd (ground arith)
]

module _ (p : Prisma) (rt : Runtime) (d : Decoders) (l : PrismaLaws p) (r : Request)
    (s : p.State) where
  open l use {tables}

  -- A cancellation over HTTP that is answered 200 was asked for by a known user, of an order that is
  -- this user's own and was unpaid; the order is now cancelled, no other row has changed, and the
  -- outbox has the event of the cancellation.
  pub handle_cancel_order-ok :
      (draw : Draw)
      → (handle_cancel_order p rt d draw r s).0.status ≡ 200
      → (user : GatewayUser) × (r.user ≡ some user)
        × ((o : OrderModel) × ((tables s).order r.path_id ≡ some o)
            × (o.user_id ≡ user.id)
            × Cancelled p rt l draw user.id r.path_id o s (handle_cancel_order p rt d draw r s).1)
  unfolding handle_cancel_order
  handle_cancel_order-ok draw h =
      let (user, known, named, (_, cancelled, whole)) =
        endpoint-ok shown_order (respond_error 400 "cancellation_failed") (λ e k. ground arith)
          (λ user. cancel_customer_order p rt draw user.id r.path_id) r s h in
      let (o, row, done) = cancel-done p rt l draw user.id r.path_id s cancelled in
      let owner : o.user_id ≡ user.id = elim done.0 [
        | inl e ↦ absurd (blank_id user.id e named)
        | inr e ↦ e
      ] in
      (
        user,
        known,
        (
          o,
          row,
          owner,
          subst (Cancelled p rt l draw user.id r.path_id o s)
              (sym (ap (λ (x : Response × p.State). x.1) whole)) done,
        ),
      )

  -- A request for an order that is answered 200 came from a known user and shows the stored order of
  -- the path, which is this user's own; no table has changed.
  pub handle_get_order-ok :
      (handle_get_order p rt d r s).0.status ≡ 200
      → (user : GatewayUser) × (r.user ≡ some user)
        × ((o : OrderModel) × ((tables s).order r.path_id ≡ some o)
            × (o.user_id ≡ user.id)
            × ((handle_get_order p rt d r s).0 ≡ shown_order (some (to_order_response rt o)))
            × (tables (handle_get_order p rt d r s).1 ≡ tables s))
  unfolding handle_get_order
  handle_get_order-ok h =
      let (user, known, named, (shown, found, whole)) =
        endpoint-ok shown_order (get_refused rt) (get_refused-other rt)
          (λ user. get_customer_order p rt user.id r.path_id) r s h in
      let (o, row, owner, response, kept) = customer_order_shown p rt l user.id s r.path_id found in
      (
        user,
        known,
        (
          o,
          row,
          owner,
          ap (λ (x : Response × p.State). x.0) whole ∙ ap shown_order (sym response),
          ap (λ (x : Response × p.State). tables x.1) whole ∙ kept,
        ),
      )

module _ {S : Type 0} (str : Strings) (next : Handler S) (r : Request) (s : S) where
  -- Behind the guard of the administrator's routes nothing happens to a request of anyone else: where
  -- the answer is not a refusal of status 403, the request is of a user with the role admin, and the
  -- endpoint has answered it.
  require_admin-admits :
      (require_admin str next r s).0.status ≢ 403
      → (user : GatewayUser) × (r.user ≡ some user)
        × (str.equal_fold (trim_space user.role) "admin" ≡ true)
        × (require_admin str next r s ≡ next r s)
  unfolding require_admin
  require_admin-admits h = go r.user refl
    where
      go :
          (u : Option GatewayUser)
          → r.user ≡ u
          → (user : GatewayUser) × (r.user ≡ some user)
            × (str.equal_fold (trim_space user.role) "admin" ≡ true)
            × (require_admin str next r s ≡ next r s)
      go none e = absurd (h (rw e refl))
      go (some user) e = elim (Bool-cases (str.equal_fold (trim_space user.role) "admin")) [
        | inl admin ↦ (user, e, admin, rw (e, admin) refl)
        | inr other ↦ absurd (h (rw (e, other) refl))
      ]
