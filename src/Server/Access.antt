-- ===== src/Server/Access.antt =====
-- Who changes the database over HTTP, and how: the routes of internal/router/router.go behind their
-- guards, over the handlers and the service.
use mathlib.Core.Option
use store_order.Base.{
  ◌≡◌, refl, sym, ◌∙◌, ap, Option, none, some, List, [], ◌∷◌, inl, inr, Bool, true, false,
  Bool-cases, is_empty, trim_space, if◌then◌else◌,
}
use store_order.Prisma.{Prisma}
use store_order.Prisma.Tables.{PrismaLaws}
use store_order.Config.{Config}
use store_order.Http.{
  RateLimitRule, Request, Response, Handler, GatewayUser, extract_gateway_user, require_rate_limit,
}
use store_order.Http.Common.{request_id, recoverer}
use store_order.Http.Health.{check}
use store_order.Router.{
  setup_router, guarded, routes, order_routes, dev_routes, docs_part, dev_part, global_rule,
  webhook_rule, checkout_rule, cancel_rule, cors_options,
}
use store_order.Router.Docs.{documentation_routes}
use store_order.Router.Mux.{ChiLaws, Target, Route, mounted, serve, targets, use_cors}
use store_order.Server.{Platform, Readings, router_deps, service_handler, rate_limiter, allow_of}
use store_order.Server.Guards.{
  Effect, unchanged, in_development, Effect-moved, IsForwarded, IsSafe, require_rate_limit-IsSafe,
  require_auth-IsSafe, require_admin-IsSafe, read_only-IsSafe, AreSafe, AreSafe-append,
  serve-IsSafe, user_of,
}
use store_order.Repository.Orders.Loops.{some_inj}
use store_order.Server.Endpoints.{checkout-Safe, cancel-Safe}
use store_order.Server.Endpoints.Reads.{get-Safe, list-Safe, webhook-Safe}

module _ {B : Type 0} (o : Platform B) (cfg : Config) (p : Prisma) (l : PrismaLaws p) (d : Readings)
    (laws : ChiLaws o.chi) where
  open l use {tables}

  abbrev Safe : Handler (p.State × B) → Type 0
  Safe = IsSafe o cfg p l

  abbrev AllSafe : List (Route (Target (p.State × B))) → Type 0
  AllSafe rs = AreSafe o cfg p l (targets rs)

  -- the rate limits in front of an endpoint
  limited-Safe :
      (rule : RateLimitRule) (h : Handler (p.State × B))
      → Safe h
      → Safe (require_rate_limit o.rt (router_deps o cfg p d).limiter rule h)
  limited-Safe rule h safe =
      require_rate_limit-IsSafe o cfg p l (Option.map (allow_of o cfg d) (rate_limiter o cfg)) rule
        h safe

  order_routes-AllSafe : AllSafe (order_routes o.rt o.str o.files o.chi (router_deps o cfg p d))
  order_routes-AllSafe =
      let auth = require_auth-IsSafe o cfg p l in
      (
        λ _. limited-Safe (webhook_rule o.str) _ (webhook-Safe o cfg p l d),
        (
          λ _. auth _ (limited-Safe (checkout_rule o.str) _ (checkout-Safe o cfg p l d)),
          (
            λ _. auth _ (list-Safe o cfg p l d),
            (
              λ _. auth _ (get-Safe o cfg p l d),
              ((λ _. auth _ (limited-Safe (cancel_rule o.str) _ (cancel-Safe o cfg p l d))), tt),
            ),
          ),
        ),
      )

  -- in development everything is allowed
  developed : cfg.dev ≡ true → (h : Handler (p.State × B)) → Safe h
  developed dev h = record { effect = λ r w f. in_development dev }

  dev_part-AllSafe : AllSafe (dev_part o.rt o.str o.files o.chi (router_deps o cfg p d))
  dev_part-AllSafe = go cfg.dev refl
    where
      go :
          (b : Bool)
          → cfg.dev ≡ b
          → AllSafe (
              if b
              then record {
                pattern = mounted "/api/v1/dev/orders";
                target = serve o.chi (dev_routes o.rt o.str o.files o.chi (router_deps o cfg p d));
              }
                ∷ []
              else [])
      go true dev = ((λ path. developed dev _), tt)
      go false dev = tt

  docs_part-AllSafe : AllSafe (docs_part o.rt o.str o.files o.chi (router_deps o cfg p d))
  docs_part-AllSafe = go cfg.enable_docs
    where
      reads : (f : Request → Response) → Safe (λ r w. (f r, w))
      reads f = read_only-IsSafe o cfg p l f

      go : (b : Bool) → AllSafe (if b then documentation_routes o.files else [])
      go true = (
        λ _. reads _,
        (λ _. reads _, (λ _. reads _, (λ _. reads _, (λ _. reads _, ((λ _. reads _), tt))))),
      )
      go false = tt

  routes-AllSafe : AllSafe (routes o.rt o.str o.files o.chi (router_deps o cfg p d))
  unfolding check
  routes-AllSafe =
      let deps = router_deps o cfg p d in
      (
        λ _. read_only-IsSafe o cfg p l _,
        AreSafe-append o cfg p l (docs_part o.rt o.str o.files o.chi deps) _ docs_part-AllSafe (
          λ path. serve-IsSafe o cfg p l laws _ path order_routes-AllSafe,
          (λ path. require_admin-IsSafe o cfg p l _, dev_part-AllSafe),
        ),
      )

  extract-Safe : (h : Handler (p.State × B)) → Safe h → Safe (extract_gateway_user h)
  unfolding extract_gateway_user
  extract-Safe h safe = record {
    effect = λ r w f. elim (Bool-cases (is_empty (user_of r))) [
      | inl blank ↦ rw blank (safe.effect r w f)
      | inr named ↦
          let user : GatewayUser = record {
            id = user_of r;
            email = trim_space (r.header "X-User-Email");
            role = trim_space (r.header "X-User-Role");
          } in
          let r' = record r { user = some user } in
          let forwarded : IsForwarded r' = record {
            user = λ u e.
                let same = some_inj e in
                (
                  named,
                  ap (λ (x : GatewayUser). x.id) (sym same),
                  ap (λ (x : GatewayUser). x.role) (sym same),
                );
          } in
          rw named (Effect-moved o cfg r r' refl refl (safe.effect r' w forwarded))
    ];
  }

  cors-Safe : (h : Handler (p.State × B)) → Safe h → Safe (use_cors o.chi cors_options h)
  cors-Safe h safe = record { effect = λ r w f. go r w f (o.chi.preflight cors_options r) refl }
    where
      go :
          (r : Request) (w : p.State × B)
          → IsForwarded r
          → (x : Option Response) → o.chi.preflight cors_options r ≡ x
          → Effect o cfg r (tables w.0) (tables (use_cors o.chi cors_options h r w).1.0)
      go r w f none e = rw e (safe.effect r w f)
      go r w f (some response) e = rw e (unchanged refl)

  guarded-Safe : Safe (guarded o.rt o.str o.files o.chi (router_deps o cfg p d))
  guarded-Safe =
      let deps = router_deps o cfg p d in
      let served = λ (r : Request). serve o.chi (routes o.rt o.str o.files o.chi deps) r.path r in
      limited-Safe (global_rule o.str) (use_cors o.chi cors_options (extract_gateway_user served)) (
        cors-Safe (extract_gateway_user served) (
          extract-Safe served (record {
            effect = λ r w f.
                (serve-IsSafe o cfg p l laws (routes o.rt o.str o.files o.chi deps) r.path
                    routes-AllSafe).effect
                  r w f;
          })))

  -- Whatever request the server is sent, whatever the limiter, the routes and the handlers answer, and
  -- whether it succeeds or fails half way: outside of development mode it leaves the tables as they are,
  -- or its X-User-Id is not blank and no order of any other user has changed, or it names a user
  -- with the role admin, or it carries a payment notification whose signature verifies.
  pub service_handler-Effect :
      (r : Request) (s : p.State) (b : B)
      → r.user ≡ none
      → Effect o cfg r (tables s) (tables (service_handler o cfg p d r (s, b)).1.0)
  unfolding service_handler setup_router request_id recoverer
  service_handler-Effect r s b new =
      let given = trim_space (r.header "X-Request-ID") in
      let traced : Request = record r {
        trace_id = some (if is_empty given then d.uuid else given);
      } in
      let r' : Request = record traced { remote_addr = o.chi.real_ip traced } in
      Effect-moved o cfg r r' refl refl (
        guarded-Safe.effect r' (s, b)
          (record { user = λ u e. absurd (none-ne-some (sym new ∙ e)) }))
    where
      none-ne-some : {u : GatewayUser} → ¬ (none ≡ some u)
      none-ne-some h = cc
