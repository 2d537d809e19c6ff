-- ===== src/Server/Guards.antt =====
-- What a request may do to the database, and the guards of internal/middleware and the routing of
-- internal/router/router.go that keep to it.
use mathlib.Core.Option
use store_order.Base.{
  String, ◌≡◌, refl, sym, ◌∙◌, ap, subst, Option, none, some, List, [], ◌∷◌, ◌++◌, Result, ok, err,
  inl, inr, true, false, Bool-cases, is_empty, trim_space, trim_space-trim_space, Memᴰ, not,
}
use store_order.Prisma.{Prisma}
use store_order.Prisma.Tables.{PrismaLaws, Tables}
use store_order.Prisma.Changes.{Changes}
use store_order.Config.{Config}
use store_order.Midtrans.{WebhookNotification, verify_signature}
use store_order.Http.{
  Request, Response, Handler, GatewayUser, Limiter, RateLimitRule, require_rate_limit, require_auth,
  require_admin, is_known,
}
use store_order.RateLimit.{LimitResult}
use store_order.Server.{on_redis}
use store_order.Http.Common.{limit_request_body}
use store_order.Http.Handlers.{decoded}
use store_order.Router.Mux.{
  ChiLaws, Route, Target, Match, found, not_found, method_not_allowed, dispatch, serve, targets,
}
use store_order.Server.{Platform}
use store_order.Server.Ownership.{Owns}

-- the identifier that the gateway gives for the user of a request
abbrev pub user_of : Request → String
user_of r = trim_space (r.header "X-User-Id")

-- What a request may have done to the tables, and on whose behalf.
pub data Effect {B : Type 0} (o : Platform B) (cfg : Config) (r : Request) (t t' : Tables)
    : Type 0 where
  unchanged : t' ≡ t → Effect o cfg r t t'
  in_development : cfg.dev ≡ true → Effect o cfg r t t'
  by_customer : is_empty (user_of r) ≡ false → Changes (Owns (user_of r)) t t' → Effect o cfg r t t'
  by_admin :
      is_empty (user_of r) ≡ false
      → o.str.equal_fold (trim_space (r.header "X-User-Role")) "admin" ≡ true
      → Effect o cfg r t t'
  by_gateway :
      (notif : WebhookNotification)
      → decoded o.decoders.read_webhook r ≡ some notif
      → verify_signature o.rt cfg.midtrans_server_key notif ≡ true
      → Effect o cfg r t t'

module _ {B : Type 0} (o : Platform B) (cfg : Config) where
  -- The effect is told of a request by its headers and its body.
  pub Effect-moved :
      (r r' : Request) {t t' : Tables}
      → r'.header ≡ r.header
      → r'.body ≡ r.body
      → Effect o cfg r' t t'
      → Effect o cfg r t t'
  unfolding limit_request_body
  Effect-moved r r' {t} {t'} h b (unchanged e) = unchanged e
  Effect-moved r r' {t} {t'} h b (in_development e) = in_development e
  Effect-moved r r' {t} {t'} h b (by_customer e c) =
      let id : user_of r' ≡ user_of r =
        ap (λ (f : String → String). trim_space (f "X-User-Id")) h in
      by_customer (rw id at e) (subst (λ u. Changes (Owns u) t t') id c)
  Effect-moved r r' {t} {t'} h b (by_admin e a) = by_admin (rw h at e) (rw h at a)
  Effect-moved r r' {t} {t'} h b (by_gateway n e v) = by_gateway n (rw b at e) v

-- The user in the context of a request is none, or the one that the headers name.
pub record IsForwarded (r : Request) : Type 0 where
  pub user :
      (u : GatewayUser)
      → r.user ≡ some u
      → (is_empty (user_of r) ≡ false)
        × (u.id ≡ user_of r)
        × (u.role ≡ trim_space (r.header "X-User-Role"))

module _ {B : Type 0} (o : Platform B) (cfg : Config) (p : Prisma) (l : PrismaLaws p) where
  open l use {tables}

  abbrev pub World : Type 0
  World = p.State × B

  -- A handler has no other effects on requests with an identity from the gateway.
  pub record IsSafe (h : Handler World) : Type 0 where
    pub effect :
        (r : Request) (w : World) → IsForwarded r → Effect o cfg r (tables w.0) (tables (h r w).1.0)

  pub require_rate_limit-IsSafe :
      (limiter : Option (Limiter B)) (rule : RateLimitRule) (h : Handler World)
      → IsSafe h
      → IsSafe (require_rate_limit o.rt (Option.map on_redis limiter) rule h)
  unfolding require_rate_limit
  require_rate_limit-IsSafe none rule h safe = record { effect = λ r w f. safe.effect r w f }
  require_rate_limit-IsSafe (some limiter) rule h safe = record {
    effect = λ r w f. go r w f (limiter (rule.keyer r) rule.limit rule.window w.1).0 refl;
  }
    where
      go :
          (r : Request) (w : World)
          → IsForwarded r
          → (x : Result LimitResult) → (limiter (rule.keyer r) rule.limit rule.window w.1).0 ≡ x
          → Effect o cfg r
              (tables w.0)
              (tables (require_rate_limit o.rt (some (on_redis limiter)) rule h r w).1.0)
      go r (s, b) f (err e) same =
          rw same (safe.effect r (s, (limiter (rule.keyer r) rule.limit rule.window b).1) f)
      go r (s, b) f (ok res) same = elim (Bool-cases (not res.allowed)) [
        | inl refused ↦ rw (same, refused) (unchanged refl)
        | inr admitted ↦
            rw (same, admitted)
              (safe.effect r (s, (limiter (rule.keyer r) rule.limit rule.window b).1) f)
      ]

  pub require_auth-IsSafe : (h : Handler World) → IsSafe h → IsSafe (require_auth h)
  unfolding require_auth
  require_auth-IsSafe h safe = record {
    effect = λ r w f. elim (Bool-cases (is_known r.user)) [
      | inl known ↦ rw known (safe.effect r w f)
      | inr unknown ↦ rw unknown (unchanged refl)
    ];
  }

  pub require_admin-IsSafe : (h : Handler World) → IsSafe (require_admin o.str h)
  unfolding require_admin
  require_admin-IsSafe h = record { effect = λ r w f. go r w f r.user refl }
    where
      go :
          (r : Request) (w : World)
          → IsForwarded r
          → (u : Option GatewayUser) → r.user ≡ u
          → Effect o cfg r (tables w.0) (tables (require_admin o.str h r w).1.0)
      go r w f none e = rw e (unchanged refl)
      go r w f (some user) e = elim (Bool-cases (o.str.equal_fold (trim_space user.role) "admin")) [
        | inr other ↦ rw (e, other) (unchanged refl)
        | inl admin ↦
            let (named, _, role) = f.user user e in
            by_admin named (
              subst (λ x. o.str.equal_fold x "admin" ≡ true)
                (ap trim_space role ∙ trim_space-trim_space (r.header "X-User-Role")) admin)
      ]

  pub read_only-IsSafe : (f : Request → Response) → IsSafe (λ r w. (f r, w))
  read_only-IsSafe f = record { effect = λ r w _. unchanged refl }

  -- the targets of a list of routes
  abbrev pub AreSafe : List (Target World) → Type 0
  AreSafe [] = Unit
  AreSafe (t ∷ ts) = ((path : String) → IsSafe (t path)) × AreSafe ts

  AreSafe-Memᴰ :
      (ts : List (Target World)) (t : Target World)
      → AreSafe ts
      → Memᴰ t ts
      → (path : String) → IsSafe (t path)
  AreSafe-Memᴰ [] t' all m path = elim m [ ]
  AreSafe-Memᴰ (t ∷ ts) t' all (Memᴰ.head e) path =
      subst (λ (x : Target World). IsSafe (x path)) (sym e) (all.0 path)
  AreSafe-Memᴰ (t ∷ ts) t' all (Memᴰ.tail m) path = AreSafe-Memᴰ ts t' all.1 m path

  pub AreSafe-append :
      (rs qs : List (Route (Target World)))
      → AreSafe (targets rs)
      → AreSafe (targets qs)
      → AreSafe (targets (rs ++ qs))
  AreSafe-append [] qs h k = k
  AreSafe-append (r ∷ rs) qs h k = (h.0, AreSafe-append rs qs h.1 k)

  module _ (laws : ChiLaws o.chi) where
    pub serve-IsSafe :
        (rs : List (Route (Target World))) (path : String)
        → AreSafe (targets rs)
        → IsSafe (serve o.chi rs path)
    serve-IsSafe rs path all = record {
      effect = λ r w f. go r w f (o.chi.find (Target World) rs r.method path) refl;
    }
      where
        go :
            (r : Request) (w : World)
            → IsForwarded r
            → (m : Match (Target World)) → o.chi.find (Target World) rs r.method path ≡ m
            → Effect o cfg r (tables w.0) (tables (dispatch o.chi m r w).1.0)
        go r w f not_found e = unchanged refl
        go r w f method_not_allowed e = unchanged refl
        go r w f (found t rest id) e =
            let safe =
              AreSafe-Memᴰ (targets rs) t all
                (laws.found_registered (Target World) rs r.method path t rest id e) rest in
            Effect-moved o cfg r (record r { path_id = id }) refl refl
              (safe.effect (record r { path_id = id }) w (record { user = f.user }))
