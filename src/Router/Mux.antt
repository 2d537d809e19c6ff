-- ===== src/Router/Mux.antt =====
-- What internal/router/router.go takes from the packages chi and cors.
use store_order.Base.{String, Option, none, some, List, [], ◌∷◌, Bool, ℕ, Memᴰ, ◌≡◌}
use store_order.Http.{Request, Response, Handler, behind}

-- a handler, given what of the path the routers above it have not yet consumed
abbrev pub Target : Type 0 → Type 0
Target S = String → Handler S

-- r.Get, r.Post and r.Patch with a pattern, or r.Route, which mounts a router for every method
pub data Pattern : Type 0 where
  exactly : String → String → Pattern
  mounted : String → Pattern

pub record Route (A : Type 0) : Type 0 where
  pub pattern : Pattern
  pub target : A

-- What is found for a method and a path: a target with the rest of the path and the parameter "id",
-- or that no route has the path, or none with the method.
pub data Match (A : Type 0) : Type 0 where
  found : A → String → String → Match A
  not_found : Match A
  method_not_allowed : Match A

-- cors.Options
pub record CorsOptions : Type 0 where
  pub allowed_origins : List String
  pub allowed_methods : List String
  pub allowed_headers : List String
  pub exposed_headers : List String
  pub allow_credentials : Bool
  pub max_age : ℕ

pub record Chi : Type 1 where
  -- chi's lookup, and its answers where there is none
  pub find : (A : Type 0) → List (Route A) → String → String → Match A
  pub not_found_response : Response
  pub not_allowed_response : Response
  -- the address that middleware.RealIP sets
  pub real_ip : Request → String
  -- cors.Handler answers a preflight request itself, and adds headers to any other
  pub preflight : CorsOptions → Request → Option Response
  pub cors_headers : CorsOptions → Request → List (String × String)

abbrev pub targets : {A : Type 0} → List (Route A) → List A
targets [] = []
targets (route ∷ routes) = route.target ∷ targets routes

-- The router calls only what was registered with it.
pub record ChiLaws (chi : Chi) : Type 1 where
  pub found_registered :
      (A : Type 0) (routes : List (Route A)) (method path : String) (t : A) (rest id : String)
      → chi.find A routes method path ≡ found t rest id
      → Memᴰ t (targets routes)

module _ {S : Type 0} where
  abbrev pub endpoint : Handler S → Target S
  endpoint handler path = handler

  module _ (chi : Chi) where
    abbrev pub dispatch : Match (Target S) → Handler S
    dispatch (found t rest id) r s = t rest (record r { path_id = id }) s
    dispatch not_found r s = (chi.not_found_response, s)
    dispatch method_not_allowed r s = (chi.not_allowed_response, s)

    abbrev pub serve : List (Route (Target S)) → Target S
    serve routes path r = dispatch (chi.find (Target S) routes r.method path) r

    abbrev pub use_real_ip : Handler S → Handler S
    use_real_ip next r = next (record r { remote_addr = chi.real_ip r })

    abbrev pub answer_preflight : Option Response → List (String × String) → Handler S → Handler S
    answer_preflight (some response) headers next r s = (response, s)
    answer_preflight none headers next r s =
        let (response, s') = next r s in (behind headers response, s')

    abbrev pub use_cors : CorsOptions → Handler S → Handler S
    use_cors options next r =
        answer_preflight (chi.preflight options r) (chi.cors_headers options r) next r
