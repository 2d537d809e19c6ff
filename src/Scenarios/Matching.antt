-- ===== src/Scenarios/Matching.antt =====
-- A multiplexer in place of chi, which compares the parts of a path between its slashes.
use store_order.Base.{
  String, ◌≡◌, sym, Option, none, some, List, [], ◌∷◌, ◌==◌, if◌then◌else◌, split, Memᴰ, ◌<>◌,
  Bool-cases, inl, inr,
}
use store_order.Http.{Response, plain_body}
use store_order.Router.Mux.{
  Chi, ChiLaws, Route, Pattern, exactly, mounted, Match, found, not_found, targets,
}

-- The parameter of a path whose parts are those of the pattern.
abbrev match_parts : List String → List String → String → Option String
match_parts [] [] id = some id
match_parts [] (b ∷ bs) id = none
match_parts (a ∷ as') [] id = none
match_parts (a ∷ as') (b ∷ bs) id =
    let bound = match_parts as' bs b in
    let plain = match_parts as' bs id in
    if a == "{id}" then bound else if a == b then plain else none

-- What of a path stands behind the parts of a mounted prefix.
abbrev rest_of : List String → List String → Option (List String)
rest_of [] bs = some bs
rest_of (a ∷ as') [] = none
rest_of (a ∷ as') (b ∷ bs) = let rest = rest_of as' bs in if a == b then rest else none

abbrev joined : List String → String
joined [] = "/"
joined (b ∷ []) = "/" <> b
joined (b ∷ c ∷ bs) = let rest = joined (c ∷ bs) in "/" <> b <> rest

module _ {A : Type 0} where
  abbrev exact_or : A → Option String → Match A → Match A
  exact_or t (some id) rest = found t "" id
  exact_or t none rest = rest

  abbrev mounted_or : A → Option (List String) → Match A → Match A
  mounted_or t (some parts) rest = found t (joined parts) ""
  mounted_or t none rest = rest

  abbrev matched : Pattern → A → String → String → Match A → Match A
  matched (exactly m pattern) t method path rest =
      let tried = exact_or t (match_parts (split "/" pattern) (split "/" path) "") rest in
      if m == method then tried else rest
  matched (mounted prefix) t method path rest =
      mounted_or t (rest_of (split "/" prefix) (split "/" path)) rest

  -- the first route that fits
  abbrev find_first : List (Route A) → String → String → Match A
  find_first [] method path = not_found
  find_first (route ∷ routes) method path =
      matched route.pattern route.target method path (find_first routes method path)

  matched_registered :
      (pattern : Pattern) (u : A) (ts : List A) (method path : String) (rest : Match A) (t : A)
      (p id : String)
      → ((q : String) (i : String) → rest ≡ found t q i → Memᴰ t ts)
      → matched pattern u method path rest ≡ found t p id
      → Memᴰ t (u ∷ ts)
  matched_registered (exactly m pattern) u ts method path rest t p id later e =
      elim (Bool-cases (m == method)) [
        | inr other ↦ Memᴰ.tail (later p id (rw other at e))
        | inl same ↦ go (match_parts (split "/" pattern) (split "/" path) "") (rw same at e)
      ]
    where
      go : (x : Option String) → exact_or u x rest ≡ found t p id → Memᴰ t (u ∷ ts)
      go none h = Memᴰ.tail (later p id h)
      go (some i) h = Memᴰ.head (sym (target_eq h))
        where
          target_eq : {a b : A} {q q' i i' : String} → found a q i ≡ found b q' i' → a ≡ b
          target_eq k = cc
  matched_registered (mounted prefix) u ts method path rest t p id later e =
      go (rest_of (split "/" prefix) (split "/" path)) e
    where
      go : (x : Option (List String)) → mounted_or u x rest ≡ found t p id → Memᴰ t (u ∷ ts)
      go none h = Memᴰ.tail (later p id h)
      go (some parts) h = Memᴰ.head (sym (target_eq h))
        where
          target_eq : {a b : A} {q q' i i' : String} → found a q i ≡ found b q' i' → a ≡ b
          target_eq k = cc

  pub find_first_registered :
      (routes : List (Route A)) (method path : String) (t : A) (rest id : String)
      → find_first routes method path ≡ found t rest id
      → Memᴰ t (targets routes)
  find_first_registered [] method path t rest id e = cc
  find_first_registered (route ∷ routes) method path t rest id e =
      matched_registered route.pattern route.target (targets routes) method path
        (find_first routes method path) t rest id
        (λ q i. find_first_registered routes method path t q i) e

abbrev pub plain : String → Response
plain text = record { status = 404; headers = []; body = plain_body text }

abbrev pub chi : Chi
chi = record {
  find = λ (A : Type 0) (routes : List (Route A)) (method path : String).
      find_first routes method path;
  not_found_response = plain "404 page not found";
  not_allowed_response = record { status = 405; headers = []; body = plain_body "" };
  real_ip = λ r. r.remote_addr;
  preflight = λ options r. none;
  cors_headers = λ options r. [];
}

pub chi_laws : ChiLaws chi
chi_laws = record {
  found_registered =
      λ A routes method path t rest id e. find_first_registered routes method path t rest id e;
}
