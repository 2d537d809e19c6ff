-- ===== src/Router/Docs.antt =====
-- registerDocumentationRoutes and serveFileIfExists of internal/router/router.go. The files that can
-- be read, http.Redirect and http.Error are parameters.
use store_order.Base.{String, List, [], ◌∷◌, Result, ok, err, ◌<>◌, ℕ}
use store_order.Http.{Request, Response, behind, plain_body}
use store_order.Router.Mux.{Route, Target, exactly, endpoint}

-- os.ReadFile, http.Redirect to a target, http.Error
pub record Files : Type 0 where
  pub read_file : String → Result String
  pub redirect : Request → String → ℕ → Response
  pub http_error : String → ℕ → Response

abbrev candidates : String → List String
candidates rel_path =
    rel_path ∷ rel_path ∷ ("../" <> rel_path) ∷ ("../../" <> rel_path) ∷ ("/app/" <> rel_path) ∷ []

abbrev written : String → Response
written content = record { status = 200; headers = []; body = plain_body content }

-- the loop over the candidates
abbrev first_readable : Files → String → List String → Response
first_readable files rel_path [] =
    files.http_error ("Specification file " <> rel_path <> " not found.") 404
first_readable files rel_path (path ∷ paths) =
    let rest = first_readable files rel_path paths in
    elim (files.read_file path) [ ok content ↦ written content | err e ↦ rest ]

unfoldable pub serve_file_if_exists : Files → String → Response
serve_file_if_exists files rel_path = first_readable files rel_path (candidates rel_path)

abbrev scalar_page : String
scalar_page =
    "<!doctype html>\n<html>\n  <head>\n    <title>Store Order API Documentation</title>\n"
    <> "    <meta charset=\"utf-8\" />\n"
    <> "    <meta name=\"viewport\" content=\"width=device-width, initial-scale=1\" />\n"
    <> "  </head>\n  <body>\n"
    <> "    <script id=\"api-reference\" data-url=\"./openapi.json\"></script>\n"
    <> "    <script src=\"https://cdn.jsdelivr.net/npm/@scalar/api-reference\"></script>\n"
    <> "  </body>\n</html>"

abbrev swagger_page : String
swagger_page =
    "<!DOCTYPE html>\n<html lang=\"en\">\n<head>\n  <meta charset=\"UTF-8\">\n"
    <> "  <title>Swagger UI - Store Order</title>\n"
    <> "  <link rel=\"stylesheet\" type=\"text/css\" "
    <> "href=\"https://unpkg.com/swagger-ui-dist@5/swagger-ui.css\" />\n</head>\n<body>\n"
    <> "  <div id=\"swagger-ui\"></div>\n"
    <> "  <script src=\"https://unpkg.com/swagger-ui-dist@5/swagger-ui-bundle.js\"></script>\n"
    <> "  <script>\n    window.onload = function() {\n      SwaggerUIBundle({\n"
    <> "        url: \"../docs/openapi.json\",\n        dom_id: '#swagger-ui',\n"
    <> "        deepLinking: true\n      });\n    };\n  </script>\n</body>\n</html>"

-- an answer with its Content-Type
abbrev typed : String → Response → Response
typed content_type response = behind (("Content-Type", content_type) ∷ []) response

module _ {S : Type 0} (files : Files) where
  abbrev file_route : String → String → String → Route (Target S)
  file_route url content_type rel_path = record {
    pattern = exactly "GET" url;
    target = endpoint λ r s. (typed content_type (serve_file_if_exists files rel_path), s);
  }

  abbrev slash_route : String → Route (Target S)
  slash_route url = record {
    pattern = exactly "GET" url;
    target = endpoint λ r s. (files.redirect r (r.path <> "/") 301, s);
  }

  abbrev page_route : String → String → Route (Target S)
  page_route url page = record {
    pattern = exactly "GET" url;
    target = endpoint λ r s. (typed "text/html; charset=utf-8" (written page), s);
  }

  abbrev pub documentation_routes : List (Route (Target S))
  documentation_routes =
      file_route "/docs/openapi.yaml" "application/yaml" "docs/openapi.yaml"
      ∷ file_route "/docs/openapi.json" "application/json" "docs/openapi.json"
      ∷ slash_route "/docs"
      ∷ page_route "/docs/" scalar_page
      ∷ slash_route "/swagger"
      ∷ page_route "/swagger/" swagger_page
      ∷ []
