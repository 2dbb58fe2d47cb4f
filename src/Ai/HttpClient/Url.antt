-- ===== src/Ai/HttpClient/Url.antt =====
-- `Http::ParseBaseUrl` of Server/AI/HttpClient.cpp finds the parts that a URL is made of.
use mathlib.Core.List.{append-nil}
use asio_chat_server.Common.{
  ℕ, ◌≡◌, ◌≢◌, ◌⊎◌, refl, ap, not, Option, none, some, List, [], ◌∷◌, ◌++◌, ◌&&◌, ◌||◌, All,
  All-append, bytes_eq, codes, is_empty, get_or, inl, inr,
}
use asio_chat_server.Common.Find.{split_at-first, split_at-absent}
use asio_chat_server.Ai.HttpClient.{to_lower, cut_off, up_to, host_and_port, parse_base_url}

abbrev port_text : Option (List ℕ) → List ℕ
port_text none = []
port_text (some port) = codes ":" ++ port

-- A URL with a scheme, a host, a port if there is one, and a path.
abbrev pub url_text : List ℕ → List ℕ → Option (List ℕ) → List ℕ → List ℕ
url_text scheme host port path = scheme ++ (codes "://" ++ ((host ++ port_text port) ++ path))

abbrev pub IsPath : List ℕ → Type 0
IsPath path = (path ≡ []) ⊎ ((p : List ℕ) × (path ≡ codes "/" ++ p))

up_to-path :
    (s path : List ℕ) → All (λ c. 47 ≢ c) s → IsPath path → up_to (codes "/") (s ++ path) ≡ s
up_to-path s path free (inl e) =
    rw (e, append-nil s) (ap (λ o. (cut_off s o).0) (split_at-absent 47 [] s free))
up_to-path s path free (inr (p, e)) =
    rw e (ap (λ o. (cut_off (s ++ 47 ∷ p) o).0) (split_at-first 47 [] s p free))

host_and_port-text :
    (host : List ℕ) (port : Option (List ℕ))
    → All (λ c. 58 ≢ c) host
    → host_and_port (host ++ port_text port) ≡ (host, get_or [] port)
host_and_port-text host none free = rw (append-nil host, split_at-absent 58 [] host free) refl
host_and_port-text host (some port) free = rw (split_at-first 58 [] host port free) refl

-- The conditions on the parts: the scheme and the host have no colon, the host and the port no
-- slash, and the path is empty or starts by one.
pub record IsUrl (scheme host : List ℕ) (port : Option (List ℕ)) (path : List ℕ) : Type 0 where
  pub no_colon : All (λ c. 58 ≢ c) scheme
  pub host_colon : All (λ c. 58 ≢ c) host
  pub host_slash : All (λ c. 47 ≢ c) host
  pub port_slash : All (λ c. 47 ≢ c) (port_text port)
  pub path_start : IsPath path

-- A URL gives back the parts it is made of, the scheme in lower case and an absent port empty, and
-- it is valid exactly if the scheme is http or https and the host is not empty.
pub parse_base_url-url_text :
    (scheme host : List ℕ) (port : Option (List ℕ)) (path : List ℕ)
    → IsUrl scheme host port path
    → parse_base_url (url_text scheme host port path)
      ≡ some (record {
        valid =
            (bytes_eq (to_lower scheme) (codes "http")
              || bytes_eq (to_lower scheme) (codes "https"))
            && not (is_empty host);
        scheme = to_lower scheme;
        host = host;
        port = get_or [] port;
      })
unfolding parse_base_url
parse_base_url-url_text scheme host port path v =
    let authority = host ++ port_text port in
    rw (split_at-first 58 (47 ∷ 47 ∷ []) scheme (authority ++ path) v.no_colon, parse_base_url)
      (rw
        (
          up_to-path authority path
              (All-append (λ c. 47 ≢ c) host (port_text port) v.host_slash v.port_slash)
              v.path_start,
          host_and_port-text host port v.host_colon,
        )
        refl)
