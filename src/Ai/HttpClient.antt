-- ===== src/Ai/HttpClient.antt =====
-- Server/AI/HttpClient.cpp: the texts of a request and of the head of a response, the parts of a
-- URL, and the exchange. Texts are their bytes. The resolver, TLS and the sockets are a parameter,
-- which brings the parts that the reads return.
pub mod Body
pub mod Post
pub mod Reading
pub mod Url
pub mod Head
pub mod Chunked
pub mod Length
pub mod Response
pub mod Events
use asio_chat_server.Common.{
  ℕ, zero, suc, ◌+◌, ◌^◌, Bool, true, false, not, Option, none, some, List, [], ◌∷◌, ◌++◌, ◌==◌,
  ◌&&◌, ◌||◌, if◌then◌else◌, leb, length, take, drop, bytes_eq, codes, is_empty, get_or,
}
use asio_chat_server.Common.Int.{ℤ, pos, ◌-ℤ◌}
use asio_chat_server.Common.Find.{split_at, from_chars}
use asio_chat_server.Orm.Sql.{to_string}

abbrev pub crlf : List ℕ
crlf = 13 ∷ 10 ∷ []

-- `std::tolower` of an unsigned byte in the C locale.
abbrev lower : ℕ → ℕ
lower c = if leb 65 c && leb c 90 then c + 32 else c

unfoldable pub to_lower : List ℕ → List ℕ
to_lower [] = []
to_lower (c ∷ s) = lower c ∷ to_lower s

pub record Request : Type 0 where
  pub scheme : List ℕ
  pub host : List ℕ
  pub port : List ℕ
  pub target : List ℕ
  pub headers : List (List ℕ × List ℕ)
  pub body : List ℕ

-- The loop over `req.Headers`.
abbrev header_lines : List (List ℕ × List ℕ) → List ℕ
header_lines [] = []
header_lines ((k, v) ∷ rest) = k ++ (codes ": " ++ (v ++ (crlf ++ header_lines rest)))

unfoldable pub build_request_text : Request → List ℕ
build_request_text req =
    codes "POST "
    ++ (req.target
        ++ (codes " HTTP/1.1"
            ++ (crlf
                ++ (codes "Host: "
                    ++ (req.host
                        ++ (crlf
                            ++ (codes "Connection: close"
                                ++ (crlf
                                    ++ (codes "Content-Length: "
                                        ++ (to_string (length req.body)
                                            ++ (crlf
                                                ++ (header_lines req.headers
                                                    ++ (crlf ++ req.body)))))))))))))

-- A `std::map` of the headers; the keys are lower case.
abbrev pub Headers : Type 0
Headers = List (List ℕ × List ℕ)

unfoldable pub find_header : List ℕ → Headers → Option (List ℕ)
find_header key [] = none
find_header key ((k, v) ∷ rest) = if bytes_eq key k then some v else find_header key rest

unfoldable pub set_header : List ℕ → List ℕ → Headers → Headers
set_header key value [] = (key, value) ∷ []
set_header key value ((k, v) ∷ rest) =
    if bytes_eq key k then (k, value) ∷ rest else (k, v) ∷ set_header key value rest

pub record ResponseHead : Type 0 where
  pub status : ℤ
  pub headers : Headers

-- `std::from_chars` into an `int32` that was 0; the texts have three bytes at most.
unfoldable pub read_status : List ℕ → ℤ
read_status [] = pos 0
read_status (c ∷ s) =
    if c == 45
    then pos 0 -ℤ pos (get_or 0 (from_chars 10 (2 ^ 31) s))
    else pos (get_or 0 (from_chars 10 (2 ^ 31) (c ∷ s)))

unfoldable pub status_of : List ℕ → ℤ
unfolding read_status
status_of line = elim (split_at (codes " ") line) [
  | none ↦ pos 0
  | some (version, rest) ↦ read_status (take 3 rest)
]

abbrev pub drop_spaces : List ℕ → List ℕ
drop_spaces [] = []
drop_spaces (c ∷ s) = if c == 32 then drop_spaces s else c ∷ s

-- One turn of the loop over the header lines.
unfoldable pub add_line : List ℕ → Headers → Headers
unfolding set_header
add_line line h = elim (split_at (codes ":") line) [
  | none ↦ h
  | some (key, value) ↦ set_header (to_lower key) (drop_spaces value) h
]

-- The loop over the header lines; every turn takes a byte at least.
unfoldable pub parse_lines : ℕ → List ℕ → Headers → Headers
unfolding add_line
parse_lines zero text h = h
parse_lines (suc n) [] h = h
parse_lines (suc n) (c ∷ text) h = elim (split_at crlf (c ∷ text)) [
  | none ↦ add_line (c ∷ text) h
  | some ([], rest) ↦ h
  | some (d ∷ line, rest) ↦ parse_lines n rest (add_line (d ∷ line) h)
]

unfoldable pub parse_head : List ℕ → ResponseHead
unfolding status_of parse_lines
parse_head text = elim (split_at crlf text) [
  | none ↦ record { status = status_of text; headers = [] }
  | some (line, rest) ↦ record {
    status = status_of line;
    headers = parse_lines (length rest) rest [];
  }
]

-- What `ParseBaseUrl` writes to its arguments, with its result.
pub record BaseUrl : Type 0 where
  pub valid : Bool
  pub scheme : List ℕ
  pub host : List ℕ
  pub port : List ℕ

-- The text before the first place of a sign, or the whole text.
abbrev pub cut_off : List ℕ → Option (List ℕ × List ℕ) → List ℕ × List ℕ
cut_off s none = (s, [])
cut_off s (some (l, r)) = (l, r)

abbrev pub up_to : List ℕ → List ℕ → List ℕ
up_to pat s = (cut_off s (split_at pat s)).0

abbrev with_authority : List ℕ → List ℕ × List ℕ → BaseUrl
with_authority scheme (host, port) = record {
  valid =
      (bytes_eq scheme (codes "http") || bytes_eq scheme (codes "https")) && not (is_empty host);
  scheme = scheme;
  host = host;
  port = port;
}

abbrev pub host_and_port : List ℕ → List ℕ × List ℕ
host_and_port rest = cut_off rest (split_at (codes ":") rest)

-- `none` leaves the arguments as they were.
unfoldable pub parse_base_url : List ℕ → Option BaseUrl
unfolding to_lower
parse_base_url url = elim (split_at (codes "://") url) [
  | none ↦ none
  | some (scheme, rest) ↦
      some (with_authority (to_lower scheme) (host_and_port (up_to (codes "/") rest)))
]
