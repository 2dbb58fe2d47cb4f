-- ===== src/Ai/SseParser.antt =====
-- Server/AI/SseParser.h. The callback is recorded: `events` are its calls, the oldest first.
pub mod Chunks
pub mod Events
use asio_chat_server.Common.{
  ℕ, Bool, true, false, List, [], ◌∷◌, ◌++◌, ◌==◌, if◌then◌else◌, bytes_eq, is_empty, codes,
}

pub record SseParser : Type 0 where
  pub buffered : List ℕ
  pub cur_event : List ℕ
  pub cur_data : List ℕ
  pub events : List (List ℕ × List ℕ)

abbrev pub new_parser : SseParser
new_parser = record { buffered = []; cur_event = []; cur_data = []; events = [] }

unfoldable pub dispatch : SseParser → SseParser
dispatch p =
    if is_empty p.cur_event
    then (if is_empty p.cur_data
        then p
        else record p { cur_data = []; events = p.events ++ (p.cur_event, p.cur_data) ∷ [] })
    else record p {
      cur_event = [];
      cur_data = [];
      events = p.events ++ (p.cur_event, p.cur_data) ∷ [];
    }

-- `substr(0, colon)`, and `substr(colon + 1)`, which is empty without a colon.
unfoldable pub field_of : List ℕ → List ℕ
field_of [] = []
field_of (c ∷ cs) = let rest = field_of cs in if c == b':' then [] else c ∷ rest

unfoldable pub value_of : List ℕ → List ℕ
value_of [] = []
value_of (c ∷ cs) = let rest = value_of cs in if c == b':' then cs else rest

abbrev pub drop_space : List ℕ → List ℕ
drop_space [] = []
drop_space (c ∷ cs) = if c == b' ' then cs else c ∷ cs

-- The assignment for the field of a line.
unfoldable pub set_field : List ℕ → List ℕ → SseParser → SseParser
set_field field value p =
    if bytes_eq field (codes "event")
    then record p { cur_event = value }
    else if bytes_eq field (codes "data")
    then record p {
      cur_data = (if is_empty p.cur_data then value else p.cur_data ++ b'\n' ∷ value);
    }
    else p

unfoldable pub handle_line : List ℕ → SseParser → SseParser
unfolding dispatch set_field field_of value_of
handle_line [] p = dispatch p
handle_line (c ∷ cs) p =
    if c == b':' then p else set_field (field_of (c ∷ cs)) (drop_space (value_of (c ∷ cs))) p

-- `remove_suffix(1)` where the line ends in a carriage return.
unfoldable pub strip_cr : List ℕ → List ℕ
strip_cr [] = []
strip_cr (c ∷ []) = if c == 13 then [] else c ∷ []
strip_cr (c ∷ d ∷ cs) = c ∷ strip_cr (d ∷ cs)

abbrev pub cons_line : ℕ → List (List ℕ) × List ℕ → List (List ℕ) × List ℕ
cons_line c ([], rest) = ([], c ∷ rest)
cons_line c (l ∷ ls, rest) = ((c ∷ l) ∷ ls, rest)

-- The texts between the line ends that `find('\n', ..)` meets, and what is behind the last one.
unfoldable pub cut_lines : List ℕ → List (List ℕ) × List ℕ
cut_lines [] = ([], [])
cut_lines (c ∷ cs) =
    let (ls, rest) = cut_lines cs in if c == 10 then ([] ∷ ls, rest) else cons_line c (ls, rest)

unfoldable pub handle_lines : List (List ℕ) → SseParser → SseParser
unfolding handle_line strip_cr
handle_lines [] p = p
handle_lines (l ∷ ls) p = handle_lines ls (handle_line (strip_cr l) p)

unfoldable pub feed : List ℕ → SseParser → SseParser
unfolding cut_lines handle_lines
feed bytes p =
    let (ls, rest) = cut_lines (p.buffered ++ bytes) in
    record (handle_lines ls p) { buffered = rest }

unfoldable pub finish : SseParser → SseParser
unfolding handle_line dispatch
finish p =
    if is_empty p.buffered
    then dispatch p
    else dispatch (record (handle_line p.buffered p) { buffered = [] })

unfoldable pub feed_all : List (List ℕ) → SseParser → SseParser
unfolding feed
feed_all [] p = p
feed_all (c ∷ cs) p = feed_all cs (feed c p)
