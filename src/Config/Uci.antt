-- ===== src/Config/Uci.antt =====
-- uci.go: the UCI format, on strings of bytes. A map is an association list, a pointer to the last
-- section is the end of the list of sections.
pub mod Writer
pub mod Keys
pub mod Scan
pub mod Lines
pub mod RoundTrip
use openwrt_wattline.Common.{
  ℕ, zero, suc, ◌+◌, Bool, true, false, not, ◌&&◌, ◌||◌, Option, none, some, List, [], ◌∷◌, ◌++◌,
  map, length, ltb, ◌==◌, nat_eq, if◌then◌else◌, String,
}
use openwrt_wattline.Common.Bytes.{Bytes, bytes_eq, ascii}
use openwrt_wattline.Common.Dict.{Dict, find, insert}
use openwrt_wattline.Common.Result.{Result, ok, err, ◌>>=◌}

pub record UciSection (T : Type 0) : Type 0 where
  pub typ : T
  pub name : T
  pub options : Dict T T
  pub lists : Dict T (List T)

abbrev pub UciDoc : Type 0 → Type 0
UciDoc T = List (UciSection T)

unfoldable pub new_section : {T : Type 0} → T → T → UciSection T
new_section typ name = record { typ = typ; name = name; options = []; lists = [] }

pub record UciCommand : Type 0 where
  pub line : ℕ
  pub fields : List Bytes

pub data UciError : Type 0 where
  unterminated_escape : ℕ → UciError
  unterminated_quote : ℕ → ℕ → UciError
  malformed_config : ℕ → UciError
  outside_section malformed_entry unknown_keyword : ℕ → Bytes → UciError

-- The variables of tokenizeUCI.
pub record Scanner : Type 0 where
  pub commands : List UciCommand
  pub fields : List Bytes
  pub token : Bytes
  pub line : ℕ
  pub command_line : ℕ
  pub in_token : Bool

-- Where the scan is: in the outer loop, in the loop of a comment, in the loop of a quote, or behind
-- a backslash of the one or the other.
pub data Mode : Type 0 where
  plain comment escape : Mode
  quoted quoted_escape : ℕ → Mode

unfoldable pub finish_token : Scanner → Scanner
finish_token s =
    if s.in_token
    then record s { fields = s.fields ++ s.token ∷ []; token = []; in_token = false }
    else s

abbrev add_command : List Bytes → Scanner → Scanner
add_command [] s = s
add_command (f ∷ fs) s = record s {
  commands = s.commands ++ (record { line = s.command_line; fields = f ∷ fs }) ∷ [];
  fields = [];
}

unfoldable pub finish_command : Scanner → Scanner
finish_command s = let t = finish_token s in add_command t.fields t

-- token.WriteByte(c), where the token has begun
unfoldable pub push : ℕ → Scanner → Scanner
push c s = record s { token = s.token ++ c ∷ []; in_token = true }

abbrev next_line : Scanner → Scanner
next_line s = record s { line = s.line + 1 }

-- `case '\n', ';'`
unfoldable pub end_line : ℕ → Scanner → Scanner
end_line c s =
    let t = finish_command s in
    let u : Scanner = if c == b'\n' then next_line t else t in record u { command_line = u.line }

-- the outer loop at one byte
unfoldable pub step_plain : ℕ → Scanner → Mode × Scanner
step_plain c s =
    if c == b' ' || c == b'\t' || c == b'\r'
    then (plain, finish_token s)
    else if c == b'\n' || c == b';'
    then (plain, end_line c s)
    else if c == b'#'
    then (comment, finish_command s)
    else if c == b'\'' || c == b'"'
    then (quoted c, record s { in_token = true })
    else if c == b'\\'
    then (escape, record s { in_token = true })
    else (plain, push c s)

-- token.WriteByte(c) in a quote, where a newline is counted
unfoldable pub push_quoted : ℕ → Scanner → Scanner
push_quoted c s = let t = push c s in if c == b'\n' then next_line t else t

unfoldable pub step : Mode → ℕ → Scanner → Mode × Scanner
step plain c s = step_plain c s
step comment c s = if c == b'\n' then (plain, end_line c s) else (comment, s)
step escape c s = (plain, if c == b'\n' then next_line s else push c s)
step (quoted q) c s =
    if c == q
    then (plain, s)
    else if c == b'\\' && q == b'"'
    then (quoted_escape q, s)
    else (quoted q, push_quoted c s)
step (quoted_escape q) c s = (quoted q, if c == b'\n' then next_line s else push_quoted c s)

-- behind the last byte
unfoldable pub finish : Mode → Scanner → Result UciError (List UciCommand)
finish plain s = ok (finish_command s).commands
finish comment s = ok (finish_command s).commands
finish escape s = err (unterminated_escape s.line)
finish (quoted q) s = err (unterminated_quote s.command_line q)
finish (quoted_escape q) s = err (unterminated_escape s.line)

unfoldable pub scan : Mode → Scanner → Bytes → Result UciError (List UciCommand)
scan m s [] = finish m s
scan m s (c ∷ src) = let (m', s') = step m c s in scan m' s' src

unfoldable pub tokenize_uci : Bytes → Result UciError (List UciCommand)
tokenize_uci = scan plain (record {
  commands = [];
  fields = [];
  token = [];
  line = 1;
  command_line = 1;
  in_token = false;
})

-- m[key] = append(m[key], val)
abbrev pub list_of : {T : Type 0} → Option (List T) → List T
list_of none = []
list_of (some vs) = vs

-- `option` and `list`, on the section that `cur` points to; the flag is `fields[0] == "option"`
unfoldable pub add_entry : Bool → Bytes → Bytes → UciSection Bytes → UciSection Bytes
add_entry true key val s = record s { options = insert key val s.options }
add_entry false key val s = record s {
  lists = insert key (list_of (find key s.lists) ++ val ∷ []) s.lists;
}

-- `cur`, the last section, if there is one
unfoldable pub add_to_last : Bool → Bytes → Bytes → UciDoc Bytes → UciDoc Bytes
add_to_last option key val [] = []
add_to_last option key val (s ∷ []) = add_entry option key val s ∷ []
add_to_last option key val (s ∷ t ∷ doc) = s ∷ add_to_last option key val (t ∷ doc)

abbrev is_nil : {A : Type 0} → List A → Bool
is_nil [] = true
is_nil (x ∷ xs) = false

-- `case "option", "list"`, on the fields behind the keyword
unfoldable pub entry_command :
    ℕ → Bytes → List Bytes → UciDoc Bytes → Result UciError (UciDoc Bytes)
entry_command line word (key ∷ val ∷ []) doc =
    if is_nil doc
    then err (outside_section line word)
    else ok (add_to_last (word == ascii "option") key val doc)
entry_command line word args doc =
    if is_nil doc then err (outside_section line word) else err (malformed_entry line word)

unfoldable pub config_command : ℕ → List Bytes → UciDoc Bytes → Result UciError (UciDoc Bytes)
config_command line (typ ∷ []) doc = ok (doc ++ new_section typ [] ∷ [])
config_command line (typ ∷ name ∷ []) doc = ok (doc ++ new_section typ name ∷ [])
config_command line args doc = err (malformed_config line)

-- the body of the loop of ParseUCI; the scanner gives no command without fields
unfoldable pub run_command : ℕ → List Bytes → UciDoc Bytes → Result UciError (UciDoc Bytes)
run_command line [] doc = ok doc
run_command line (word ∷ args) doc =
    if word == ascii "config"
    then config_command line args doc
    else if word == ascii "option" || word == ascii "list"
    then entry_command line word args doc
    else err (unknown_keyword line word)

unfoldable pub run_commands : List UciCommand → UciDoc Bytes → Result UciError (UciDoc Bytes)
run_commands [] doc = ok doc
run_commands (c ∷ commands) doc = run_command c.line c.fields doc >>= run_commands commands

unfoldable pub parse_uci : Bytes → Result UciError (UciDoc Bytes)
parse_uci src = tokenize_uci src >>= (λ commands. run_commands commands [])
