-- ===== src/Config/Uci/Scan.antt =====
-- The scanner over the pieces of a line, with any bytes behind them.
use openwrt_wattline.Config.Uci.Writer.{uci_escape, quoted_line}
use openwrt_wattline.Common.{
  ◌+◌, ℕ, Bool, true, not, ◌||◌, [], ◌∷◌, ◌++◌, All, ◌==◌, nat_eq, if◌then◌else◌, ◌≡◌, ◌≢◌, refl,
  ◌∙◌, arith, List, false, ap,
}
use openwrt_wattline.Common.Bytes.{Bytes}
use mathlib.Core.List.{append-nil, append_assoc}
use openwrt_wattline.Config.Uci.{
  Scanner, plain, quoted, push, push_quoted, step_plain, step, scan, finish_token, UciCommand,
  finish_command, end_line, finish, ok,
}

-- A byte with no meaning of its own to the scanner.
abbrev pub is_plain : ℕ → Bool
is_plain c = not (
    c == b' '
    || c == b'\t'
    || c == b'\r'
    || c == b'\n'
    || c == b';'
    || c == b'#'
    || c == b'\''
    || c == b'"'
    || c == b'\\')

abbrev pub IsWord : Bytes → Type 0
IsWord w = (w ≢ []) × All (λ c. is_plain c ≡ true) w

-- The scanner behind some bytes of a token, outside quotes and in them.
abbrev pub pushed : Bytes → Scanner → Scanner
pushed [] s = s
pushed (c ∷ w) s = pushed w (push c s)

abbrev pub pushed_quoted : Bytes → Scanner → Scanner
pushed_quoted [] s = s
pushed_quoted (c ∷ v) s = pushed_quoted v (push_quoted c s)

scan-plain :
    (c : ℕ) (s : Scanner) (rest : Bytes)
    → is_plain c ≡ true
    → scan plain s (c ∷ rest) ≡ scan plain (push c s) rest
unfolding scan step step_plain
scan-plain c s rest h = ground arith

pub scan-pushed :
    (w : Bytes) (s : Scanner) (rest : Bytes)
    → All (λ c. is_plain c ≡ true) w
    → scan plain s (w ++ rest) ≡ scan plain (pushed w s) rest
scan-pushed [] s rest h = refl
scan-pushed (c ∷ w) s rest h = scan-plain c s (w ++ rest) h.0 ∙ scan-pushed w (push c s) rest h.1

-- One byte of a value, escaped, in single quotes.
scan-quoted_byte :
    (c : ℕ) (s : Scanner) (rest : Bytes)
    → s.in_token ≡ true
    → scan
        (quoted b'\'')
        s
        ((if c == b'\'' then b'\'' ∷ b'\\' ∷ b'\'' ∷ b'\'' ∷ rest else c ∷ rest))
      ≡ scan (quoted b'\'') (push_quoted c s) rest
unfolding scan step step_plain push_quoted push
scan-quoted_byte c s rest h = ground arith

push_quoted-in_token : (c : ℕ) (s : Scanner) → (push_quoted c s).in_token ≡ true
unfolding push_quoted push
push_quoted-in_token c s = ground arith

scan_close : (s : Scanner) (rest : Bytes) → scan (quoted b'\'') s (b'\'' ∷ rest) ≡ scan plain s rest
unfolding scan step
scan_close s rest = refl

escaped_front :
    (c : ℕ) (v rest : Bytes) (s : Scanner)
    → scan
        (quoted b'\'')
        s
        ((if c == b'\'' then b'\'' ∷ b'\\' ∷ b'\'' ∷ b'\'' ∷ v else c ∷ v) ++ rest)
      ≡ scan
          (quoted b'\'')
          s
          (if c == b'\'' then b'\'' ∷ b'\\' ∷ b'\'' ∷ b'\'' ∷ (v ++ rest) else c ∷ (v ++ rest))
escaped_front c v rest s = ground arith

pub scan-uci_escape :
    (v : Bytes) (s : Scanner) (rest : Bytes)
    → s.in_token ≡ true
    → scan (quoted b'\'') s (uci_escape v ++ (b'\'' ∷ rest)) ≡ scan plain (pushed_quoted v s) rest
unfolding uci_escape
scan-uci_escape [] s rest h = scan_close s rest
scan-uci_escape (c ∷ v) s rest h =
    escaped_front c (uci_escape v) (b'\'' ∷ rest) s
    ∙ scan-quoted_byte c s (uci_escape v ++ (b'\'' ∷ rest)) h
    ∙ scan-uci_escape v (push_quoted c s) rest (push_quoted-in_token c s)

abbrev pub newlines : Bytes → ℕ
newlines [] = 0
newlines (c ∷ v) = (if c == b'\n' then 1 else 0) + newlines v

pushed_lem :
    (w : Bytes) (s : Scanner) → s.in_token ≡ true → pushed w s ≡ record s { token = s.token ++ w }
unfolding push
pushed_lem [] s h = rw append-nil
pushed_lem (c ∷ w) s h =
    pushed_lem w (push c s) refl ∙ ground (arith, append_assoc s.token (c ∷ []) w)

pushed_quoted_lem :
    (v : Bytes) (s : Scanner)
    → s.in_token ≡ true
    → pushed_quoted v s ≡ record s { token = s.token ++ v; line = s.line + newlines v }
unfolding push push_quoted
pushed_quoted_lem [] s h = ground (arith, append-nil s.token)
pushed_quoted_lem (c ∷ v) s h =
    pushed_quoted_lem v (push_quoted c s) (push_quoted-in_token c s)
    ∙ ground (arith, append_assoc s.token (c ∷ []) v)

-- The scanner at the start of line `l`.
abbrev pub at_start : List UciCommand → ℕ → Scanner
at_start commands l = record {
  commands = commands;
  fields = [];
  token = [];
  line = l;
  command_line = l;
  in_token = false;
}

-- The scanner behind some fields of line `l` and the space that ends them.
abbrev behind : List UciCommand → ℕ → List Bytes → Scanner
behind commands l fields = record (at_start commands l) { fields = fields }

scan_word :
    (commands : List UciCommand) (l : ℕ) (fields : List Bytes) (w rest : Bytes)
    → IsWord w
    → scan plain (behind commands l fields) (w ++ (b' ' ∷ rest))
      ≡ scan plain (behind commands l (fields ++ w ∷ [])) rest
unfolding scan step step_plain finish_token push
scan_word commands l fields [] rest h = absurd (h.0 refl)
scan_word commands l fields (c ∷ w) rest h =
    let s = behind commands l fields in
    scan-plain c s (w ++ (b' ' ∷ rest)) h.1.0
    ∙ scan-pushed w (push c s) (b' ' ∷ rest) h.1.1
    ∙ ap (λ (x : Scanner). scan plain x (b' ' ∷ rest)) (pushed_lem w (push c s) refl)

scan_value :
    (commands : List UciCommand) (l : ℕ) (f : Bytes) (fields : List Bytes) (v rest : Bytes)
    → scan plain (behind commands l (f ∷ fields)) (b'\'' ∷ (uci_escape v ++ (b'\'' ∷ b'\n' ∷ rest)))
      ≡ scan plain
          (at_start
            (commands ++ (record { line = l; fields = f ∷ (fields ++ v ∷ []) }) ∷ [])
            (l + newlines v + 1))
          rest
unfolding scan step step_plain finish_token finish_command end_line
scan_value commands l f fields v rest =
    let s : Scanner = record (behind commands l (f ∷ fields)) { in_token = true } in
    scan-uci_escape v s (b'\n' ∷ rest) refl
    ∙ ap (λ (x : Scanner). scan plain x (b'\n' ∷ rest)) (pushed_quoted_lem v s refl)

line_front :
    (w v rest : Bytes)
    → quoted_line w v ++ rest ≡ w ++ (b' ' ∷ b'\'' ∷ (uci_escape v ++ (b'\'' ∷ b'\n' ∷ rest)))
unfolding quoted_line
line_front w v rest = rw (append_assoc, append_assoc)

-- A line of Serialize: two words and a value.
pub scan_line :
    (commands : List UciCommand) (l : ℕ) (w1 w2 v rest : Bytes)
    → IsWord w1
    → IsWord w2
    → scan plain (at_start commands l) (w1 ++ (b' ' ∷ (quoted_line w2 v ++ rest)))
      ≡ scan plain
          (at_start
            (commands ++ (record { line = l; fields = w1 ∷ w2 ∷ v ∷ [] }) ∷ [])
            (l + newlines v + 1))
          rest
scan_line commands l w1 w2 v rest h1 h2 =
    scan_word commands l [] w1 (quoted_line w2 v ++ rest) h1
    ∙ ap (scan plain (behind commands l (w1 ∷ []))) (line_front w2 v rest)
    ∙ scan_word commands l (w1 ∷ []) w2 (b'\'' ∷ (uci_escape v ++ (b'\'' ∷ b'\n' ∷ rest))) h2
    ∙ scan_value commands l w1 (w2 ∷ []) v rest

pub scan_tab :
    (commands : List UciCommand) (l : ℕ) (rest : Bytes)
    → scan plain (at_start commands l) (b'\t' ∷ rest) ≡ scan plain (at_start commands l) rest
unfolding scan step step_plain finish_token
scan_tab commands l rest = refl

pub scan_blank :
    (commands : List UciCommand) (l : ℕ) (rest : Bytes)
    → scan plain (at_start commands l) (b'\n' ∷ rest) ≡ scan plain (at_start commands (l + 1)) rest
unfolding scan step step_plain finish_token finish_command end_line
scan_blank commands l rest = refl

pub scan_end :
    (commands : List UciCommand) (l : ℕ) → scan plain (at_start commands l) [] ≡ ok commands
unfolding scan finish finish_token finish_command
scan_end commands l = refl
