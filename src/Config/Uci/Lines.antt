-- ===== src/Config/Uci/Lines.antt =====
-- ParseUCI on the lines that Serialize prints.
use openwrt_wattline.Common.{
  ℕ, ◌+◌, Bool, false, List, [], ◌∷◌, ◌++◌, ◌≡◌, refl, ◌∙◌, arith, ap, true, All,
}
use openwrt_wattline.Common.Bytes.{Bytes, bytes_eq, ascii, equal}
use openwrt_wattline.Common.Result.{Result, ok, err, ◌>>=◌}
use openwrt_wattline.Config.Uci.{
  UciSection, UciDoc, UciCommand, UciError, plain, scan, add_entry, add_to_last, is_nil,
  run_command, run_commands, Dict, entry_command, list_of, find, config_command, new_section,
}
use openwrt_wattline.Config.Uci.Scan.{IsWord, at_start, scan_line, scan_tab, scan_blank}
use openwrt_wattline.Config.Uci.Writer.{quoted_line, text_of, list_lines, option_lines, value_lines}
use mathlib.Core.List.{append_assoc}

-- The text takes the parser from the one document to the other, wherever it stands.
abbrev pub Reads : Bytes → UciDoc Bytes → UciDoc Bytes → Type 0
Reads text d d' =
    (commands : List UciCommand) (l : ℕ) (rest : Bytes)
    → run_commands commands [] ≡ ok d
    → (commands' : List UciCommand) × (l' : ℕ) × (scan plain (at_start commands l) (text ++ rest)
        ≡ scan plain (at_start commands' l') rest)
      × (run_commands commands' [] ≡ ok d')

pub Reads-nothing : (d : UciDoc Bytes) → Reads [] d d
Reads-nothing d commands l rest h = (commands, l, refl, h)

pub Reads-both :
    (t u : Bytes) (d d' d'' : UciDoc Bytes) → Reads t d d' → Reads u d' d'' → Reads (t ++ u) d d''
Reads-both t u d d' d'' f g commands l rest h =
    let (commands1, l1, e1, h1) = f commands l (u ++ rest) h in
    let (commands2, l2, e2, h2) = g commands1 l1 rest h1 in
    (commands2, l2, ap (scan plain (at_start commands l)) (append_assoc t u rest) ∙ e1 ∙ e2, h2)

bind_bind :
    {A B C : Type 0} (r : Result UciError A) (f : A → Result UciError C) (g : A → Result UciError B)
    (k : B → Result UciError C)
    → ((a : A) → f a ≡ (g a >>= k))
    → (r >>= f) ≡ ((r >>= g) >>= k)
bind_bind (ok a) f g k h = h a
bind_bind (err e) f g k h = refl

bind_ok : {A : Type 0} (r : Result UciError A) → (r >>= ok) ≡ r
bind_ok (ok a) = refl
bind_ok (err e) = refl

run_commands_append :
    (cs : List UciCommand) (c : UciCommand) (d : UciDoc Bytes)
    → run_commands (cs ++ c ∷ []) d ≡ (run_commands cs d >>= run_command c.line c.fields)
unfolding run_commands
run_commands_append [] c d = bind_ok (run_command c.line c.fields d)
run_commands_append (b ∷ cs) c d =
    bind_bind (run_command b.line b.fields d) (run_commands (cs ++ c ∷ [])) (run_commands cs)
      (run_command c.line c.fields) (run_commands_append cs c)

-- One line: what its command does.
Reads-line :
    (w1 w2 v : Bytes) (d d' : UciDoc Bytes)
    → IsWord w1
    → IsWord w2
    → ((l : ℕ) → run_command l (w1 ∷ w2 ∷ v ∷ []) d ≡ ok d')
    → Reads (w1 ++ (b' ' ∷ quoted_line w2 v)) d d'
Reads-line w1 w2 v d d' h1 h2 k commands l rest h = (
  _,
  _,
  ap (scan plain (at_start commands l)) (append_assoc w1 (b' ' ∷ quoted_line w2 v) rest)
      ∙ scan_line commands l w1 w2 v rest h1 h2,
  run_commands_append commands (record { line = l; fields = w1 ∷ w2 ∷ v ∷ [] }) []
      ∙ ap (λ (r : Result UciError (UciDoc Bytes)). r >>= run_command l (w1 ∷ w2 ∷ v ∷ [])) h
      ∙ k l,
)

Reads-tab : (t : Bytes) (d d' : UciDoc Bytes) → Reads t d d' → Reads (b'\t' ∷ t) d d'
Reads-tab t d d' f commands l rest h =
    let (commands', l', e, k) = f commands l rest h in
    (commands', l', scan_tab commands l (t ++ rest) ∙ e, k)

pub Reads-blank : (d : UciDoc Bytes) → Reads (b'\n' ∷ []) d d
Reads-blank d commands l rest h = (commands, l + 1, scan_blank commands l rest, h)

is_nil-append : {A : Type 0} (d : List A) (s : A) → is_nil (d ++ s ∷ []) ≡ false
is_nil-append [] s = refl
is_nil-append (x ∷ d) s = refl

add_to_last_lem :
    (o : Bool) (key val : Bytes) (d : UciDoc Bytes) (s : UciSection Bytes)
    → add_to_last o key val (d ++ s ∷ []) ≡ d ++ add_entry o key val s ∷ []
unfolding add_to_last
add_to_last_lem o key val [] s = refl
add_to_last_lem o key val (x ∷ []) s = refl
add_to_last_lem o key val (x ∷ y ∷ d) s = ap (◌∷◌ x) (add_to_last_lem o key val (y ∷ d) s)

-- The section that stands behind the lines of some keys.
abbrev pub with_options : Dict Bytes Bytes → List Bytes → UciSection Bytes → UciSection Bytes
with_options options [] s = s
with_options options (k ∷ keys) s =
    with_options options keys (add_entry true k (text_of (find k options)) s)

abbrev pub with_values : Bytes → List Bytes → UciSection Bytes → UciSection Bytes
with_values k [] s = s
with_values k (v ∷ vs) s = with_values k vs (add_entry false k v s)

abbrev pub with_lists : Dict Bytes (List Bytes) → List Bytes → UciSection Bytes → UciSection Bytes
with_lists lists [] s = s
with_lists lists (k ∷ keys) s = with_lists lists keys (with_values k (list_of (find k lists)) s)

option-IsWord : IsWord (ascii "option")
option-IsWord = ground arith

list-IsWord : IsWord (ascii "list")
list-IsWord = ground arith

config-IsWord : IsWord (ascii "config")
config-IsWord = ground arith

Reads-option :
    (k v : Bytes) (d : UciDoc Bytes) (s : UciSection Bytes)
    → IsWord k
    → Reads
        (b'\t' ∷ (ascii "option " ++ quoted_line k v))
        (d ++ s ∷ [])
        (d ++ add_entry true k v s ∷ [])
unfolding run_command entry_command equal add_entry
Reads-option k v d s h =
    Reads-tab (ascii "option " ++ quoted_line k v) (d ++ s ∷ []) (d ++ add_entry true k v s ∷ []) (
      Reads-line (ascii "option") k v (d ++ s ∷ []) (d ++ add_entry true k v s ∷ []) option-IsWord h
        (λ l. rw (is_nil-append d s, add_to_last_lem true k v d s) refl))

Reads-value :
    (k v : Bytes) (d : UciDoc Bytes) (s : UciSection Bytes)
    → IsWord k
    → Reads
        (b'\t' ∷ (ascii "list " ++ quoted_line k v))
        (d ++ s ∷ [])
        (d ++ add_entry false k v s ∷ [])
unfolding run_command entry_command equal add_entry
Reads-value k v d s h =
    Reads-tab (ascii "list " ++ quoted_line k v) (d ++ s ∷ []) (d ++ add_entry false k v s ∷ []) (
      Reads-line (ascii "list") k v (d ++ s ∷ []) (d ++ add_entry false k v s ∷ []) list-IsWord h
        (λ l. rw (is_nil-append d s, add_to_last_lem false k v d s) refl))

pub Reads-config :
    (typ name : Bytes) (d : UciDoc Bytes)
    → IsWord typ
    → Reads (ascii "config " ++ quoted_line typ name) d (d ++ new_section typ name ∷ [])
unfolding run_command config_command equal
Reads-config typ name d h =
    Reads-line (ascii "config") typ name d (d ++ new_section typ name ∷ []) config-IsWord h
      (λ l. refl)

pub Reads-option_lines :
    (options : Dict Bytes Bytes) (keys : List Bytes) (d : UciDoc Bytes) (s : UciSection Bytes)
    → All IsWord keys
    → Reads (option_lines options keys) (d ++ s ∷ []) (d ++ with_options options keys s ∷ [])
unfolding option_lines
Reads-option_lines options [] d s h = Reads-nothing (d ++ s ∷ [])
Reads-option_lines options (k ∷ keys) d s h =
    let v = text_of (find k options) in
    Reads-both (b'\t' ∷ (ascii "option " ++ quoted_line k v)) (option_lines options keys)
      (d ++ s ∷ []) (d ++ add_entry true k v s ∷ []) (d ++ with_options options (k ∷ keys) s ∷ [])
      (Reads-option k v d s h.0) (Reads-option_lines options keys d (add_entry true k v s) h.1)

Reads-value_lines :
    (k : Bytes) (vs : List Bytes) (d : UciDoc Bytes) (s : UciSection Bytes)
    → IsWord k
    → Reads (value_lines k vs) (d ++ s ∷ []) (d ++ with_values k vs s ∷ [])
unfolding value_lines
Reads-value_lines k [] d s h = Reads-nothing (d ++ s ∷ [])
Reads-value_lines k (v ∷ vs) d s h =
    Reads-both (b'\t' ∷ (ascii "list " ++ quoted_line k v)) (value_lines k vs) (d ++ s ∷ [])
      (d ++ add_entry false k v s ∷ []) (d ++ with_values k (v ∷ vs) s ∷ []) (Reads-value k v d s h)
      (Reads-value_lines k vs d (add_entry false k v s) h)

pub Reads-list_lines :
    (lists : Dict Bytes (List Bytes)) (keys : List Bytes) (d : UciDoc Bytes) (s : UciSection Bytes)
    → All IsWord keys
    → Reads (list_lines lists keys) (d ++ s ∷ []) (d ++ with_lists lists keys s ∷ [])
unfolding list_lines
Reads-list_lines lists [] d s h = Reads-nothing (d ++ s ∷ [])
Reads-list_lines lists (k ∷ keys) d s h =
    let vs = list_of (find k lists) in
    Reads-both (value_lines k vs) (list_lines lists keys) (d ++ s ∷ [])
      (d ++ with_values k vs s ∷ []) (d ++ with_lists lists (k ∷ keys) s ∷ [])
      (Reads-value_lines k vs d s h.0) (Reads-list_lines lists keys d (with_values k vs s) h.1)
