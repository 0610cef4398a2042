-- ===== src/Config/Uci/RoundTrip.antt =====
-- ParseUCI on what Serialize prints.
use openwrt_wattline.Common.{
  nat_eq, ℕ, zero, suc, ◌+◌, true, false, ◌==◌, if◌then◌else◌, List, [], ◌∷◌, ◌++◌, All, none, some,
  ◌≡◌, refl, ◌∙◌, sym, arith, ap, subst, Bool-cases, Option-cases, inl, inr, ◌≤◌,
}
use openwrt_wattline.Common.Bytes.{Bytes, bytes_eq, ascii, equal, equal_iff}
use openwrt_wattline.Common.Dict.{Dict, find, find-insert}
use openwrt_wattline.Common.Result.{Result, ok, ◌>>=◌}
use openwrt_wattline.Config.Uci.{
  UciCommand, UciError, UciSection, UciDoc, plain, scan, new_section, add_entry, list_of,
  run_commands, parse_uci, tokenize_uci,
}
use openwrt_wattline.Config.Uci.Scan.{IsWord, at_start, scan_end}
use openwrt_wattline.Config.Uci.Lines.{
  Reads, Reads-nothing, Reads-both, Reads-blank, Reads-config, Reads-option_lines, Reads-list_lines,
  with_options, with_values, with_lists,
}
use openwrt_wattline.Config.Uci.Writer.{
  option_lines, list_lines, quoted_line, serialize_section, serialize, sorted_keys, text_of,
}
use openwrt_wattline.Config.Uci.Keys.{count-sorted_keys, All-sorted_keys}
use openwrt_wattline.Common.Distinct.{
  count, keys_of, IsDistinct, count-IsDistinct, find-none, count-none,
}
use mathlib.Core.List.{append-nil, append_assoc, map}

-- A section whose type and keys need no quotes. No list has two entries in the map.
abbrev pub IsPrintable : UciSection Bytes → Type 0
IsPrintable s =
    IsWord s.typ
    × All IsWord (keys_of s.options)
    × All IsWord (keys_of s.lists)
    × IsDistinct (keys_of s.lists)

-- The section that its own text gives.
abbrev reread : UciSection Bytes → UciSection Bytes
reread s =
    with_lists s.lists (sorted_keys s.lists)
      (with_options s.options (sorted_keys s.options) (new_section s.typ s.name))

Reads-serialize_section :
    (d : UciDoc Bytes) (s : UciSection Bytes)
    → IsPrintable s
    → Reads (serialize_section s) d (d ++ reread s ∷ [])
unfolding serialize_section
Reads-serialize_section d s h =
    let start = new_section s.typ s.name in
    let options = sorted_keys s.options in
    let lists = sorted_keys s.lists in
    let filled = with_options s.options options start in
    let rest = list_lines s.lists lists ++ b'\n' ∷ [] in
    Reads-both (ascii "config " ++ quoted_line s.typ s.name)
      (option_lines s.options options ++ rest) d (d ++ start ∷ []) (d ++ reread s ∷ [])
      (Reads-config s.typ s.name d h.0)
      (Reads-both (option_lines s.options options) rest (d ++ start ∷ []) (d ++ filled ∷ [])
        (d ++ reread s ∷ [])
        (Reads-option_lines s.options options d start (All-sorted_keys IsWord s.options h.1))
        (Reads-both (list_lines s.lists lists) (b'\n' ∷ []) (d ++ filled ∷ []) (d ++ reread s ∷ [])
          (d ++ reread s ∷ [])
          (Reads-list_lines s.lists lists d filled (All-sorted_keys IsWord s.lists h.2))
          (Reads-blank (d ++ reread s ∷ []))))

Reads-serialize :
    (d doc : UciDoc Bytes) → All IsPrintable doc → Reads (serialize doc) d (d ++ map reread doc)
unfolding serialize
Reads-serialize d [] h = subst (Reads [] d) (sym (append-nil d)) (Reads-nothing d)
Reads-serialize d (s ∷ doc) h =
    subst (Reads (serialize (s ∷ doc)) d) (append_assoc d (reread s ∷ []) (map reread doc)) (
      Reads-both (serialize_section s) (serialize doc) d (d ++ reread s ∷ [])
        ((d ++ reread s ∷ []) ++ map reread doc) (Reads-serialize_section d s h.0)
        (Reads-serialize (d ++ reread s ∷ []) doc h.1))

-- What the lines of the options leave in a section.
find-with_options :
    (options : Dict Bytes Bytes) (keys : List Bytes) (s : UciSection Bytes) (j : Bytes)
    → find j (with_options options keys s).options
      ≡ (if count j keys == 0 then find j s.options else some (text_of (find j options)))
unfolding add_entry
find-with_options options [] s j = refl
find-with_options options (k ∷ keys) s j = ground (
  arith,
  bytes_eq.same_iff k j,
  find-insert k j (text_of (find k options)) s.options,
  find-with_options options keys (add_entry true k (text_of (find k options)) s) j,
)

find-with_values :
    (k : Bytes) (vs : List Bytes) (s : UciSection Bytes) (j : Bytes)
    → list_of (find j (with_values k vs s).lists)
      ≡ (if k == j then list_of (find j s.lists) ++ vs else list_of (find j s.lists))
unfolding add_entry
find-with_values k [] s j = ground (arith, append-nil (list_of (find j s.lists)))
find-with_values k (v ∷ vs) s j = ground (
  arith,
  bytes_eq.same_iff k j,
  find-insert k j (list_of (find k s.lists) ++ v ∷ []) s.lists,
  append_assoc (list_of (find k s.lists)) (v ∷ []) vs,
  find-with_values k vs (add_entry false k v s) j,
)

-- The list, as often as its key stands there.
abbrev times : ℕ → List Bytes → List Bytes
times zero vs = []
times (suc n) vs = vs ++ times n vs

times_one : (n : ℕ) (vs : List Bytes) → times (1 + n) vs ≡ vs ++ times n vs
times_one n vs = let e : 1 + n ≡ suc n = omega arith in ap (λ (m : ℕ). times m vs) e

times_zero : (n : ℕ) (vs : List Bytes) → times (0 + n) vs ≡ times n vs
times_zero n vs = let e : 0 + n ≡ n = omega arith in ap (λ (m : ℕ). times m vs) e

find-with_lists :
    (lists : Dict Bytes (List Bytes)) (keys : List Bytes) (s : UciSection Bytes) (j : Bytes)
    → list_of (find j (with_lists lists keys s).lists)
      ≡ list_of (find j s.lists) ++ times (count j keys) (list_of (find j lists))
find-with_lists lists [] s j = sym (append-nil (list_of (find j s.lists)))
find-with_lists lists (k ∷ keys) s j =
    let vs = list_of (find k lists) in
    find-with_lists lists keys (with_values k vs s) j ∙ elim (Bool-cases (equal k j)) [
      | inl e ↦
          rw
            (
              find-with_values k vs s j,
              e,
              times_one (count j keys) (list_of (find j lists)),
              sym ((equal_iff k j).0 e),
            )
            (append_assoc (list_of (find k s.lists)) vs (times (count k keys) vs))
      | inr e ↦
          rw (find-with_values k vs s j, e, times_zero (count j keys) (list_of (find j lists))) refl
    ]

with_values_head :
    (k : Bytes) (vs : List Bytes) (s : UciSection Bytes)
    → ((with_values k vs s).typ ≡ s.typ)
      × ((with_values k vs s).name ≡ s.name)
      × ((with_values k vs s).options ≡ s.options)
unfolding add_entry
with_values_head k [] s = (refl, refl, refl)
with_values_head k (v ∷ vs) s = with_values_head k vs (add_entry false k v s)

with_lists_head :
    (lists : Dict Bytes (List Bytes)) (keys : List Bytes) (s : UciSection Bytes)
    → ((with_lists lists keys s).typ ≡ s.typ)
      × ((with_lists lists keys s).name ≡ s.name)
      × ((with_lists lists keys s).options ≡ s.options)
with_lists_head lists [] s = (refl, refl, refl)
with_lists_head lists (k ∷ keys) s =
    let vs = list_of (find k lists) in
    let one = with_values_head k vs s in
    let rest = with_lists_head lists keys (with_values k vs s) in
    (rest.0 ∙ one.0, rest.1 ∙ one.1, rest.2 ∙ one.2)

with_options_head :
    (options : Dict Bytes Bytes) (keys : List Bytes) (s : UciSection Bytes)
    → ((with_options options keys s).typ ≡ s.typ)
      × ((with_options options keys s).name ≡ s.name)
      × ((with_options options keys s).lists ≡ s.lists)
unfolding add_entry
with_options_head options [] s = (refl, refl, refl)
with_options_head options (k ∷ keys) s =
    with_options_head options keys (add_entry true k (text_of (find k options)) s)

-- The same type, name, options and lists, where a list with no values is as good as none.
abbrev pub IsSame : UciSection Bytes → UciSection Bytes → Type 0
IsSame s t =
    (s.typ ≡ t.typ)
    × (s.name ≡ t.name)
    × ((k : Bytes) → find k s.options ≡ find k t.options)
    × ((k : Bytes) → list_of (find k s.lists) ≡ list_of (find k t.lists))

abbrev pub AllSame : UciDoc Bytes → UciDoc Bytes → Type 0
AllSame [] [] = Unit
AllSame [] (t ∷ ts) = ⊥
AllSame (s ∷ ss) [] = ⊥
AllSame (s ∷ ss) (t ∷ ts) = IsSame s t × AllSame ss ts

option_again :
    (k : Bytes) (m : Dict Bytes Bytes)
    → (if count k (keys_of m) == 0 then none else some (text_of (find k m))) ≡ find k m
option_again k m = elim (Option-cases (find k m)) [
  | inl e ↦ rw (count-none k m e, e) refl
  | inr (v, e) ↦ ground (arith, find-none k m)
]

times_at_most_one : (n : ℕ) (vs : List Bytes) → n ≤ 1 → times n vs ≡ (if n == 0 then [] else vs)
times_at_most_one zero vs h = refl
times_at_most_one (suc zero) vs h = append-nil vs
times_at_most_one (suc (suc n)) vs h = absurd (omega arith)

list_again :
    (k : Bytes) (m : Dict Bytes (List Bytes))
    → IsDistinct (keys_of m)
    → times (count k (keys_of m)) (list_of (find k m)) ≡ list_of (find k m)
list_again k m h =
    times_at_most_one (count k (keys_of m)) (list_of (find k m)) (count-IsDistinct k (keys_of m) h)
    ∙ ground (arith, find-none k m)

option_reread : (s : UciSection Bytes) (k : Bytes) → find k (reread s).options ≡ find k s.options
unfolding new_section find
option_reread s k =
    let keys = sorted_keys s.options in
    let start = new_section s.typ s.name in
    ap (find k)
      (with_lists_head s.lists (sorted_keys s.lists) (with_options s.options keys start)).2
    ∙ find-with_options s.options keys start k
    ∙ rw (count-sorted_keys k s.options) (option_again k s.options)

list_reread :
    (s : UciSection Bytes) (k : Bytes)
    → IsDistinct (keys_of s.lists)
    → list_of (find k (reread s).lists) ≡ list_of (find k s.lists)
unfolding new_section find
list_reread s k h =
    let keys = sorted_keys s.lists in
    let start = new_section s.typ s.name in
    let filled = with_options s.options (sorted_keys s.options) start in
    find-with_lists s.lists keys filled k
    ∙ rw
        ((with_options_head s.options (sorted_keys s.options) start).2, count-sorted_keys k s.lists)
        (list_again k s.lists h)

reread-IsSame : (s : UciSection Bytes) → IsPrintable s → IsSame s (reread s)
unfolding new_section
reread-IsSame s h =
    let lists = sorted_keys s.lists in
    let options = sorted_keys s.options in
    let start = new_section s.typ s.name in
    let filled = with_options s.options options start in
    let lh = with_lists_head s.lists lists filled in
    let oh = with_options_head s.options options start in
    (
      sym (lh.0 ∙ oh.0),
      sym (lh.1 ∙ oh.1),
      λ k. sym (option_reread s k),
      λ k. sym (list_reread s k h.3),
    )

reread-AllSame : (doc : UciDoc Bytes) → All IsPrintable doc → AllSame doc (map reread doc)
reread-AllSame [] h = h
reread-AllSame (s ∷ doc) h = (reread-IsSame s h.0, reread-AllSame doc h.1)

parse_uci-Reads : (text : Bytes) (d : UciDoc Bytes) → Reads text [] d → parse_uci text ≡ ok d
unfolding parse_uci tokenize_uci run_commands
parse_uci-Reads text d f =
    let (commands, l, e, h) = f [] 1 [] refl in
    let tokens : scan plain (at_start [] 1) text ≡ ok commands =
      ap (scan plain (at_start [] 1)) (sym (append-nil text)) ∙ e ∙ scan_end commands l in
    ap (λ (r : Result UciError (List UciCommand)). r >>= (λ cs. run_commands cs [])) tokens ∙ h

-- ParseUCI reads what Serialize prints, without an error: the same sections in the same order, each
-- with its type, its name, the value of each option and the values of each list. A type or a key
-- must be a word that needs no quotes; names and values are any bytes.
pub parse_uci-serialize :
    (doc : UciDoc Bytes)
    → All IsPrintable doc
    → (doc' : UciDoc Bytes) × (parse_uci (serialize doc) ≡ ok doc') × AllSame doc doc'
parse_uci-serialize doc h = (
  map reread doc,
  parse_uci-Reads (serialize doc) (map reread doc) (Reads-serialize [] doc h),
  reread-AllSame doc h,
)
