-- ===== src/Config/Uci/Writer.antt =====
-- uci.go: Serialize, sortedKeys and Find.
use openwrt_wattline.Common.{
  ℕ, zero, suc, Bool, true, false, ◌&&◌, ◌||◌, Option, none, some, List, [], ◌∷◌, ◌++◌, length, ltb,
  ◌==◌, nat_eq, if◌then◌else◌, Comparable,
}
use openwrt_wattline.Common.Bytes.{Bytes, bytes_eq, ascii}
use openwrt_wattline.Common.Dict.{Dict, find}
use openwrt_wattline.Common.Distinct.{keys_of}
use openwrt_wattline.Config.Uci.{UciSection, UciDoc, list_of}

-- strings.ReplaceAll(s, "'", "'\\''")
unfoldable pub uci_escape : Bytes → Bytes
uci_escape [] = []
uci_escape (c ∷ s) =
    let rest = uci_escape s in if c == b'\'' then b'\'' ∷ b'\\' ∷ b'\'' ∷ b'\'' ∷ rest else c ∷ rest

-- a < b on strings
unfoldable pub less : Bytes → Bytes → Bool
less [] [] = false
less [] (y ∷ ys) = true
less (x ∷ xs) [] = false
less (x ∷ xs) (y ∷ ys) = ltb x y || x == y && less xs ys

-- the inner loop of sortedKeys: keys[i] is `x`, and what stands at each j > i is read in turn
unfoldable pub exchange_least : Bytes → List Bytes → Bytes × List Bytes
exchange_least x [] = (x, [])
exchange_least x (y ∷ ys) =
    let (least, rest) = exchange_least (if less y x then y else x) ys in
    (least, (if less y x then x else y) ∷ rest)

-- the outer loop, with the number of keys from i on
unfoldable pub sort_keys : ℕ → List Bytes → List Bytes
sort_keys zero keys = keys
sort_keys (suc n) [] = []
sort_keys (suc n) (x ∷ keys) =
    let (least, rest) = exchange_least x keys in let sorted = sort_keys n rest in least ∷ sorted

unfoldable pub sorted_keys : {V : Type 0} → Dict Bytes V → List Bytes
sorted_keys m = let keys = keys_of m in sort_keys (length keys) keys

-- m[k], where the zero value stands for a missing key
abbrev pub text_of : Option Bytes → Bytes
text_of none = []
text_of (some v) = v

-- "…%s '%s'\n" behind the keyword and its space
unfoldable pub quoted_line : Bytes → Bytes → Bytes
quoted_line key val = key ++ (b' ' ∷ b'\'' ∷ (uci_escape val ++ (b'\'' ∷ b'\n' ∷ [])))

unfoldable pub option_lines : Dict Bytes Bytes → List Bytes → Bytes
option_lines options [] = []
option_lines options (k ∷ keys) =
    (b'\t' ∷ (ascii "option " ++ quoted_line k (text_of (find k options))))
    ++ option_lines options keys

unfoldable pub value_lines : Bytes → List Bytes → Bytes
value_lines k [] = []
value_lines k (v ∷ vs) = (b'\t' ∷ (ascii "list " ++ quoted_line k v)) ++ value_lines k vs

unfoldable pub list_lines : Dict Bytes (List Bytes) → List Bytes → Bytes
list_lines lists [] = []
list_lines lists (k ∷ keys) = value_lines k (list_of (find k lists)) ++ list_lines lists keys

unfoldable pub serialize_section : UciSection Bytes → Bytes
serialize_section s =
    (ascii "config " ++ quoted_line s.typ s.name)
    ++ (option_lines s.options (sorted_keys s.options)
        ++ (list_lines s.lists (sorted_keys s.lists) ++ b'\n' ∷ []))

unfoldable pub serialize : UciDoc Bytes → Bytes
serialize [] = []
serialize (s ∷ doc) = serialize_section s ++ serialize doc

-- Find: the first section of the type and name
unfoldable pub find_section :
    {T : Type 0} ⦃e : Comparable T⦄ → T → T → UciDoc T → Option (UciSection T)
find_section typ name [] = none
find_section typ name (s ∷ doc) =
    if s.typ == typ && s.name == name then some s else find_section typ name doc
