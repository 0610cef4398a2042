-- ===== src/Tests/Settings.antt =====
-- The configuration file at a concrete document.
use openwrt_wattline.Common.{[], ◌∷◌, ◌≡◌, refl, arith}
use openwrt_wattline.Common.Bytes.{Bytes, ascii}
use openwrt_wattline.Common.Result.{ok, err}
use openwrt_wattline.Config.Uci.{
  tokenize_uci, scan, finish, step, step_plain, push_quoted, push, finish_token, UciSection, UciDoc,
  parse_uci, unterminated_quote,
}
use openwrt_wattline.Config.Uci.Writer.{serialize}
use openwrt_wattline.Config.Uci.RoundTrip.{IsPrintable, AllSame, parse_uci-serialize}

-- Quotes and a newline in the values, keys out of order, and a section without a name.
abbrev daemon : UciSection Bytes
daemon = record {
  typ = ascii "main";
  name = [];
  options = (ascii "token", ascii "it's 'here'") ∷ (ascii "address", b'1' ∷ b'\n' ∷ b'2' ∷ []) ∷ [];
  lists = (ascii "peers", ascii "one" ∷ [] ∷ []) ∷ [];
}

printable : IsPrintable daemon
printable = ground arith

parse_uci-serialize_example :
    (d : UciDoc Bytes) × (parse_uci (serialize (daemon ∷ [])) ≡ ok d) × AllSame (daemon ∷ []) d
parse_uci-serialize_example = parse_uci-serialize (daemon ∷ []) (printable, tt)

-- A quote that is never closed is reported at its line.
unclosed : parse_uci (ascii "config main 'x\n") ≡ err (unterminated_quote 1 39)
unfolding parse_uci tokenize_uci scan finish step step_plain push_quoted push finish_token
unclosed = refl
